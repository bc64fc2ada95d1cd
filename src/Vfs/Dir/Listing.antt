-- ===== src/Vfs/Dir/Listing.antt =====
-- Reading a folder: a client opens it and asks for one son after another.
use clb_filesystem.Common.{
  ℕ, ◌+◌, ◌<◌, ◌≡◌, refl, sym, inl, inr, Bool-cases, true, some, List, ◌∷◌, ◌++◌, ok, arith, length,
  has, map, ◌==◌,
}
use clb_filesystem.Common.Words.{ℤ, pos}
use clb_filesystem.CString.{Holds}
use clb_filesystem.Inode.{is_folder, folder, fs_npages}
use clb_filesystem.Inode.Name.{name_object, name_object-eq}
use clb_filesystem.Filesystem.Chain.{Chain-frame}
use clb_filesystem.Filesystem.Tree.{View, IsTree}
use clb_filesystem.Vfs.{vfs_ok, Vfs, FileDescriptor, max_open_files}
use clb_filesystem.Vfs.Dir.{open_dir, open_dir_at, opened_dir}
use clb_filesystem.Vfs.Dir.Names.{IsAt, ends, next_names, next_names-names}
use clb_filesystem.Vfs.Path.{parse_path, slash}
use clb_filesystem.Vfs.Path.Pieces.{piece, pieces}
use clb_filesystem.Vfs.Path.Resolve.{resolve, parse_path-resolve}
use clb_filesystem.Vfs.Descriptor.{get_next_fd}
use clb_filesystem.Vfs.Descriptor.Lowest.{get_next_fd_lem}
use clb_filesystem.Vfs.Valid.Paths.{resolve-IsLive}

free-inside :
    (open_inodes : ℕ → FileDescriptor) (i : ℕ)
    → get_next_fd open_inodes ≡ pos i
    → i < max_open_files
free-inside open_inodes i free = elim (get_next_fd_lem open_inodes) [
  | inl (full, used) ↦ cc
  | inr (j, found, inside, lowest) ↦ let same : j ≡ i = cc in rw (sym same) inside
]

module _ (s : Vfs) (v : View) (tree : IsTree s.ram.inodes v) (d i : ℕ) where
  -- What `open_dir` changes of the inode leaves brothers, names and types as they were.
  opened_brother : (c : ℕ) → ((opened_dir s i d).ram.inodes c).brother ≡ (s.ram.inodes c).brother
  opened_brother c = elim (Bool-cases (c == d)) [
    | inl same ↦ let e : c ≡ d = ground arith in rw same (rw e refl)
    | inr other ↦ rw other refl
  ]

  opened_name :
      (c : ℕ) → name_object ((opened_dir s i d).ram.inodes c) ≡ name_object (s.ram.inodes c)
  opened_name c = elim (Bool-cases (c == d)) [
    | inl same ↦
        let e : c ≡ d = ground arith in rw same (name_object-eq _ _ (rw e refl) (rw e refl))
    | inr other ↦ rw other refl
  ]

  opened_dir-IsAt :
      i < max_open_files
      → d < fs_npages
      → is_folder (s.ram.inodes d).type ≡ true
      → IsAt (opened_dir s i d) i d (v.sons d)
  opened_dir-IsAt i_in d_in of_folder =
      let fd_here : (i == i) ≡ true = ground arith in
      let here : (d == d) ≡ true = ground arith in
      record {
        slot_in = i_in;
        inode = rw fd_here refl;
        of_folder = rw here of_folder;
        rest = rw fd_here (
            Chain-frame s.ram.inodes (opened_dir s i d).ram.inodes _ (v.sons d) (tree.chain d d_in)
              (λ c m. opened_brother c));
      }

  -- Where a descriptor is free, `open_dir` of a path to a folder succeeds, and calls of
  -- `get_next_dir_son` on what it opened, with a buffer that has room for every son's name, give the
  -- names of the folder's sons in their order, and then the empty text again and again.
  pub open_dir-next_names :
      (path p buf : List ℕ) (z : ℤ) (k : ℕ)
      → Holds path (slash ∷ p)
      → resolve (λ j. (s.ram.inodes j).type) v 0 (piece p) (pieces p) ≡ some d
      → (s.ram.inodes d).type ≡ folder
      → get_next_fd s.open_inodes ≡ pos i
      → 0 < length buf
      → ((c : ℕ) → has c (v.sons d) ≡ true → length (v.names c) < length buf)
      → (s₁ : Vfs) × (s₂ : Vfs) × (open_dir s (some path) (some z) ≡ ok (vfs_ok, some (pos i), s₁))
        × (next_names (length (v.sons d) + k) s₁ (some (pos i)) buf
            ≡ ok (map v.names (v.sons d) ++ ends k, s₂))
  unfolding open_dir open_dir_at
  open_dir-next_names path p buf z k held leads of_folder free room fits =
      let found : parse_path s.ram.inodes (some path) ≡ ok (some d) =
        rw (sym leads) (parse_path-resolve s.ram.inodes v path p tree held) in
      let is : is_folder (s.ram.inodes d).type ≡ true = rw of_folder refl in
      let d_in : d < fs_npages =
        (rw leads at (resolve-IsLive s.ram.inodes v tree 0 (piece p) (pieces p) (omega arith))).0 in
      let i_in : i < max_open_files = free-inside s.open_inodes i free in
      let at = opened_dir-IsAt i_in d_in is in
      let (s₂, runs, same) =
        next_names-names k (opened_dir s i d) v i d (v.sons d) buf at
          (λ c m.
            let son = tree.son d c d_in m in
            (rw (opened_name c) (tree.named c son.inside son.live), fits c m))
          room in
      (opened_dir s i d, s₂, rw (free, open_dir, found, is) refl, runs)
