-- ===== src/Vfs/File/Create.antt =====
-- `create_file` and `create_dir` of a name in a folder that a path leads to.
use clb_filesystem.Common.{
  has, ◌∷◌, ◌++◌, ℕ, ◌≤◌, ◌<◌, ◌≡◌, ◌≢◌, refl, ◌∙◌, inl, inr, ◌⊎◌, true, false, none, some, List,
  [], ◌∷◌, ok, arith, length, ltb, ◌==◌, if◌then◌else◌,
}
use clb_filesystem.CString.{Holds}
use clb_filesystem.CString.Laws.{strlen-length}
use clb_filesystem.Inode.{Ptr, TypeFile, folder, empty, Table, fs_npages, max_size_name}
use clb_filesystem.Filesystem.{alloc_inode}
use clb_filesystem.Filesystem.Tree.{View, IsTree}
use clb_filesystem.Filesystem.Alloc.{Allocated, alloc_inode_lem}
use clb_filesystem.Vfs.{vfs_ok, vfs_memory_full, vfs_invalid_name, Vfs}
use clb_filesystem.Vfs.Path.{slash, parse_path}
use clb_filesystem.Vfs.Path.Sons.{find_son}
use clb_filesystem.Vfs.Path.Created.{parse_path-new}
use clb_filesystem.Vfs.File.{with_inodes, bad_name, create_in, create}

-- A name is refused if it is empty or has more than sixteen bytes.
pub bad_name-length :
    (buf s : List ℕ)
    → Holds buf s
    → bad_name buf ≡ ok (if length s == 0 then true else ltb max_size_name (length s))
unfolding bad_name
bad_name-length [] s h = absurd h
bad_name-length (c ∷ buf) [] h = rw (strlen-length (c ∷ buf) [] h) (ground arith)
bad_name-length (c ∷ buf) (x ∷ s) h = rw (strlen-length (c ∷ buf) (x ∷ s) h) (ground arith)

-- An empty name, and one of more than sixteen bytes, is answered with VFS_INVALID_NAME before the
-- path is looked at, and nothing changes.
pub create_refuses :
    (type : TypeFile) (s : Vfs) (path buf name : List ℕ)
    → Holds buf name
    → (length name ≡ 0) ⊎ (max_size_name < length name)
    → create type s (some path) (some buf) ≡ ok (vfs_invalid_name, s)
unfolding create
create_refuses type s path buf name held bad =
    let e : (if length name == 0 then true else ltb max_size_name (length name)) ≡ true =
      ground (arith, bad) in
    rw (bad_name-length buf name held, e) refl

create_in-some :
    (type : TypeFile) (s : Vfs) (d : ℕ) (buf : List ℕ) (i : ℕ) (t' : Table)
    → (s.ram.inodes d).type ≡ folder
    → alloc_inode s.ram.inodes buf (some d) type ≡ ok (some i, t')
    → create_in s type buf (some d) ≡ ok (vfs_ok, with_inodes s t')
unfolding create_in
create_in-some type s d buf i t' is_folder runs = rw (is_folder, create_in, runs) refl

create_in-none :
    (type : TypeFile) (s : Vfs) (d : ℕ) (buf : List ℕ) (t' : Table)
    → (s.ram.inodes d).type ≡ folder
    → alloc_inode s.ram.inodes buf (some d) type ≡ ok (none, t')
    → create_in s type buf (some d) ≡ ok (vfs_memory_full, with_inodes s t')
unfolding create_in
create_in-none type s d buf t' is_folder runs = rw (is_folder, create_in, runs) refl

pub create-create_in :
    (type : TypeFile) (s : Vfs) (path buf name : List ℕ) (dir : Ptr)
    → Holds buf name
    → 0 < length name
    → length name ≤ max_size_name
    → parse_path s.ram.inodes (some path) ≡ ok dir
    → create type s (some path) (some buf) ≡ create_in s type buf dir
unfolding create
create-create_in type s path buf name dir held some_bytes short leads =
    let e : (if length name == 0 then true else ltb max_size_name (length name)) ≡ false =
      ground arith in
    rw (bad_name-length buf name held, create, e, leads) refl

module _ (s : Vfs) (v : View) (tree : IsTree s.ram.inodes v) where
  -- In a well-formed table, creating an inode of a name of 1 to 16 bytes at a path that leads to a
  -- folder either finds every entry in use, answers VFS_MEMORY_FULL and changes nothing, or answers
  -- VFS_OK and leaves a well-formed table for the tree with a new last son of that folder, of the
  -- given name and type, the data of all other entries and the descriptors unchanged.
  pub create-Allocated :
      (type : TypeFile) (path buf name : List ℕ) (d : ℕ)
      → type ≢ empty
      → Holds buf name
      → 0 < length name
      → length name ≤ max_size_name
      → d < fs_npages
      → (s.ram.inodes d).type ≡ folder
      → parse_path s.ram.inodes (some path) ≡ ok (some d)
      → ((create type s (some path) (some buf) ≡ ok (vfs_memory_full, s))
          × ((k : ℕ) → k < fs_npages → (s.ram.inodes k).type ≢ empty))
        ⊎ ((i : ℕ) × (t' : Table) × (create type s (some path) (some buf)
              ≡ ok (vfs_ok, with_inodes s t'))
            × ((s.ram.inodes i).type ≡ empty)
            × Allocated s.ram.inodes v tree d i name type t')
  create-Allocated type path buf name d used held some_bytes short d_in is_folder leads =
      let enters = create-create_in type s path buf name (some d) held some_bytes short leads in
      elim (alloc_inode_lem s.ram.inodes v tree d buf name type d_in is_folder used held short) [
        | inl (runs, full) ↦
            inl (enters ∙ create_in-none type s d buf s.ram.inodes is_folder runs, full)
        | inr (i, t', runs, i_in, unused, lowest, allocated) ↦
            inr (i, t', enters ∙ create_in-some type s d buf i t' is_folder runs, unused, allocated)
      ]

  -- In a well-formed table, where a path leads to a folder without a son of the given name, which has
  -- 1 to 16 bytes and no slash: an inode that is created there is what the path followed by a slash
  -- and the name leads to afterwards, it has the given type, and its entry was free before.
  pub parse_path-create :
      (type : TypeFile) (path full buf p name : List ℕ) (d : ℕ)
      → type ≢ empty
      → Holds buf name
      → 0 < length name
      → length name ≤ max_size_name
      → has slash name ≡ false
      → Holds path (slash ∷ p)
      → Holds full (slash ∷ p ++ slash ∷ name)
      → d < fs_npages
      → (s.ram.inodes d).type ≡ folder
      → parse_path s.ram.inodes (some path) ≡ ok (some d)
      → find_son v.names name (v.sons d) ≡ none
      → (create type s (some path) (some buf) ≡ ok (vfs_memory_full, s))
        ⊎ ((i : ℕ) × (t' : Table) × (create type s (some path) (some buf)
              ≡ ok (vfs_ok, with_inodes s t'))
            × (parse_path t' (some full) ≡ ok (some i))
            × ((t' i).type ≡ type)
            × ((s.ram.inodes i).type ≡ empty))
  parse_path-create type path full buf p name d used held some_bytes short plain held_path held_full
        d_in of_folder leads fresh =
      elim (create-Allocated type path buf name d used held some_bytes short d_in of_folder leads) [
        | inl (runs, full) ↦ inl runs
        | inr (i, t', runs, unused, allocated) ↦ inr (
          i,
          t',
          runs,
          parse_path-new s.ram.inodes t' v tree d i name type d_in unused used allocated path full p
              some_bytes short plain fresh held_path held_full of_folder leads,
          allocated.new_type,
          unused,
        )
      ]
