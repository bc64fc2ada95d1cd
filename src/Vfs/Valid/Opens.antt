-- ===== src/Vfs/Valid/Opens.antt =====
-- Opening and closing returns and keeps the state valid.
use clb_filesystem.Common.{
  ℕ, ◌<◌, ◌≡◌, ◌≢◌, refl, inl, inr, true, false, Option, none, some, List, ok, arith, ◌==◌,
  Bool-cases, Option-cases, subst, [], ◌∷◌, has,
}
use clb_filesystem.Common.Words.{ℤ, pos, negsuc}
use clb_filesystem.CString.{Holds}
use clb_filesystem.Inode.{is_file, is_folder, empty, Ptr, Table, update, fs_npages}
use clb_filesystem.Filesystem.Tree.{View}
use clb_filesystem.Filesystem.Chain.{Chain}
use clb_filesystem.Filesystem.Frame.{resized-IsTree}
use clb_filesystem.Vfs.{
  VfsError, FileDescriptor, vfs_ok, vfs_invalid_fd, vfs_invalid_path_file, vfs_invalid_path_dir,
  vfs_max_fd_reached, vfs_null_pointer, Vfs, max_open_files,
}
use clb_filesystem.Vfs.Path.{parse_path}
use clb_filesystem.Vfs.Descriptor.{is_null, get_next_fd}
use clb_filesystem.Vfs.Descriptor.Lowest.{get_next_fd_lem}
use clb_filesystem.Vfs.File.{opened, open_at, open_file, closed, close_file}
use clb_filesystem.Vfs.Dir.{opened_dir, open_dir_at, open_dir, closed_dir, close_dir}
use clb_filesystem.Vfs.Valid.{IsInside, IsValid, IsFd, IsFdOf, Iterates}
use clb_filesystem.Vfs.Valid.Paths.{IsLive, parse_path-IsLive}
use clb_filesystem.Vfs.Valid.Slots.{slot-ok}

module _ (s : Vfs) (v : View) (valid : IsValid s v) where
  abbrev t : Table
  t = s.ram.inodes

  -- The state with another reference count and another descriptor.
  abbrev changed : ℕ → ℕ → ℤ → FileDescriptor → Vfs
  changed fd i ref x = record {
    ram = record s.ram { inodes = update t i (record (t i) { ref = ref }) };
    open_inodes = update s.open_inodes fd x;
  }

  changed-IsValid :
      (fd i : ℕ) (ref : ℤ) (x : FileDescriptor)
      → i < fs_npages
      → IsInside x
      → IsValid (changed fd i ref x) v
  changed-IsValid fd i ref x inside inside_x = record {
    tree =
        resized-IsTree t v i ref (t i).size valid.tree (valid.tree.sized i inside)
          (λ e. (valid.tree.blank i inside e).no_size);
    descriptors = λ k h. elim (Bool-cases (k == fd)) [
      | inl same ↦ rw same inside_x
      | inr other ↦ rw other (valid.descriptors k h)
    ];
  }

  some-eq : (i j : ℕ) → some i ≡ some j → i ≡ j
  some-eq i j e = cc

  first_son_inside :
      (d : ℕ)
      → d < fs_npages
      → (i : ℕ) → (t d).first_son ≡ some i
      → (i < fs_npages) × (i ≢ 0) × ((t i).type ≢ empty)
  first_son_inside d h i e = first_inside (v.sons d) (valid.tree.chain d h) refl
    where
      first_inside :
          (l : List ℕ)
          → Chain t (t d).first_son l
          → l ≡ v.sons d
          → (i < fs_npages) × (i ≢ 0) × ((t i).type ≢ empty)
      first_inside [] chain same = cc
      first_inside (x ∷ xs) chain same =
          let hit : has x (v.sons d) ≡ true = subst (λ l. has x l ≡ true) same (ground arith) in
          let is : x ≡ i = cc in
          let son = valid.tree.son d x h hit in
          subst (λ z. (z < fs_npages) × (z ≢ 0) × ((t z).type ≢ empty)) is
            (son.inside, son.not_root, son.live)

  -- What `open_file` returns, on every branch.
  pub open_file-IsValid :
      (path p : List ℕ) (fd : Option ℤ)
      → Holds path p
      → (e : VfsError) × (fd' : Option ℤ) × (s' : Vfs) × (open_file s (some path) fd
          ≡ ok (e, fd', s'))
        × IsValid s' v
        × IsFdOf fd fd'
  unfolding open_file open_at
  open_file-IsValid path p none held = (vfs_null_pointer, none, s, refl, valid, refl)
  open_file-IsValid path p (some z) held = elim (get_next_fd_lem s.open_inodes) [
    | inl (full, used) ↦ (
      vfs_max_fd_reached,
      some (negsuc 0),
      s,
      rw (full, open_file) refl,
      valid,
      (negsuc 0, refl, tt),
    )
    | inr (i, found, i_in, lowest) ↦
        let (o, leads, live) = parse_path-IsLive t v valid.tree path p held in
        at o i found i_in leads live
  ]
    where
      at :
          (o : Ptr) (i : ℕ)
          → get_next_fd s.open_inodes ≡ pos i
          → i < max_open_files
          → parse_path t (some path) ≡ ok o
          → IsLive t o
          → (e : VfsError) × (fd' : Option ℤ) × (s' : Vfs) × (open_file s (some path) (some z)
              ≡ ok (e, fd', s'))
            × IsValid s' v
            × IsFdOf (some z) fd'
      at none i found i_in leads live = (
        vfs_invalid_path_file,
        some (pos i),
        s,
        rw (found, open_file, leads) refl,
        valid,
        (pos i, refl, i_in),
      )
      at (some d) i found i_in leads live = elim (Bool-cases (is_file (t d).type)) [
        | inl of_file ↦ (
          vfs_ok,
          some (pos i),
          opened s i d,
          rw (found, open_file, leads, of_file) refl,
          changed-IsValid i d _ _ live.0 (record {
            inode = λ j e. subst (λ z. z < fs_npages) (some-eq d j e) live.0;
            next_son = (valid.descriptors i i_in).next_son;
          }),
          (pos i, refl, i_in),
        )
        | inr other ↦ (
          vfs_invalid_fd,
          some (pos i),
          s,
          rw (found, open_file, leads, other) refl,
          valid,
          (pos i, refl, i_in),
        )
      ]

  opened_dir-Iterates : (d i : ℕ) → d < fs_npages → Iterates (opened_dir s i d) (some (pos i))
  opened_dir-Iterates d i h n e d' j open_on of_folder more =
      let same : n ≡ i = cc in
      let here : (n == i) ≡ true = ground arith in
      let first : (t d).first_son ≡ some j = rw here at more in
      let (inside, not_root, live) = first_son_inside d h j first in ground (arith, live)

  -- A descriptor that is not in use is open on nothing.
  closed-Iterates : (i : ℕ) → is_null (s.open_inodes i).inode ≡ true → Iterates s (some (pos i))
  closed-Iterates i free n e d j open_on of_folder more =
      let same : i ≡ n = cc in
      let null : is_null (s.open_inodes n).inode ≡ true =
        subst (λ z. is_null (s.open_inodes z).inode ≡ true) same free in
      let bad : false ≡ true = rw open_on at null in cc

  pub open_dir-IsValid :
      (path p : List ℕ) (fd : Option ℤ)
      → Holds path p
      → (e : VfsError) × (fd' : Option ℤ) × (s' : Vfs) × (open_dir s (some path) fd
          ≡ ok (e, fd', s'))
        × IsValid s' v
        × IsFdOf fd fd'
        × Iterates s' fd'
  unfolding open_dir open_dir_at
  open_dir-IsValid path p none held = (vfs_null_pointer, none, s, refl, valid, refl, λ n e. cc)
  open_dir-IsValid path p (some z) held = elim (get_next_fd_lem s.open_inodes) [
    | inl (full, used) ↦ (
      vfs_max_fd_reached,
      some (negsuc 0),
      s,
      rw (full, open_dir) refl,
      valid,
      (negsuc 0, refl, tt),
      λ n e. cc,
    )
    | inr (i, found, i_in, lowest) ↦
        let (o, leads, live) = parse_path-IsLive t v valid.tree path p held in
        at o i found i_in lowest.free leads live
  ]
    where
      at :
          (o : Ptr) (i : ℕ)
          → get_next_fd s.open_inodes ≡ pos i
          → i < max_open_files
          → is_null (s.open_inodes i).inode ≡ true
          → parse_path t (some path) ≡ ok o
          → IsLive t o
          → (e : VfsError) × (fd' : Option ℤ) × (s' : Vfs) × (open_dir s (some path) (some z)
              ≡ ok (e, fd', s'))
            × IsValid s' v
            × IsFdOf (some z) fd'
            × Iterates s' fd'
      at none i found i_in free leads live = (
        vfs_invalid_path_dir,
        some (pos i),
        s,
        rw (found, open_dir, leads) refl,
        valid,
        (pos i, refl, i_in),
        closed-Iterates i free,
      )
      at (some d) i found i_in free leads live = elim (Bool-cases (is_folder (t d).type)) [
        | inl of_folder ↦ (
          vfs_ok,
          some (pos i),
          opened_dir s i d,
          rw (found, open_dir, leads, of_folder) refl,
          changed-IsValid i d _ _ live.0 (record {
            inode = λ j e. subst (λ z. z < fs_npages) (some-eq d j e) live.0;
            next_son = λ j e. let (h, ne, used) = first_son_inside d live.0 j e in (h, ne);
          }),
          (pos i, refl, i_in),
          opened_dir-Iterates d i live.0,
        )
        | inr other ↦ (
          vfs_invalid_fd,
          some (pos i),
          s,
          rw (found, open_dir, leads, other) refl,
          valid,
          (pos i, refl, i_in),
          closed-Iterates i free,
        )
      ]

  -- A file that was deleted while it was open is closed like any other.
  pub close_file-IsValid :
      (fd : Option ℤ)
      → IsFd fd
      → (e : VfsError) × (fd' : Option ℤ) × (s' : Vfs) × (close_file s fd ≡ ok (e, fd', s'))
        × IsValid s' v
        × IsFdOf fd fd'
  unfolding close_file
  close_file-IsValid none h = (vfs_null_pointer, none, s, refl, valid, refl)
  close_file-IsValid (some (negsuc n)) h =
      (vfs_invalid_fd, some (negsuc n), s, refl, valid, (negsuc n, refl, tt))
  close_file-IsValid (some (pos n)) h = elim (Option-cases ((s.open_inodes n).inode)) [
    | inl unused ↦ (
      vfs_invalid_fd,
      some (negsuc 0),
      s,
      rw (slot-ok n h, unused) refl,
      valid,
      (negsuc 0, refl, tt),
    )
    | inr (d, open_on) ↦ (
      vfs_ok,
      some (negsuc 0),
      closed s n d,
      rw (slot-ok n h, open_on) refl,
      changed-IsValid n d _ _ ((valid.descriptors n h).inode d open_on)
          (record { inode = λ j e. cc; next_son = (valid.descriptors n h).next_son }),
      (negsuc 0, refl, tt),
    )
  ]

  pub close_dir-IsValid :
      (fd : Option ℤ)
      → IsFd fd
      → (e : VfsError) × (fd' : Option ℤ) × (s' : Vfs) × (close_dir s fd ≡ ok (e, fd', s'))
        × IsValid s' v
        × IsFdOf fd fd'
  unfolding close_dir
  close_dir-IsValid none h = (vfs_null_pointer, none, s, refl, valid, refl)
  close_dir-IsValid (some (negsuc n)) h =
      (vfs_invalid_fd, some (negsuc n), s, refl, valid, (negsuc n, refl, tt))
  close_dir-IsValid (some (pos n)) h = elim (Option-cases ((s.open_inodes n).inode)) [
    | inl unused ↦ (
      vfs_invalid_fd,
      some (negsuc 0),
      s,
      rw (slot-ok n h, unused) refl,
      valid,
      (negsuc 0, refl, tt),
    )
    | inr (d, open_on) ↦ (
      vfs_ok,
      some (negsuc 0),
      closed_dir s n d,
      rw (slot-ok n h, open_on) refl,
      changed-IsValid n d _ _ ((valid.descriptors n h).inode d open_on)
          (record { inode = λ j e. cc; next_son = λ j e. cc }),
      (negsuc 0, refl, tt),
    )
  ]
