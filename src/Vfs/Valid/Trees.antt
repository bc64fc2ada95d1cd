-- ===== src/Vfs/Valid/Trees.antt =====
-- Creating and deleting returns and keeps the state valid.
use clb_filesystem.Common.{
  ℕ, ◌≤◌, ◌<◌, ◌≡◌, ◌≢◌, refl, ◌∙◌, inl, inr, ◌⊎◌, true, none, some, List, ok, arith, length, ltb,
  ◌==◌, Bool-cases, subst,
}
use clb_filesystem.CString.{Holds}
use clb_filesystem.Inode.{
  TypeFile, file, folder, empty, is_folder, Ptr, Table, fs_npages, max_size_name,
}
use clb_filesystem.Filesystem.Tree.{View, IsTree}
use clb_filesystem.Filesystem.Alloc.Grown.{grown}
use clb_filesystem.Vfs.{VfsError, vfs_ok, vfs_invalid_fd, vfs_invalid_name, vfs_memory_full, Vfs}
use clb_filesystem.Vfs.Path.{parse_path}
use clb_filesystem.Vfs.File.{with_inodes, create, create_in}
use clb_filesystem.Vfs.File.Create.{create_refuses, create-create_in, create-Allocated}
use clb_filesystem.Vfs.Delete.{delete_inode, delete_file, delete_dir}
use clb_filesystem.Vfs.Delete.Subtree.{delete_inode-Deleted}
use clb_filesystem.Vfs.Valid.{IsValid}
use clb_filesystem.Vfs.Valid.Paths.{IsLive, parse_path-IsLive}

is_folder-folder : (type : TypeFile) → is_folder type ≡ true → type ≡ folder
is_folder-folder file e = cc
is_folder-folder folder e = refl
is_folder-folder empty e = cc

module _ (s : Vfs) (v : View) (valid : IsValid s v) where
  abbrev t : Table
  t = s.ram.inodes

  pub with_inodes-IsValid : (t' : Table) (v' : View) → IsTree t' v' → IsValid (with_inodes s t') v'
  with_inodes-IsValid t' v' tree = record { tree = tree; descriptors = valid.descriptors }

  -- The name is given, and fits.
  create-named :
      (type : TypeFile) (path p buf name : List ℕ)
      → type ≢ empty
      → Holds path p
      → Holds buf name
      → 0 < length name
      → length name ≤ max_size_name
      → (e : VfsError) × (s' : Vfs) × (v' : View) × (create type s (some path) (some buf)
          ≡ ok (e, s'))
        × IsValid s' v'
  unfolding create_in
  create-named type path p buf name used held_path held some_bytes short =
      let (o, leads, live) = parse_path-IsLive t v valid.tree path p held_path in at o leads live
    where
      at :
          (o : Ptr)
          → parse_path t (some path) ≡ ok o
          → IsLive t o
          → (e : VfsError) × (s' : Vfs) × (v' : View) × (create type s (some path) (some buf)
              ≡ ok (e, s'))
            × IsValid s' v'
      at none leads live = (
        vfs_invalid_fd,
        s,
        v,
        create-create_in type s path buf name none held some_bytes short leads,
        valid,
      )
      at (some d) leads live = elim (Bool-cases (is_folder (t d).type)) [
        | inl of_folder ↦
            elim (create-Allocated s v valid.tree type path buf name d used held some_bytes short
              live.0 (is_folder-folder _ of_folder) leads) [
                | inl (runs, full) ↦ (vfs_memory_full, s, v, runs, valid)
                | inr (i, t', runs, unused, allocated) ↦ (
                  vfs_ok,
                  with_inodes s t',
                  grown v d i name,
                  runs,
                  with_inodes-IsValid t' (grown v d i name) allocated.is_tree,
                )
              ]
        | inr other ↦ (
          vfs_invalid_fd,
          s,
          v,
          create-create_in type s path buf name (some d) held some_bytes short leads
              ∙ rw other refl,
          valid,
        )
      ]

  -- A null pointer or a bad name is refused before the path is looked at.
  pub create-IsValid :
      (type : TypeFile) (path p : List ℕ) (buf name : List ℕ)
      → type ≢ empty
      → Holds path p
      → Holds buf name
      → (e : VfsError) × (s' : Vfs) × (v' : View) × (create type s (some path) (some buf)
          ≡ ok (e, s'))
        × IsValid s' v'
  create-IsValid type path p buf name used held_path held = elim (Bool-cases (length name == 0)) [
    | inl none_given ↦ (
      vfs_invalid_name,
      s,
      v,
      create_refuses type s path buf name held (inl (ground arith)),
      valid,
    )
    | inr given ↦ elim (Bool-cases (ltb max_size_name (length name))) [
      | inl long ↦ (
        vfs_invalid_name,
        s,
        v,
        create_refuses type s path buf name held (inr (ground arith)),
        valid,
      )
      | inr short ↦
          create-named type path p buf name used held_path held (ground arith) (ground arith)
    ]
  ]

  -- A path that does not lead to the root leads to nothing or to a son, which is deleted.
  delete-cases :
      (path p : List ℕ)
      → Holds path p
      → parse_path t (some path) ≢ ok (some 0)
      → (parse_path t (some path) ≡ ok none)
        ⊎ ((i : ℕ) × (t' : Table) × (v' : View) × (parse_path t (some path) ≡ ok (some i))
            × (delete_inode fs_npages t i ≡ ok t')
            × IsTree t' v')
  delete-cases path p held off_root =
      let (o, leads, live) = parse_path-IsLive t v valid.tree path p held in at o leads live
    where
      at :
          (o : Ptr)
          → parse_path t (some path) ≡ ok o
          → IsLive t o
          → (parse_path t (some path) ≡ ok none)
            ⊎ ((i : ℕ) × (t' : Table) × (v' : View) × (parse_path t (some path) ≡ ok (some i))
                × (delete_inode fs_npages t i ≡ ok t')
                × IsTree t' v')
      at none leads live = inl leads
      at (some i) leads live =
          let not_root : i ≢ 0 =
            λ e. off_root (subst (λ z. parse_path t (some path) ≡ ok (some z)) e leads) in
          let (d, d_in, of_d, m) = valid.tree.father i live.0 not_root live.1 refl in
          let (t', v', runs, tree', deleted) = delete_inode-Deleted t v valid.tree d i d_in m in
          inr (i, t', v', leads, runs, tree')

  pub delete_file-IsValid :
      (path p : List ℕ)
      → Holds path p
      → parse_path t (some path) ≢ ok (some 0)
      → (e : VfsError) × (s' : Vfs) × (v' : View) × (delete_file s (some path) ≡ ok (e, s'))
        × IsValid s' v'
  unfolding delete_file
  delete_file-IsValid path p held off_root = elim (delete-cases path p held off_root) [
    | inl lost ↦ (vfs_invalid_fd, s, v, rw lost refl, valid)
    | inr (i, t', v', leads, runs, tree') ↦
        (vfs_ok, with_inodes s t', v', rw (leads, runs) refl, with_inodes-IsValid t' v' tree')
  ]

  pub delete_dir-IsValid :
      (path p : List ℕ)
      → Holds path p
      → parse_path t (some path) ≢ ok (some 0)
      → (e : VfsError) × (s' : Vfs) × (v' : View) × (delete_dir s (some path) ≡ ok (e, s'))
        × IsValid s' v'
  unfolding delete_dir
  delete_dir-IsValid path p held off_root = elim (delete-cases path p held off_root) [
    | inl lost ↦ (vfs_invalid_fd, s, v, rw lost refl, valid)
    | inr (i, t', v', leads, runs, tree') ↦
        (vfs_ok, with_inodes s t', v', rw (leads, runs) refl, with_inodes-IsValid t' v' tree')
  ]
