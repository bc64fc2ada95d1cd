-- ===== src/Vfs/Delete.antt =====
-- vfs.c: deletion of a file, or of a folder with all that is below it.
-- The recursion takes fuel for its depth, and the loop over the sons fuel for their number: no
-- path is deeper, and no folder larger, than the table.
pub mod Below
pub mod Prune
pub mod Sons
pub mod Subtree
use clb_filesystem.Common.{
  ℕ, zero, suc, Option, none, some, List, Outcome, ok, fault, out_of_fuel, ◌>>=◌,
}
use clb_filesystem.Common.Words.{pos}
use clb_filesystem.Inode.{TypeFile, file, folder, empty, Ptr, Inode, Table, Ram, update, fs_npages}
use clb_filesystem.Filesystem.{free_inode}
use clb_filesystem.Vfs.{VfsError, vfs_ok, vfs_invalid_fd, vfs_null_pointer, Text, Vfs}
use clb_filesystem.Vfs.Path.{parse_path}

-- `free_inode(i->id)`: the result is only reported.
unfoldable pub free_id : Table → ℕ → Outcome Table
free_id t i = do (_, t') ← free_inode t (pos (t i).id); ok t'

-- The `while` loop of `delete_inode` over the sons of i.
unfoldable pub delete_sons : (Table → ℕ → Outcome Table) → ℕ → Table → ℕ → Outcome Table
delete_sons delete zero t i = out_of_fuel
delete_sons delete (suc n) t i = elim ((t i).first_son) [
  | none ↦ ok t
  | some to_delete ↦ do
    t' ← delete (update t i (record (t i) { first_son = (t to_delete).brother })) to_delete
    delete_sons delete n t' i
]

unfoldable pub delete_inode : ℕ → Table → ℕ → Outcome Table
delete_inode zero t i = out_of_fuel
delete_inode (suc k) t i = elim ((t i).type) [
  | empty ↦ ok t
  | file ↦ free_id t i
  | folder ↦ do t' ← delete_sons (delete_inode k) fs_npages t i; free_id t' i
]

-- `delete_file`, and `delete_dir`, which has the same body
unfoldable pub delete_file : Vfs → Text → Outcome (VfsError × Vfs)
delete_file s none = ok (vfs_null_pointer, s)
delete_file s (some path) = do
  to_delete ← parse_path s.ram.inodes (some path)
  elim to_delete [
    | none ↦ ok (vfs_invalid_fd, s)
    | some i ↦ do
      t' ← delete_inode fs_npages s.ram.inodes i
      ok (vfs_ok, record s { ram = record s.ram { inodes = t' } })
  ]

unfoldable pub delete_dir : Vfs → Text → Outcome (VfsError × Vfs)
delete_dir s none = ok (vfs_null_pointer, s)
delete_dir s (some path) = do
  to_delete ← parse_path s.ram.inodes (some path)
  elim to_delete [
    | none ↦ ok (vfs_invalid_fd, s)
    | some i ↦ do
      t' ← delete_inode fs_npages s.ram.inodes i
      ok (vfs_ok, record s { ram = record s.ram { inodes = t' } })
  ]
