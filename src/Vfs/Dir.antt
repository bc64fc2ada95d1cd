-- ===== src/Vfs/Dir.antt =====
-- vfs.c: opening and closing folders, and the iteration over their sons.
pub mod Listing
pub mod Names
use clb_filesystem.Common.{
  ℕ, not, Option, none, some, List, [], ◌∷◌, Outcome, ok, fault, ◌>>=◌, if◌then◌else◌,
}
use clb_filesystem.Common.Words.{ℤ, pos, negsuc, ◌+ℤ◌, ◌-ℤ◌}
use clb_filesystem.CString.{strcpy}
use clb_filesystem.Inode.{is_folder, Ptr, update}
use clb_filesystem.Inode.Name.{name_object}
use clb_filesystem.Vfs.{
  VfsError, vfs_ok, vfs_invalid_fd, vfs_invalid_path_dir, vfs_max_fd_reached, vfs_null_pointer,
  code, Vfs, Text, slot,
}
use clb_filesystem.Vfs.Path.{parse_path}
use clb_filesystem.Vfs.Descriptor.{get_next_fd}

-- The last lines of `open_dir`.
abbrev pub opened_dir : Vfs → ℕ → ℕ → Vfs
opened_dir s i dir = record {
  ram = record s.ram {
    inodes =
        update s.ram.inodes dir
          (record (s.ram.inodes dir) { ref = (s.ram.inodes dir).ref +ℤ pos 1 });
  };
  open_inodes =
      update s.open_inodes i
        (record (s.open_inodes i) { inode = some dir; next_son = (s.ram.inodes dir).first_son });
}

unfoldable pub open_dir_at : Vfs → ℕ → Ptr → VfsError × Vfs
open_dir_at s i none = (vfs_invalid_path_dir, s)
open_dir_at s i (some dir) =
    if not (is_folder (s.ram.inodes dir).type)
    then (vfs_invalid_fd, s)
    else (vfs_ok, opened_dir s i dir)

-- `open_dir`
unfoldable pub open_dir : Vfs → Text → Option ℤ → Outcome (VfsError × Option ℤ × Vfs)
open_dir s path none = ok (vfs_null_pointer, none, s)
open_dir s path (some _) = elim (get_next_fd s.open_inodes) [
  | negsuc n ↦ ok (vfs_max_fd_reached, some (negsuc 0), s)
  | pos i ↦ do
    dir ← parse_path s.ram.inodes path
    let (error, s') = open_dir_at s i dir
    ok (error, some (pos i), s')
]

-- The last lines of `close_dir`, for the open descriptor i.
abbrev pub closed_dir : Vfs → ℕ → ℕ → Vfs
closed_dir s i dir = record {
  ram = record s.ram {
    inodes =
        update s.ram.inodes dir
          (record (s.ram.inodes dir) { ref = (s.ram.inodes dir).ref -ℤ pos 1 });
  };
  open_inodes = update s.open_inodes i (record (s.open_inodes i) { inode = none; next_son = none });
}

-- `close_dir`
unfoldable pub close_dir : Vfs → Option ℤ → Outcome (VfsError × Option ℤ × Vfs)
close_dir s none = ok (vfs_null_pointer, none, s)
close_dir s (some (negsuc n)) = ok (vfs_invalid_fd, some (negsuc n), s)
close_dir s (some (pos fd)) = do
  i ← slot (pos fd)
  elim ((s.open_inodes i).inode) [
    | none ↦ ok (vfs_invalid_fd, some (negsuc 0), s)
    | some dir ↦ ok (vfs_ok, some (negsuc 0), closed_dir s i dir)
  ]

-- What an iteration step leaves: the number returned, `*fd`, the buffer, and the state.
pub record Next : Type 0 where
  pub result : ℤ
  pub fd : Option ℤ
  pub son_name : Text
  pub state : Vfs

-- `get_next_dir_son` once the descriptor i is found open on a folder.
unfoldable pub next_son : Vfs → ℤ → ℕ → List ℕ → Outcome Next
next_son s fd i son_name = elim ((s.open_inodes i).next_son) [
  | none ↦ elim son_name [
    | [] ↦ fault
    | _ ∷ rest ↦
        ok (record {
          result = pos (code vfs_ok);
          fd = some fd;
          son_name = some (0 ∷ rest);
          state = s;
        })
  ]
  | some son ↦ do
    written ← strcpy son_name (name_object (s.ram.inodes son))
    ok (record {
      result = pos (code vfs_ok);
      fd = some fd;
      son_name = some written;
      state = record s {
        open_inodes =
            update s.open_inodes i
              (record (s.open_inodes i) { next_son = (s.ram.inodes son).brother });
      };
    })
]

abbrev refused : Vfs → ℤ → Option ℤ → Text → Outcome Next
refused s result fd son_name =
    ok (record { result = result; fd = fd; son_name = son_name; state = s })

-- `get_next_dir_son`; on a descriptor of a file it returns -1, which is no constant of the
-- enumeration.
unfoldable pub get_next_dir_son : Vfs → Option ℤ → Text → Outcome Next
get_next_dir_son s none son_name = refused s (pos (code vfs_null_pointer)) none son_name
get_next_dir_son s (some fd) none = refused s (pos (code vfs_null_pointer)) (some fd) none
get_next_dir_son s (some (negsuc n)) (some son_name) =
    refused s (pos (code vfs_invalid_fd)) (some (negsuc n)) (some son_name)
get_next_dir_son s (some (pos fd)) (some son_name) = do
  i ← slot (pos fd)
  elim ((s.open_inodes i).inode) [
    | none ↦ refused s (pos (code vfs_invalid_fd)) (some (negsuc 0)) (some son_name)
    | some dir ↦
        if not (is_folder (s.ram.inodes dir).type)
        then refused s (negsuc 0) (some (pos fd)) (some son_name)
        else next_son s (pos fd) i son_name
  ]
