-- ===== src/Vfs.antt =====
-- vfs.h and the state of vfs.c: the error codes, the descriptors of open files and folders, and the
-- globals that the functions of vfs.c read and write. Its modules hold the functions of vfs.c.
pub mod Delete
pub mod Descriptor
pub mod Dir
pub mod File
pub mod Path
pub mod Valid
use clb_filesystem.Common.{ℕ, List, Option, none, some, Outcome, ok, fault, ltb, if◌then◌else◌}
use clb_filesystem.Common.Words.{ℤ, pos, negsuc}
use clb_filesystem.Inode.{Ptr, Ram}

-- `MAX_OPEN_FILES`
abbrev pub max_open_files : ℕ
max_open_files = 128

pub data VfsError : Type 0 where
  vfs_ok vfs_invalid_path vfs_invalid_fd vfs_invalid_path_dir vfs_invalid_path_file : VfsError
  vfs_max_fd_reached vfs_memory_full vfs_invalid_name vfs_null_pointer vfs_unkwon_error : VfsError

-- The number of a constant of the enumeration, which starts at 0.
abbrev pub code : VfsError → ℕ
code vfs_ok = 0
code vfs_invalid_path = 1
code vfs_invalid_fd = 2
code vfs_invalid_path_dir = 3
code vfs_invalid_path_file = 4
code vfs_max_fd_reached = 5
code vfs_memory_full = 6
code vfs_invalid_name = 7
code vfs_null_pointer = 8
code vfs_unkwon_error = 9

-- `file_descriptor_t`
pub record FileDescriptor : Type 0 where
  pub inode : Ptr
  pub next : ℕ
  pub next_son : Ptr

-- `RAM_inodes_table`, the memory, and `open_inodes`
pub record Vfs : Type 0 where
  pub ram : Ram
  pub open_inodes : ℕ → FileDescriptor

-- A text that a caller passes: null, or the object that the pointer leads to.
abbrev pub Text : Type 0
Text = Option (List ℕ)

-- `open_inodes[fd]` is inside the array.
abbrev pub slot : ℤ → Outcome ℕ
slot (pos i) = if ltb i max_open_files then ok i else fault
slot (negsuc n) = fault
