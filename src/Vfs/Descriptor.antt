-- ===== src/Vfs/Descriptor.antt =====
-- vfs.c: the search for a free descriptor.
pub mod Lowest
use clb_filesystem.Common.{ℕ, zero, suc, Bool, true, false, none, some}
use clb_filesystem.Common.Words.{ℤ, pos, negsuc}
use clb_filesystem.Inode.{Ptr}
use clb_filesystem.Vfs.{FileDescriptor, max_open_files}

abbrev pub is_null : Ptr → Bool
is_null none = true
is_null (some _) = false

unfoldable pub fd_loop : ℕ → ℕ → (ℕ → FileDescriptor) → ℤ
fd_loop zero fd open_inodes = negsuc 0
fd_loop (suc n) fd open_inodes = elim (is_null (open_inodes fd).inode) [
  | true ↦ pos fd
  | false ↦ fd_loop n (suc fd) open_inodes
]

-- `get_next_fd`: the lowest descriptor that is free, or -1
unfoldable pub get_next_fd : (ℕ → FileDescriptor) → ℤ
get_next_fd open_inodes = fd_loop max_open_files 0 open_inodes
