-- ===== src/Vfs/Valid.antt =====
-- The states of the virtual file system that its calls keep to: a well-formed table, and descriptors
-- whose pointers lead into it.
pub mod Paths
pub mod Slots
pub mod Movable
pub mod Files
pub mod Opens
pub mod Sons
pub mod Trees
use clb_filesystem.Common.{ℕ, ◌<◌, ◌≡◌, ◌≢◌, true, Option, none, some}
use clb_filesystem.Common.Words.{ℤ, pos, negsuc}
use clb_filesystem.Inode.{empty, is_folder, Table, fs_npages}
use clb_filesystem.Filesystem.Tree.{View, IsTree}
use clb_filesystem.Vfs.{FileDescriptor, Vfs, max_open_files}

-- The pointers of a descriptor are null or lead into the table, and the next son is not the root.
pub record IsInside (x : FileDescriptor) : Type 0 where
  pub inode : (i : ℕ) → x.inode ≡ some i → i < fs_npages
  pub next_son : (i : ℕ) → x.next_son ≡ some i → (i < fs_npages) × (i ≢ 0)

pub record IsValid (s : Vfs) (v : View) : Type 0 where
  pub tree : IsTree s.ram.inodes v
  pub descriptors : (fd : ℕ) → fd < max_open_files → IsInside (s.open_inodes fd)

-- What a `fd_t *` may lead to: it is null, or leads to a negative number or to one below
-- `MAX_OPEN_FILES`. A number above would be an index behind the array.
abbrev pub IsFd : Option ℤ → Type 0
IsFd none = Unit {0}
IsFd (some (pos n)) = n < max_open_files
IsFd (some (negsuc n)) = Unit {0}

-- What a call leaves where its `fd_t *` leads to.
abbrev pub IsFdOf : Option ℤ → Option ℤ → Type 0
IsFdOf none fd' = fd' ≡ none
IsFdOf (some z) fd' = (z' : ℤ) × (fd' ≡ some z') × IsFd (some z')

-- Where the descriptor is open on a folder, the next son is null or in use.
abbrev pub IsIterating : Vfs → ℕ → Type 0
IsIterating s n =
    (d i : ℕ)
    → (s.open_inodes n).inode ≡ some d
    → is_folder (s.ram.inodes d).type ≡ true
    → (s.open_inodes n).next_son ≡ some i
    → (s.ram.inodes i).type ≢ empty

abbrev pub Iterates : Vfs → Option ℤ → Type 0
Iterates s fd = (n : ℕ) → fd ≡ some (pos n) → IsIterating s n
