-- ===== src/Inode.antt =====
-- filesystem.h: the inodes, and the table of them. A pointer to an inode points into the table, so
-- it is null or the index of an entry.
pub mod Name
use clb_filesystem.Common.{
  ℕ, zero, suc, ◌&&◌, ◌≡◌, ◌≢◌, Bool, true, false, Option, none, some, List, ◌<◌, ltb, ◌==◌,
  if◌then◌else◌, Outcome, ok, fault,
}
use clb_filesystem.Common.Words.{ℤ, pos, negsuc}
use clb_filesystem.Memory.{Memory}

-- `FS_NPAGES`, `FILE_MAX_SIZE` (which is `PAGE_SIZE`), `MAX_SIZE_NAME`, `ROOT_INODE`
abbrev pub fs_npages : ℕ
fs_npages = 128

abbrev pub file_max_size : ℕ
file_max_size = 4096

abbrev pub max_size_name : ℕ
max_size_name = 16

abbrev pub root_inode : ℕ
root_inode = 0

pub data TypeFile : Type 0 where
  file folder empty : TypeFile

abbrev pub is_file : TypeFile → Bool
is_file file = true
is_file folder = false
is_file empty = false

abbrev pub is_folder : TypeFile → Bool
is_folder file = false
is_folder folder = true
is_folder empty = false

abbrev pub is_empty : TypeFile → Bool
is_empty file = false
is_empty folder = false
is_empty empty = true

abbrev pub Ptr : Type 0
Ptr = Option ℕ

-- `p == &RAM_inodes_table[i]`
abbrev pub points_to : Ptr → ℕ → Bool
points_to none i = false
points_to (some j) i = j == i

-- `name` holds the sixteen bytes of the array; `data_block` is the address of the data page.
pub record Inode : Type 0 where
  pub id : ℕ
  pub ref : ℤ
  pub type : TypeFile
  pub size : ℕ
  pub father : Ptr
  pub brother : Ptr
  pub first_son : Ptr
  pub name : List ℕ
  pub data_block : ℕ

-- `RAM_inodes_table`
abbrev pub Table : Type 0
Table = ℕ → Inode

-- The globals that filesystem.c writes: the table, and the memory behind the data pages.
-- `objects` says which bytes are in objects that calls read and write data in: the data pages, and the
-- callers' buffers. The table, the tasks and null are not among them.
pub record Ram : Type 0 where
  pub inodes : Table
  pub memory : Memory
  pub objects : ℕ → Bool

-- Whether the n bytes from p on are all in such objects.
unfoldable pub reaches : (ℕ → Bool) → (p n : ℕ) → Bool
reaches objects p zero = true
reaches objects p (suc n) = objects p && reaches objects (suc p) n

-- A write to the entry i.
abbrev pub update {ℓ} : {A : Type ℓ} → (ℕ → A) → ℕ → A → ℕ → A
update f i v j = if j == i then v else f j

-- `RAM_inodes_table[inode]` is inside the table.
abbrev pub entry : ℤ → Outcome ℕ
entry (pos i) = if ltb i fs_npages then ok i else fault
entry (negsuc n) = fault
