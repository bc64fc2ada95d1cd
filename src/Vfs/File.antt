-- ===== src/Vfs/File.antt =====
-- vfs.c: creating, opening, closing, reading and writing. `create_file` and `create_dir` differ only
-- in the type that they pass to `alloc_inode`. A `fd_t *` is null or holds an int, and an operation
-- returns what it holds afterwards. A `char *` for data is an address, 0 for null.
pub mod Contents
pub mod Create
use clb_filesystem.Common.{
  ℕ, Bool, not, ◌||◌, Option, none, some, List, Outcome, ok, fault, ◌>>=◌, need, ltb, leb, ◌==◌,
  get_elem?, if◌then◌else◌,
}
use clb_filesystem.Common.Words.{ℤ, pos, negsuc, ◌+ℤ◌, ◌-ℤ◌, is_zero, to_s32}
use clb_filesystem.CString.{strlen}
use clb_filesystem.Memory.{store_byte}
use clb_filesystem.Inode.{
  TypeFile, file, folder, is_file, is_folder, Ptr, Table, update, max_size_name,
}
use clb_filesystem.Filesystem.{alloc_inode, reset_inode, write_inode, read_inode}
use clb_filesystem.Vfs.{
  VfsError, vfs_ok, vfs_invalid_fd, vfs_invalid_path_file, vfs_max_fd_reached, vfs_memory_full,
  vfs_invalid_name, vfs_null_pointer, Vfs, Text, slot,
}
use clb_filesystem.Vfs.Path.{parse_path}
use clb_filesystem.Vfs.Descriptor.{get_next_fd}

abbrev pub with_inodes : Vfs → Table → Vfs
with_inodes s t = record s { ram = record s.ram { inodes = t } }

-- The name is empty or too long.
unfoldable pub bad_name : List ℕ → Outcome Bool
bad_name name = do c ← need (get_elem? name 0); n ← strlen name; ok (c == 0 || ltb max_size_name n)

-- What is left of `create_file` and `create_dir` for the folder that the path leads to.
unfoldable pub create_in : Vfs → TypeFile → List ℕ → Ptr → Outcome (VfsError × Vfs)
create_in s type name none = ok (vfs_invalid_fd, s)
create_in s type name (some dir) =
    if not (is_folder (s.ram.inodes dir).type) then ok (vfs_invalid_fd, s) else do
      (new_inode, t') ← alloc_inode s.ram.inodes name (some dir) type
      elim new_inode [
        | none ↦ ok (vfs_memory_full, with_inodes s t')
        | some i ↦ ok (vfs_ok, with_inodes s t')
      ]

unfoldable pub create : TypeFile → Vfs → Text → Text → Outcome (VfsError × Vfs)
create type s none name = ok (vfs_null_pointer, s)
create type s (some path) none = ok (vfs_null_pointer, s)
create type s (some path) (some name) = do
  bad ← bad_name name
  if bad
      then ok (vfs_invalid_name, s)
      else do dir ← parse_path s.ram.inodes (some path); create_in s type name dir

unfoldable pub create_file : Vfs → Text → Text → Outcome (VfsError × Vfs)
create_file = create file

unfoldable pub create_dir : Vfs → Text → Text → Outcome (VfsError × Vfs)
create_dir = create folder

-- The last lines of `open_file`: the descriptor i for the inode.
abbrev pub opened : Vfs → ℕ → ℕ → Vfs
opened s i inode = record {
  ram = record s.ram {
    inodes =
        update s.ram.inodes inode
          (record (s.ram.inodes inode) { ref = (s.ram.inodes inode).ref +ℤ pos 1 });
  };
  open_inodes = update s.open_inodes i (record (s.open_inodes i) { inode = some inode; next = 0 });
}

-- `open_file` once a descriptor i is found.
unfoldable pub open_at : Vfs → ℕ → Ptr → VfsError × Vfs
open_at s i none = (vfs_invalid_path_file, s)
open_at s i (some inode) =
    if not (is_file (s.ram.inodes inode).type)
    then (vfs_invalid_fd, s)
    else (vfs_ok, opened s i inode)

-- `open_file`
unfoldable pub open_file : Vfs → Text → Option ℤ → Outcome (VfsError × Option ℤ × Vfs)
open_file s path none = ok (vfs_null_pointer, none, s)
open_file s path (some _) = elim (get_next_fd s.open_inodes) [
  | negsuc n ↦ ok (vfs_max_fd_reached, some (negsuc 0), s)
  | pos i ↦ do
    inode ← parse_path s.ram.inodes path
    let (error, s') = open_at s i inode
    ok (error, some (pos i), s')
]

-- The last lines of `close_file`, for the open descriptor i.
abbrev pub closed : Vfs → ℕ → ℕ → Vfs
closed s i inode = record {
  ram = record s.ram {
    inodes =
        update s.ram.inodes inode
          (record (s.ram.inodes inode) { ref = (s.ram.inodes inode).ref -ℤ pos 1 });
  };
  open_inodes = update s.open_inodes i (record (s.open_inodes i) { inode = none; next = 0 });
}

-- `close_file`
unfoldable pub close_file : Vfs → Option ℤ → Outcome (VfsError × Option ℤ × Vfs)
close_file s none = ok (vfs_null_pointer, none, s)
close_file s (some (negsuc n)) = ok (vfs_invalid_fd, some (negsuc n), s)
close_file s (some (pos fd)) = do
  i ← slot (pos fd)
  elim ((s.open_inodes i).inode) [
    | none ↦ ok (vfs_invalid_fd, some (negsuc 0), s)
    | some inode ↦ ok (vfs_ok, some (negsuc 0), closed s i inode)
  ]

-- The guards that `read_file`, `write_file` and `append_file` begin with: the descriptor's index and
-- its inode, or -1.
unfoldable pub open_descriptor : Vfs → Option ℤ → ℕ → Outcome (Option (ℕ × ℕ))
open_descriptor s none str = ok none
open_descriptor s (some fd) str = if str == 0 then ok none else elim fd [
  | negsuc n ↦ ok none
  | pos n ↦ do
    i ← slot (pos n)
    elim ((s.open_inodes i).inode) [
      | none ↦ ok none
      | some inode ↦ if is_file (s.ram.inodes inode).type then ok (some (i, inode)) else ok none
    ]
]

-- `read_file`
unfoldable pub read_file : Vfs → Option ℤ → (str len : ℕ) → Outcome (ℤ × Vfs)
read_file s fd str len = do
  guarded ← open_descriptor s fd str
  elim guarded [
    | none ↦ ok (negsuc 0, s)
    | some (i, inode) ↦
        let x = s.ram.inodes inode in
        let next = (s.open_inodes i).next in
        if leb x.size next || len == 0
        then (if s.ram.objects str
            then ok
                (pos 0, record s { ram = record s.ram { memory = store_byte s.ram.memory str 0 } })
            else fault)
        else do
          (n, ram) ← read_inode s.ram (pos x.id) (to_s32 next) (to_s32 len) str
          ok (n, record s { ram = ram })
  ]

-- `write_file`
unfoldable pub write_file : Vfs → Option ℤ → (str len : ℕ) → Outcome (ℤ × Vfs)
write_file s fd str len = do
  guarded ← open_descriptor s fd str
  elim guarded [
    | none ↦ ok (negsuc 0, s)
    | some (i, inode) ↦ do
      (failed, t') ← reset_inode s.ram.inodes (pos (s.ram.inodes inode).id)
      if not (is_zero failed) then ok (negsuc 0, with_inodes s t') else do
        (n, ram) ← write_inode (record s.ram { inodes = t' }) (pos (t' inode).id) str (to_s32 len)
        ok (n, record s { ram = ram })
  ]

-- `append_file`
unfoldable pub append_file : Vfs → Option ℤ → (str len : ℕ) → Outcome (ℤ × Vfs)
append_file s fd str len = do
  guarded ← open_descriptor s fd str
  elim guarded [
    | none ↦ ok (negsuc 0, s)
    | some (i, inode) ↦ do
      (n, ram) ← write_inode s.ram (pos (s.ram.inodes inode).id) str (to_s32 len)
      ok (n, record s { ram = ram })
  ]
