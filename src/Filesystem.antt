-- ===== src/Filesystem.antt =====
-- filesystem.c: the tree of inodes in the table, and the data of files.
-- The walks along `brother` take fuel: a chain of brothers has at most `FS_NPAGES` inodes.
pub mod Alloc
pub mod Chain
pub mod Data
pub mod Frame
pub mod Init
pub mod Free
pub mod Tree
use clb_filesystem.Common.{
  fault, ◌*◌, ℕ, zero, suc, ◌+◌, ◌-◌, ◌%◌, ◌^◌, Bool, true, false, not, ◌&&◌, Option, none, some,
  List, [], ◌∷◌, Outcome, ok, fault, out_of_fuel, ◌>>=◌, leb, ◌==◌, if◌then◌else◌,
}
use clb_filesystem.Common.Words.{ℤ, pos, negsuc, ◌+ℤ◌, ltb_ℤ, to_u32, to_u64, to_s32}
use clb_filesystem.Memory.{rounds, memcpy, memwrite}
use clb_filesystem.Inode.{
  TypeFile, folder, empty, is_file, is_folder, is_empty, Ptr, points_to, Inode, Table, Ram, reaches,
  update, entry, fs_npages, file_max_size,
}
use clb_filesystem.Inode.Name.{set_name}
use clb_filesystem.Pages.{Pages, allocate_kernel_page}

unfoldable pub last_loop : ℕ → Table → ℕ → Outcome ℕ
last_loop zero t cur = out_of_fuel
last_loop (suc k) t cur = elim ((t cur).brother) [
  | none ↦ ok ((t cur).id)
  | some next ↦ last_loop k t next
]

-- `find_last_child`: the id, or -1
unfoldable pub find_last_child : Table → Ptr → Outcome (Option ℕ)
find_last_child t none = ok none
find_last_child t (some f) = elim ((t f).first_son) [
  | none ↦ ok none
  | some son ↦ do i ← last_loop fs_npages t son; ok (some i)
]

-- Where `alloc_inode` hangs the entry i into the list of its father's sons.
unfoldable pub attach : Table → ℕ → Ptr → Outcome Table
attach t i none = ok (update t i (record (t i) { father = none }))
attach t i (some f) =
    let t' = update t i (record (t i) { father = some f }) in
    do
      last ← find_last_child t' (some f)
      elim last [
        | none ↦ ok (update t' f (record (t' f) { first_son = some i }))
        | some b ↦ ok (update t' b (record (t' b) { brother = some i }))
      ]

-- The body of the loop in `alloc_inode`, at the first empty entry.
unfoldable pub claim : Table → ℕ → List ℕ → Ptr → TypeFile → Outcome Table
claim t i name father type = do
  x ← set_name (record (t i) { type = type }) name
  attach (update t i x) i father

unfoldable pub find_empty : ℕ → ℕ → Table → Option ℕ
find_empty zero i t = none
find_empty (suc n) i t = elim (is_empty (t i).type) [
  | true ↦ some i
  | false ↦ find_empty n (suc i) t
]

-- `alloc_inode`: the id of the new inode, or -1
unfoldable pub alloc_inode : Table → List ℕ → Ptr → TypeFile → Outcome (Option ℕ × Table)
alloc_inode t name father type = elim (find_empty fs_npages 0 t) [
  | none ↦ ok (none, t)
  | some i ↦ do t' ← claim t i name father type; ok (some i, t')
]

-- The `while` loop of `free_inode`: it takes the entry i out of the chain from p on.
unfoldable pub unlink_loop : ℕ → Table → ℕ → Ptr → Ptr → Outcome Table
unlink_loop zero t i next p = out_of_fuel
unlink_loop (suc k) t i next none = ok t
unlink_loop (suc k) t i next (some c) = elim (points_to (t c).brother i) [
  | true ↦ ok (update t c (record (t c) { brother = next }))
  | false ↦ unlink_loop k t i next (t c).brother
]

unfoldable pub unlink : Table → ℕ → Ptr → Outcome Table
unlink t i none = fault
unlink t i (some f) =
    if points_to (t f).first_son i
    then ok (update t f (record (t f) { first_son = (t i).brother }))
    else unlink_loop fs_npages t i (t i).brother (t f).first_son

abbrev pub cleared : Inode → Inode
cleared x = record x { brother = none; father = none; size = 0; ref = pos 0; type = empty }

abbrev pub is_some : Ptr → Bool
is_some none = false
is_some (some _) = true

-- `free_inode`
unfoldable pub free_inode : Table → ℤ → Outcome (ℤ × Table)
free_inode t (negsuc n) = ok (negsuc 0, t)
free_inode t (pos i) =
    if leb fs_npages i
    then ok (negsuc 0, t)
    else if is_folder (t i).type && is_some (t i).first_son
    then ok (negsuc 1, t)
    else do t' ← unlink t i (t i).father; ok (pos 0, update t' i (cleared (t' i)))

-- `reset_inode`
unfoldable pub reset_inode : Table → ℤ → Outcome (ℤ × Table)
reset_inode t inode = do
  i ← entry inode
  if is_file (t i).type
      then ok (pos 0, update t i (record (t i) { size = 0 }))
      else ok (negsuc 0, t)

-- The bytes that `write_inode` asks `memwrite` for, where they are positive.
unfoldable pub size_to_write : Inode → ℤ → ℤ
size_to_write x size =
    let max_size = to_s32 (file_max_size + 2 ^ 32 - x.size) in
    if ltb_ℤ max_size size then max_size else size

-- `write_inode`, with `data` an address. A byte that `memwrite` reads or writes outside the objects is
-- a fault.
unfoldable pub write_inode : Ram → ℤ → ℕ → ℤ → Outcome (ℤ × Ram)
write_inode r inode src size = do
  i ← entry inode
  let x = r.inodes i
  let size' = size_to_write x size
  if not (is_file x.type)
      then ok (negsuc 0, r)
      else if not (ltb_ℤ (pos 0) size')
      then ok (pos 0, r)
      else (let dst = (x.data_block + x.size) % 2 ^ 64 in
          let (written, memory) = memwrite r.memory src dst (to_u64 size') in
          if reaches r.objects src (to_u64 size') && reaches r.objects dst (to_u64 size')
          then ok (
            to_s32 written,
            record r {
              inodes = update r.inodes i (record x { size = (x.size + written) % 2 ^ 32 });
              memory = memory;
            },
          )
          else fault)

-- The bytes that `read_inode` asks `memcpy` for.
unfoldable pub size_to_read : Inode → ℤ → ℤ → ℕ
size_to_read x p size =
    let start_pos = (x.data_block + to_u64 p) % 2 ^ 64 in
    let end_pos = (start_pos + to_u64 size) % 2 ^ 64 in
    let limit = (x.data_block + fs_npages) % 2 ^ 64 in
    if leb limit end_pos
    then (limit + 2 ^ 64 - start_pos) % 2 ^ 64
    else if leb x.size (to_u32 (p +ℤ size))
    then (x.size + 2 ^ 32 - to_u32 p) % 2 ^ 32
    else to_u64 size

-- `read_inode`, with `buff_dest` an address. A byte of the whole words that `memcpy` reads or writes
-- outside the objects is a fault.
unfoldable pub read_inode : Ram → ℤ → ℤ → ℤ → ℕ → Outcome (ℤ × Ram)
read_inode r (negsuc n) p size dst = ok (negsuc 0, r)
read_inode r (pos i) p size dst =
    let x = r.inodes i in
    let n = size_to_read x p size in
    if leb fs_npages i
    then ok (negsuc 0, r)
    else if not (is_file x.type)
    then ok (negsuc 1, r)
    else (let src = (x.data_block + to_u64 p) % 2 ^ 64 in
        let touched = 8 * rounds n 8 in
        if reaches r.objects src touched && reaches r.objects dst touched
        then ok (to_s32 n, record r { memory = memcpy r.memory src dst n })
        else fault)

-- One round of the loop in `init_fs`.
unfoldable pub init_entry : ℕ → Table × Pages → Outcome (Table × Pages)
init_entry i (t, s) = do
  let (block, s') = allocate_kernel_page s
  x ←
      if i == 0
      then (do y ← set_name (t i) (0x2f ∷ 0 ∷ []); ok (record y { type = folder }))
      else ok (record (t i) { type = empty })
  ok (
    update t i (record x {
      id = i;
      data_block = block;
      brother = none;
      father = none;
      first_son = none;
      size = 0;
      ref = pos 0;
    }),
    s',
  )

unfoldable pub init_entries : ℕ → ℕ → Table × Pages → Outcome (Table × Pages)
init_entries zero i s = ok s
init_entries (suc n) i s = do s' ← init_entry i s; init_entries n (suc i) s'

-- `init_fs`
unfoldable pub init_fs : Table × Pages → Outcome (Table × Pages)
init_fs s = init_entries fs_npages 0 s
