-- ===== src/Filesystem/Data.antt =====
-- The data of files: `write_inode` appends within the page of the file, and `read_inode` reads from
-- a position. A page lies at least 2 ^ 31 bytes below the top of the address space.
use Prim.Native.Nat.{min}
use clb_filesystem.Common.{
  zero, suc, ◌*◌, ==_refl, ℕ, ◌+◌, ◌-◌, ◌%◌, ◌^◌, ◌≤◌, ◌<◌, ◌≡◌, refl, ◌∙◌, ◌⊎◌, true, false, ok,
  arith, ltb, leb,
}
use clb_filesystem.Common.Words.{pos, ◌+ℤ◌, to_u32, to_u64, to_s32}
use clb_filesystem.Memory.{rounds, Memory, memcpy, memwrite}
use clb_filesystem.Memory.Copy.{
  rounds_words, IsForward, memwrite-count, memwrite_inside, memwrite_outside, memcpy_inside,
}
use clb_filesystem.Inode.{file, Inode, Ram, reaches, update, entry, fs_npages, file_max_size}
use clb_filesystem.Filesystem.{size_to_read, size_to_write, reset_inode, write_inode, read_inode}

-- The n bytes from p on are in objects that may be accessed.
abbrev pub IsUsable : Ram → (p n : ℕ) → Type 0
IsUsable r p n = (a : ℕ) → p ≤ a → a < p + n → r.objects a ≡ true

reaches-true : (r : Ram) (p n : ℕ) → IsUsable r p n → reaches r.objects p n ≡ true
unfolding reaches
reaches-true r p zero usable = refl
reaches-true r p (suc n) usable =
    rw
      (
        usable p (omega arith) (omega arith),
        reaches-true r (suc p) n (λ a le lt. usable a (omega arith) (omega arith)),
      )
      refl

-- The entry i is a file, whose page lies in the address space and may be accessed.
pub record IsFile (r : Ram) (i : ℕ) : Type 0 where
  pub inside : i < fs_npages
  pub is_file : (r.inodes i).type ≡ file
  pub sized : (r.inodes i).size ≤ file_max_size
  pub page : (r.inodes i).data_block + 2 ^ 31 ≤ 2 ^ 64
  pub mapped : IsUsable r (r.inodes i).data_block file_max_size

entry-ok : (r : Ram) (i : ℕ) → IsFile r i → entry (pos i) ≡ ok i
entry-ok r i is = ground (arith, is.inside)

pub small_s32 : (n : ℕ) → n < 2 ^ 31 → to_s32 n ≡ pos n
unfolding to_s32
small_s32 n h = ground arith

module _ (r : Ram) (i : ℕ) (is : IsFile r i) where
  abbrev x : Inode
  x = r.inodes i

  -- The bytes that a write of n bytes has room for.
  abbrev pub room : ℕ → ℕ
  room n = min n (file_max_size - x.size)

  -- The state after a write of w bytes.
  abbrev pub appended : ℕ → ℕ → Ram
  appended src w = record r {
    inodes = update r.inodes i (record x { size = x.size + w });
    memory = (memwrite r.memory src (x.data_block + x.size) w).1;
  }

  pub size_to_write-room : (n : ℕ) → n < 2 ^ 31 → size_to_write x (pos n) ≡ pos (room n)
  unfolding size_to_write to_s32
  size_to_write-room n small = ground (arith, is.sized)

  pub write_inode-appended :
      (src n : ℕ)
      → n < 2 ^ 31
      → 0 < room n
      → IsUsable r src (room n)
      → write_inode r (pos i) src (pos n) ≡ ok (pos (room n), appended src (room n))
  unfolding write_inode to_u64
  write_inode-appended src n small h usable =
      let from = reaches-true r src (room n) usable in
      let to =
        reaches-true r (x.data_block + x.size) (room n)
          (λ a le lt. is.mapped a (omega arith) (omega arith)) in
      let inside : (x.data_block + x.size) % 2 ^ 64 ≡ x.data_block + x.size =
        omega (arith, is.sized, is.page) in
      let word : room n % 2 ^ 64 ≡ room n = omega arith in
      let count =
        memwrite-count r.memory src (x.data_block + x.size) (room n) x.size h (omega arith) in
      let size : (x.size + room n) % 2 ^ 32 ≡ x.size + room n = omega (arith, is.sized) in
      let back : to_s32 (room n) ≡ pos (room n) = small_s32 (room n) (omega arith) in
      let go : ltb 0 (room n + 0) ≡ true = ground arith in
      rw
        (entry-ok r i is, size_to_write-room n small, inside, word, count, size, go, back, from, to)
        (rw is.is_file refl)

  pub write_inode_nothing :
      (src n : ℕ) → n < 2 ^ 31 → room n ≡ 0 → write_inode r (pos i) src (pos n) ≡ ok (pos 0, r)
  unfolding write_inode
  write_inode_nothing src n small h =
      rw (entry-ok r i is, size_to_write-room n small, h, is.is_file) refl

  pub size_to_read-min : (n : ℕ) → n < fs_npages → size_to_read x (pos 0) (pos n) ≡ min n x.size
  unfolding size_to_read to_u64 to_u32 ◌+ℤ◌
  size_to_read-min n h = ground (arith, is.is_file, is.sized, is.page)

  pub size_to_read_long :
      (n : ℕ) → fs_npages ≤ n → n < 2 ^ 31 → size_to_read x (pos 0) (pos n) ≡ fs_npages
  unfolding size_to_read to_u64 to_u32 ◌+ℤ◌
  size_to_read_long n h small = ground (arith, is.is_file, is.sized, is.page)

  -- The answer of `read_inode` at the start of the file, and the memory it leaves.
  pub read_inode-lem :
      (n m dst : ℕ)
      → m < 2 ^ 31
      → 0 < m
      → m ≤ fs_npages
      → IsUsable r dst (8 * rounds m 8)
      → size_to_read x (pos 0) (pos n) ≡ m
      → read_inode r (pos i) (pos 0) (pos n) dst
        ≡ ok (pos m, record r { memory = memcpy r.memory x.data_block dst m })
  unfolding read_inode to_u64
  read_inode-lem n m dst h some_bytes few usable e =
      let (enough, close) = rounds_words m some_bytes (omega arith) in
      let from =
        reaches-true r x.data_block (8 * rounds m 8)
          (λ a le lt. is.mapped a le (omega (arith, rounds_words m some_bytes (omega arith)))) in
      let to = reaches-true r dst (8 * rounds m 8) usable in
      let start : (x.data_block + 0) % 2 ^ 64 ≡ x.data_block = omega (arith, is.page) in
      let in_table : leb fs_npages i ≡ false = ground (arith, is.inside) in
      rw (in_table, e, start, small_s32 m h, from, to) (rw is.is_file refl)

  -- A request for less than 128 bytes from the start of a file that is not empty is answered with as
  -- many bytes as the file holds, at most those asked for, and puts these bytes of its page at the
  -- destination, which may be accessed, with seven bytes more, and which the page does not run into.
  pub read_inode_short :
      (n dst : ℕ)
      → n < fs_npages
      → 0 < min n x.size
      → IsUsable r dst (min n x.size + 7)
      → IsForward x.data_block dst (min n x.size + 7)
      → (m : Memory) × (read_inode r (pos i) (pos 0) (pos n) dst
          ≡ ok (pos (min n x.size), record r { memory = m }))
        × ((k : ℕ) → k < min n x.size → m (dst + k) ≡ r.memory (x.data_block + k))
  read_inode_short n dst h some_bytes usable clear =
      let (enough, close) = rounds_words (min n x.size) some_bytes (omega arith) in
      let m = memcpy r.memory x.data_block dst (min n x.size) in
      let bytes : (k : ℕ) → k < min n x.size → m (dst + k) ≡ r.memory (x.data_block + k) = λ k lt.
        let at : dst + k - dst ≡ k = omega arith in
        memcpy_inside r.memory x.data_block dst (min n x.size) (dst + k) some_bytes (omega arith)
          clear (omega arith) (omega arith)
        ∙ rw at refl in
      (
        m,
        read_inode-lem n (min n x.size) dst (omega arith) some_bytes (omega arith)
            (λ a le lt. usable a le (omega arith)) (size_to_read-min n h),
        bytes,
      )

  -- A request for 128 bytes or more, below 2 ^ 31, from the start of a file, for a destination
  -- with 128 bytes that may be accessed, is answered with 128, whatever the size of the file is.
  pub read_inode_long :
      (n dst : ℕ)
      → fs_npages ≤ n
      → n < 2 ^ 31
      → IsUsable r dst fs_npages
      → (m : Memory) × read_inode r (pos i) (pos 0) (pos n) dst
          ≡ ok (pos fs_npages, record r { memory = m })
  read_inode_long n dst h small usable = (
    memcpy r.memory x.data_block dst fs_npages,
    read_inode-lem n fs_npages dst (omega arith) (omega arith) (omega arith)
        (λ a le lt. usable a le (omega (arith, rounds_words fs_npages (omega arith) (omega arith))))
        (size_to_read_long n h small),
  )

  -- A write of n bytes, below 2 ^ 31, for w of which the file has room, at least one, from a buffer
  -- of w bytes that may be accessed and do not run into the place they are copied to: it answers w, the file is w bytes longer,
  -- these bytes are the first of the buffer, and no other byte of memory changes.
  pub write_inode_lem :
      (src n : ℕ)
      → n < 2 ^ 31
      → 0 < room n
      → IsUsable r src (room n)
      → IsForward src (x.data_block + x.size) (room n)
      → (m : Memory) × (write_inode r (pos i) src (pos n)
          ≡ ok (
            pos (room n),
            record r {
              inodes = update r.inodes i (record x { size = x.size + room n });
              memory = m;
            },
          ))
        × ((k : ℕ) → k < room n → m (x.data_block + x.size + k) ≡ r.memory (src + k))
        × ((a : ℕ)
            → (a < x.data_block + x.size) ⊎ (x.data_block + x.size + room n ≤ a)
            → m a ≡ r.memory a)
  write_inode_lem src n small h usable clear =
      let end = x.data_block + x.size in
      let fits : room n < 2 ^ 63 = omega arith in
      let bytes : (k : ℕ)
          → k < room n
          → (appended src (room n)).memory (end + k) ≡ r.memory (src + k) =
        λ k lt.
          let at : end + k - end ≡ k = omega arith in
          memwrite_inside r.memory src end (room n) (end + k) h fits clear (omega arith)
            (omega arith)
          ∙ rw at refl in
      (
        (appended src (room n)).memory,
        write_inode-appended src n small h usable,
        bytes,
        λ a. memwrite_outside r.memory src end (room n) a h fits,
      )

-- `reset_inode` empties a file and changes nothing else, and the file can be written to again.
pub reset_inode_lem :
    (r : Ram) (i : ℕ)
    → IsFile r i
    → (reset_inode r.inodes (pos i)
        ≡ ok (pos 0, update r.inodes i (record (r.inodes i) { size = 0 })))
      × IsFile (record r { inodes = update r.inodes i (record (r.inodes i) { size = 0 }) }) i
unfolding reset_inode
reset_inode_lem r i is = (
  rw (entry-ok r i is) (rw is.is_file refl),
  record {
    inside = is.inside;
    is_file = ground (arith, is.is_file);
    sized = ground arith;
    page = ground (arith, is.page);
    mapped = rw ==_refl is.mapped;
  },
)
