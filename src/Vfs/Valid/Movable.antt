-- ===== src/Vfs/Valid/Movable.antt =====
-- What a caller that moves data has to see to, and what `write_inode` and `read_inode` do then.
use clb_filesystem.Common.{
  ℕ, ◌+◌, ◌*◌, ◌^◌, ◌≤◌, ◌<◌, ◌≡◌, ◌≢◌, refl, inl, inr, ◌⊎◌, Option, some, ok, arith, ltb,
  Bool-cases,
}
use Prim.Native.Nat.{min}
use clb_filesystem.Common.Words.{ℤ, pos}
use clb_filesystem.Memory.{Memory, memcpy, rounds}
use clb_filesystem.Memory.Copy.{rounds_words}
use clb_filesystem.Inode.{Table, Ram, update, fs_npages, file_max_size}
use clb_filesystem.Filesystem.{write_inode, read_inode}
use clb_filesystem.Filesystem.Data.{
  IsUsable, IsFile, write_inode-appended, write_inode_nothing, room, appended, read_inode-lem,
  size_to_read-min, size_to_read_long,
}
use clb_filesystem.Vfs.{Vfs}

-- What a caller that moves data has to see to: the buffer and seven bytes more may be accessed,
-- where it is not null, and the inode that is open has a page that may be accessed. The descriptor
-- is about to read the first byte, as `open_file` leaves it.
pub record IsMovable (s : Vfs) (fd : Option ℤ) (str len : ℕ) : Type 0 where
  pub short : len < 2 ^ 31
  pub buffer : str ≢ 0 → IsUsable s.ram str (len + 7)
  pub start : (n : ℕ) → fd ≡ some (pos n) → (s.open_inodes n).next ≡ 0
  pub page :
      (n i : ℕ)
      → fd ≡ some (pos n)
      → (s.open_inodes n).inode ≡ some i
      → (s.ram.inodes i).data_block + 2 ^ 31 ≤ 2 ^ 64
  pub mapped :
      (n i : ℕ)
      → fd ≡ some (pos n)
      → (s.open_inodes n).inode ≡ some i
      → IsUsable s.ram (s.ram.inodes i).data_block file_max_size

-- The inodes are those of t, but for the size of the entry i, which fits its page.
abbrev pub Resized : Table → ℕ → Table → Type 0
Resized t i t' =
    (t' ≡ t) ⊎ ((w : ℕ) × (w ≤ file_max_size) × (t' ≡ update t i (record (t i) { size = w })))

module _ (r : Ram) (i : ℕ) (is : IsFile r i) (str len : ℕ) (short : len < 2 ^ 31)
    (usable : IsUsable r str (len + 7)) where
  pub write_inode-Resized :
      (n : ℤ) × (r' : Ram) × (write_inode r (pos i) str (pos len) ≡ ok (n, r'))
      × Resized r.inodes i r'.inodes
  write_inode-Resized = elim (Bool-cases (ltb 0 (room r i is len))) [
    | inl some_bytes ↦ (
      pos (room r i is len),
      appended r i is str (room r i is len),
      write_inode-appended r i is str len short (ground arith) λ a le lt. usable a le (omega arith),
      inr ((r.inodes i).size + room r i is len, omega (arith, is.sized), refl),
    )
    | inr nothing ↦ (pos 0, r, write_inode_nothing r i is str len short (ground arith), inl refl)
  ]

  touched : (m : ℕ) → 0 < m → m ≤ len → m ≤ fs_npages → IsUsable r str (8 * rounds m 8)
  touched m some_bytes le few a from to =
      let (enough, close) = rounds_words m some_bytes (omega arith) in usable a from (omega arith)

  pub read_inode-ok :
      0 < len
      → 0 < (r.inodes i).size
      → (n : ℤ) × (m : Memory) × (read_inode r (pos i) (pos 0) (pos len) str
          ≡ ok (n, record r { memory = m }))
  read_inode-ok asked filled = elim (Bool-cases (ltb len fs_npages)) [
    | inl few ↦
        let m : ℕ = min len (r.inodes i).size in
        let lt : len < fs_npages = ground arith in
        (
          pos m,
          memcpy r.memory (r.inodes i).data_block str m,
          read_inode-lem r i is len m str (omega arith) (omega arith) (omega arith)
              (touched m (omega arith) (omega arith) (omega arith))
              (size_to_read-min r i is len lt),
        )
    | inr many ↦
        let le : fs_npages ≤ len = ground arith in
        (
          pos fs_npages,
          memcpy r.memory (r.inodes i).data_block str fs_npages,
          read_inode-lem r i is len fs_npages str (omega arith) (omega arith) (omega arith)
              (touched fs_npages (omega arith) le (omega arith))
              (size_to_read_long r i is len le short),
        )
  ]
