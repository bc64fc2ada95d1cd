-- ===== src/Vfs/File/Contents.antt =====
-- What is written to a file by a descriptor is read back by it.
use clb_filesystem.Common.{
  ℕ, ◌+◌, ◌-◌, ◌≤◌, ◌<◌, ◌≡◌, ◌≢◌, refl, ◌∙◌, ◌⊎◌, inl, inr, true, false, some, ok, arith, leb,
  ◌==◌, ◌||◌, ap, sym, subst, fun_ext, Bool-cases, ==_refl, ◌^◌,
}
use Prim.Native.Nat.{min}
use clb_filesystem.Common.Words.{pos, to_s32}
use clb_filesystem.Memory.{Memory}
use clb_filesystem.Memory.Copy.{IsForward}
use clb_filesystem.Inode.{is_file, Inode, Table, update, fs_npages, file_max_size}
use clb_filesystem.Filesystem.{reset_inode, write_inode}
use clb_filesystem.Filesystem.Data.{
  IsFile, IsUsable, small_s32, write_inode_lem, read_inode_short, reset_inode_lem,
}
use clb_filesystem.Vfs.{Vfs, slot, max_open_files}
use clb_filesystem.Vfs.File.{open_descriptor, read_file, write_file}

update_twice : (t : Table) (i : ℕ) (a b : Inode) → update (update t i a) i b ≡ update t i b
update_twice t i a b =
    fun_ext λ j. elim (Bool-cases (j == i)) [ inl here ↦ rw here refl | inr other ↦ rw other refl ]

-- The descriptor n is open on the file i, whose entry carries its index, and is about to read the
-- first byte.
pub record IsOpenOn (s : Vfs) (n i : ℕ) : Type 0 where
  pub slot_in : n < max_open_files
  pub inode : (s.open_inodes n).inode ≡ some i
  pub start : (s.open_inodes n).next ≡ 0
  pub of_file : IsFile s.ram i
  pub named : (s.ram.inodes i).id ≡ i

module _ (s : Vfs) (n i : ℕ) (open_on : IsOpenOn s n i) where
  open_descriptor-some :
      (str : ℕ) → str ≢ 0 → open_descriptor s (some (pos n)) str ≡ ok (some (n, i))
  unfolding open_descriptor
  open_descriptor-some str given =
      let e : str == 0 ≡ false = ground arith in
      let inside : slot (pos n) ≡ ok n = ground (arith, open_on.slot_in) in
      let is : is_file (s.ram.inodes i).type ≡ true = ground (arith, open_on.of_file.is_file) in
      rw (e, inside, open_on.inode, is) refl

  abbrev x : Inode
  x = s.ram.inodes i

  -- The state after a write of w bytes that leaves the memory m.
  abbrev pub written : ℕ → Memory → Vfs
  written w m = record s {
    ram = record s.ram { inodes = update s.ram.inodes i (record x { size = w }); memory = m };
  }

  abbrev emptied : Table
  emptied = update s.ram.inodes i (record x { size = 0 })

  write_file-runs :
      (src len : ℕ) (m : Memory)
      → src ≢ 0
      → len < 2 ^ 31
      → reset_inode s.ram.inodes (pos x.id) ≡ ok (pos 0, emptied)
      → (emptied i).id ≡ i
      → write_inode (record s.ram { inodes = emptied }) (pos i) src (pos len)
        ≡ ok (pos len, (written len m).ram)
      → write_file s (some (pos n)) src len ≡ ok (pos len, written len m)
  unfolding write_file
  write_file-runs src len m given small resets named runs =
      rw (open_descriptor-some src given, resets, named, small_s32 len small, runs) refl

  -- A write of len bytes, which fit into a page, from a buffer that does not run into the file's page:
  -- it answers len, the file has these bytes and no others, and no other byte of memory changes.
  pub write_file_lem :
      (src len : ℕ)
      → src ≢ 0
      → 0 < len
      → len ≤ file_max_size
      → IsUsable s.ram src len
      → IsForward src x.data_block len
      → (m : Memory) × (write_file s (some (pos n)) src len ≡ ok (pos len, written len m))
        × ((k : ℕ) → k < len → m (x.data_block + k) ≡ s.ram.memory (src + k))
        × ((a : ℕ) → (a < x.data_block) ⊎ (x.data_block + len ≤ a) → m a ≡ s.ram.memory a)
  unfolding write_file
  write_file_lem src len given some_bytes fits usable clear =
      let (resets, is) = reset_inode_lem s.ram i open_on.of_file in
      let resets' : reset_inode s.ram.inodes (pos x.id) ≡ ok (pos 0, emptied) =
        subst (λ z. reset_inode s.ram.inodes (pos z) ≡ ok (pos 0, emptied)) (sym open_on.named)
          resets in
      let whole : min len (file_max_size - 0) ≡ len = omega arith in
      let e : emptied i ≡ record x { size = 0 } = rw ==_refl refl in
      let start : x.data_block + 0 ≡ x.data_block = omega arith in
      let size : 0 + len ≡ len = omega arith in
      let twice = update_twice s.ram.inodes i (record x { size = 0 }) (record x { size = len }) in
      let (m, runs, bytes, others) =
        rw (e, whole, start, size, twice) at
          (write_inode_lem (record s.ram { inodes = emptied }) i is src len (omega arith)
            (rw (e, whole) some_bytes) (rw (e, whole) usable) (rw (e, whole, start) clear)) in
      (
        m,
        write_file-runs src len m given (omega arith) resets' (rw e open_on.named) runs,
        bytes,
        others,
      )

  pub read_file_lem :
      (dst len : ℕ)
      → dst ≢ 0
      → 0 < len
      → len < fs_npages
      → 0 < x.size
      → IsUsable s.ram dst (min len x.size + 7)
      → IsForward x.data_block dst (min len x.size + 7)
      → (m : Memory) × (read_file s (some (pos n)) dst len
          ≡ ok (pos (min len x.size), record s { ram = record s.ram { memory = m } }))
        × ((k : ℕ) → k < min len x.size → m (dst + k) ≡ s.ram.memory (x.data_block + k))
  unfolding read_file
  read_file_lem dst len given some_bytes short filled usable clear =
      let (m, runs, bytes) =
        read_inode_short s.ram i open_on.of_file len dst short (omega arith) usable clear in
      let test : (leb x.size (s.open_inodes n).next || len == 0) ≡ false =
        ground (arith, open_on.start) in
      let next : to_s32 (s.open_inodes n).next ≡ pos 0 =
        ap to_s32 open_on.start ∙ small_s32 0 (omega arith) in
      (
        m,
        rw
            (
              open_descriptor-some dst given,
              test,
              next,
              small_s32 len (omega arith),
              open_on.named,
              runs,
            )
            refl,
        bytes,
      )

  written-IsOpenOn : (w : ℕ) (m : Memory) → w ≤ file_max_size → IsOpenOn (written w m) n i
  written-IsOpenOn w m fits =
      let e : (written w m).ram.inodes i ≡ record x { size = w } = rw ==_refl refl in
      record {
        slot_in = open_on.slot_in;
        inode = open_on.inode;
        start = open_on.start;
        of_file = record {
          inside = open_on.of_file.inside;
          is_file = rw e open_on.of_file.is_file;
          sized = rw e fits;
          page = rw e open_on.of_file.page;
          mapped = rw e open_on.of_file.mapped;
        };
        named = rw e open_on.named;
      }

-- What was written to a file by a descriptor that is about to read the first byte, less than 128
-- bytes from a buffer that may be accessed and does not run into the file's page, is read back by that
-- descriptor, into a buffer that may be accessed, with seven bytes more, and that the page does not
-- run into: both calls answer the number of bytes.
pub read_file-write_file :
    (s : Vfs) (n i src dst len : ℕ)
    → IsOpenOn s n i
    → src ≢ 0
    → dst ≢ 0
    → 0 < len
    → len < fs_npages
    → IsUsable s.ram src len
    → IsUsable s.ram dst (len + 7)
    → IsForward src (s.ram.inodes i).data_block len
    → IsForward (s.ram.inodes i).data_block dst (len + 7)
    → (s₁ : Vfs) × (s₂ : Vfs) × (write_file s (some (pos n)) src len ≡ ok (pos len, s₁))
      × (read_file s₁ (some (pos n)) dst len ≡ ok (pos len, s₂))
      × ((k : ℕ) → k < len → s₂.ram.memory (dst + k) ≡ s.ram.memory (src + k))
read_file-write_file s n i src dst len open_on from to some_bytes short readable writable clear
      clear' =
    let (m, writes, bytes, others) =
      write_file_lem s n i open_on src len from some_bytes (omega arith) readable clear in
    let s₁ = written s n i open_on len m in
    let open₁ = written-IsOpenOn s n i open_on len m (omega arith) in
    let e : s₁.ram.inodes i ≡ record (s.ram.inodes i) { size = len } = rw ==_refl refl in
    let whole : min len len ≡ len = omega arith in
    let (m', reads, bytes') =
      rw (e, whole) at
        (read_file_lem s₁ n i open₁ dst len to some_bytes short (rw e some_bytes)
          (rw (e, whole) writable) (rw (e, whole) clear')) in
    (
      s₁,
      record s₁ { ram = record s₁.ram { memory = m' } },
      writes,
      reads,
      λ k h. bytes' k h ∙ bytes k h,
    )
