-- ===== src/Vfs/Valid/Files.antt =====
-- Reading and writing by a descriptor returns and keeps the state valid.
use clb_filesystem.Common.{
  ℕ, ◌<◌, ◌≡◌, ◌≢◌, refl, inl, inr, ◌⊎◌, true, ◌||◌, Option, none, some, ok, arith, leb, ◌==◌,
  Bool-cases, Option-cases, sym, subst,
}
use clb_filesystem.Common.Words.{ℤ, pos, negsuc}
use clb_filesystem.Memory.{Memory, store_byte}
use clb_filesystem.Inode.{TypeFile, file, folder, empty, is_file, Table, Ram, update, fs_npages}
use clb_filesystem.Filesystem.{reset_inode}
use clb_filesystem.Filesystem.Tree.{View, IsTree}
use clb_filesystem.Filesystem.Frame.{resized-IsTree}
use clb_filesystem.Filesystem.Data.{IsFile, small_s32, reset_inode_lem}
use clb_filesystem.Vfs.{Vfs}
use clb_filesystem.Vfs.File.{with_inodes, open_descriptor, read_file, write_file, append_file}
use clb_filesystem.Vfs.Valid.{IsValid, IsFd}
use clb_filesystem.Vfs.Valid.Slots.{slot-ok}
use clb_filesystem.Vfs.Valid.Movable.{IsMovable, Resized, write_inode-Resized, read_inode-ok}

-- The descriptor fd is open on a file, and the buffer is not null.
record IsOpen (s : Vfs) (fd : Option ℤ) (str i inode : ℕ) : Type 0 where
  is : fd ≡ some (pos i)
  given : str ≢ 0
  open_on : (s.open_inodes i).inode ≡ some inode
  inside : inode < fs_npages
  of_file : (s.ram.inodes inode).type ≡ file

is_file-file : (type : TypeFile) → is_file type ≡ true → type ≡ file
is_file-file file e = refl
is_file-file folder e = cc
is_file-file empty e = cc

module _ (s : Vfs) (v : View) (valid : IsValid s v) where
  abbrev t : Table
  t = s.ram.inodes

  open_descriptor-cases :
      (fd : Option ℤ) (str : ℕ)
      → IsFd fd
      → (open_descriptor s fd str ≡ ok none)
        ⊎ ((i : ℕ) × (inode : ℕ) × (open_descriptor s fd str ≡ ok (some (i, inode)))
            × IsOpen s fd str i inode)
  unfolding open_descriptor
  open_descriptor-cases none str h = inl refl
  open_descriptor-cases (some (negsuc n)) str h = inl (ground arith)
  open_descriptor-cases (some (pos n)) str h = elim (Bool-cases (str == 0)) [
    | inl null ↦ inl (rw null refl)
    | inr given ↦ elim (Option-cases ((s.open_inodes n).inode)) [
      | inl closed ↦ inl (rw (given, slot-ok n h, closed) refl)
      | inr (inode, open_on) ↦ elim (Bool-cases (is_file (t inode).type)) [
        | inl of_file ↦ inr (
          n,
          inode,
          rw (given, slot-ok n h, open_on, of_file) refl,
          record {
            is = refl;
            given = ground arith;
            open_on = open_on;
            inside = (valid.descriptors n h).inode inode open_on;
            of_file = is_file-file _ of_file;
          },
        )
        | inr other ↦ inl (rw (given, slot-ok n h, open_on, other) refl)
      ]
    ]
  ]

  Resized-IsTree : (i : ℕ) (t' : Table) → (t i).type ≢ empty → Resized t i t' → IsTree t' v
  Resized-IsTree i t' live (inl same) = subst (λ z. IsTree z v) (sym same) valid.tree
  Resized-IsTree i t' live (inr (w, fits, e)) =
      subst (λ z. IsTree z v) (sym e)
        (resized-IsTree t v i (t i).ref w valid.tree fits (λ z. absurd (live z)))

  with_ram-IsValid : (ram : Ram) → IsTree ram.inodes v → IsValid (record s { ram = ram }) v
  with_ram-IsValid ram tree = record { tree = tree; descriptors = valid.descriptors }

  open-IsFile :
      (fd : Option ℤ) (str len i inode : ℕ)
      → IsOpen s fd str i inode
      → IsMovable s fd str len
      → IsFile s.ram inode
  open-IsFile fd str len i inode at movable = record {
    inside = at.inside;
    is_file = at.of_file;
    sized = valid.tree.sized inode at.inside;
    page = movable.page i inode at.is at.open_on;
    mapped = movable.mapped i inode at.is at.open_on;
  }

  pub append_file-IsValid :
      (fd : Option ℤ) (str len : ℕ)
      → IsFd fd
      → IsMovable s fd str len
      → (n : ℤ) × (s' : Vfs) × (append_file s fd str len ≡ ok (n, s')) × IsValid s' v
  unfolding append_file
  append_file-IsValid fd str len h movable = elim (open_descriptor-cases fd str h) [
    | inl refused ↦ (negsuc 0, s, rw refused refl, valid)
    | inr (i, inode, found, at) ↦
        let is = open-IsFile fd str len i inode at movable in
        let (n, r', runs, sizes) =
          write_inode-Resized s.ram inode is str len movable.short (movable.buffer at.given) in
        (
          n,
          record s { ram = r' },
          rw (found, valid.tree.ids inode at.inside, small_s32 len movable.short, runs) refl,
          with_ram-IsValid r'
              (Resized-IsTree inode r'.inodes (λ e. ground (arith, at.of_file)) sizes),
        )
  ]

  read_file-open :
      (fd : Option ℤ) (str len i inode : ℕ)
      → open_descriptor s fd str ≡ ok (some (i, inode))
      → IsOpen s fd str i inode
      → IsMovable s fd str len
      → (n : ℤ) × (m : Memory) × (read_file s fd str len
          ≡ ok (n, record s { ram = record s.ram { memory = m } }))
  unfolding read_file
  read_file-open fd str len i inode found at movable =
      let next = movable.start i at.is in
      elim (Bool-cases (leb (t inode).size 0 || len == 0)) [
        | inl nothing ↦
            let first = movable.buffer at.given str (omega arith) (omega arith) in
            (pos 0, store_byte s.ram.memory str 0, rw (found, next) (rw (nothing, first) refl))
        | inr some_bytes ↦
            let is = open-IsFile fd str len i inode at movable in
            let (n, m, runs) =
              read_inode-ok s.ram inode is str len movable.short (movable.buffer at.given)
                (ground arith) (ground arith) in
            (
              n,
              m,
              rw
                  (
                    found,
                    next,
                    some_bytes,
                    valid.tree.ids inode at.inside,
                    small_s32 0 (omega arith),
                    small_s32 len movable.short,
                    runs,
                  )
                  refl,
            )
      ]

  pub read_file-IsValid :
      (fd : Option ℤ) (str len : ℕ)
      → IsFd fd
      → IsMovable s fd str len
      → (n : ℤ) × (s' : Vfs) × (read_file s fd str len ≡ ok (n, s')) × IsValid s' v
  unfolding read_file
  read_file-IsValid fd str len h movable = elim (open_descriptor-cases fd str h) [
    | inl refused ↦ (negsuc 0, s, rw refused refl, valid)
    | inr (i, inode, found, at) ↦
        let (n, m, runs) = read_file-open fd str len i inode found at movable in
        (
          n,
          record s { ram = record s.ram { memory = m } },
          runs,
          with_ram-IsValid (record s.ram { memory = m }) valid.tree,
        )
  ]

-- `write_file` empties the file first.
module _ (s : Vfs) (v : View) (valid : IsValid s v) where
  abbrev emptied : ℕ → Table
  emptied inode = update s.ram.inodes inode (record (s.ram.inodes inode) { size = 0 })

  emptied-IsValid :
      (inode : ℕ) → (s.ram.inodes inode).type ≡ file → IsValid (with_inodes s (emptied inode)) v
  emptied-IsValid inode of_file = record {
    tree =
        resized-IsTree s.ram.inodes v inode (s.ram.inodes inode).ref 0 valid.tree (omega arith)
          (λ e. absurd (ground (arith, of_file)));
    descriptors = valid.descriptors;
  }

  write_file-emptied :
      (fd : Option ℤ) (str len i inode : ℕ)
      → open_descriptor s fd str ≡ ok (some (i, inode))
      → IsOpen s fd str i inode
      → IsMovable s fd str len
      → (n : ℤ) × (s' : Vfs) × (write_file s fd str len ≡ ok (n, s')) × IsValid s' v
  unfolding write_file
  write_file-emptied fd str len i inode found at movable =
      let after : Vfs = with_inodes s (emptied inode) in
      let valid' = emptied-IsValid inode at.of_file in
      let (resets, is) =
        reset_inode_lem s.ram inode (open-IsFile s v valid fd str len i inode at movable) in
      let (n, r', runs, sizes) =
        write_inode-Resized after.ram inode is str len movable.short (movable.buffer at.given) in
      let resets' : reset_inode s.ram.inodes (pos (s.ram.inodes inode).id)
          ≡ ok (pos 0, emptied inode) =
        subst (λ z. reset_inode s.ram.inodes (pos z) ≡ ok (pos 0, emptied inode))
          (sym (valid.tree.ids inode at.inside)) resets in
      let live : (emptied inode inode).type ≢ empty = λ e. ground (arith, is.is_file) in
      (
        n,
        record s { ram = r' },
        rw (found, resets', valid'.tree.ids inode at.inside, small_s32 len movable.short, runs)
            refl,
        with_ram-IsValid after v valid' r'
            (Resized-IsTree after v valid' inode r'.inodes live sizes),
      )

  pub write_file-IsValid :
      (fd : Option ℤ) (str len : ℕ)
      → IsFd fd
      → IsMovable s fd str len
      → (n : ℤ) × (s' : Vfs) × (write_file s fd str len ≡ ok (n, s')) × IsValid s' v
  unfolding write_file
  write_file-IsValid fd str len h movable = elim (open_descriptor-cases s v valid fd str h) [
    | inl refused ↦ (negsuc 0, s, rw refused refl, valid)
    | inr (i, inode, found, at) ↦ write_file-emptied fd str len i inode found at movable
  ]
