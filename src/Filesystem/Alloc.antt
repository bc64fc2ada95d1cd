-- ===== src/Filesystem/Alloc.antt =====
-- `alloc_inode` hangs a new inode behind the last son of its father.
pub mod Attach
pub mod Grown
use clb_filesystem.Common.{
  ℕ, zero, ◌+◌, ◌≤◌, ◌<◌, ◌≡◌, ◌≢◌, refl, subst, sym, ap, ◌∙◌, true, false, has, IsDistinct, ◌⊎◌,
  inl, inr, Option, none, some, List, [], ◌∷◌, Outcome, ok, ◌>>=◌, arith, length, Option-cases,
}
use clb_filesystem.CString.{Holds}
use clb_filesystem.Inode.{
  TypeFile, Ptr, folder, empty, Inode, Table, update, fs_npages, max_size_name,
}
use clb_filesystem.Inode.Name.{set_name, set_name-Holds, name_object, IsLaidOut}
use clb_filesystem.Filesystem.{find_empty, attach, claim, alloc_inode}
use clb_filesystem.Filesystem.Chain.{Chain, last_of, has-last_of}
use clb_filesystem.Filesystem.Tree.{View, IsTree, length-sons, not-son_of_empty}
use clb_filesystem.Filesystem.Alloc.Attach.{
  find_empty-some, find_empty_lowest, find_empty-none, SameData, Attached, Attached-first,
  Attached-behind,
}
use clb_filesystem.Filesystem.Alloc.Grown.{grown, IsReady, grown-IsTree}

module _ (t : Table) (v : View) (tree : IsTree t v) where
  -- Some table is the outcome of hanging x as i behind these sons of d.
  abbrev Attaches : ℕ → ℕ → Inode → List ℕ → Type 0
  Attaches d i x sons =
      (t' : Table) × (attach (update t i x) i (some d) ≡ ok t') × Attached t t' sons x d i

  attach-Attached :
      (d i : ℕ) (s : List ℕ) (x : Inode) → IsReady t x s d i → Attaches d i x (v.sons d)
  attach-Attached d i s x ready = go (v.sons d) refl
    where
      ne : d ≢ i
      ne e = ground (arith, ready.is_folder, ready.unused)

      at_sons : (l : List ℕ) → v.sons d ≡ l → Chain t (t d).first_son l
      at_sons l e = subst (Chain t (t d).first_son) e (tree.chain d ready.d_in)

      go : (l : List ℕ) → v.sons d ≡ l → Attaches d i x (v.sons d)
      go [] e =
          subst (Attaches d i x) (sym e) (Attached-first t x d i ne ready.no_brother (at_sons [] e))
      go (y ∷ ys) e =
          let member : has (last_of y ys) (v.sons d) ≡ true = rw e (has-last_of y ys) in
          subst (Attaches d i x) (sym e) (
            Attached-behind t x d i y ys ne ready.no_brother (at_sons (y ∷ ys) e)
              (subst IsDistinct e (tree.distinct d ready.d_in))
              (subst (λ l. has i l ≡ false) e (not-son_of_empty tree d i ready.d_in ready.unused))
              (omega (arith, length-sons tree d ready.d_in, ap length e))
              (tree.ids (last_of y ys) (tree.son d (last_of y ys) ready.d_in member).inside))

  -- The entry i as `alloc_inode` prepares it.
  abbrev prepared : ℕ → TypeFile → Inode
  prepared i type = record (t i) { type = type }

  prepared-IsReady :
      (d i : ℕ) (s : List ℕ) (type : TypeFile) (y : Inode)
      → d < fs_npages
      → (t d).type ≡ folder
      → type ≢ empty
      → i < fs_npages
      → (t i).type ≡ empty
      → Holds (name_object y) s
      → IsLaidOut y
      → y ≡ record (prepared i type) { name = y.name }
      → IsReady t y s d i
  prepared-IsReady d i s type y d_in is_folder used i_in unused holds laid e =
      let blank = tree.blank i i_in unused in
      let childless = tree.leaf i i_in (λ f. cc) in
      let chain : Chain t (t i).first_son [] =
        subst (Chain t (t i).first_son) childless (tree.chain i i_in) in
      record {
        d_in = d_in;
        i_in = i_in;
        is_folder = is_folder;
        unused = unused;
        used = λ f. used (sym (ap (λ z. z.type) e) ∙ f);
        id = ap (λ z. z.id) e ∙ tree.ids i i_in;
        laid = laid;
        holds = holds;
        no_size = ap (λ z. z.size) e ∙ blank.no_size;
        no_son = ap (λ z. z.first_son) e ∙ chain;
        no_brother = ap (λ z. z.brother) e ∙ blank.no_brother;
      }

  -- The outcome of `alloc_inode` where the entry i is the lowest that is free.
  pub record Allocated (d i : ℕ) (s : List ℕ) (type : TypeFile) (t' : Table) : Type 0 where
    pub is_tree : IsTree t' (grown v d i s)
    pub new_type : (t' i).type ≡ type
    pub others : (j : ℕ) → j ≢ i → SameData (t j) (t' j)

  alloc_inode-ok :
      (d i : ℕ) (buf : List ℕ) (type : TypeFile) (y : Inode) (t' : Table)
      → find_empty fs_npages 0 t ≡ some i
      → set_name (prepared i type) buf ≡ ok y
      → attach (update t i y) i (some d) ≡ ok t'
      → alloc_inode t buf (some d) type ≡ ok (some i, t')
  unfolding alloc_inode claim
  alloc_inode-ok d i buf type y t' found names attaches =
      rw (found, alloc_inode, names, attaches) refl

  alloc_inode-Allocated :
      (d i : ℕ) (buf s : List ℕ) (type : TypeFile)
      → d < fs_npages
      → (t d).type ≡ folder
      → type ≢ empty
      → Holds buf s
      → length s ≤ max_size_name
      → find_empty fs_npages 0 t ≡ some i
      → (t' : Table) × (alloc_inode t buf (some d) type ≡ ok (some i, t')) × Allocated d i s type t'
  alloc_inode-Allocated d i buf s type d_in is_folder used held short found =
      let (above, i_in, unused) = find_empty-some fs_npages 0 i t found in
      let was = tree.laid i i_in in
      let (y, names, holds, laid, same) =
        set_name-Holds (prepared i type)
          (record { name_size = was.name_size; word = was.word; aligned = was.aligned }) buf s held
          short in
      let ready = prepared-IsReady d i s type y d_in is_folder used i_in unused holds laid same in
      let (t', attaches, at) = attach-Attached d i s y ready in
      (
        t',
        alloc_inode-ok d i buf type y t' found names attaches,
        record {
          is_tree = grown-IsTree t t' v d i s y tree ready at;
          new_type = at.data_new.2 ∙ ap (λ z. z.type) same;
          others = at.data_kept;
        },
      )

  alloc_inode_full :
      (buf : List ℕ) (p : Ptr) (type : TypeFile)
      → find_empty fs_npages 0 t ≡ none
      → alloc_inode t buf p type ≡ ok (none, t)
  unfolding alloc_inode
  alloc_inode_full buf p type found = rw (found, alloc_inode) refl

  -- In a well-formed table, `alloc_inode` below a folder, with a name of at most sixteen bytes,
  -- either finds every entry in use, returns -1 and changes nothing, or takes the lowest free entry
  -- and leaves a well-formed table for the tree with that entry as the folder's last son, of the
  -- given name and type, the data of all other entries unchanged.
  pub alloc_inode_lem :
      (d : ℕ) (buf s : List ℕ) (type : TypeFile)
      → d < fs_npages
      → (t d).type ≡ folder
      → type ≢ empty
      → Holds buf s
      → length s ≤ max_size_name
      → ((alloc_inode t buf (some d) type ≡ ok (none, t))
          × ((k : ℕ) → k < fs_npages → (t k).type ≢ empty))
        ⊎ ((i : ℕ) × (t' : Table) × (alloc_inode t buf (some d) type ≡ ok (some i, t'))
            × (i < fs_npages)
            × ((t i).type ≡ empty)
            × ((k : ℕ) → k < i → (t k).type ≢ empty)
            × Allocated d i s type t')
  alloc_inode_lem d buf s type d_in is_folder used held short =
      elim (Option-cases (find_empty fs_npages 0 t)) [
        | inl nothing ↦ inl (
          alloc_inode_full buf (some d) type nothing,
          λ k h. find_empty-none fs_npages 0 k t nothing (omega arith) (omega arith),
        )
        | inr (i, found) ↦
            let (t', runs, allocated) =
              alloc_inode-Allocated d i buf s type d_in is_folder used held short found in
            let (above, i_in, unused) = find_empty-some fs_npages 0 i t found in
            inr (
              i,
              t',
              runs,
              i_in,
              unused,
              λ k h. find_empty_lowest fs_npages 0 i k t found (omega arith) h,
              allocated,
            )
      ]
