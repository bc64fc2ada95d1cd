-- ===== src/Filesystem/Frame.antt =====
-- Changes of reference counts and of the sizes of files leave the tree as it is.
use clb_filesystem.Common.{
  ℕ, ◌≤◌, ◌<◌, ◌≡◌, ◌≢◌, refl, subst, sym, ◌∙◌, true, some, arith, has, ==_refl, inl, inr,
  Bool-cases, ◌==◌,
}
use clb_filesystem.Common.Words.{ℤ}
use clb_filesystem.CString.{Holds}
use clb_filesystem.Inode.{empty, Inode, Table, update, fs_npages, file_max_size}
use clb_filesystem.Inode.Name.{name_object, IsLaidOut}
use clb_filesystem.Filesystem.Chain.{Chain, Chain-frame}
use clb_filesystem.Filesystem.Tree.{View, IsTree, IsSon, IsBlank}

-- x with another reference count and size
abbrev pub resized : Inode → ℤ → ℕ → Inode
resized x ref size = record x { ref = ref; size = size }

module _ (t : Table) (v : View) (i : ℕ) (ref : ℤ) (size : ℕ) (tree : IsTree t v)
    (fits : size ≤ file_max_size) (blank_size : (t i).type ≡ empty → size ≡ 0) where
  abbrev t' : Table
  t' = update t i (resized (t i) ref size)

  abbrev Same : Inode → Inode → Type 0
  Same x y =
      (y.id ≡ x.id)
      × (y.type ≡ x.type)
      × (y.father ≡ x.father)
      × (y.brother ≡ x.brother)
      × (y.first_son ≡ x.first_son)
      × (name_object y ≡ name_object x)
      × (y.name ≡ x.name)
      × (y.data_block ≡ x.data_block)

  same : (j : ℕ) → Same (t j) (t' j)
  unfolding name_object
  same j = elim (Bool-cases (j == i)) [
    | inl here ↦
        let e : j ≡ i = ground arith in
        subst (λ z. Same (t z) (t' z)) (sym e)
          (rw ==_refl (refl, refl, refl, refl, refl, refl, refl, refl))
    | inr other ↦ rw other (refl, refl, refl, refl, refl, refl, refl, refl)
  ]

  resized-IsLaidOut : (j : ℕ) → j < fs_npages → IsLaidOut (t' j)
  resized-IsLaidOut j h =
      let was = tree.laid j h in
      let e = same j in
      record {
        name_size = ground (arith, was.name_size);
        word = ground (arith, was.word);
        aligned = ground (arith, was.aligned);
      }

  resized-IsSon : (d c : ℕ) → d < fs_npages → has c (v.sons d) ≡ true → IsSon t' v d c
  resized-IsSon d c h m =
      let was = tree.son d c h m in
      record {
        inside = was.inside;
        not_root = was.not_root;
        father = ground (arith, was.father);
        live = λ e. was.live (ground arith);
        deeper = was.deeper;
      }

  resized-father :
      (c : ℕ)
      → c < fs_npages
      → c ≢ 0
      → (t' c).type ≢ empty
      → (d : ℕ) × (d < fs_npages) × ((t' c).father ≡ some d) × (has c (v.sons d) ≡ true)
  resized-father c h ne used =
      let (d, d_in, of_d, m) = tree.father c h ne (λ e. used (ground arith)) refl in
      (d, d_in, ground arith, m)

  resized-IsBlank : (j : ℕ) → j < fs_npages → (t' j).type ≡ empty → IsBlank (t' j)
  resized-IsBlank j h e =
      let was_empty : (t j).type ≡ empty = sym (same j).1 ∙ e in
      let was = tree.blank j h was_empty in
      record {
        no_brother = (same j).3 ∙ was.no_brother;
        no_father = (same j).2 ∙ was.no_father;
        no_size = elim (Bool-cases (j == i)) [
          | inl here ↦
              rw here (blank_size (subst (λ z. (t z).type ≡ empty) (ground arith) was_empty))
          | inr other ↦ rw other was.no_size
        ];
      }

  pub resized-IsTree : IsTree t' v
  resized-IsTree = record {
    root = ground (arith, tree.root);
    orphan = ground (arith, tree.orphan);
    ids = λ j h. ground (arith, tree.ids j h);
    laid = resized-IsLaidOut;
    sized = λ j h. ground (arith, tree.sized j h);
    named = λ j h used.
        let e = same j in
        subst (λ l. Holds l (v.names j)) (sym e.5) (tree.named j h (λ z. used (e.1 ∙ z)));
    chain = λ d h.
        subst (λ p. Chain t' p (v.sons d)) (sym (same d).4)
          (Chain-frame t t' (t d).first_son (v.sons d) (tree.chain d h) (λ c m. (same c).3));
    distinct = tree.distinct;
    son = resized-IsSon;
    father = λ c h ne used loose. resized-father c h ne used;
    leaf = λ d h n. tree.leaf d h (λ e. n ((same d).1 ∙ e));
    blank = resized-IsBlank;
    adrift = λ c m. cc;
  }
