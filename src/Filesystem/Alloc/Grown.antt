-- ===== src/Filesystem/Alloc/Grown.antt =====
-- With a new last son the table is a tree again.
use native.Mathlib.Decide.{ℕ_discrete}
use clb_filesystem.Common.{
  ℕ, suc, ◌<◌, ◌≡◌, ◌≢◌, refl, subst, sym, ◌⊎◌, inl, inr, true, false, none, some, List, [], ◌∷◌,
  ◌++◌, arith, has, has-append, ==_refl, ne→==, append-IsDistinct,
}
use clb_filesystem.CString.{Holds}
use clb_filesystem.Inode.{folder, empty, Inode, Table, update, fs_npages}
use clb_filesystem.Inode.Name.{name_object, name_object-eq, IsLaidOut}
use clb_filesystem.Filesystem.Chain.{Chain, Chain-frame}
use clb_filesystem.Filesystem.Tree.{
  View, IsTree, IsSon, IsBlank, not-son_of_empty, not-son_of_other,
}
use clb_filesystem.Filesystem.Alloc.Attach.{Attached}

-- The tree with a new last son i of d, named s.
abbrev pub grown : View → ℕ → ℕ → List ℕ → View
grown v d i s = record v {
  sons = update v.sons d (v.sons d ++ i ∷ []);
  names = update v.names i s;
  depth = update v.depth i (suc (v.depth d));
}

-- x may become the entry i below d.
pub record IsReady (t : Table) (x : Inode) (s : List ℕ) (d i : ℕ) : Type 0 where
  pub d_in : d < fs_npages
  pub i_in : i < fs_npages
  pub is_folder : (t d).type ≡ folder
  pub unused : (t i).type ≡ empty
  pub used : x.type ≢ empty
  pub id : x.id ≡ i
  pub laid : IsLaidOut x
  pub holds : Holds (name_object x) s
  pub no_size : x.size ≡ 0
  pub no_son : x.first_son ≡ none
  pub no_brother : x.brother ≡ none

module _ (t t' : Table) (v : View) (d i : ℕ) (s : List ℕ) (x : Inode) (tree : IsTree t v)
    (ready : IsReady t x s d i) (at : Attached t t' (v.sons d) x d i) where
  open at use {data_kept, data_new, sons_kept, sons_new, brothers_kept, chain}
  open ready use {d_in, i_in, is_folder, unused, used}

  i_ne_d : i ≢ d
  i_ne_d e = ground arith

  i_ne_root : i ≢ 0
  i_ne_root e = ground (arith, tree.root)

  not_a_son : (e : ℕ) → e < fs_npages → has i (v.sons e) ≡ false
  not_a_son e h = not-son_of_empty tree e i h unused

  no_sons : v.sons i ≡ []
  no_sons = tree.leaf i i_in λ e. cc

  old_or_new :
      (e c : ℕ)
      → e < fs_npages
      → has c ((grown v d i s).sons e) ≡ true
      → ((c ≡ i) × (e ≡ d)) ⊎ ((c ≢ i) × (has c (v.sons e) ≡ true))
  old_or_new e c h m = ground (arith, not_a_son e h, has-append c (v.sons d) (i ∷ []))

  still_son : (e c : ℕ) → has c (v.sons e) ≡ true → has c ((grown v d i s).sons e) ≡ true
  still_son e c m = ground (arith, has-append c (v.sons d) (i ∷ []))

  sons_at_d : (grown v d i s).sons d ≡ v.sons d ++ i ∷ []
  sons_at_d = ground arith

  sons_elsewhere : (e : ℕ) → e ≢ d → (grown v d i s).sons e ≡ v.sons e
  sons_elsewhere e h = ground arith

  no_son_yet : Chain t' (t' i).first_son []
  no_son_yet = ground (arith, sons_new, ready.no_son)

  -- The other folders have the sons that they had.
  elsewhere : (e : ℕ) → e < fs_npages → e ≢ d → Chain t' (t' e).first_son (v.sons e)
  elsewhere e h other = elim (ℕ_discrete e i) [
    | yes same ↦
        subst (λ z. Chain t' (t' z).first_son (v.sons z)) (sym same)
          (subst (λ l. Chain t' (t' i).first_son l) (sym no_sons) no_son_yet)
    | no not_new ↦
        subst (λ p. Chain t' p (v.sons e)) (sym (sons_kept e other not_new))
          (Chain-frame t t' (t e).first_son (v.sons e) (tree.chain e h) λ c m.
            brothers_kept c (λ same. ground (arith, not_a_son e h))
              (not-son_of_other tree d e c d_in (tree.son e c h m).father
                (λ same. other (sym same))))
  ]

  grown-Chain : (e : ℕ) → e < fs_npages → Chain t' (t' e).first_son ((grown v d i s).sons e)
  grown-Chain e h = elim (ℕ_discrete e d) [
    | yes same ↦
        subst (λ z. Chain t' (t' z).first_son ((grown v d i s).sons z)) (sym same)
          (subst (λ l. Chain t' (t' d).first_son l) (sym sons_at_d) chain)
    | no other ↦
        subst (λ l. Chain t' (t' e).first_son l) (sym (sons_elsewhere e other))
          (elsewhere e h other)
  ]

  father_not_new : (e c : ℕ) → has c (v.sons e) ≡ true → e ≢ i
  father_not_new e c m same =
      let on_new : has c (v.sons i) ≡ true = subst (λ z. has c (v.sons z) ≡ true) same m in
      ground (arith, no_sons)

  old-IsSon :
      (e c : ℕ) → e < fs_npages → c ≢ i → has c (v.sons e) ≡ true → IsSon t' (grown v d i s) e c
  old-IsSon e c h old m =
      let was = tree.son e c h m in
      let kept = data_kept c old in
      record {
        inside = was.inside;
        not_root = was.not_root;
        father = ground arith;
        live = λ z. ground (arith, was.live);
        deeper = ground (arith, father_not_new e c m);
      }

  grown-IsSon :
      (e c : ℕ)
      → e < fs_npages
      → has c ((grown v d i s).sons e) ≡ true
      → IsSon t' (grown v d i s) e c
  grown-IsSon e c h m = elim (old_or_new e c h m) [
    | inl (new, at_d) ↦ record {
      inside = ground arith;
      not_root = λ z. ground (arith, i_ne_root);
      father = ground arith;
      live = λ z. ground arith;
      deeper = ground arith;
    }
    | inr (old, m') ↦ old-IsSon e c h old m'
  ]

  grown-father :
      (c : ℕ)
      → c < fs_npages
      → c ≢ 0
      → (t' c).type ≢ empty
      → has c [] ≡ false
      → (e : ℕ) × (e < fs_npages)
        × ((t' c).father ≡ some e)
        × (has c ((grown v d i s).sons e) ≡ true)
  grown-father c h nz live hangs = elim (ℕ_discrete c i) [
    | yes same ↦ (d, d_in, ground arith, ground (arith, has-append c (v.sons d) (i ∷ [])))
    | no other ↦
        let (e, e_in, of_e, m) =
          tree.father c h nz (λ z. live (ground (arith, data_kept c other))) refl in
        (e, e_in, ground (arith, data_kept c other), still_son e c m)
  ]

  grown-named :
      (j : ℕ)
      → j < fs_npages
      → (t' j).type ≢ empty
      → Holds (name_object (t' j)) ((grown v d i s).names j)
  grown-named j h live = elim (ℕ_discrete j i) [
    | yes same ↦
        let here : Holds (name_object (t' i)) s =
          subst (λ o. Holds o s)
            (name_object-eq x (t' i) (ground (arith, data_new)) (ground (arith, data_new)))
            ready.holds in
        subst (λ z. Holds (name_object (t' z)) ((grown v d i s).names z)) (sym same)
          (rw ==_refl here)
    | no other ↦
        let kept = data_kept j other in
        rw (ne→== j i other) (
          subst (λ o. Holds o (v.names j))
            (name_object-eq (t j) (t' j) (ground arith) (ground arith))
            (tree.named j h (λ z. live (ground arith))))
  ]

  grown-blank : (j : ℕ) → j < fs_npages → (t' j).type ≡ empty → IsBlank (t' j)
  grown-blank j h e =
      let not_new : j ≢ i = λ same. ground arith in
      let kept = data_kept j not_new in
      let was : (t j).type ≡ empty = ground arith in
      let blank = tree.blank j h was in
      let stays = brothers_kept j not_new (not-son_of_empty tree d j d_in was) in ground arith

  pub grown-IsTree : IsTree t' (grown v d i s)
  grown-IsTree = record {
    root = ground (arith, tree.root, data_kept 0, i_ne_root);
    orphan = ground (arith, tree.orphan, data_kept 0, i_ne_root);
    ids = λ j h. ground (arith, tree.ids j h, data_kept j, ready.id);
    laid = λ j h. ground (arith, tree.laid j h, data_kept j);
    sized = λ j h. ground (arith, tree.sized j h, data_kept j, ready.no_size);
    named = grown-named;
    chain = grown-Chain;
    distinct =
        λ e h. ground (arith, tree.distinct e h, append-IsDistinct (v.sons d) i, not_a_son d d_in);
    son = grown-IsSon;
    father = grown-father;
    leaf = λ e h n. ground (arith, tree.leaf e h, data_kept e, no_sons);
    blank = grown-blank;
    adrift = λ c m. cc;
  }
