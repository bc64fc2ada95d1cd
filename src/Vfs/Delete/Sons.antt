-- ===== src/Vfs/Delete/Sons.antt =====
-- The loop of `delete_inode` over the sons of a folder frees them with all that is below them.
use clb_filesystem.Common.{
  ℕ, zero, suc, ◌≤◌, ◌<◌, ◌≡◌, ◌≢◌, refl, subst, sym, ap, ◌∙◌, inl, inr, true, false, some, List,
  [], ◌∷◌, Outcome, ok, arith, length, has, erase, not-has-erase, IsDistinct, Bool-cases,
  false_of_ne, ==_refl, ◌==◌,
}
use clb_filesystem.Inode.{empty, Inode, Table, fs_npages}
use clb_filesystem.Filesystem.Chain.{Chain}
use clb_filesystem.Filesystem.Tree.{View, IsForest}
use clb_filesystem.Filesystem.Alloc.Attach.{SameData}
use clb_filesystem.Filesystem.Free.{no_first_son}
use clb_filesystem.Filesystem.Free.Detach.{Unhooked, advanced, advanced-Unhooked}
use clb_filesystem.Filesystem.Free.Shrunk.{shrunk, shrunk-IsForest}
use clb_filesystem.Vfs.Delete.{delete_sons}
use clb_filesystem.Vfs.Delete.Below.{
  Below, Below-mono, Below-disjoint, not-Below-father, deeper, deeper-lt,
}

-- From t, v to t', v' sons have gone and entries have been freed, and nothing has come.
pub record Shrinks (t : Table) (v : View) (t' : Table) (v' : View) : Type 0 where
  pub names : v'.names ≡ v.names
  pub depth : v'.depth ≡ v.depth
  pub fewer : (x c : ℕ) → has c (v'.sons x) ≡ true → has c (v.sons x) ≡ true
  pub stay_free : (j : ℕ) → (t j).type ≡ empty → (t' j).type ≡ empty

-- What is left when i and all that is below it is deleted.
pub record Pruned (t : Table) (v : View) (i : ℕ) (t' : Table) (v' : View) : Type 0 where
  pub shrinks : Shrinks t v t' v'
  pub gone : (j : ℕ) → Below v i j → (t' j).type ≡ empty
  pub data_kept : (j : ℕ) → ¬ Below v i j → SameData (t j) (t' j)
  pub sons_kept : (j : ℕ) → ¬ Below v i j → v'.sons j ≡ v.sons j

-- The same for all that is below the sons xs of i, while i itself stays.
pub record PrunedSons (t : Table) (v : View) (i : ℕ) (xs : List ℕ) (t' : Table) (v' : View)
    : Type 0 where
  pub shrinks : Shrinks t v t' v'
  pub no_sons : v'.sons i ≡ []
  pub gone : (s j : ℕ) → has s xs ≡ true → Below v s j → (t' j).type ≡ empty
  pub data_kept : (j : ℕ) → ((s : ℕ) → has s xs ≡ true → ¬ Below v s j) → SameData (t j) (t' j)
  pub sons_kept :
      (j : ℕ) → j ≢ i → ((s : ℕ) → has s xs ≡ true → ¬ Below v s j) → v'.sons j ≡ v.sons j

pub PrunedSons-nil : (t : Table) (v : View) (i : ℕ) → v.sons i ≡ [] → PrunedSons t v i [] t v
PrunedSons-nil t v i e = record {
  shrinks = record { names = refl; depth = refl; fewer = λ x c m. m; stay_free = λ j z. z };
  no_sons = e;
  gone = λ s j m. cc;
  data_kept = λ j out. ground arith;
  sons_kept = λ j ne out. refl;
}

pub SameData-trans : (x y z : Inode) → SameData x y → SameData y z → SameData x z
SameData-trans x y z a b = ground arith

-- One round of the loop over the sons: the first one, s, is deleted, and then the others.
module _ (t t₁ t₂ : Table) (v v₂ : View) (loose : List ℕ) (i s : ℕ) (ss : List ℕ)
    (forest : IsForest t v loose) (h : i < fs_npages) (e : v.sons i ≡ s ∷ ss)
    (unhooked : Unhooked t t₁ (v.sons i) i s) (first : Pruned t₁ (shrunk v i s) s t₂ v₂) where
  is_son : (r : ℕ) → has r (s ∷ ss) ≡ true → has r (v.sons i) ≡ true
  is_son r m = subst (λ l. has r l ≡ true) (sym e) m

  once : IsDistinct (s ∷ ss)
  once = subst IsDistinct e (forest.distinct i h)

  s_son : has s (v.sons i) ≡ true
  s_son = is_son s (ground arith)

  not_above : (r x : ℕ) → has r (s ∷ ss) ≡ true → Below v r x → x ≢ i
  not_above r x m p same =
      not-Below-father forest i r h (is_son r m) (subst (λ z. Below v r z) same p)

  sub_shrunk : (x c : ℕ) → has c ((shrunk v i s).sons x) ≡ true → has c (v.sons x) ≡ true
  sub_shrunk x c m = elim (Bool-cases (has c (v.sons x))) [
    | inl yes_son ↦ yes_son
    | inr no_son ↦ ground (arith, not-has-erase c s (v.sons i))
  ]

  to_shrunk : (j : ℕ) → Below v s j → Below (shrunk v i s) s j
  to_shrunk j p =
      Below-mono v (shrunk v i s) s (λ x c q m. ground (arith, not_above s x (ground arith) q)) p

  from_shrunk : (j : ℕ) → Below (shrunk v i s) s j → Below v s j
  from_shrunk j p = Below-mono (shrunk v i s) v s (λ x c q m. sub_shrunk x c m) p

  to_second : (r j : ℕ) → has r ss ≡ true → Below v r j → Below v₂ r j
  to_second r j m p =
      Below-mono v v₂ r
        (λ x c q n.
          let apart : ¬ Below (shrunk v i s) s x = λ b.
            Below-disjoint forest i s r h s_son (is_son r (ground arith))
              (λ same. ground (arith, once.0)) (from_shrunk x b) q in
          subst (λ l. has c l ≡ true) (sym (first.sons_kept x apart))
            (ground (arith, not_above r x (ground arith) q)))
        p

  from_second : (r j : ℕ) → Below v₂ r j → Below v r j
  from_second r j p = Below-mono v₂ v r (λ x c q m. sub_shrunk x c (first.shrinks.fewer x c m)) p

  left : v₂.sons i ≡ ss
  left = first.sons_kept i (λ b. not-Below-father forest i s h s_son (from_shrunk i b)) ∙ rest
    where
      rest : (shrunk v i s).sons i ≡ ss
      rest = rw ==_refl (ap (erase s) e ∙ rw ==_refl refl)

  PrunedSons-cons :
      (t₃ : Table) (v₃ : View) → PrunedSons t₂ v₂ i ss t₃ v₃ → PrunedSons t v i (s ∷ ss) t₃ v₃
  PrunedSons-cons t₃ v₃ others = record {
    shrinks = record {
      names = others.shrinks.names ∙ first.shrinks.names;
      depth = others.shrinks.depth ∙ first.shrinks.depth;
      fewer = λ x c m. sub_shrunk x c (first.shrinks.fewer x c (others.shrinks.fewer x c m));
      stay_free = λ j z.
          others.shrinks.stay_free j
            (first.shrinks.stay_free j (ground (arith, unhooked.data_kept j)));
    };
    no_sons = others.no_sons;
    gone = λ r j m p. elim (Bool-cases (r == s)) [
      | inl here ↦
          let same : r ≡ s = ground arith in
          others.shrinks.stay_free j (first.gone j (to_shrunk j (subst (λ z. Below v z j) same p)))
      | inr there ↦ others.gone r j (ground arith) (to_second r j (ground arith) p)
    ];
    data_kept = λ j out. SameData-trans (t j) (t₁ j) (t₃ j) (unhooked.data_kept j) (
        SameData-trans (t₁ j) (t₂ j) (t₃ j)
          (first.data_kept j (λ b. out s (ground arith) (from_shrunk j b)))
          (others.data_kept j (λ r m b. out r (ground arith) (from_second r j b))));
    sons_kept = λ j ne out.
        others.sons_kept j ne (λ r m b. out r (ground arith) (from_second r j b))
        ∙ first.sons_kept j (λ b. out s (ground arith) (from_shrunk j b))
        ∙ ground arith;
  }

-- A deleter of loose inodes that have at most k levels below them.
abbrev pub Deletes : (Table → ℕ → Outcome Table) → ℕ → Type 0
Deletes delete k =
    (t : Table) (v : View) (loose : List ℕ) (i : ℕ)
    → IsForest t v (i ∷ loose)
    → has i loose ≡ false
    → deeper v.depth (v.depth i) fs_npages < k
    → (t' : Table) × (v' : View) × (delete t i ≡ ok t') × IsForest t' v' loose × Pruned t v i t' v'

module _ (delete : Table → ℕ → Outcome Table) (k : ℕ) (deletes : Deletes delete k) where
  delete_sons-step :
      (n : ℕ) (t : Table) (i s : ℕ) (t₂ t₃ : Table)
      → (t i).first_son ≡ some s
      → delete (advanced t i s) s ≡ ok t₂
      → delete_sons delete n t₂ i ≡ ok t₃
      → delete_sons delete (suc n) t i ≡ ok t₃
  unfolding delete_sons
  delete_sons-step n t i s t₂ t₃ first runs rest = rw (first, delete_sons, runs) rest

  pub delete_sons-PrunedSons :
      (n : ℕ) (xs : List ℕ) (t : Table) (v : View) (loose : List ℕ) (i : ℕ)
      → IsForest t v loose
      → i < fs_npages
      → v.sons i ≡ xs
      → length xs < n
      → deeper v.depth (v.depth i) fs_npages ≤ k
      → (t' : Table) × (v' : View) × (delete_sons delete n t i ≡ ok t')
        × IsForest t' v' loose
        × PrunedSons t v i xs t' v'
  unfolding delete_sons
  delete_sons-PrunedSons zero xs t v loose i forest h e lt fuel = absurd (omega arith)
  delete_sons-PrunedSons (suc n) [] t v loose i forest h e lt fuel = (
    t,
    v,
    rw (no_first_son t v loose i forest h e, delete_sons) refl,
    forest,
    PrunedSons-nil t v i e,
  )
  delete_sons-PrunedSons (suc n) (s ∷ ss) t v loose i forest h e lt fuel =
      let chain : Chain t (t i).first_son (s ∷ ss) =
        subst (Chain t (t i).first_son) e (forest.chain i h) in
      let distinct : IsDistinct (s ∷ ss) = subst IsDistinct e (forest.distinct i h) in
      let is_son : has s (v.sons i) ≡ true = rw e (ground arith) in
      let son = forest.son i s h is_son in
      let unhooked : Unhooked t (advanced t i s) (v.sons i) i s =
        subst (λ l. Unhooked t (advanced t i s) l i s) (sym e)
          (advanced-Unhooked t i s ss chain distinct) in
      let loosened = shrunk-IsForest t (advanced t i s) v loose i s forest h is_son unhooked in
      let new : has s loose ≡ false =
        false_of_ne _ λ m. ground (arith, (forest.adrift s m).nowhere i h) in
      let (t₂, v₂, runs₂, forest₂, first) =
        deletes (advanced t i s) (shrunk v i s) loose s loosened new
          (omega (arith, deeper-lt v.depth i s fs_npages son.deeper son.inside)) in
      let left : v₂.sons i ≡ ss =
        left t (advanced t i s) t₂ v v₂ loose i s ss forest h e unhooked first in
      let (t₃, v₃, runs₃, forest₃, others) =
        delete_sons-PrunedSons n ss t₂ v₂ loose i forest₂ h left (omega arith)
          (subst (λ d. deeper d (d i) fs_npages ≤ k) (sym first.shrinks.depth) fuel) in
      (
        t₃,
        v₃,
        delete_sons-step n t i s t₂ t₃ chain.0 runs₂ runs₃,
        forest₃,
        PrunedSons-cons t (advanced t i s) t₂ v v₂ loose i s ss forest h e unhooked first t₃ v₃
            others,
      )
