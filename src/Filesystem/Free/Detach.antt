-- ===== src/Filesystem/Free/Detach.antt =====
-- How `free_inode` takes an entry out of the chain of its father's sons.
use native.Mathlib.Decide.{ℕ_discrete}
use clb_filesystem.Common.{
  ℕ, ◌<◌, ◌≡◌, ◌≢◌, refl, subst, sym, true, false, some, List, [], ◌∷◌, ok, arith, length, has,
  IsDistinct, erase, ==_refl, ne→==,
}
use clb_filesystem.Inode.{Ptr, points_to, Table, update, fs_npages}
use clb_filesystem.Filesystem.{unlink}
use clb_filesystem.Filesystem.Chain.{
  Chain, Chain-frame, Chain-erase, before, has-before, bypassed, unlink_loop-bypassed,
  unlink_loop_absent,
}
use clb_filesystem.Filesystem.Alloc.Attach.{SameData}

-- The entry i is gone from the chain of the sons of d.
pub record Unhooked (t u : Table) (sons : List ℕ) (d i : ℕ) : Type 0 where
  pub data_kept : (j : ℕ) → SameData (t j) (u j)
  pub sons_kept : (j : ℕ) → j ≢ d → (u j).first_son ≡ (t j).first_son
  pub brothers_kept : (c : ℕ) → has c sons ≡ false → (u c).brother ≡ (t c).brother
  pub chain : Chain u (u d).first_son (erase i sons)

module _ (t : Table) (d i : ℕ) where
  -- The father's `first_son` moves on to the brother of i.
  abbrev pub advanced : Table
  advanced = update t d (record (t d) { first_son = (t i).brother })

  pub advanced-Unhooked :
      (ss : List ℕ)
      → Chain t (t d).first_son (i ∷ ss)
      → IsDistinct (i ∷ ss)
      → Unhooked t advanced (i ∷ ss) d i
  advanced-Unhooked ss chain distinct = record {
    data_kept = λ j. ground arith;
    sons_kept = λ j h. ground arith;
    brothers_kept = λ c m. ground arith;
    chain =
        subst (λ l. Chain advanced (advanced d).first_son l) (sym left)
          (subst (λ p. Chain advanced p ss) (sym promoted)
            (Chain-frame t advanced (t i).brother ss chain.1 (λ c m. ground arith)));
  }
    where
      left : erase i (i ∷ ss) ≡ ss
      left = ground arith

      promoted : (advanced d).first_son ≡ (t i).brother
      promoted = ground arith

  unlink-first : (t d).first_son ≡ some i → unlink t i (some d) ≡ ok advanced
  unfolding unlink
  unlink-first e = rw (e, unlink, ==_refl i) refl

  bypassed-Unhooked :
      (s : ℕ) (ss : List ℕ)
      → Chain t (t d).first_son (s ∷ ss)
      → IsDistinct (s ∷ ss)
      → s ≢ i
      → has i ss ≡ true
      → Unhooked t (bypassed t i (before i s ss)) (s ∷ ss) d i
  bypassed-Unhooked s ss chain distinct other m = record {
    data_kept = λ j. ground arith;
    sons_kept = λ j h. ground arith;
    brothers_kept = λ c m'. ground (arith, has-before i s ss);
    chain =
        subst (λ l. Chain u (u d).first_son l) (sym left)
          (subst (λ p. Chain u p (s ∷ erase i ss)) (sym same_first)
            (Chain-erase t i u s ss (t d).first_son chain distinct m passes
              (λ c m' n o. ground arith)));
  }
    where
      u : Table
      u = bypassed t i (before i s ss)

      left : erase i (s ∷ ss) ≡ s ∷ erase i ss
      left = ground arith

      same_first : (u d).first_son ≡ (t d).first_son
      same_first = ground arith

      passes : (u (before i s ss)).brother ≡ (t i).brother
      passes = ground arith

  unlink-behind :
      (s : ℕ) (ss : List ℕ)
      → Chain t (t d).first_son (s ∷ ss)
      → s ≢ i
      → has i ss ≡ true
      → length ss < fs_npages
      → unlink t i (some d) ≡ ok (bypassed t i (before i s ss))
  unfolding unlink
  unlink-behind s ss chain other m short =
      rw (chain.0, unlink, ne→== s i other)
        (unlink_loop-bypassed t i fs_npages s ss (refl, chain.1) m short)

  -- In a chain that holds i, `free_inode` finds it and takes it out.
  pub unlink-Unhooked :
      (sons : List ℕ)
      → Chain t (t d).first_son sons
      → IsDistinct sons
      → has i sons ≡ true
      → length sons < fs_npages
      → (u : Table) × (unlink t i (some d) ≡ ok u) × Unhooked t u sons d i
  unlink-Unhooked [] chain distinct m short = cc
  unlink-Unhooked (s ∷ ss) chain distinct m short = elim (ℕ_discrete s i) [
    | yes same ↦
        let at_i : Chain t (t d).first_son (i ∷ ss) =
          subst (λ z. Chain t (t d).first_son (z ∷ ss)) same chain in
        let once : IsDistinct (i ∷ ss) = subst (λ z. IsDistinct (z ∷ ss)) same distinct in
        (
          advanced,
          unlink-first at_i.0,
          subst (λ z. Unhooked t advanced (z ∷ ss) d i) (sym same) (advanced-Unhooked ss at_i once),
        )
    | no other ↦
        let behind : has i ss ≡ true = ground arith in
        (
          bypassed t i (before i s ss),
          unlink-behind s ss chain other behind (omega arith),
          bypassed-Unhooked s ss chain distinct other behind,
        )
  ]

  not_pointed : (p : Ptr) (l : List ℕ) → Chain t p l → has i l ≡ false → points_to p i ≡ false
  not_pointed p [] chain m = ground arith
  not_pointed p (x ∷ xs) chain m = ground arith

  -- In a chain without i, the walk changes nothing.
  pub unlink_absent :
      (sons : List ℕ)
      → Chain t (t d).first_son sons
      → has i sons ≡ false
      → length sons < fs_npages
      → unlink t i (some d) ≡ ok t
  unfolding unlink
  unlink_absent sons chain m short =
      rw (not_pointed (t d).first_son sons chain m)
        (unlink_loop_absent t i fs_npages (t d).first_son sons chain m short)
