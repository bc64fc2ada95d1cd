-- ===== src/Filesystem/Alloc/Attach.antt =====
-- The scan of `alloc_inode` for an entry, and where it hangs the entry into the chain of brothers.
use clb_filesystem.Common.{
  ℕ, zero, suc, ◌+◌, ◌≤◌, ◌<◌, ◌≡◌, ◌≢◌, refl, subst, sym, inl, inr, false, none, some, List, [],
  ◌∷◌, ◌++◌, ok, arith, length, has, IsDistinct, Bool-cases, ==_refl, ne→==, ◌==◌,
}
use clb_filesystem.Inode.{empty, Inode, Table, update, fs_npages}
use clb_filesystem.Filesystem.{last_loop, find_last_child, find_empty, attach}
use clb_filesystem.Filesystem.Chain.{
  Chain, Chain-frame, Chain-append, last_of, has-last_of, last_loop-last_of,
}

-- The scan finds the lowest entry that is not in use.
pub find_empty-some :
    (n i j : ℕ) (t : Table)
    → find_empty n i t ≡ some j
    → (i ≤ j) × (j < i + n) × ((t j).type ≡ empty)
unfolding find_empty
find_empty-some zero i j t h = cc
find_empty-some (suc n) i j t h = ground (arith, find_empty-some n (suc i) j t)

pub find_empty_lowest :
    (n i j k : ℕ) (t : Table) → find_empty n i t ≡ some j → i ≤ k → k < j → (t k).type ≢ empty
unfolding find_empty
find_empty_lowest zero i j k t h le lt = cc
find_empty_lowest (suc n) i j k t h le lt = elim (Bool-cases (i == k)) [
  | inl hit ↦ λ e. ground arith
  | inr miss ↦ ground (arith, find_empty_lowest n (suc i) j k t)
]

pub find_empty-none :
    (n i k : ℕ) (t : Table) → find_empty n i t ≡ none → i ≤ k → k < i + n → (t k).type ≢ empty
unfolding find_empty
find_empty-none zero i k t h le lt = absurd (omega arith)
find_empty-none (suc n) i k t h le lt = elim (Bool-cases (i == k)) [
  | inl hit ↦ λ e. ground arith
  | inr miss ↦ ground (arith, find_empty-none n (suc i) k t)
]

-- Every field but the pointers to other inodes of the chain.
abbrev pub SameData : Inode → Inode → Type 0
SameData x y =
    (y.id ≡ x.id)
    × (y.ref ≡ x.ref)
    × (y.type ≡ x.type)
    × (y.size ≡ x.size)
    × (y.father ≡ x.father)
    × (y.name ≡ x.name)
    × (y.data_block ≡ x.data_block)

-- The entry x hangs as i behind the sons of d.
pub record Attached (t t' : Table) (sons : List ℕ) (x : Inode) (d i : ℕ) : Type 0 where
  pub data_kept : (j : ℕ) → j ≢ i → SameData (t j) (t' j)
  pub data_new : SameData (record x { father = some d }) (t' i)
  pub sons_kept : (j : ℕ) → j ≢ d → j ≢ i → (t' j).first_son ≡ (t j).first_son
  pub sons_new : (t' i).first_son ≡ x.first_son
  pub brothers_kept : (c : ℕ) → c ≢ i → has c sons ≡ false → (t' c).brother ≡ (t c).brother
  pub chain : Chain t' (t' d).first_son (sons ++ i ∷ [])

module _ (t : Table) (x : Inode) (d i : ℕ) where
  abbrev hung : Table
  hung = update (update t i x) i (record (update t i x i) { father = some d })

  hung_at : hung i ≡ record x { father = some d }
  hung_at = rw (==_refl i) refl

  hung_other : (j : ℕ) → j ≢ i → hung j ≡ t j
  hung_other j h = rw (ne→== j i h) refl

  pub Attached-first :
      d ≢ i
      → x.brother ≡ none
      → (t d).first_son ≡ none
      → (t' : Table) × (attach (update t i x) i (some d) ≡ ok t') × Attached t t' [] x d i
  unfolding attach find_last_child
  Attached-first ne end none_yet = (
    update hung d (record (hung d) { first_son = some i }),
    ground arith,
    record {
      data_kept = λ j h. ground arith;
      data_new = ground arith;
      sons_kept = λ j h k. ground arith;
      sons_new = ground arith;
      brothers_kept = λ c h m. ground arith;
      chain = ground arith;
    },
  )

  pub Attached-behind :
      (s : ℕ) (ss : List ℕ)
      → d ≢ i
      → x.brother ≡ none
      → Chain t (t d).first_son (s ∷ ss)
      → IsDistinct (s ∷ ss)
      → has i (s ∷ ss) ≡ false
      → length ss < fs_npages
      → (t (last_of s ss)).id ≡ last_of s ss
      → (t' : Table) × (attach (update t i x) i (some d) ≡ ok t') × Attached t t' (s ∷ ss) x d i
  unfolding attach find_last_child
  Attached-behind s ss ne end chain distinct out short id = (
    t',
    runs,
    record {
      data_kept = λ j h. ground arith;
      data_new = ground arith;
      sons_kept = λ j h k. ground arith;
      sons_new = ground arith;
      brothers_kept = λ c h m. ground (arith, has-last_of s ss);
      chain =
          subst (λ p. Chain t' p (s ∷ ss ++ i ∷ [])) (sym same_first)
            (Chain-append t t' s i ss (t d).first_son chain distinct (ground arith)
              (ground (arith, b_ne)) (λ c m n. ground arith));
    },
  )
    where
      b : ℕ
      b = last_of s ss

      b_ne : b ≢ i
      b_ne e = ground (arith, has-last_of s ss)

      t' : Table
      t' = update hung b (record (hung b) { brother = some i })

      same_first : (t' d).first_son ≡ (t d).first_son
      same_first = ground arith

      chain_hung : Chain hung (some s) (s ∷ ss)
      chain_hung = Chain-frame t hung (some s) (s ∷ ss) (refl, chain.1) (λ c m. ground arith)

      walk : last_loop fs_npages hung s ≡ ok b
      walk =
          rw (last_loop-last_of fs_npages hung s ss chain_hung short)
            (ground (arith, hung_other (last_of s ss) b_ne))

      first : (hung d).first_son ≡ some s
      first = ground arith

      runs : attach (update t i x) i (some d) ≡ ok t'
      runs = rw (attach, find_last_child, first, walk) refl
