-- ===== src/Filesystem/Init/Begun.antt =====
-- The loop of `init_fs`: each round sets up one more inode, with a free page where one is left.
use clb_filesystem.Common.{
  ℕ, zero, suc, ◌+◌, ◌≤◌, ◌<◌, ◌≡◌, ◌≢◌, refl, inl, inr, ◌⊎◌, ok, arith, ap, sym, subst, ne→==,
  ==_refl,
}
use native.Mathlib.Decide.{ℕ_discrete}
use clb_filesystem.Inode.{Inode, Table, update, fs_npages}
use clb_filesystem.Inode.Name.{IsLaidOut}
use clb_filesystem.Pages.{Pages, paging_pages, va_start, allocate_kernel_page}
use clb_filesystem.Pages.Free.{Block, no_page, page, page_at, allocate_kernel_page-Block}
use clb_filesystem.Filesystem.{init_entries}
use clb_filesystem.Filesystem.Init.{Fresh, init_entry-Fresh}

-- Between s₀ and s, b was given out: it is the address of a page that was free in s₀ and is in use in
-- s, or 0, and then all pages are in use.
abbrev pub Owned : (s₀ s : Pages) → ℕ → Type 0
Owned s₀ s b =
    ((b ≡ 0) × ((k : ℕ) → k < paging_pages → s.mem_map k ≢ 0))
    ⊎ ((p : ℕ) × (p < paging_pages)
        × (b ≡ page_at p + va_start)
        × (s₀.mem_map p ≡ 0)
        × (s.mem_map p ≢ 0))

-- The first i entries are set up, and no two of them have the same page.
pub record Begun (s₀ : Pages) (i : ℕ) (t : Table) (s : Pages) : Type 0 where
  pub fresh : (j : ℕ) → j < i → Fresh j (t j)
  pub rest : (j : ℕ) → i ≤ j → j < fs_npages → IsLaidOut (t j)
  pub owned : (j : ℕ) → j < i → Owned s₀ s (t j).data_block
  pub used : (k : ℕ) → s₀.mem_map k ≢ 0 → s.mem_map k ≢ 0
  pub apart :
      (j k : ℕ) → j < k → k < i → ((t k).data_block ≡ 0) ⊎ ((t j).data_block ≢ (t k).data_block)

marked_used :
    (s s' : Pages) (i k : ℕ)
    → s'.mem_map ≡ update s.mem_map i 1
    → s.mem_map k ≢ 0
    → s'.mem_map k ≢ 0
marked_used s s' i k marked used = let m = ap (λ f. f k) marked in ground arith

Block-used : (s s' : Pages) (c k : ℕ) → Block s s' c → s.mem_map k ≢ 0 → s'.mem_map k ≢ 0
Block-used s s' c k (no_page e same full) used = subst (λ z. z.mem_map k ≢ 0) (sym same) used
Block-used s s' c k (page i e lt free marked) used = marked_used s s' i k marked used

Owned-kept : (s₀ s s' : Pages) (c b : ℕ) → Block s s' c → Owned s₀ s b → Owned s₀ s' b
Owned-kept s₀ s s' c b at (inl (e, full)) = inl (e, λ k lt. Block-used s s' c k at (full k lt))
Owned-kept s₀ s s' c b at (inr (p, lt, address, free, used)) =
    inr (p, lt, address, free, Block-used s s' c p at used)

Owned-new :
    (s₀ s s' : Pages) (b : ℕ)
    → ((k : ℕ) → s₀.mem_map k ≢ 0 → s.mem_map k ≢ 0)
    → Block s s' b
    → Owned s₀ s' b
Owned-new s₀ s s' b kept (no_page e same full) =
    inl (e, λ k lt. subst (λ z. z.mem_map k ≢ 0) (sym same) (full k lt))
Owned-new s₀ s s' b kept (page i e lt free marked) =
    inr (i, lt, e, was_free, λ z. let m = ap (λ f. f i) marked in ground arith)
  where
    was_free : s₀.mem_map i ≡ 0
    was_free = elim (ℕ_discrete (s₀.mem_map i) 0) [
      | yes zero_flag ↦ zero_flag
      | no some_flag ↦ absurd (kept i some_flag free)
    ]

new_apart : (s₀ s s' : Pages) (b c : ℕ) → Block s s' b → Owned s₀ s c → (b ≡ 0) ⊎ (c ≢ b)
new_apart s₀ s s' b c (no_page e same full) owned = inl e
new_apart s₀ s s' b c (page i e lt free marked) (inl (none_there, full)) =
    inr (λ z. absurd (omega arith))
new_apart s₀ s s' b c (page i e lt free marked) (inr (p, p_in, address, was_free, used)) =
    inr λ z. let same : p ≡ i = omega arith in used (subst (λ q. s.mem_map q ≡ 0) (sym same) free)

module _ (s₀ : Pages) (i : ℕ) (t : Table) (s : Pages) (begun : Begun s₀ i t s) (x : Inode)
    (s' : Pages) (new : Fresh i x) (at : Block s s' x.data_block) where
  abbrev t' : Table
  t' = update t i x

  here : t' i ≡ x
  here = rw ==_refl refl

  other : (j : ℕ) → j ≢ i → t' j ≡ t j
  other j ne = rw (ne→== j i ne) refl

  begun_apart :
      (j k : ℕ)
      → j < k
      → k < suc i
      → ((t' k).data_block ≡ 0) ⊎ ((t' j).data_block ≢ (t' k).data_block)
  begun_apart j k jk ki = elim (ℕ_discrete k i) [
    | yes last ↦
        subst (λ z. ((t' z).data_block ≡ 0) ⊎ ((t' j).data_block ≢ (t' z).data_block)) (sym last)
          (rw (here, other j (omega arith))
            (new_apart s₀ s s' x.data_block (t j).data_block at (begun.owned j (omega arith))))
    | no earlier ↦ rw (other k earlier, other j (omega arith)) (begun.apart j k jk (omega arith))
  ]

  pub Begun-suc : Begun s₀ (suc i) t' s'
  Begun-suc = record {
    fresh = λ j h. elim (ℕ_discrete j i) [
      | yes same ↦ subst (λ z. Fresh z (t' z)) (sym same) (rw here new)
      | no earlier ↦ rw (other j earlier) (begun.fresh j (omega arith))
    ];
    rest = λ j le h. rw (other j (omega arith)) (begun.rest j (omega arith) h);
    owned = λ j h. elim (ℕ_discrete j i) [
      | yes same ↦
          subst (λ z. Owned s₀ s' (t' z).data_block) (sym same)
            (rw here (Owned-new s₀ s s' x.data_block begun.used at))
      | no earlier ↦
          rw (other j earlier)
            (Owned-kept s₀ s s' x.data_block (t j).data_block at (begun.owned j (omega arith)))
    ];
    used = λ k h. Block-used s s' x.data_block k at (begun.used k h);
    apart = begun_apart;
  }

pub init_entries-Begun :
    (s₀ : Pages) (n i : ℕ) (t : Table) (s : Pages)
    → Begun s₀ i t s
    → i + n ≡ fs_npages
    → (t' : Table) × (s' : Pages) × (init_entries n i (t, s) ≡ ok (t', s'))
      × Begun s₀ fs_npages t' s'
unfolding init_entries
init_entries-Begun s₀ zero i t s begun e =
    let last : i ≡ fs_npages = omega arith in (t, s, refl, subst (λ z. Begun s₀ z t s) last begun)
init_entries-Begun s₀ (suc n) i t s begun e =
    let (x, runs, new, block) = init_entry-Fresh i t s (begun.rest i (omega arith) (omega arith)) in
    let s₁ = (allocate_kernel_page s).1 in
    let at = subst (Block s s₁) (sym block) (allocate_kernel_page-Block s) in
    let (t', s', rounds, done) =
      init_entries-Begun s₀ n (suc i) (update t i x) s₁ (Begun-suc s₀ i t s begun x s₁ new at)
        (omega arith) in
    (t', s', rw runs rounds, done)
