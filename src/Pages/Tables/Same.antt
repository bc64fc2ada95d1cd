-- ===== src/Pages/Tables/Same.antt =====
-- The walk depends on the tables only: what else changes in memory does not change it.
use clb_filesystem.Common.{ℕ, suc, ◌<◌, ◌≡◌, refl, ◌∙◌, arith, ap, Option, none, some}
use clb_filesystem.Pages.{Pages}
use clb_filesystem.Pages.Free.{page_at}
use clb_filesystem.Pages.Tables.{index_of, page_span, pmd_span, pud_span, pgd_span}
use clb_filesystem.Pages.Tables.Level.{entry, At, absent, child, IsLevelled}
use clb_filesystem.Pages.Tables.Step.{index_of-lt}
use clb_filesystem.Pages.Tables.Route.{lookup-none, lookup_clear}
use clb_filesystem.Pages.Tables.Walk.{lookup, lookup-table, walk}

-- A level of the walk has come to a table, or to nothing.
data Leads (s : Pages) (level : ℕ → ℕ) (l : ℕ) (o : Option ℕ) : Type 0 where
  nowhere : o ≡ none → Leads s level l o
  to_table : (t : ℕ) → o ≡ some (page_at t) → At s level l t → Leads s level l o

module _ (s s' : Pages) (level : ℕ → ℕ) (levelled : IsLevelled s level)
    (same : (l t k : ℕ) → At s level l t → l < 4 → k < 512 → entry s' t k ≡ entry s t k) where
  lookup-Leads :
      (l span va : ℕ) (o : Option ℕ)
      → l < 3
      → Leads s level l o
      → Leads s level (suc l) (lookup s.memory o span va)
  lookup-Leads l span va o low (nowhere e) =
      nowhere (ap (λ z. lookup s.memory z span va) e ∙ lookup-none s level span va)
  lookup-Leads l span va o low (to_table t e at) =
      let here = ap (λ z. lookup s.memory z span va) e in
      elim (levelled l t (index_of span va) at low (index_of-lt span va)) [
        | absent clear ↦ nowhere (here ∙ lookup_clear s level t span va clear)
        | child u leads next ↦ to_table u (here ∙ lookup-table s t u span va next.inside leads) next
      ]

  lookup-same_tables :
      (l span va : ℕ) (o : Option ℕ)
      → l < 4
      → Leads s level l o
      → lookup s'.memory o span va ≡ lookup s.memory o span va
  unfolding lookup entry index_of
  lookup-same_tables l span va o low (nowhere e) = rw (e, lookup) refl
  lookup-same_tables l span va o low (to_table t e at) =
      let kept = same l t (index_of span va) at low (index_of-lt span va) in
      rw (e, lookup) (rw kept refl)

  pub walk-same :
      (t va : ℕ) → At s level 0 t → walk s'.memory (page_at t) va ≡ walk s.memory (page_at t) va
  unfolding walk
  walk-same t va at =
      let l₀ = to_table t refl at in
      let l₁ = lookup-Leads 0 pgd_span va (some (page_at t)) (omega arith) l₀ in
      let l₂ = lookup-Leads 1 pud_span va _ (omega arith) l₁ in
      let l₃ = lookup-Leads 2 pmd_span va _ (omega arith) l₂ in
      rw (lookup-same_tables 0 pgd_span va _ (omega arith) l₀) (
        rw (lookup-same_tables 1 pud_span va _ (omega arith) l₁) (
          rw (lookup-same_tables 2 pmd_span va _ (omega arith) l₂)
            (lookup-same_tables 3 page_span va _ (omega arith) l₃)))
