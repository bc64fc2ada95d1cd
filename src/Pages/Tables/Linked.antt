-- ===== src/Pages/Tables/Linked.antt =====
-- The last step of `map_page`: the page in the table of pages.
use clb_filesystem.Common.{ℕ, ◌+◌, ◌%◌, ◌^◌, ◌<◌, ◌≡◌, ◌∙◌, arith, some}
use clb_filesystem.Pages.{Pages, page_size, va_start}
use clb_filesystem.Pages.Free.{page_at}
use clb_filesystem.Pages.Tables.{
  index_of, page_entry, map_table_entry, page_span, pmd_span, pud_span, pgd_span,
}
use clb_filesystem.Pages.Tables.Level.{entry, put, At, put-Kept}
use clb_filesystem.Pages.Tables.Step.{index_of-lt}
use clb_filesystem.Pages.Tables.Walk.{walk, lookup-table, lookup-page}

-- The last table, when the tables of the upper levels are linked.
pub walk-linked :
    (s : Pages) (level : ℕ → ℕ) (t₀ t₁ t₂ t₃ va page : ℕ)
    → At s level 0 t₀
    → At s level 1 t₁
    → At s level 2 t₂
    → At s level 3 t₃
    → entry s t₀ (index_of pgd_span va) ≡ page_at t₁ + 3
    → entry s t₁ (index_of pud_span va) ≡ page_at t₂ + 3
    → entry s t₂ (index_of pmd_span va) ≡ page_at t₃ + 3
    → page % page_size ≡ 0
    → page < 2 ^ 48
    → walk (map_table_entry s (page_at t₃ + va_start) va page).memory (page_at t₀) va ≡ some page
unfolding walk map_table_entry
walk-linked s level t₀ t₁ t₂ t₃ va page a₀ a₁ a₂ a₃ e₀ e₁ e₂ aligned lt =
    let k = index_of page_span va in
    let s' = put s t₃ k (page_entry page) in
    let kept = put-Kept s level 3 t₃ k (page_entry page) a₃ (index_of-lt page_span va) in
    let l₀ =
      lookup-table s' t₀ t₁ pgd_span va a₁.inside
        (kept.above 0 t₀ (index_of pgd_span va) a₀ (omega arith) (index_of-lt pgd_span va) ∙ e₀) in
    let l₁ =
      lookup-table s' t₁ t₂ pud_span va a₂.inside
        (kept.above 1 t₁ (index_of pud_span va) a₁ (omega arith) (index_of-lt pud_span va) ∙ e₁) in
    let l₂ =
      lookup-table s' t₂ t₃ pmd_span va a₃.inside
        (kept.above 2 t₂ (index_of pmd_span va) a₂ (omega arith) (index_of-lt pmd_span va) ∙ e₂) in
    rw l₀ (rw l₁ (rw l₂ (lookup-page s t₃ va page aligned lt)))
