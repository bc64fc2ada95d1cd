-- ===== src/Pages/Tables/Map.antt =====
-- `map_page`: what the walk through the tables finds afterwards.
use clb_filesystem.Common.{ℕ, ◌+◌, ◌%◌, ◌^◌, ◌≤◌, ◌<◌, ◌≡◌, refl, arith, sym, ok, lt→ltb}
use clb_filesystem.Pages.{Pages, page_size, va_start}
use clb_filesystem.Pages.Free.{page_at}
use clb_filesystem.Pages.Tables.{
  MmStruct, map_table_entry, descend, top_table, map_page, max_process_pages, pmd_span, pud_span,
  pgd_span,
}
use clb_filesystem.Pages.Tables.Count.{free_pages}
use clb_filesystem.Pages.Tables.Level.{IsLevelled}
use clb_filesystem.Pages.Tables.Step.{descend_lem}
use clb_filesystem.Pages.Tables.Top.{Top, top_table_lem}
use clb_filesystem.Pages.Tables.Mapped.{Mapped, with_user_page, steps-Mapped}

map_page-steps :
    (s s₀ s₁ s₂ s₃ : Pages) (mm mm₀ mm₁ mm₂ mm₃ : MmStruct) (p₀ p₁ p₂ p₃ va page : ℕ)
    → top_table s mm ≡ ok (mm₀, s₀)
    → mm₀.pgd ≡ p₀
    → descend s₀ mm₀ p₀ pgd_span va ≡ ok (p₁, mm₁, s₁)
    → descend s₁ mm₁ p₁ pud_span va ≡ ok (p₂, mm₂, s₂)
    → descend s₂ mm₂ p₂ pmd_span va ≡ ok (p₃, mm₃, s₃)
    → mm₃.user_pages_count < max_process_pages
    → map_page s mm va page
      ≡ ok (with_user_page mm₃ va page, map_table_entry s₃ (p₃ + va_start) va page)
unfolding map_page
map_page-steps s s₀ s₁ s₂ s₃ mm mm₀ mm₁ mm₂ mm₃ p₀ p₁ p₂ p₃ va page r₀ e r₁ r₂ r₃ room =
    let r₁' = rw (sym e) at r₁ in
    rw (r₀, map_page) (rw r₁' (rw r₂ (rw r₃ (rw (lt→ltb _ _ room) refl))))

-- With four pages free and room in the task's arrays, `map_page` ends; the processor's walk through
-- the tables then finds the page at va, the tables keep their levels, the page is the last of the
-- task's recorded user pages, and at most four pages were taken for tables.
pub map_page-walk :
    (s : Pages) (mm : MmStruct) (level : ℕ → ℕ) (va page : ℕ)
    → IsLevelled s level
    → Top s level mm.pgd
    → 4 ≤ free_pages s
    → mm.kernel_pages_count + 4 < max_process_pages
    → mm.user_pages_count < max_process_pages
    → page % page_size ≡ 0
    → page < 2 ^ 48
    → (mm' : MmStruct) × (s' : Pages) × (level' : ℕ → ℕ) × (map_page s mm va page ≡ ok (mm', s'))
      × Mapped s mm level va page mm' s' level'
map_page-walk s mm level va page levelled is_top free kernel users aligned lt =
    let (t₀, mm₀, s₀, level₀, r₀, d₀) =
      top_table_lem s mm level levelled is_top (omega arith) (omega arith) in
    let (t₁, mm₁, s₁, level₁, r₁, d₁) =
      descend_lem s₀ mm₀ level₀ 0 t₀ pgd_span va d₀.levelled d₀.at (omega arith)
        (omega (arith, d₀.charged.free)) (omega (arith, d₀.charged.kernel_pages)) in
    let (t₂, mm₂, s₂, level₂, r₂, d₂) =
      descend_lem s₁ mm₁ level₁ 1 t₁ pud_span va d₁.levelled d₁.next (omega arith)
        (omega (arith, d₀.charged.free, d₁.charged.free))
        (omega (arith, d₀.charged.kernel_pages, d₁.charged.kernel_pages)) in
    let (t₃, mm₃, s₃, level₃, r₃, d₃) =
      descend_lem s₂ mm₂ level₂ 2 t₂ pmd_span va d₂.levelled d₂.next (omega arith)
        (omega (arith, d₀.charged.free, d₁.charged.free, d₂.charged.free))
        (omega
          (arith, d₀.charged.kernel_pages, d₁.charged.kernel_pages, d₂.charged.kernel_pages)) in
    let mapped =
      steps-Mapped s s₀ s₁ s₂ s₃ mm mm₀ mm₁ mm₂ mm₃ level level₀ level₁ level₂ level₃ t₀ t₁ t₂ t₃ va
        page d₀ d₁ d₂ d₃ aligned lt in
    (
      with_user_page mm₃ va page,
      map_table_entry s₃ (page_at t₃ + va_start) va page,
      level₃,
      map_page-steps s s₀ s₁ s₂ s₃ mm mm₀ mm₁ mm₂ mm₃ (page_at t₀) (page_at t₁) (page_at t₂)
          (page_at t₃) va page r₀ d₀.pgd r₁ r₂ r₃ (omega (arith, mapped.users)),
      mapped,
    )
