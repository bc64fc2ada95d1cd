-- ===== src/Pages/Tables/Mapped.antt =====
-- The four steps of `map_page` put together.
use clb_filesystem.Common.{
  ℕ, suc, ◌+◌, ◌%◌, ◌^◌, ◌≤◌, ◌<◌, ◌≡◌, ◌≢◌, ◌⊎◌, inl, inr, refl, ◌∙◌, arith, ap, some,
}
use clb_filesystem.Inode.{update}
use clb_filesystem.Pages.{Pages, page_size, va_start}
use clb_filesystem.Pages.Free.{page_at}
use clb_filesystem.Pages.Tables.{
  MmStruct, index_of, page_entry, map_table_entry, page_span, pmd_span, pud_span, pgd_span,
}
use clb_filesystem.Pages.Tables.Count.{free_pages, free_pages-memory}
use clb_filesystem.Pages.Tables.Level.{
  entry, put, At, Kept, IsSameBelow, put-IsSameBelow, IsLevelled, put-Kept, put-IsLevelled,
}
use clb_filesystem.Pages.Tables.Step.{index_of-lt, Descended}
use clb_filesystem.Pages.Tables.Top.{Top, top, Topped}
use clb_filesystem.Pages.Tables.Route.{Route}
use clb_filesystem.Pages.Tables.Apart.{IsApart, Keeps, Keeps-trans, put-other, put_page-IsApart}
use clb_filesystem.Pages.Tables.Walk.{walk, page_entry-page}
use clb_filesystem.Pages.Tables.Linked.{walk-linked}

-- The walk finds the page; the tables are in levels again; the page is recorded as the task's.
pub record Mapped (s : Pages) (mm : MmStruct) (level : ℕ → ℕ) (va page : ℕ) (mm' : MmStruct)
    (s' : Pages) (level' : ℕ → ℕ) : Type 0 where
  pub walks : walk s'.memory mm'.pgd va ≡ some page
  pub levelled : IsLevelled s' level'
  pub top_level : Top s' level' mm'.pgd
  pub recorded :
      mm'.user_pages
      ≡ update mm.user_pages mm.user_pages_count (record { phys_addr = page; virt_addr = va })
  pub users : mm'.user_pages_count ≡ suc mm.user_pages_count
  pub kernel_pages : mm'.kernel_pages_count ≤ mm.kernel_pages_count + 4
  pub free : free_pages s ≤ free_pages s' + 4
  pub table : ℕ
  pub pgd : mm'.pgd ≡ page_at table
  pub kept_or_new : (mm'.pgd ≡ mm.pgd) ⊎ (s.mem_map table ≡ 0)
  pub route : Route s' level' table va
  pub keeps :
      (l t k : ℕ)
      → At s level l t
      → l < 4
      → k < 512
      → (t ≢ route.third) ⊎ (k ≢ index_of page_span va)
      → entry s t k ≢ 0
      → entry s' t k ≡ entry s t k
  pub apart : IsApart s level → IsApart s' level'
  pub tables : (l t : ℕ) → At s level l t → At s' level' l t
  pub below : IsSameBelow s s'

abbrev pub with_user_page : MmStruct → (va page : ℕ) → MmStruct
with_user_page mm va page = record mm {
  user_pages_count = suc mm.user_pages_count;
  user_pages =
      update mm.user_pages mm.user_pages_count (record { phys_addr = page; virt_addr = va });
}

module _ (s s₀ s₁ s₂ s₃ : Pages) (mm mm₀ mm₁ mm₂ mm₃ : MmStruct)
    (level level₀ level₁ level₂ level₃ : ℕ → ℕ) (t₀ t₁ t₂ t₃ va page : ℕ)
    (d₀ : Topped s mm level t₀ mm₀ s₀ level₀)
    (d₁ : Descended s₀ mm₀ level₀ 0 t₀ (index_of pgd_span va) t₁ mm₁ s₁ level₁)
    (d₂ : Descended s₁ mm₁ level₁ 1 t₁ (index_of pud_span va) t₂ mm₂ s₂ level₂)
    (d₃ : Descended s₂ mm₂ level₂ 2 t₂ (index_of pmd_span va) t₃ mm₃ s₃ level₃)
    (aligned : page % page_size ≡ 0) (lt : page < 2 ^ 48) where
  top_in₁ : At s₁ level₁ 0 t₀
  top_in₁ = d₁.kept.tables 0 t₀ d₀.at

  top_in₂ : At s₂ level₂ 0 t₀
  top_in₂ = d₂.kept.tables 0 t₀ top_in₁

  top_in₃ : At s₃ level₃ 0 t₀
  top_in₃ = d₃.kept.tables 0 t₀ top_in₂

  first_linked : entry s₃ t₀ (index_of pgd_span va) ≡ page_at t₁ + 3
  first_linked =
      d₃.kept.above 0 t₀ (index_of pgd_span va) top_in₂ (omega arith) (index_of-lt pgd_span va)
      ∙ d₂.kept.above 0 t₀ (index_of pgd_span va) top_in₁ (omega arith) (index_of-lt pgd_span va)
      ∙ d₁.linked

  second_linked : entry s₃ t₁ (index_of pud_span va) ≡ page_at t₂ + 3
  second_linked =
      d₃.kept.above 1 t₁ (index_of pud_span va) (d₂.kept.tables 1 t₁ d₁.next) (omega arith)
        (index_of-lt pud_span va)
      ∙ d₂.linked

  same_pgd : mm₃.pgd ≡ page_at t₀
  same_pgd = d₃.pgd ∙ d₂.pgd ∙ d₁.pgd ∙ d₀.pgd

  abbrev mm₄ : MmStruct
  mm₄ = with_user_page mm₃ va page

  abbrev s₄ : Pages
  s₄ = map_table_entry s₃ (page_at t₃ + va_start) va page

  same_count : mm₃.user_pages_count ≡ mm.user_pages_count
  same_count = d₃.charged.users ∙ d₂.charged.users ∙ d₁.charged.users ∙ d₀.charged.users

  same_user_pages : mm₃.user_pages ≡ mm.user_pages
  same_user_pages =
      d₃.charged.user_pages ∙ d₂.charged.user_pages ∙ d₁.charged.user_pages ∙ d₀.charged.user_pages

  last-IsLevelled : IsLevelled s₄ level₃
  unfolding map_table_entry
  last-IsLevelled =
      let word : page_entry page < 2 ^ 64 = omega (arith, page_entry-page page aligned) in
      put-IsLevelled s₃ level₃ 3 t₃ (index_of page_span va) (page_entry page) d₃.next
        (index_of-lt page_span va) word (λ h. absurd (omega arith)) d₃.levelled

  last_top : At s₄ level₃ 0 t₀
  unfolding map_table_entry
  last_top =
      (put-Kept s₃ level₃ 3 t₃ (index_of page_span va) (page_entry page) d₃.next
          (index_of-lt page_span va)).tables
        0 t₀ top_in₃

  last_free : free_pages s ≤ free_pages s₄ + 4
  unfolding map_table_entry
  last_free = omega (
    arith,
    d₀.charged.free,
    d₁.charged.free,
    d₂.charged.free,
    d₃.charged.free,
    free_pages-memory s₃ s₄.memory,
  )

  last_tables : (l t : ℕ) → At s level l t → At s₄ level₃ l t
  unfolding map_table_entry
  last_tables l t at =
      let at₀ = d₀.kept.tables l t at in
      let at₃ = d₃.kept.tables l t (d₂.kept.tables l t (d₁.kept.tables l t at₀)) in
      (put-Kept s₃ level₃ 3 t₃ (index_of page_span va) (page_entry page) d₃.next
          (index_of-lt page_span va)).tables
        l t at₃

  last_below : IsSameBelow s s₄
  unfolding map_table_entry
  last_below a lt =
      put-IsSameBelow s₃ t₃ (index_of page_span va) (page_entry page) a lt
      ∙ d₃.charged.below a lt
      ∙ d₂.charged.below a lt
      ∙ d₁.charged.below a lt
      ∙ d₀.charged.below a lt

  last_kept_or_new : (mm₃.pgd ≡ mm.pgd) ⊎ (s.mem_map t₀ ≡ 0)
  last_kept_or_new = elim d₀.kept_or_new [
    | inl same ↦ inl (d₃.pgd ∙ d₂.pgd ∙ d₁.pgd ∙ same)
    | inr new ↦ inr new
  ]

  abbrev last_kept : Kept s₃ level₃ (put s₃ t₃ (index_of page_span va) (page_entry page)) level₃ 3
  last_kept =
      put-Kept s₃ level₃ 3 t₃ (index_of page_span va) (page_entry page) d₃.next
        (index_of-lt page_span va)

  last_route : Route s₄ level₃ t₀ va
  unfolding map_table_entry
  last_route =
      let at₁ = d₃.kept.tables 1 t₁ (d₂.kept.tables 1 t₁ d₁.next) in
      let at₂ = d₃.kept.tables 2 t₂ d₂.next in
      record {
        first = t₁;
        second = t₂;
        third = t₃;
        at = last_top;
        at₁ = last_kept.tables 1 t₁ at₁;
        at₂ = last_kept.tables 2 t₂ at₂;
        at₃ = last_kept.tables 3 t₃ d₃.next;
        link =
            last_kept.above 0 t₀ (index_of pgd_span va) top_in₃ (omega arith)
              (index_of-lt pgd_span va)
            ∙ first_linked;
        link₁ =
            last_kept.above 1 t₁ (index_of pud_span va) at₁ (omega arith) (index_of-lt pud_span va)
            ∙ second_linked;
        link₂ =
            last_kept.above 2 t₂ (index_of pmd_span va) at₂ (omega arith) (index_of-lt pmd_span va)
            ∙ d₃.linked;
      }

  steps-Keeps : Keeps s level s₃
  steps-Keeps = Keeps-trans s s₀ s₃ level level₀ d₀.kept.tables d₀.keeps (
      Keeps-trans s₀ s₁ s₃ level₀ level₁ d₁.kept.tables d₁.keeps
        (Keeps-trans s₁ s₂ s₃ level₁ level₂ d₂.kept.tables d₂.keeps d₃.keeps))

  last_keeps :
      (l t k : ℕ)
      → At s level l t
      → l < 4
      → k < 512
      → (t ≢ t₃) ⊎ (k ≢ index_of page_span va)
      → entry s t k ≢ 0
      → entry s₄ t k ≡ entry s t k
  unfolding map_table_entry
  last_keeps l t k at low lt differs some_entry =
      put-other s₃ level₃ 3 t₃ (index_of page_span va) (page_entry page) d₃.next
        (index_of-lt page_span va) t k lt differs
      ∙ steps-Keeps l t k at low lt some_entry

  last-IsApart : IsApart s level → IsApart s₄ level₃
  unfolding map_table_entry
  last-IsApart a =
      put_page-IsApart s₃ level₃ 3 t₃ (index_of page_span va) (page_entry page) d₃.next
        (index_of-lt page_span va) refl (d₃.apart (d₂.apart (d₁.apart (d₀.apart a))))

  pub steps-Mapped : Mapped s mm level va page mm₄ s₄ level₃
  unfolding last_route
  steps-Mapped = record {
    walks =
        ap (λ p. walk s₄.memory p va) same_pgd
        ∙ walk-linked s₃ level₃ t₀ t₁ t₂ t₃ va page top_in₃
            (d₃.kept.tables 1 t₁ (d₂.kept.tables 1 t₁ d₁.next)) (d₃.kept.tables 2 t₂ d₂.next)
            d₃.next first_linked second_linked d₃.linked aligned lt;
    levelled = last-IsLevelled;
    top_level = top t₀ same_pgd last_top;
    recorded = rw (same_count, same_user_pages) refl;
    users = ap suc same_count;
    kernel_pages = omega (
      arith, d₀.charged.kernel_pages, d₁.charged.kernel_pages, d₂.charged.kernel_pages,
      d₃.charged.kernel_pages,
    );
    free = last_free;
    table = t₀;
    pgd = same_pgd;
    kept_or_new = last_kept_or_new;
    route = last_route;
    keeps = last_keeps;
    apart = λ a. last-IsApart a;
    tables = last_tables;
    below = last_below;
  }
