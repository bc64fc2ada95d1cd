-- ===== src/Pages/Tables/Isolation.antt =====
-- `map_page` and the other translations: those of other tasks, and of other pages of the task.
use native.Mathlib.Decide.{ℕ_discrete}
use clb_filesystem.Common.{
  ℕ, ◌+◌, ◌/◌, ◌%◌, ◌^◌, ◌≤◌, ◌<◌, ◌≡◌, ◌≢◌, ◌⊎◌, inl, inr, refl, ◌∙◌, arith, ap, sym, subst, some,
  ok,
}
use clb_filesystem.Pages.{Pages, page_size}
use clb_filesystem.Pages.Free.{page_at}
use clb_filesystem.Pages.Tables.{
  MmStruct, index_of, page_span, pmd_span, pud_span, pgd_span, map_page, max_process_pages,
}
use clb_filesystem.Pages.Tables.Count.{free_pages}
use clb_filesystem.Pages.Tables.Level.{entry, At, IsLevelled}
use clb_filesystem.Pages.Tables.Apart.{IsApart}
use clb_filesystem.Pages.Tables.Step.{index_of-lt}
use clb_filesystem.Pages.Tables.Top.{Top}
use clb_filesystem.Pages.Tables.Walk.{lookup, walk}
use clb_filesystem.Pages.Tables.Route.{
  Route, walk-Route, walk-found, Route-unique, indices-page, lookup_clear,
}
use clb_filesystem.Pages.Tables.Map.{map_page-walk}
use clb_filesystem.Pages.Tables.Mapped.{Mapped}

-- The top-level table t is another one, or va' is in another page of the 2 ^ 36 pages.
abbrev pub IsElsewhere : (pgd va t va' : ℕ) → Type 0
IsElsewhere pgd va t va' = (page_at t ≢ pgd) ⊎ (va' / page_size % 2 ^ 36 ≢ va / page_size % 2 ^ 36)

lookup-leaf :
    (s s' : Pages) (t va : ℕ)
    → entry s' t (index_of page_span va) ≡ entry s t (index_of page_span va)
    → lookup s'.memory (some (page_at t)) page_span va
      ≡ lookup s.memory (some (page_at t)) page_span va
unfolding lookup entry index_of
lookup-leaf s s' t va same = rw (same, lookup) refl

module _ (s : Pages) (mm : MmStruct) (level : ℕ → ℕ) (va page : ℕ) (mm' : MmStruct) (s' : Pages)
    (level' : ℕ → ℕ) (mapped : Mapped s mm level va page mm' s' level') (t va' : ℕ)
    (r : Route s level t va') (apart : IsApart s level) where
  -- An entry above the tables of pages.
  upper :
      (l u k v : ℕ)
      → At s level l u
      → l < 3
      → k < 512
      → entry s u k ≡ page_at v + 3
      → entry s' u k ≡ page_at v + 3
  upper l u k v at low lt leads =
      let at' = mapped.tables l u at in
      let ne : u ≢ mapped.route.third =
        λ same. absurd (omega (arith, ap level' same, at'.of_level, mapped.route.at₃.of_level)) in
      mapped.keeps l u k at (omega arith) lt (inl ne) (λ z. absurd (omega (arith, z, leads)))
      ∙ leads

  after : Route s' level' t va'
  after = record {
    first = r.first;
    second = r.second;
    third = r.third;
    at = mapped.tables 0 t r.at;
    at₁ = mapped.tables 1 r.first r.at₁;
    at₂ = mapped.tables 2 r.second r.at₂;
    at₃ = mapped.tables 3 r.third r.at₃;
    link =
        upper 0 t (index_of pgd_span va') r.first r.at (omega arith) (index_of-lt pgd_span va')
          r.link;
    link₁ =
        upper 1 r.first (index_of pud_span va') r.second r.at₁ (omega arith)
          (index_of-lt pud_span va') r.link₁;
    link₂ =
        upper 2 r.second (index_of pmd_span va') r.third r.at₂ (omega arith)
          (index_of-lt pmd_span va') r.link₂;
  }

  -- The table's page was in use before.
  same_pgd : t ≡ mapped.table → page_at t ≡ mm.pgd
  same_pgd same = elim mapped.kept_or_new [
    | inl kept ↦ ap page_at same ∙ sym mapped.pgd ∙ kept
    | inr new ↦ absurd (r.at.used (subst (λ z. s.mem_map z ≡ 0) (sym same) new))
  ]

  -- The entry of va' in its table of pages is not the one that was written.
  other_leaf :
      IsElsewhere mm.pgd va t va'
      → (r.third ≢ mapped.route.third) ⊎ (index_of page_span va' ≢ index_of page_span va)
  unfolding after
  other_leaf elsewhere = elim (ℕ_discrete r.third mapped.route.third) [
    | no ne ↦ inl ne
    | yes same ↦ inr λ index.
        let (tables, e₀, e₁, e₂) =
          Route-unique s' level' t mapped.table va' va after mapped.route (mapped.apart apart)
            same in
        elim elsewhere [
          | inl ne ↦ ne (same_pgd tables)
          | inr ne ↦ ne (indices-page va' va e₀ e₁ e₂ index)
        ]
  ]

  walk-kept :
      (q : ℕ)
      → walk s.memory (page_at t) va' ≡ some q
      → entry s r.third (index_of page_span va') ≢ 0
      → IsElsewhere mm.pgd va t va'
      → walk s'.memory (page_at t) va' ≡ some q
  unfolding after
  walk-kept q found some_entry elsewhere =
      let same =
        mapped.keeps 3 r.third (index_of page_span va') r.at₃ (omega arith)
          (index_of-lt page_span va') (other_leaf elsewhere) some_entry in
      walk-Route s' level' t va' after
      ∙ lookup-leaf s s' r.third va' same
      ∙ sym (walk-Route s level t va' r)
      ∙ found

some_leaf :
    (s : Pages) (level : ℕ → ℕ) (t va q : ℕ) (r : Route s level t va)
    → walk s.memory (page_at t) va ≡ some q
    → entry s r.third (index_of page_span va) ≢ 0
some_leaf s level t va q r found clear =
    let nothing = walk-Route s level t va r ∙ lookup_clear s level r.third page_span va clear in
    let clash = sym nothing ∙ found in cc

-- With four pages free and room in the task's arrays, and tables that are not shared, `map_page` ends
-- and maps the page, and any other translation stays: where the walk from the top-level table t found
-- the page q at va', and t is not the task's table or va' is in another page of the address space than
-- va, it finds q there afterwards. The tables are still not shared.
pub map_page-kept :
    (s : Pages) (mm : MmStruct) (level : ℕ → ℕ) (va page t va' q : ℕ)
    → IsLevelled s level
    → IsApart s level
    → Top s level mm.pgd
    → 4 ≤ free_pages s
    → mm.kernel_pages_count + 4 < max_process_pages
    → mm.user_pages_count < max_process_pages
    → page % page_size ≡ 0
    → page < 2 ^ 48
    → At s level 0 t
    → walk s.memory (page_at t) va' ≡ some q
    → IsElsewhere mm.pgd va t va'
    → (mm' : MmStruct) × (s' : Pages) × (level' : ℕ → ℕ) × (map_page s mm va page ≡ ok (mm', s'))
      × (walk s'.memory mm'.pgd va ≡ some page)
      × (walk s'.memory (page_at t) va' ≡ some q)
      × IsLevelled s' level'
      × IsApart s' level'
map_page-kept s mm level va page t va' q levelled apart is_top free kernel users aligned lt at found
      elsewhere =
    let (mm', s', level', runs, mapped) =
      map_page-walk s mm level va page levelled is_top free kernel users aligned lt in
    let r = walk-found s level t va' q levelled at found in
    (
      mm',
      s',
      level',
      runs,
      mapped.walks,
      walk-kept s mm level va page mm' s' level' mapped t va' r apart q found
          (some_leaf s level t va' q r found) elsewhere,
      mapped.levelled,
      mapped.apart apart,
    )
