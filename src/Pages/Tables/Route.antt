-- ===== src/Pages/Tables/Route.antt =====
-- The tables that a walk goes through.
use clb_filesystem.Common.{
  ℕ, ◌+◌, ◌/◌, ◌%◌, ◌^◌, ◌≡◌, ◌≢◌, refl, ◌∙◌, arith, ap, sym, Option, none, some,
}
use clb_filesystem.Pages.{Pages}
use clb_filesystem.Pages.Free.{page_at}
use clb_filesystem.Pages.Tables.{index_of, page_span, pmd_span, pud_span, pgd_span}
use clb_filesystem.Pages.Tables.Level.{entry, At, absent, child, IsLevelled}
use clb_filesystem.Pages.Tables.Apart.{IsApart}
use clb_filesystem.Pages.Tables.Step.{index_of-lt}
use clb_filesystem.Pages.Tables.Walk.{lookup, lookup-table, walk}

-- From the top-level table in page t the entries for va lead to a table of pages.
pub record Route (s : Pages) (level : ℕ → ℕ) (t va : ℕ) : Type 0 where
  pub first : ℕ
  pub second : ℕ
  pub third : ℕ
  pub at : At s level 0 t
  pub at₁ : At s level 1 first
  pub at₂ : At s level 2 second
  pub at₃ : At s level 3 third
  pub link : entry s t (index_of pgd_span va) ≡ page_at first + 3
  pub link₁ : entry s first (index_of pud_span va) ≡ page_at second + 3
  pub link₂ : entry s second (index_of pmd_span va) ≡ page_at third + 3

module _ (s : Pages) (level : ℕ → ℕ) where
  pub walk-Route :
      (t va : ℕ) (r : Route s level t va)
      → walk s.memory (page_at t) va ≡ lookup s.memory (some (page_at r.third)) page_span va
  unfolding walk
  walk-Route t va r = rw (lookup-table s t r.first pgd_span va r.at₁.inside r.link) (
      rw (lookup-table s r.first r.second pud_span va r.at₂.inside r.link₁)
        (rw (lookup-table s r.second r.third pmd_span va r.at₃.inside r.link₂) refl))

  pub lookup-none : (span va : ℕ) → lookup s.memory none span va ≡ none
  unfolding lookup
  lookup-none span va = refl

  pub lookup_clear :
      (t span va : ℕ)
      → entry s t (index_of span va) ≡ 0
      → lookup s.memory (some (page_at t)) span va ≡ none
  unfolding lookup entry index_of
  lookup_clear t span va clear = rw (clear, lookup) refl

  -- The rest of a walk, from one level on.
  rest₁ : ℕ → Option ℕ → Option ℕ
  rest₁ va o =
      lookup s.memory (lookup s.memory (lookup s.memory o pud_span va) pmd_span va) page_span va

  rest₂ : ℕ → Option ℕ → Option ℕ
  rest₂ va o = lookup s.memory (lookup s.memory o pmd_span va) page_span va

  rest₃ : ℕ → Option ℕ → Option ℕ
  rest₃ va o = lookup s.memory o page_span va

  some-none : (q : ℕ) → ◌≢◌ {A = Option ℕ} none (some q)
  some-none q e = cc

  -- A walk that finds a page goes through tables.
  pub walk-found :
      (t va q : ℕ)
      → IsLevelled s level
      → At s level 0 t
      → walk s.memory (page_at t) va ≡ some q
      → Route s level t va
  unfolding walk rest₁ rest₂ rest₃ lookup
  walk-found t va q levelled at found =
      elim (levelled 0 t (index_of pgd_span va) at (omega arith) (index_of-lt pgd_span va)) [
        | absent clear ↦
            absurd (some-none q (sym (ap (rest₁ va) (lookup_clear t pgd_span va clear)) ∙ found))
        | child first link at₁ ↦
            let found₁ =
              sym (ap (rest₁ va) (lookup-table s t first pgd_span va at₁.inside link)) ∙ found in
            elim (levelled 1 first (index_of pud_span va) at₁ (omega arith)
              (index_of-lt pud_span va)) [
                | absent clear ↦ absurd (
                    some-none q
                      (sym (ap (rest₂ va) (lookup_clear first pud_span va clear)) ∙ found₁))
                | child second link₁ at₂ ↦
                    let found₂ =
                      sym (ap (rest₂ va) (lookup-table s first second pud_span va at₂.inside link₁))
                      ∙ found₁ in
                    elim (levelled 2 second (index_of pmd_span va) at₂ (omega arith)
                      (index_of-lt pmd_span va)) [
                        | absent clear ↦ absurd (
                            some-none q (
                              sym (ap (rest₃ va) (lookup_clear second pmd_span va clear)) ∙ found₂))
                        | child third link₂ at₃ ↦ record {
                          first = first;
                          second = second;
                          third = third;
                          at = at;
                          at₁ = at₁;
                          at₂ = at₂;
                          at₃ = at₃;
                          link = link;
                          link₁ = link₁;
                          link₂ = link₂;
                        }
                      ]
              ]
      ]

  -- Where tables are not shared, routes to one table of pages come from one top-level table, by
  -- entries with the same indices.
  pub Route-unique :
      (t t' va va' : ℕ) (r : Route s level t va) (r' : Route s level t' va')
      → IsApart s level
      → r.third ≡ r'.third
      → (t ≡ t')
        × (index_of pgd_span va ≡ index_of pgd_span va')
        × (index_of pud_span va ≡ index_of pud_span va')
        × (index_of pmd_span va ≡ index_of pmd_span va')
  Route-unique t t' va va' r r' apart same =
      let (same₂, index₂) =
        apart 2 r.second r'.second (index_of pmd_span va) (index_of pmd_span va') r.third r.at₂
          r'.at₂ (omega arith) (index_of-lt pmd_span va) (index_of-lt pmd_span va') r.link₂
          (r'.link₂ ∙ ap (λ z. page_at z + 3) (sym same)) in
      let (same₁, index₁) =
        apart 1 r.first r'.first (index_of pud_span va) (index_of pud_span va') r.second r.at₁
          r'.at₁ (omega arith) (index_of-lt pud_span va) (index_of-lt pud_span va') r.link₁
          (r'.link₁ ∙ ap (λ z. page_at z + 3) (sym same₂)) in
      let (same₀, index₀) =
        apart 0 t t' (index_of pgd_span va) (index_of pgd_span va') r.first r.at r'.at (omega arith)
          (index_of-lt pgd_span va) (index_of-lt pgd_span va') r.link
          (r'.link ∙ ap (λ z. page_at z + 3) (sym same₁)) in
      (same₀, index₀, index₁, index₂)

-- The four indices are the number of the page.
pub indices-page :
    (va va' : ℕ)
    → index_of pgd_span va ≡ index_of pgd_span va'
    → index_of pud_span va ≡ index_of pud_span va'
    → index_of pmd_span va ≡ index_of pmd_span va'
    → index_of page_span va ≡ index_of page_span va'
    → va / 4096 % 2 ^ 36 ≡ va' / 4096 % 2 ^ 36
unfolding index_of
indices-page va va' e₀ e₁ e₂ e₃ = omega arith
