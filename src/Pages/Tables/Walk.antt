-- ===== src/Pages/Tables/Walk.antt =====
-- The walk through the page tables, as the processor does it: the specification of `map_page`.
use clb_filesystem.Common.{
  ℕ, ◌+◌, ◌-◌, ◌*◌, ◌/◌, ◌%◌, ◌^◌, ◌<◌, ◌≡◌, refl, ◌∙◌, arith, ◌==◌, ap, if◌then◌else◌, true,
  Option, none, some,
}
use clb_filesystem.Memory.{Memory}
use clb_filesystem.Memory.Entry.{load}
use clb_filesystem.Pages.{Pages, page_size, va_start, paging_pages}
use clb_filesystem.Pages.Free.{page_at}
use clb_filesystem.Pages.Tables.{
  set_bit, index_of, page_entry, map_table_entry, page_span, pmd_span, pud_span, pgd_span,
  ptrs_per_table,
}
use clb_filesystem.Pages.Tables.Level.{entry, entry-put}

-- The address in an entry whose low bits say that it leads to a table or a page: the bits 12 to 47.
abbrev pub output : ℕ → Option ℕ
output e = if e % 4 == 3 then some (e % 2 ^ 48 - e % page_size) else none

-- One level: the table's entry for va, in the kernel's mapping of physical memory.
unfoldable pub lookup : Memory → (table : Option ℕ) → (span va : ℕ) → Option ℕ
lookup m none span va = none
lookup m (some table) span va =
    output (load m (table + va_start + 8 * (va / span % ptrs_per_table)))

-- Only the quotient by the span counts.
pub lookup-same :
    (m : Memory) (table : Option ℕ) (span va va' : ℕ)
    → va / span ≡ va' / span
    → lookup m table span va ≡ lookup m table span va'
unfolding lookup
lookup-same m none span va va' same = refl
lookup-same m (some t) span va va' same = rw (same, lookup) refl

-- The page that the tables below `pgd` map va to.
unfoldable pub walk : Memory → (pgd va : ℕ) → Option ℕ
walk m pgd va =
    lookup m (lookup m (lookup m (lookup m (some pgd) pgd_span va) pud_span va) pmd_span va)
      page_span va

set_bit_clear : (bit x : ℕ) → x / bit % 2 ≡ 0 → set_bit bit x ≡ x + bit
set_bit_clear bit x clear = ground arith

pub page_entry-page : (page : ℕ) → page % page_size ≡ 0 → page_entry page ≡ page + 0x447
unfolding page_entry
page_entry-page page aligned =
    let first : set_bit 1 page ≡ page + 1 = set_bit_clear 1 page (omega arith) in
    let second : set_bit 2 (page + 1) ≡ page + 3 =
      set_bit_clear 2 (page + 1) (omega arith) ∙ omega arith in
    let third : set_bit 4 (page + 3) ≡ page + 7 =
      set_bit_clear 4 (page + 3) (omega arith) ∙ omega arith in
    let fourth : set_bit 1024 (page + 7) ≡ page + 1031 =
      set_bit_clear 1024 (page + 7) (omega arith) ∙ omega arith in
    let fifth : set_bit 64 (page + 1031) ≡ page + 0x447 =
      set_bit_clear 64 (page + 1031) (omega arith) ∙ omega arith in
    ap (λ z. set_bit 64 (set_bit 1024 (set_bit 4 (set_bit 2 z)))) first
    ∙ ap (λ z. set_bit 64 (set_bit 1024 (set_bit 4 z))) second
    ∙ ap (λ z. set_bit 64 (set_bit 1024 z)) third
    ∙ ap (λ z. set_bit 64 z) fourth
    ∙ fifth

output-page :
    (page flags : ℕ)
    → page % page_size ≡ 0
    → page < 2 ^ 48
    → flags < page_size
    → flags % 4 ≡ 3
    → output (page + flags) ≡ some page
output-page page flags aligned lt low valid =
    let tag : (page + flags) % 4 == 3 ≡ true = ground arith in
    let address : (page + flags) % 2 ^ 48 - (page + flags) % page_size ≡ page = omega arith in
    rw tag (rw address refl)

pub lookup-table :
    (s : Pages) (t u span va : ℕ)
    → u < paging_pages
    → entry s t (index_of span va) ≡ page_at u + 3
    → lookup s.memory (some (page_at t)) span va ≡ some (page_at u)
unfolding lookup entry index_of
lookup-table s t u span va inside leads =
    rw (leads, lookup)
      (output-page (page_at u) 3 (omega arith) (omega arith) (omega arith) (omega arith))

-- A page at va in the table t of the lowest level.
pub lookup-page :
    (s : Pages) (t va page : ℕ)
    → page % page_size ≡ 0
    → page < 2 ^ 48
    → lookup
        (map_table_entry s (page_at t + va_start) va page).memory
        (some (page_at t))
        page_span
        va
      ≡ some page
unfolding lookup map_table_entry index_of entry
lookup-page s t va page aligned lt =
    let word : page_entry page < 2 ^ 64 = omega (arith, page_entry-page page aligned) in
    let k = index_of page_span va in
    let stored = entry-put s t k (page_entry page) word ∙ page_entry-page page aligned in
    ap output stored ∙ output-page page 0x447 aligned lt (omega arith) (omega arith)
