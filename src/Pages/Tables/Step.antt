-- ===== src/Pages/Tables/Step.antt =====
-- A step of `map_page` to the next table.
use clb_filesystem.Common.{
  ℕ, suc, ◌+◌, ◌^◌, ◌≤◌, ◌<◌, ◌≡◌, refl, ◌∙◌, arith, ◌==◌, ok, true, false, lt→ltb,
}
use clb_filesystem.Inode.{update}
use clb_filesystem.Pages.{Pages, va_start}
use clb_filesystem.Pages.Free.{page_at}
use clb_filesystem.Pages.Tables.{
  MmStruct, index_of, page_mask, table_entry, map_table, descend, max_process_pages,
}
use clb_filesystem.Pages.Tables.Count.{
  free_pages, free_pages-memory, TakenOne, get_free_page-TakenOne,
}
use clb_filesystem.Pages.Tables.Apart.{
  IsApart, Keeps, Keeps-trans, take-IsApart, take-Keeps, take-IsNew, put-Keeps, put-IsApart,
}
use clb_filesystem.Pages.Tables.Level.{
  entry, put, entry-put, At, IsSameBelow, put-IsSameBelow, Taken-IsSameBelow, absent, child,
  IsLevelled, Kept, Kept-trans, Kept-le, take-At, take-Kept, take-IsLevelled, put-Kept,
  put-IsLevelled,
}

pub index_of-lt : (span va : ℕ) → index_of span va < 512
unfolding index_of
index_of-lt span va = omega arith

-- The flags of a table's entry, above a page's address.
pub table_entry-page_at : (u : ℕ) → table_entry (page_at u) ≡ page_at u + 3
unfolding table_entry
table_entry-page_at u = ground arith

-- What a step leaves in the task's record, and how many pages it takes.
pub record Charged (s : Pages) (mm : MmStruct) (s' : Pages) (mm' : MmStruct) : Type 0 where
  pub users : mm'.user_pages_count ≡ mm.user_pages_count
  pub user_pages : mm'.user_pages ≡ mm.user_pages
  pub kernel_pages : mm'.kernel_pages_count ≤ suc mm.kernel_pages_count
  pub free : free_pages s ≤ suc (free_pages s')
  pub below : IsSameBelow s s'

-- The step to the next table, from a table of the level l in page t.
pub record Descended (s : Pages) (mm : MmStruct) (level : ℕ → ℕ) (l t k u : ℕ) (mm' : MmStruct)
    (s' : Pages) (level' : ℕ → ℕ) : Type 0 where
  pub levelled : IsLevelled s' level'
  pub kept : Kept s level s' level' l
  pub next : At s' level' (suc l) u
  pub linked : entry s' t k ≡ page_at u + 3
  pub keeps : Keeps s level s'
  pub apart : IsApart s level → IsApart s' level'
  pub pgd : mm'.pgd ≡ mm.pgd
  pub charged : Charged s mm s' mm'

-- `map_table` at an entry that is clear, and at one that leads to the next table.
map_table_new :
    (s s' : Pages) (t span va u : ℕ)
    → entry s t (index_of span va) ≡ 0
    → TakenOne s u s'
    → map_table s (page_at t + va_start) span va
      ≡ (page_at u, true, put s' t (index_of span va) (page_at u + 3))
unfolding map_table entry
map_table_new s s' t span va u clear one =
    rw (clear, map_table) (rw one.runs (rw (table_entry-page_at u) refl))

map_table_old :
    (s : Pages) (t span va u : ℕ)
    → entry s t (index_of span va) ≡ page_at u + 3
    → map_table s (page_at t + va_start) span va ≡ (page_at u, false, s)
unfolding map_table entry
map_table_old s t span va u leads =
    let present : (page_at u + 3 == 0) ≡ false = ground arith in
    let address : page_mask (page_at u + 3) ≡ page_at u = omega arith in
    rw (leads, map_table) (rw present (rw leads (rw address refl)))

module _ (s : Pages) (mm : MmStruct) (level : ℕ → ℕ) (l t span va : ℕ)
    (levelled : IsLevelled s level) (at : At s level l t) (low : l < 3)
    (some_free : 0 < free_pages s) (room : suc mm.kernel_pages_count < max_process_pages) where
  abbrev k : ℕ
  k = index_of span va

  abbrev Descends : Type 0
  Descends =
      (u : ℕ) × (mm' : MmStruct) × (s' : Pages) × (level' : ℕ → ℕ) × (descend s mm (page_at t) span
          va
        ≡ ok (page_at u, mm', s'))
      × Descended s mm level l t k u mm' s' level'

  descend_new : entry s t k ≡ 0 → Descends
  unfolding descend
  descend_new clear =
      let (u, s₁, one) = get_free_page-TakenOne s some_free in
      let level' = update level u (suc l) in
      let at' = (take-Kept s s₁ level (suc l) u one).tables l t at in
      let clear' : entry s₁ t k ≡ 0 =
        (take-Kept s s₁ level (suc l) u one).above l t k at (omega arith) (index_of-lt span va)
        ∙ clear in
      let v = page_at u + 3 in
      let inside = one.inside in
      let word : v < 2 ^ 64 = omega arith in
      let next = take-At s s₁ level (suc l) u one in
      let taken = take-IsLevelled s s₁ level (suc l) u one levelled in
      (
        u,
        record mm {
          kernel_pages_count = suc mm.kernel_pages_count;
          kernel_pages = update mm.kernel_pages (suc mm.kernel_pages_count) (page_at u);
        },
        put s₁ t k v,
        level',
        rw (map_table_new s s₁ t span va u clear one, descend) (rw (lt→ltb _ _ room) refl),
        record {
          levelled =
              put-IsLevelled s₁ level' l t k v at' (index_of-lt span va) word
                (λ h. child u refl next) taken;
          kept =
              Kept-trans (Kept-le l (omega arith) (take-Kept s s₁ level (suc l) u one))
                (put-Kept s₁ level' l t k v at' (index_of-lt span va));
          next = (put-Kept s₁ level' l t k v at' (index_of-lt span va)).tables (suc l) u next;
          linked = entry-put s₁ t k v word;
          keeps =
              Keeps-trans s s₁ (put s₁ t k v) level level'
                (take-Kept s s₁ level (suc l) u one).tables (take-Keeps s s₁ level (suc l) u one)
                (put-Keeps s₁ level' l t k v at' (index_of-lt span va) clear');
          apart = λ a.
              put-IsApart s₁ level' l t k v at' (index_of-lt span va) u refl word
                (take-IsNew s s₁ level (suc l) u one levelled)
                (take-IsApart s s₁ level (suc l) u one a);
          pgd = refl;
          charged = record {
            users = refl;
            user_pages = refl;
            kernel_pages = omega arith;
            free = omega (arith, one.fewer, free_pages-memory s₁ (put s₁ t k v).memory);
            below = λ a lt. put-IsSameBelow s₁ t k v a lt ∙ Taken-IsSameBelow s s₁ u one.taken a lt;
          };
        },
      )

  descend_old : (u : ℕ) → entry s t k ≡ page_at u + 3 → At s level (suc l) u → Descends
  unfolding descend
  descend_old u leads next = (
    u,
    mm,
    s,
    level,
    rw (map_table_old s t span va u leads, descend) refl,
    record {
      levelled = levelled;
      kept = record { tables = λ l' t' a. a; above = λ l' t' k' a lt lt'. refl };
      next = next;
      linked = leads;
      keeps = λ l' t' k' a lt lt' ne. refl;
      apart = λ a. a;
      pgd = refl;
      charged = record {
        users = refl;
        user_pages = refl;
        kernel_pages = omega arith;
        free = omega arith;
        below = λ a lt. refl;
      };
    },
  )

  pub descend_lem : Descends
  descend_lem = elim (levelled l t k at low (index_of-lt span va)) [
    | absent clear ↦ descend_new clear
    | child u leads next ↦ descend_old u leads next
  ]
