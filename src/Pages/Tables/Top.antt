-- ===== src/Pages/Tables/Top.antt =====
-- The first step of `map_page`: the top-level table.
use clb_filesystem.Common.{ℕ, suc, ◌<◌, ◌≡◌, refl, ◌⊎◌, inl, inr, arith, ◌==◌, ok, false, lt→ltb}
use clb_filesystem.Inode.{update}
use clb_filesystem.Pages.{Pages}
use clb_filesystem.Pages.Free.{page_at}
use clb_filesystem.Pages.Tables.{MmStruct, top_table, max_process_pages}
use clb_filesystem.Pages.Tables.Count.{free_pages, get_free_page-TakenOne}
use clb_filesystem.Pages.Tables.Apart.{IsApart, Keeps, take-IsApart, take-Keeps}
use clb_filesystem.Pages.Tables.Level.{
  At, Taken-IsSameBelow, IsLevelled, Kept, take-At, take-Kept, take-IsLevelled,
}
use clb_filesystem.Pages.Tables.Step.{Charged}

-- No top-level table yet, or one in page t.
pub data Top (s : Pages) (level : ℕ → ℕ) (pgd : ℕ) : Type 0 where
  no_top : pgd ≡ 0 → Top s level pgd
  top : (t : ℕ) → pgd ≡ page_at t → At s level 0 t → Top s level pgd

pub record Topped (s : Pages) (mm : MmStruct) (level : ℕ → ℕ) (t : ℕ) (mm' : MmStruct) (s' : Pages)
    (level' : ℕ → ℕ) : Type 0 where
  pub levelled : IsLevelled s' level'
  pub kept : Kept s level s' level' 4
  pub at : At s' level' 0 t
  pub pgd : mm'.pgd ≡ page_at t
  pub kept_or_new : (mm'.pgd ≡ mm.pgd) ⊎ (s.mem_map t ≡ 0)
  pub keeps : Keeps s level s'
  pub apart : IsApart s level → IsApart s' level'
  pub charged : Charged s mm s' mm'

-- `top_table` finds the table, or takes a page for it.
pub top_table_lem :
    (s : Pages) (mm : MmStruct) (level : ℕ → ℕ)
    → IsLevelled s level
    → Top s level mm.pgd
    → 0 < free_pages s
    → suc mm.kernel_pages_count < max_process_pages
    → (t : ℕ) × (mm' : MmStruct) × (s' : Pages) × (level' : ℕ → ℕ) × (top_table s mm ≡ ok (mm', s'))
      × Topped s mm level t mm' s' level'
unfolding top_table
top_table_lem s mm level levelled (no_top null) some_free room =
    let (u, s', one) = get_free_page-TakenOne s some_free in
    (
      u,
      record mm {
        pgd = page_at u;
        kernel_pages_count = suc mm.kernel_pages_count;
        kernel_pages = update mm.kernel_pages (suc mm.kernel_pages_count) (page_at u);
      },
      s',
      update level u 0,
      rw (null, top_table) (rw one.runs (rw (lt→ltb _ _ room) refl)),
      record {
        levelled = take-IsLevelled s s' level 0 u one levelled;
        kept = take-Kept s s' level 0 u one;
        at = take-At s s' level 0 u one;
        pgd = refl;
        kept_or_new = inr one.free;
        keeps = take-Keeps s s' level 0 u one;
        apart = take-IsApart s s' level 0 u one;
        charged = record {
          users = refl;
          user_pages = refl;
          kernel_pages = omega arith;
          free = omega (arith, one.fewer);
          below = Taken-IsSameBelow s s' u one.taken;
        };
      },
    )
top_table_lem s mm level levelled (top t address at) some_free room =
    let present : (mm.pgd == 0) ≡ false = ground arith in
    (
      t,
      mm,
      s,
      level,
      rw (present, top_table) refl,
      record {
        levelled = levelled;
        kept = record { tables = λ l' t' a. a; above = λ l' t' k' a lt lt'. refl };
        at = at;
        pgd = address;
        kept_or_new = inl refl;
        keeps = λ l' t' k' a lt lt' ne. refl;
        apart = λ a. a;
        charged = record {
          users = refl;
          user_pages = refl;
          kernel_pages = omega arith;
          free = omega arith;
          below = λ a lt. refl;
        };
      },
    )
