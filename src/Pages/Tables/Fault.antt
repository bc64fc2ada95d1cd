-- ===== src/Pages/Tables/Fault.antt =====
-- `do_mem_abort`: the page of an address that faulted.
use clb_filesystem.Common.{
  ℕ, suc, ◌+◌, ◌-◌, ◌/◌, ◌%◌, ◌≤◌, ◌<◌, ◌≡◌, refl, ◌∙◌, arith, ◌==◌, ap, sym, if◌then◌else◌, ok,
  true, false, ltb, Option, some,
}
use clb_filesystem.Common.Words.{ℤ, pos, negsuc, ◌+ℤ◌, ltb_ℤ}
use clb_filesystem.Memory.{Memory}
use clb_filesystem.Inode.{update}
use clb_filesystem.Pages.{Pages}
use clb_filesystem.Pages.Free.{page_at}
use clb_filesystem.Pages.Tables.{
  MmStruct, page_mask, page_span, pmd_span, pud_span, pgd_span, do_mem_abort, max_process_pages,
}
use clb_filesystem.Pages.Tables.Count.{free_pages, TakenOne, get_free_page-TakenOne}
use clb_filesystem.Pages.Tables.Level.{IsLevelled, take-Kept, take-IsLevelled}
use clb_filesystem.Pages.Tables.Top.{Top, no_top, top}
use clb_filesystem.Pages.Tables.Walk.{lookup, lookup-same, walk}
use clb_filesystem.Pages.Tables.Map.{map_page-walk}

-- The offset within the page plays no part in the walk.
lookup-page_mask :
    (m : Memory) (o o' : Option ℕ) (span va : ℕ)
    → o ≡ o'
    → page_mask va / span ≡ va / span
    → lookup m o span (page_mask va) ≡ lookup m o' span va
lookup-page_mask m o o' span va table same =
    ap (λ z. lookup m z span (page_mask va)) table ∙ lookup-same m o' span (page_mask va) va same

walk-page_mask : (m : Memory) (pgd va : ℕ) → walk m pgd (page_mask va) ≡ walk m pgd va
unfolding walk
walk-page_mask m pgd va =
    lookup-page_mask m _ _ page_span va
      (lookup-page_mask m _ _ pmd_span va
        (lookup-page_mask m _ _ pud_span va (lookup-page_mask m _ _ pgd_span va refl (omega arith))
          (omega arith))
        (omega arith))
      (omega arith)

fault_answer :
    (ind : ℕ)
    → ◌≡◌ {A = ℤ × ℤ}
        (if ltb_ℤ (pos 2) (pos ind +ℤ pos 1) then negsuc 0 else pos 0, pos ind +ℤ pos 1)
        (if ltb 1 ind then negsuc 0 else pos 0, pos (suc ind))
unfolding ◌+ℤ◌
fault_answer ind = ground arith

pub take-Top :
    (s s' : Pages) (level : ℕ → ℕ) (l i pgd : ℕ)
    → TakenOne s i s'
    → Top s level pgd
    → Top s' (update level i l) pgd
take-Top s s' level l i pgd one (no_top null) = no_top null
take-Top s s' level l i pgd one (top t address at) =
    top t address ((take-Kept s s' level l i one).tables 0 t at)

-- A translation fault, with five pages free and room in the task's arrays, is served with the page
-- i, which was free: the processor's walk finds it at the address, and the tables keep their levels.
-- The answer is 0 for the first fault of all tasks, while `ind` is 1, and -1 from then on.
pub do_mem_abort-walk :
    (s : Pages) (mm : MmStruct) (level : ℕ → ℕ) (ind addr esr : ℕ)
    → IsLevelled s level
    → Top s level mm.pgd
    → 5 ≤ free_pages s
    → mm.kernel_pages_count + 4 < max_process_pages
    → mm.user_pages_count < max_process_pages
    → esr % 64 / 4 ≡ 1
    → (i : ℕ) × (mm' : MmStruct) × (s' : Pages) × (level' : ℕ → ℕ) × (do_mem_abort s mm
          (pos ind)
          addr
          esr
        ≡ ok (if ltb 1 ind then negsuc 0 else pos 0, pos (suc ind), mm', s'))
      × (s.mem_map i ≡ 0)
      × (walk s'.memory mm'.pgd addr ≡ some (page_at i))
      × IsLevelled s' level'
      × Top s' level' mm'.pgd
unfolding do_mem_abort
do_mem_abort-walk s mm level ind addr esr levelled is_top free kernel users fault =
    let (i, s₁, one) = get_free_page-TakenOne s (omega arith) in
    let inside = one.inside in
    let (mm', s', level', runs, mapped) =
      map_page-walk s₁ mm (update level i 4) (page_mask addr) (page_at i)
        (take-IsLevelled s s₁ level 4 i one levelled) (take-Top s s₁ level 4 i mm.pgd one is_top)
        (omega (arith, one.fewer)) kernel users (omega arith) (omega arith) in
    let translation : (esr % 64 - esr % 64 % 4 == 4) ≡ true = ground arith in
    let present : (page_at i == 0) ≡ false = ground arith in
    (
      i,
      mm',
      s',
      level',
      rw (translation, do_mem_abort)
          (rw one.runs (
            rw present
              (rw one.runs (rw runs (ap (λ z. ok (z.0, z.1, mm', s')) (fault_answer ind)))))),
      one.free,
      sym (walk-page_mask s'.memory mm'.pgd addr) ∙ mapped.walks,
      mapped.levelled,
      mapped.top_level,
    )
