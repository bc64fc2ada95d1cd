-- ===== src/Fork/ToUser.antt =====
-- `move_to_user_mode`: the code of the user program at address 0 of the task that runs.
use clb_filesystem.Common.{
  ℕ, ◌+◌, ◌-◌, ◌*◌, ◌≤◌, ◌<◌, ◌≡◌, ◌≢◌, refl, ◌∙◌, arith, ok, some, false, ◌==◌, inr, ap, ne→==,
}
use clb_filesystem.Common.Words.{pos}
use clb_filesystem.Memory.{memcpy}
use clb_filesystem.Memory.Copy.{memcpy_inside, memcpy_outside}
use clb_filesystem.Memory.Entry.{load-same}
use clb_filesystem.Inode.{update}
use clb_filesystem.Pages.{Pages, page_size, low_memory, va_start}
use clb_filesystem.Pages.Free.{page_at}
use clb_filesystem.Pages.Tables.{MmStruct, allocate_user_page, max_process_pages}
use clb_filesystem.Pages.Tables.Count.{free_pages, get_free_page-TakenOne}
use clb_filesystem.Pages.Tables.Level.{
  entry, At, IsLevelled, IsSameBelow, Taken-IsSameBelow, take-At, take-IsLevelled,
}
use clb_filesystem.Pages.Tables.Top.{Top}
use clb_filesystem.Pages.Tables.Fault.{take-Top}
use clb_filesystem.Pages.Tables.Walk.{walk}
use clb_filesystem.Pages.Tables.Map.{map_page-walk}
use clb_filesystem.Pages.Tables.Same.{walk-same}
use clb_filesystem.Fork.{Processes, move_to_user_mode}

-- A page of the user's, at va: it was free, and the tables below `pgd` lead to it.
pub record Given (s : Pages) (mm : MmStruct) (level : ℕ → ℕ) (va i : ℕ) (mm' : MmStruct)
    (s' : Pages) (level' : ℕ → ℕ) : Type 0 where
  pub runs : allocate_user_page s mm va ≡ ok (page_at i + va_start, mm', s')
  pub walks : walk s'.memory mm'.pgd va ≡ some (page_at i)
  pub levelled : IsLevelled s' level'
  pub table : ℕ
  pub pgd : mm'.pgd ≡ page_at table
  pub at : At s' level' 0 table
  pub page : At s' level' 4 i
  pub below : IsSameBelow s s'

pub allocate_user_page-Given :
    (s : Pages) (mm : MmStruct) (level : ℕ → ℕ) (va : ℕ)
    → IsLevelled s level
    → Top s level mm.pgd
    → 5 ≤ free_pages s
    → mm.kernel_pages_count + 4 < max_process_pages
    → mm.user_pages_count < max_process_pages
    → (i : ℕ) × (mm' : MmStruct) × (s' : Pages) × (level' : ℕ → ℕ) × Given s mm level va i mm' s'
        level'
unfolding allocate_user_page
allocate_user_page-Given s mm level va levelled is_top free kernel users =
    let (i, s₁, one) = get_free_page-TakenOne s (omega arith) in
    let inside = one.inside in
    let (mm', s', level', runs, mapped) =
      map_page-walk s₁ mm (update level i 4) va (page_at i)
        (take-IsLevelled s s₁ level 4 i one levelled) (take-Top s s₁ level 4 i mm.pgd one is_top)
        (omega (arith, one.fewer)) kernel users (omega arith) (omega arith) in
    let present : (page_at i == 0) ≡ false = ground arith in
    (
      i,
      mm',
      s',
      level',
      record {
        runs = rw (one.runs, allocate_user_page) (rw present (rw one.runs (rw runs refl)));
        walks = mapped.walks;
        levelled = mapped.levelled;
        table = mapped.table;
        pgd = mapped.pgd;
        at = mapped.route.at;
        page = mapped.tables 4 i (take-At s s₁ level 4 i one);
        below = λ a lt. mapped.below a lt ∙ Taken-IsSameBelow s s₁ i one.taken a lt;
      },
    )

-- A copy into the page of the user's leaves the tables.
module _ (s : Pages) (level : ℕ → ℕ) (i start size : ℕ) (page : At s level 4 i)
    (some_code : 0 < size) (fits : size + 7 ≤ page_size) where
  abbrev code_page : ℕ
  code_page = page_at i + va_start

  abbrev copied : Pages
  copied = record s { memory = memcpy s.memory start code_page size }

  entry-copied : (l t k : ℕ) → At s level l t → l < 4 → k < 512 → entry copied t k ≡ entry s t k
  unfolding entry
  entry-copied l t k at low lt =
      let apart : t ≢ i =
        λ same. absurd (omega (arith, ap level same, at.of_level, page.of_level)) in
      load-same copied.memory s.memory (page_at t + va_start + 8 * k) λ a le lt'.
        memcpy_outside s.memory start code_page size a some_code (omega arith) (omega arith)

  pub walk-copied :
      (table pgd va : ℕ)
      → IsLevelled s level
      → At s level 0 table
      → pgd ≡ page_at table
      → walk copied.memory pgd va ≡ walk s.memory pgd va
  walk-copied table pgd va levelled at address =
      rw address (walk-same s copied level levelled entry-copied table va at)

-- The state that `move_to_user_mode` leaves, once it has the page.
abbrev entered : Processes → (start size pc code_page : ℕ) → MmStruct → Pages → Processes
entered s start size pc code_page mm pages = record s {
  pages = record pages { memory = memcpy pages.memory start code_page size };
  mm = update s.mm s.sched.current mm;
  pt_regs =
      update s.pt_regs s.sched.current
        (record (s.pt_regs s.sched.current) { pstate = 0; pc = pc; sp = 2 * page_size });
  ttbr = mm.pgd;
}

move_to_user_mode-entered :
    (s : Processes) (start size pc p : ℕ) (mm : MmStruct) (pages : Pages)
    → allocate_user_page s.pages (s.mm s.sched.current) 0 ≡ ok (p, mm, pages)
    → p ≢ 0
    → move_to_user_mode s start size pc ≡ ok (pos 0, entered s start size pc p mm pages)
unfolding move_to_user_mode
move_to_user_mode-entered s start size pc p mm pages runs some_page =
    rw (runs, move_to_user_mode) (ground arith)

-- The task that runs, on its way into user mode at the offset pc of its code: address 0 of the task is
-- a page with the code, by the tables that the processor was told of, and its registers are set.
pub record Entered (s : Processes) (start size pc i : ℕ) (s' : Processes) : Type 0 where
  pub walks : walk s'.pages.memory s'.ttbr 0 ≡ some (page_at i)
  pub code :
      (a : ℕ) → a < size → s'.pages.memory (page_at i + va_start + a) ≡ s.pages.memory (start + a)
  pub registers :
      s'.pt_regs
      ≡ update s.pt_regs s.sched.current
          (record (s.pt_regs s.sched.current) { pstate = 0; pc = pc; sp = 2 * page_size })
  pub others : (q : ℕ) → q ≢ s.sched.current → s'.mm q ≡ s.mm q
  pub sched : s'.sched ≡ s.sched

-- With five pages free, room in the task's arrays, and code below the pages that fits into one with
-- seven bytes left, `move_to_user_mode` answers 0, and the task enters user mode with its code.
pub move_to_user_mode-Entered :
    (s : Processes) (level : ℕ → ℕ) (start size pc : ℕ)
    → IsLevelled s.pages level
    → Top s.pages level (s.mm s.sched.current).pgd
    → 5 ≤ free_pages s.pages
    → (s.mm s.sched.current).kernel_pages_count + 4 < max_process_pages
    → (s.mm s.sched.current).user_pages_count < max_process_pages
    → 0 < size
    → size + 7 ≤ page_size
    → start + size + 7 ≤ low_memory + va_start
    → (i : ℕ) × (s' : Processes) × (move_to_user_mode s start size pc ≡ ok (pos 0, s'))
      × Entered s start size pc i s'
move_to_user_mode-Entered s level start size pc levelled is_top free kernel users some_code fits
      image =
    let current = s.sched.current in
    let (i, mm', s₁, level', given) =
      allocate_user_page-Given s.pages (s.mm current) level 0 levelled is_top free kernel users in
    let p = page_at i + va_start in
    (
      i,
      entered s start size pc p mm' s₁,
      move_to_user_mode-entered s start size pc p mm' s₁ given.runs (omega arith),
      record {
        walks =
            walk-copied s₁ level' i start size given.page some_code fits given.table mm'.pgd 0
              given.levelled given.at given.pgd
            ∙ given.walks;
        code = λ a lt.
            let same : start + (p + a - p) ≡ start + a = omega arith in
            memcpy_inside s₁.memory start p size (p + a) some_code (omega arith) (inr (omega arith))
              (omega arith) (omega arith)
            ∙ ap s₁.memory same
            ∙ given.below (start + a) (omega arith);
        registers = refl;
        others = λ q ne. rw (ne→== q current ne) refl;
        sched = refl;
      },
    )
