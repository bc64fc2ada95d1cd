-- ===== src/Fork/Spawn.antt =====
-- `copy_process` for a kernel thread.
use clb_filesystem.Common.{
  ℕ, suc, ◌+◌, ◌≤◌, ◌<◌, ◌≡◌, ◌≢◌, refl, ◌∙◌, sym, ap, subst, inl, inr, ◌⊎◌, arith, true, false,
  some, lt→ltb, ◌==◌, ==_refl, ne→==, ok,
}
use native.Mathlib.Decide.{ℕ_discrete}
use clb_filesystem.Common.Words.{ℤ, pos, negsuc, ◌+ℤ◌, ◌-ℤ◌}
use clb_filesystem.Memory.{Memory}
use clb_filesystem.Inode.{update}
use clb_filesystem.Pages.{Pages, va_start, paging_pages, allocate_kernel_page}
use clb_filesystem.Pages.Free.{page_at}
use clb_filesystem.Pages.Tables.Count.{free_pages, TakenOne, get_free_page-TakenOne}
use clb_filesystem.Sched.{task_running, nr_tasks, preempt_disable, preempt_enable}
use clb_filesystem.Sched.Charge.{IsFair}
use clb_filesystem.Fork.{
  Processes, zero_mm, zero_context, zero_regs, is_kthread, task_pt_regs, with_zeros, start_kthread,
  set_fields, add_task, copy_process,
}

-- Every task in the array is in a page that is in use, or in none, as the first task is, and the
-- current task is in the array, among the first `count`.
pub record IsPlaced (s : Processes) : Type 0 where
  pub placed :
      (i q j : ℕ)
      → i < nr_tasks
      → s.sched.task i ≡ some q
      → j < paging_pages
      → q ≡ page_at j + va_start
      → s.pages.mem_map j ≢ 0
  pub index : ℕ
  pub below : index < s.count
  pub size : s.count ≤ nr_tasks
  pub listed : s.sched.task index ≡ some s.sched.current

add_one-sub : (x : ℤ) → (x +ℤ pos 1) -ℤ pos 1 ≡ x
unfolding ◌+ℤ◌ ◌-ℤ◌
add_one-sub (pos n) = ground arith
add_one-sub (negsuc n) = ground arith

-- The new task p.
pub record Spawned (ret_from_fork : ℕ) (s : Processes) (clone_flags fn arg p : ℕ) (s' : Processes)
    : Type 0 where
  pub array : s'.sched.task ≡ update s.sched.task s.count (some p)
  pub count : s'.count ≡ suc s.count
  pub current : s'.sched.current ≡ s.sched.current
  pub task :
      let priority = (s.sched.tasks s.sched.current).priority in
      s'.sched.tasks p ≡ record {
        state = task_running;
        counter = priority;
        priority = priority;
        preempt_count = pos 1;
      }
  pub context :
      s'.cpu_context p
      ≡ record zero_context { x19 = fn; x20 = arg; sp = task_pt_regs p; pc = ret_from_fork }
  pub flags : s'.flags p ≡ clone_flags
  pub mm : s'.mm p ≡ zero_mm
  pub room : free_pages s.pages ≡ suc (free_pages s'.pages)
  pub regs : s'.pt_regs p ≡ zero_regs
  pub others : (q : ℕ) → q ≢ p → s'.sched.tasks q ≡ s.sched.tasks q
  pub other_mm : (q : ℕ) → q ≢ p → s'.mm q ≡ s.mm q
  pub other_context : (q : ℕ) → q ≢ p → s'.cpu_context q ≡ s.cpu_context q
  pub other_flags : (q : ℕ) → q ≢ p → s'.flags q ≡ s.flags q
  pub other_regs : (q : ℕ) → q ≢ p → s'.pt_regs q ≡ s.pt_regs q
  pub ttbr : s'.ttbr ≡ s.ttbr

module _ (mmu : Memory → ℕ → ℕ → ℕ) (ret_from_fork : ℕ) (s : Processes)
    (clone_flags fn arg : ℕ) where
  allocate_one :
      (i : ℕ) (pages' : Pages)
      → TakenOne s.pages i pages'
      → allocate_kernel_page s.pages ≡ (page_at i + va_start, pages')
  unfolding allocate_kernel_page
  allocate_one i pages' one =
      let present : (page_at i == 0) ≡ false = ground arith in
      rw (one.runs, allocate_kernel_page) (rw present refl)

  -- The state that a kernel thread at p leaves.
  with_thread : (p : ℕ) → Pages → Processes
  unfolding set_fields start_kthread
  with_thread p pages' =
      let s₁ = record s { sched = preempt_disable s.sched } in
      let s₄ =
        set_fields (start_kthread (with_zeros s₁ p pages') p fn arg) ret_from_fork p clone_flags in
      record s₄ {
        count = suc s.count;
        sched = preempt_enable (record s₄.sched { task = update s.sched.task s.count (some p) });
      }

  copy_process-runs :
      (i : ℕ) (pages' : Pages)
      → TakenOne s.pages i pages'
      → is_kthread clone_flags ≡ true
      → s.count < nr_tasks
      → copy_process mmu ret_from_fork s clone_flags fn arg
        ≡ ok (pos s.count, with_thread (page_at i + va_start) pages')
  unfolding copy_process with_thread add_task set_fields start_kthread preempt_disable
  copy_process-runs i pages' one kthread room =
      let present : (page_at i + va_start == 0) ≡ false = ground arith in
      rw (allocate_one i pages' one, copy_process)
        (rw present (rw kthread (rw (lt→ltb _ _ room) (rw (allocate_one i pages' one) refl))))

  module _ (i : ℕ) (pages' : Pages) (one : TakenOne s.pages i pages') (is_placed : IsPlaced s) where
    abbrev p : ℕ
    p = page_at i + va_start

    abbrev s' : Processes
    s' = with_thread p pages'

    inside : is_placed.index < nr_tasks
    inside = omega (arith, is_placed.below, is_placed.size)

    listed_apart : (j q : ℕ) → j < nr_tasks → s.sched.task j ≡ some q → q ≢ p
    listed_apart j q lt found same = is_placed.placed j q i lt found one.inside same one.free

    current_apart : s.sched.current ≢ p
    current_apart = listed_apart is_placed.index s.sched.current inside is_placed.listed

    with_thread-tasks_new :
        let priority = (s.sched.tasks s.sched.current).priority in
        s'.sched.tasks p ≡ record {
          state = task_running;
          counter = priority;
          priority = priority;
          preempt_count = pos 1;
        }
    unfolding with_thread set_fields start_kthread preempt_disable preempt_enable
    with_thread-tasks_new =
        rw
          (
            ne→== p s.sched.current (λ e. current_apart (sym e)),
            ne→== s.sched.current p current_apart,
            ==_refl p,
            ==_refl s.sched.current,
          )
          refl

    with_thread-tasks_other : (q : ℕ) → q ≢ p → s'.sched.tasks q ≡ s.sched.tasks q
    unfolding with_thread set_fields start_kthread preempt_disable preempt_enable
    with_thread-tasks_other q ne = elim (ℕ_discrete q s.sched.current) [
      | yes same ↦
          subst (λ z. s'.sched.tasks z ≡ s.sched.tasks z) (sym same)
            (rw
              (
                ne→== s.sched.current p current_apart,
                ==_refl s.sched.current,
                add_one-sub (s.sched.tasks s.sched.current).preempt_count,
              )
              refl)
      | no other ↦ rw (ne→== q p ne, ne→== q s.sched.current other) refl
    ]

    with_thread-Spawned : Spawned ret_from_fork s clone_flags fn arg p s'
    unfolding with_thread set_fields start_kthread preempt_disable preempt_enable
    with_thread-Spawned = record {
      array = refl;
      count = refl;
      current = refl;
      task = with_thread-tasks_new;
      context = rw (==_refl p) refl;
      flags = rw (==_refl p) refl;
      mm = rw (==_refl p) refl;
      room = one.fewer;
      regs = rw (==_refl p) refl;
      others = with_thread-tasks_other;
      other_mm = λ q ne. rw (ne→== q p ne) refl;
      other_context = λ q ne. rw (ne→== q p ne) refl;
      other_flags = λ q ne. rw (ne→== q p ne) refl;
      other_regs = λ q ne. rw (ne→== q p ne) refl;
      ttbr = refl;
    }

    -- A task of the new array is the new one, or one of the old array.
    found_cases :
        (j q : ℕ)
        → s'.sched.task j ≡ some q
        → ((j ≡ s.count) × (q ≡ p)) ⊎ ((j ≢ s.count) × (s.sched.task j ≡ some q))
    found_cases j q found =
        let e : update s.sched.task s.count (some p) j ≡ some q =
          sym (ap (λ f. f j) with_thread-Spawned.array) ∙ found in
        elim (ℕ_discrete j s.count) [
          | yes here ↦
              let new : some p ≡ some q =
                rw (==_refl s.count) at
                  (subst (λ z. update s.sched.task s.count (some p) z ≡ some q) here e) in
              inl (here, cc)
          | no other ↦ inr (other, rw (ne→== j s.count other) at e)
        ]

    new_task_cases :
        (j q : ℕ)
        → j < nr_tasks
        → s'.sched.task j ≡ some q
        → ((q ≡ p)
            × ((s'.sched.tasks q).counter ≡ (s.sched.tasks s.sched.current).priority)
            × ((s'.sched.tasks q).priority ≡ (s.sched.tasks s.sched.current).priority))
          ⊎ ((s.sched.task j ≡ some q) × (s'.sched.tasks q ≡ s.sched.tasks q))
    new_task_cases j q lt found = elim (found_cases j q found) [
      | inl (here, new) ↦ inl (
        new,
        ap (λ z. (s'.sched.tasks z).counter) new ∙ ap (λ z. z.counter) with_thread-tasks_new,
        ap (λ z. (s'.sched.tasks z).priority) new ∙ ap (λ z. z.priority) with_thread-tasks_new,
      )
      | inr (other, old) ↦ inr (old, with_thread-tasks_other q (listed_apart j q lt old))
    ]

    with_thread-IsFair : IsFair s.sched → IsFair s'.sched
    with_thread-IsFair fair =
        let (n, priority) =
          fair.priorities is_placed.index s.sched.current inside is_placed.listed in
        record {
          once = λ j k q lt lt' e e'. elim (found_cases j q e) [
            | inl (here, new) ↦ elim (found_cases k q e') [
              | inl (here', new') ↦ here ∙ sym here'
              | inr (other, old) ↦ absurd (listed_apart k q lt' old new)
            ]
            | inr (other, old) ↦ elim (found_cases k q e') [
              | inl (here', new') ↦ absurd (listed_apart j q lt old new')
              | inr (other', old') ↦ fair.once j k q lt lt' old old'
            ]
          ];
          counters = λ j q lt e. elim (new_task_cases j q lt e) [
            | inl (new, c, pr) ↦ (suc n, c ∙ priority)
            | inr (old, same) ↦
                let (m, c) = fair.counters j q lt old in (m, ap (λ z. z.counter) same ∙ c)
          ];
          priorities = λ j q lt e. elim (new_task_cases j q lt e) [
            | inl (new, c, pr) ↦ (n, pr ∙ priority)
            | inr (old, same) ↦
                let (m, c) = fair.priorities j q lt old in (m, ap (λ z. z.priority) same ∙ c)
          ];
          small = λ j q m lt e counts. elim (new_task_cases j q lt e) [
            | inl (new, c, pr) ↦
                let few =
                  fair.low is_placed.index s.sched.current m inside is_placed.listed
                    (sym c ∙ counts) in
                omega (arith, few)
            | inr (old, same) ↦ fair.small j q m lt old (sym (ap (λ z. z.counter) same) ∙ counts)
          ];
          low = λ j q m lt e given. elim (new_task_cases j q lt e) [
            | inl (new, c, pr) ↦
                fair.low is_placed.index s.sched.current m inside is_placed.listed (sym pr ∙ given)
            | inr (old, same) ↦ fair.low j q m lt old (sym (ap (λ z. z.priority) same) ∙ given)
          ];
        }

    mem_map_kept : (j : ℕ) → s.pages.mem_map j ≢ 0 → pages'.mem_map j ≢ 0
    mem_map_kept j used = elim (ℕ_discrete j i) [
      | yes here ↦ λ z. used (subst (λ k. s.pages.mem_map k ≡ 0) (sym here) one.free)
      | no other ↦ rw one.taken.marked (rw (ne→== j i other) used)
    ]

    page_taken : pages'.mem_map i ≢ 0
    page_taken = rw one.taken.marked (rw (==_refl i) (omega arith))

    with_thread-IsPlaced : s.count < nr_tasks → IsPlaced s'
    unfolding with_thread set_fields start_kthread preempt_enable preempt_disable
    with_thread-IsPlaced room = record {
      placed = λ j q k lt e lt' at. elim (found_cases j q e) [
        | inl (here, new) ↦
            let same : k ≡ i = omega arith in
            subst (λ z. pages'.mem_map z ≢ 0) (sym same) page_taken
        | inr (other, old) ↦ mem_map_kept k (is_placed.placed j q k lt old lt' at)
      ];
      index = is_placed.index;
      below = omega (arith, is_placed.below);
      size = omega arith;
      listed =
          ap (λ f. f is_placed.index) with_thread-Spawned.array
          ∙ rw (ne→== is_placed.index s.count (omega (arith, is_placed.below))) is_placed.listed;
    }

pub copy_process-Spawned :
    (mmu : Memory → ℕ → ℕ → ℕ) (ret_from_fork : ℕ) (s : Processes) (clone_flags fn arg : ℕ)
    → IsPlaced s
    → IsFair s.sched
    → 0 < free_pages s.pages
    → s.count < nr_tasks
    → is_kthread clone_flags ≡ true
    → (p : ℕ) × (s' : Processes) × (copy_process mmu ret_from_fork s clone_flags fn arg
        ≡ ok (pos s.count, s'))
      × Spawned ret_from_fork s clone_flags fn arg p s'
      × IsFair s'.sched
      × IsPlaced s'
copy_process-Spawned mmu ret_from_fork s clone_flags fn arg is_placed fair some_free room kthread =
    let (i, pages', one) = get_free_page-TakenOne s.pages some_free in
    (
      page_at i + va_start,
      with_thread mmu ret_from_fork s clone_flags fn arg (page_at i + va_start) pages',
      copy_process-runs mmu ret_from_fork s clone_flags fn arg i pages' one kthread room,
      with_thread-Spawned mmu ret_from_fork s clone_flags fn arg i pages' one is_placed,
      with_thread-IsFair mmu ret_from_fork s clone_flags fn arg i pages' one is_placed fair,
      with_thread-IsPlaced mmu ret_from_fork s clone_flags fn arg i pages' one is_placed room,
    )
