-- ===== src/Fork/Full.antt =====
-- `copy_process` without a free page.
use clb_filesystem.Common.{ℕ, ◌<◌, ◌≡◌, ◌≢◌, refl, inl, inr, ==_refl, ok}
use clb_filesystem.Common.Words.{pos, negsuc, ◌+ℤ◌}
use clb_filesystem.Memory.{Memory}
use clb_filesystem.Pages.{Pages, paging_pages, allocate_kernel_page}
use clb_filesystem.Pages.Free.{get_free_page_lem}
use clb_filesystem.Sched.{preempt_disable}
use clb_filesystem.Fork.{Processes, copy_process}

allocate_none :
    (s : Pages) → ((k : ℕ) → k < paging_pages → s.mem_map k ≢ 0) → allocate_kernel_page s ≡ (0, s)
unfolding allocate_kernel_page
allocate_none s used = elim (get_free_page_lem s) [
  | inl (runs, all_used) ↦ rw (runs, allocate_kernel_page) refl
  | inr (i, pages', runs, lt, first, taken) ↦ absurd (used i lt first.free)
]

-- `copy_process`, of a kernel thread or not, answers -1 if no page is free, and then leaves the
-- current task with preemption disabled: its `preempt_count` is one more than before, and nothing
-- else changed.
pub copy_process_full :
    (mmu : Memory → ℕ → ℕ → ℕ) (ret_from_fork : ℕ) (s : Processes) (clone_flags fn arg : ℕ)
    → ((k : ℕ) → k < paging_pages → s.pages.mem_map k ≢ 0)
    → (s' : Processes) × (copy_process mmu ret_from_fork s clone_flags fn arg ≡ ok (negsuc 0, s'))
      × (s' ≡ record s { sched = preempt_disable s.sched })
      × ((s'.sched.tasks s.sched.current).preempt_count
          ≡ (s.sched.tasks s.sched.current).preempt_count +ℤ pos 1)
unfolding copy_process preempt_disable
copy_process_full mmu ret_from_fork s clone_flags fn arg used =
    let full : allocate_kernel_page s.pages ≡ (0, s.pages) = allocate_none s.pages used in
    (
      record s { sched = preempt_disable s.sched },
      rw (full, copy_process) (rw full refl),
      refl,
      rw (==_refl s.sched.current) refl,
    )
