-- ===== src/Sched/Negative.antt =====
-- `_schedule` where no running task has a counter of at least 0, as ticks with preemption disabled
-- can bring about.
use clb_filesystem.Common.{ℕ, zero, suc, ◌+◌, ◌≤◌, ◌<◌, ◌≡◌, refl, false, some, ok, arith}
use clb_filesystem.Common.Words.{ℤ, negsuc}
use clb_filesystem.Sched.{
  Sched, nr_tasks, is_better, pick, choose, preempt_disable, preempt_enable, schedule_next,
}
use clb_filesystem.Sched.Pick.{schedule_next-ok}

pick_none :
    (n i : ℕ) (s : Sched) (c : ℤ) (next : ℕ)
    → ((j : ℕ) → i ≤ j → j < i + n → is_better s (s.task j) c ≡ false)
    → pick n i s c next ≡ (c, next)
unfolding pick
pick_none zero i s c next worse = refl
pick_none (suc n) i s c next worse =
    rw (worse i (omega arith) (omega arith), pick)
      (pick_none n (suc i) s c next λ j le lt. worse j (omega arith) (omega arith))

-- Where every task of the array is absent, not running, or has a negative counter, `_schedule` does
-- not hand out new counters, and switches to the first task of the array, whatever its state is.
pub schedule_next_negative :
    (k q : ℕ) (s : Sched)
    → ((j : ℕ)
        → j < nr_tasks
        → is_better (preempt_disable s) ((preempt_disable s).task j) (negsuc 0) ≡ false)
    → (preempt_disable s).task 0 ≡ some q
    → schedule_next (suc k) s ≡ ok (preempt_enable (record (preempt_disable s) { current = q }))
unfolding choose
schedule_next_negative k q s worse first =
    let u = preempt_disable s in
    let none_better = pick_none nr_tasks 0 u (negsuc 0) 0 λ j le lt. worse j (omega arith) in
    let picks : choose (suc k) u ≡ ok (0, u) = rw (none_better, choose) (rw none_better refl) in
    schedule_next-ok (suc k) 0 q s u picks first
