-- ===== src/Sched/Only.antt =====
-- `_schedule` where one task only has time left.
use native.Mathlib.Decide.{ℕ_discrete}
use clb_filesystem.Common.{ℕ, suc, ◌<◌, ◌≡◌, ◌≢◌, ◌∙◌, ap, true, false, some, ok, arith}
use clb_filesystem.Common.Words.{ℤ, pos, ltb_ℤ}
use clb_filesystem.Sched.{
  Sched, task_running, nr_tasks, preempt_disable, preempt_enable, schedule_next,
}
use clb_filesystem.Sched.Pick.{AreInts, schedule_next-Picked}

-- No other task of the array has time left.
abbrev pub IsOnly : Sched → ℕ → Type 0
IsOnly s p =
    (i q : ℕ) → i < nr_tasks → s.task i ≡ some q → q ≢ p → ltb_ℤ (pos 0) (s.tasks q).counter ≡ false

pub schedule_next-only :
    (k j p : ℕ) (s : Sched)
    → AreInts s
    → j < nr_tasks
    → s.task j ≡ some p
    → (s.tasks p).state ≡ task_running
    → ltb_ℤ (pos 0) (s.tasks p).counter ≡ true
    → IsOnly s p
    → schedule_next (suc k) s ≡ ok (preempt_enable (record (preempt_disable s) { current = p }))
schedule_next-only k j p s small h found runs ready only =
    let (c, i, q, ends, picked, bound) = schedule_next-Picked k j p s small h found runs ready in
    elim (ℕ_discrete q p) [
      | yes same ↦
          ends ∙ ap (λ z. ok (preempt_enable (record (preempt_disable s) { current = z }))) same
      | no other ↦
          let spent = only i q picked.inside picked.found other in
          absurd (
            larger (s.tasks q).counter (s.tasks p).counter spent ready
              (ap (λ z. ltb_ℤ z (s.tasks p).counter) picked.counter ∙ bound j p h found runs))
    ]
  where
    larger : (a b : ℤ) → ltb_ℤ (pos 0) a ≡ false → ltb_ℤ (pos 0) b ≡ true → ltb_ℤ a b ≡ false → ⊥
    larger a b e f g = ground arith
