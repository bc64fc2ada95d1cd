-- ===== src/Boot/Handover.antt =====
-- The kernel's first call of `schedule` hands over to its first thread.
use native.Mathlib.Decide.{ℕ_discrete}
use clb_filesystem.Common.{
  ℕ, suc, ◌≡◌, ◌≢◌, ◌∙◌, refl, arith, ok, ap, sym, subst, some, false, ==_refl, ne→==,
}
use clb_filesystem.Common.Words.{pos, ltb_ℤ}
use clb_filesystem.Inode.{update}
use clb_filesystem.Sched.{Sched, task_running, set_task, preempt_disable, preempt_enable, schedule}
use clb_filesystem.Sched.Pick.{AreInts, IsInt}
use clb_filesystem.Sched.Only.{IsOnly, schedule_next-only}
use clb_filesystem.Boot.{first_sched}

-- The array of tasks after the start: the first task without time left, and the new task p.
module _ (s : Sched) (init_task p : ℕ)
    (array : s.task ≡ update (first_sched init_task).task 1 (some p))
    (current : s.current ≡ init_task)
    (task : s.tasks p
      ≡ record { state = task_running; counter = pos 15; priority = pos 15; preempt_count = pos 1 })
    (others : (q : ℕ) → q ≢ p → s.tasks q ≡ (first_sched init_task).tasks q)
    (apart : p ≢ init_task) where
  -- The state in which `schedule` calls `_schedule`.
  abbrev given_up : Sched
  given_up = set_task s s.current (record (s.tasks s.current) { counter = pos 0 })

  p_apart : p ≢ s.current
  p_apart same = apart (same ∙ current)

  given_up-task : given_up.tasks p ≡ s.tasks p
  given_up-task = rw (ne→== p s.current p_apart) refl

  given_up-IsOnly : IsOnly given_up p
  given_up-IsOnly i q lt found ne = elim (ℕ_discrete q s.current) [
    | yes same ↦
        subst (λ z. ltb_ℤ (pos 0) (given_up.tasks z).counter ≡ false) (sym same)
          (rw (==_refl s.current) refl)
    | no other ↦ rw (ne→== q s.current other) (rw (others q ne) refl)
  ]

  given_up-AreInts : AreInts given_up
  given_up-AreInts i q lt found = elim (ℕ_discrete q s.current) [
    | yes same ↦
        subst (λ z. IsInt (given_up.tasks z).counter) (sym same)
          (rw (==_refl s.current) (omega arith))
    | no other ↦ rw (ne→== q s.current other) (elim (ℕ_discrete q p) [
      | yes new ↦
          let counts : (s.tasks q).counter ≡ pos 15 =
            ap (λ z. (s.tasks z).counter) new ∙ ap (λ x. x.counter) task in
          subst IsInt (sym counts) (omega arith)
      | no old ↦ rw (others q old) (omega arith)
    ])
  ]

  pub schedule-switches : (k : ℕ) → (s' : Sched) × (schedule (suc k) s ≡ ok s') × (s'.current ≡ p)
  unfolding schedule preempt_enable
  schedule-switches k = (
    preempt_enable (record (preempt_disable given_up) { current = p }),
    schedule_next-only k 1 p given_up given_up-AreInts (omega arith) (ap (λ f. f 1) array)
        (ap (λ x. x.state) (given_up-task ∙ task))
        (ap (λ x. ltb_ℤ (pos 0) x.counter) (given_up-task ∙ task)) given_up-IsOnly,
    refl,
  )
