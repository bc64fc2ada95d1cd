-- ===== src/Sched/Tick.antt =====
-- `timer_tick`.
use clb_filesystem.Common.{
  ℕ, suc, ◌≡◌, refl, sym, subst, inl, inr, ◌⊎◌, true, Bool-cases, ok, arith,
}
use clb_filesystem.Common.Words.{pos, ◌-ℤ◌, ltb_ℤ}
use clb_filesystem.Sched.{Sched, set_task, timer_tick, schedule_next}
use clb_filesystem.Sched.Charge.{IsFair}
use clb_filesystem.Sched.Fair.{Like, Like-IsFair, IsRunnable, Switched, schedule_next-Switched}

-- Whether the current task goes on after a tick: it has time left, or preemption is disabled.
abbrev pub GoesOn : Sched → Type 0
GoesOn s =
    let x = s.tasks s.current in
    (ltb_ℤ (pos 0) (x.counter -ℤ pos 1) ≡ true) ⊎ (ltb_ℤ (pos 0) x.preempt_count ≡ true)

-- The current task without time left.
abbrev pub used_up : Sched → Sched
used_up s = set_task s s.current (record (s.tasks s.current) { counter = pos 0 })

abbrev pub one_less : Sched → Sched
one_less s =
    let x = s.tasks s.current in set_task s s.current (record x { counter = x.counter -ℤ pos 1 })

used_up-Like : (s : Sched) → Like s (used_up s)
used_up-Like s = record { task = refl; counter = λ r. ground arith; priority = λ r. ground arith }

used_up-runs : (s : Sched) (j p : ℕ) → IsRunnable s j p → IsRunnable (used_up s) j p
used_up-runs s j p r = record { inside = r.inside; found = r.found; runs = ground (arith, r.runs) }

-- A tick of the timer takes one from the counter of the current task, which goes on if it has time
-- left or preemption is disabled. Otherwise its counter is 0, and where the array has a running task,
-- no task twice, counters that are ints and not negative, and priorities from 1 to 2 ^ 30,
-- `timer_tick` ends with a switch to a running task with the largest counter.
pub timer_tick_lem :
    (k j p : ℕ) (s : Sched)
    → IsFair s
    → IsRunnable s j p
    → (GoesOn s × (timer_tick (suc (suc k)) s ≡ ok (one_less s)))
      ⊎ ((GoesOn s → ⊥) × ((q : ℕ) × Switched (used_up s) (timer_tick (suc (suc k)) s) q))
unfolding timer_tick
timer_tick_lem k j p s fair runnable =
    let x = s.tasks s.current in
    elim (Bool-cases (ltb_ℤ (pos 0) (x.counter -ℤ pos 1))) [
      | inl left ↦ inl (inl left, rw (left, timer_tick) refl)
      | inr none_left ↦ elim (Bool-cases (ltb_ℤ (pos 0) x.preempt_count)) [
        | inl disabled ↦ inl (inr disabled, rw (none_left, disabled, timer_tick) refl)
        | inr enabled ↦
            let u = used_up s in
            let same : timer_tick (suc (suc k)) s ≡ schedule_next (suc (suc k)) u =
              rw (none_left, enabled, timer_tick) refl in
            let (q, switched) =
              schedule_next-Switched k j p u (Like-IsFair s u (used_up-Like s) fair)
                (used_up-runs s j p runnable) in
            inr (
              λ on. elim on [ inl left ↦ cc | inr disabled ↦ cc ],
              (q, subst (λ r. Switched u r q) (sym same) switched),
            )
      ]
    ]
