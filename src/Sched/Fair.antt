-- ===== src/Sched/Fair.antt =====
-- `_schedule`, `schedule` and `exit_process` end and find a task that can run.
use clb_filesystem.Common.{
  ℕ, zero, suc, ◌+◌, ◌≤◌, ◌<◌, ◌≡◌, ◌≢◌, refl, sym, ap, ◌∙◌, inl, inr, ◌⊎◌, true, some, Outcome, ok,
  arith, Bool-cases, ==_refl, ne→==,
}
use native.Mathlib.Decide.{ℕ_discrete}
use clb_filesystem.Common.Words.{ℤ, pos, ltb_ℤ}
use clb_filesystem.Inode.{points_to}
use clb_filesystem.Sched.{
  task_running, task_zombie, Sched, nr_tasks, set_task, preempt_disable, preempt_enable,
  schedule_next, schedule, kill, exit_process,
}
use clb_filesystem.Sched.Pick.{Picked, IsLargest, schedule_next-ok}
use clb_filesystem.Sched.Charge.{IsFair, Recharged, charged, choose-Chosen}

-- The tasks have the counters and priorities that they had, or the counter 0.
pub record Like (s u : Sched) : Type 0 where
  pub task : u.task ≡ s.task
  pub counter :
      (p : ℕ) → ((u.tasks p).counter ≡ (s.tasks p).counter) ⊎ ((u.tasks p).counter ≡ pos 0)
  pub priority : (p : ℕ) → (u.tasks p).priority ≡ (s.tasks p).priority

pub Like-IsFair : (s u : Sched) → Like s u → IsFair s → IsFair u
Like-IsFair s u like fair = record {
  once = λ i j p h k e f. fair.once i j p h k (at i p e) (at j p f);
  counters = λ i p h e. elim (like.counter p) [
    | inl same ↦ let (n, c) = fair.counters i p h (at i p e) in (n, same ∙ c)
    | inr none_left ↦ (0, none_left)
  ];
  priorities = λ i p h e. let (n, c) = fair.priorities i p h (at i p e) in (n, like.priority p ∙ c);
  small = λ i p n h e c. elim (like.counter p) [
    | inl same ↦ fair.small i p n h (at i p e) (sym same ∙ c)
    | inr none_left ↦ let zero_left : pos 0 ≡ pos n = sym none_left ∙ c in ground arith
  ];
  low = λ i p n h e c. fair.low i p n h (at i p e) (sym (like.priority p) ∙ c);
}
  where
    at : (i p : ℕ) → u.task i ≡ some p → s.task i ≡ some p
    at i p e = sym (ap (λ f. f i) like.task) ∙ e

preempt_disable-Like : (s : Sched) → Like s (preempt_disable s)
unfolding preempt_disable
preempt_disable-Like s = record {
  task = refl;
  counter = λ p. inl (ground arith);
  priority = λ p. ground arith;
}

preempt_disable-state :
    (s : Sched) (p : ℕ) → ((preempt_disable s).tasks p).state ≡ (s.tasks p).state
unfolding preempt_disable
preempt_disable-state s p = ground arith

-- A running task of the array, at the index j.
pub record IsRunnable (s : Sched) (j p : ℕ) : Type 0 where
  pub inside : j < nr_tasks
  pub found : s.task j ≡ some p
  pub runs : (s.tasks p).state ≡ task_running

-- From s, r is a switch to the running task q of the array, which has the largest counter of the
-- running tasks in the state `before`. The array and the states of the tasks are those of s there, and
-- so are the counters, unless no running task had time left in s: then all tasks have new ones.
pub record Switched (s : Sched) (r : Outcome Sched) (q : ℕ) : Type 0 where
  pub before : Sched
  pub counter : ℤ
  pub index : ℕ
  pub ends : r ≡ ok (preempt_enable (record before { current = q }))
  pub array : before.task ≡ s.task
  pub states : (p : ℕ) → (before.tasks p).state ≡ (s.tasks p).state
  pub recharged : Recharged s before
  pub picked : Picked before counter index q
  pub largest : IsLargest before counter

disable-counter : (s : Sched) (p : ℕ) → ((preempt_disable s).tasks p).counter ≡ (s.tasks p).counter
unfolding preempt_disable
disable-counter s p = ground arith

disable-charged : (s : Sched) (p : ℕ) → charged ((preempt_disable s).tasks p) ≡ charged (s.tasks p)
unfolding preempt_disable
disable-charged s p = elim (ℕ_discrete p s.current) [
  | yes same ↦ rw same (rw (==_refl s.current) refl)
  | no other ↦ rw (ne→== p s.current other) refl
]

disable-Recharged : (s u : Sched) → Recharged (preempt_disable s) u → Recharged s u
disable-Recharged s u (inl same) = inl λ p. same p ∙ disable-counter s p
disable-Recharged s u (inr (spent, new)) =
    let array = (preempt_disable-Like s).task in
    inr (
      λ j p lt e runs.
          sym (ap (ltb_ℤ (pos 0)) (disable-counter s p))
          ∙ spent j p lt (ap (λ f. f j) array ∙ e) (preempt_disable-state s p ∙ runs),
      λ i p lt e. new i p lt (ap (λ f. f i) array ∙ e) ∙ disable-charged s p,
    )

pub schedule_next-Switched :
    (k j p : ℕ) (s : Sched)
    → IsFair s
    → IsRunnable s j p
    → (q : ℕ) × Switched s (schedule_next (suc (suc k)) s) q
schedule_next-Switched k j p s fair runnable =
    let u = preempt_disable s in
    let like = preempt_disable-Like s in
    let chosen =
      choose-Chosen k j p u (Like-IsFair s u like fair) runnable.inside
        (ap (λ f. f j) like.task ∙ runnable.found) (preempt_disable-state s p ∙ runnable.runs) in
    (
      chosen.picks,
      record {
        before = chosen.state;
        counter = chosen.counter;
        index = chosen.index;
        ends =
            schedule_next-ok (suc (suc k)) chosen.index chosen.picks s chosen.state chosen.runs
              chosen.picked.found;
        array = chosen.array ∙ like.task;
        states = λ r. chosen.states r ∙ preempt_disable-state s r;
        recharged = disable-Recharged s chosen.state chosen.recharged;
        picked = chosen.picked;
        largest = chosen.largest;
      },
    )

-- The loop of `exit_process` finds the current task wherever it stands.
kill_lem :
    (n i c : ℕ) (s : Sched)
    → i ≤ c
    → c < i + n
    → s.task c ≡ some s.current
    → kill n i s ≡ set_task s s.current (record (s.tasks s.current) { state = task_zombie })
unfolding kill
kill_lem zero i c s le lt found = absurd (omega arith)
kill_lem (suc n) i c s le lt found = elim (Bool-cases (points_to (s.task i) s.current)) [
  | inl hit ↦ rw (hit, kill) refl
  | inr miss ↦ elim (ℕ_discrete i c) [
    | yes here ↦
        let hit : points_to (s.task i) s.current ≡ true = rw here (rw found (==_refl s.current)) in
        cc
    | no later ↦ rw (miss, kill) (kill_lem n (suc i) c s (omega arith) (omega arith) found)
  ]
]

module _ (k c j p : ℕ) (s : Sched) (fair : IsFair s) (c_in : c < nr_tasks)
    (listed : s.task c ≡ some s.current) (runnable : IsRunnable s j p) (other : p ≢ s.current) where
  abbrev pub disabled : Sched
  disabled = preempt_disable s

  abbrev pub stopped : Sched
  stopped = preempt_enable (
      set_task disabled disabled.current
        (record (disabled.tasks disabled.current) { state = task_zombie }))

  -- The state in which `exit_process` calls `_schedule`.
  abbrev pub left : Sched
  left =
      set_task stopped stopped.current (record (stopped.tasks stopped.current) { counter = pos 0 })

  pub exit_process-left : exit_process k s ≡ schedule_next k left
  unfolding exit_process schedule preempt_disable
  exit_process-left =
      ap (λ z. schedule k (preempt_enable z))
        (kill_lem nr_tasks 0 c disabled (omega arith) (omega arith) listed)

  pub left-Like : Like s left
  unfolding preempt_enable preempt_disable
  left-Like = record { task = refl; counter = λ r. ground arith; priority = λ r. ground arith }

  pub left-ended : (left.tasks s.current).state ≡ task_zombie
  unfolding preempt_enable preempt_disable
  left-ended = ground arith

  pub left_other : (left.tasks p).state ≡ (s.tasks p).state
  unfolding preempt_enable preempt_disable
  left_other = ground arith

  -- What `exit_process` leaves of the other tasks.
  pub left_others : (q : ℕ) → q ≢ s.current → left.tasks q ≡ s.tasks q
  unfolding preempt_enable preempt_disable
  left_others q ne = rw (ne→== q s.current ne) refl

  pub left_spent : (left.tasks s.current).counter ≡ pos 0
  unfolding preempt_enable preempt_disable
  left_spent = rw (==_refl s.current) refl

  pub left_current : left.current ≡ s.current
  unfolding preempt_enable preempt_disable
  left_current = refl
