-- ===== src/Sched.antt =====
-- sched.c: the scheduler. A pointer to a task is null or a number, and `tasks` maps it to what it
-- points to. A round of the loop in `_schedule` takes fuel, which a caller passes.
pub mod Charge
pub mod Exit
pub mod Fair
pub mod Negative
pub mod Only
pub mod Pick
pub mod Tick
use clb_filesystem.Common.{
  ℕ, zero, suc, ◌/◌, Bool, true, false, not, ◌&&◌, ◌||◌, Option, none, some, Outcome, ok, fault,
  out_of_fuel, ◌>>=◌, ◌==◌, if◌then◌else◌,
}
use clb_filesystem.Common.Words.{ℤ, pos, negsuc, ◌+ℤ◌, ◌-ℤ◌, ltb_ℤ, is_zero, to_u32, to_s32}
use clb_filesystem.Inode.{Ptr, points_to, update}

-- `NR_TASKS`
abbrev pub nr_tasks : ℕ
nr_tasks = 64

-- `TASK_RUNNING`, `TASK_ZOMBIE`
pub data State : Type 0 where
  task_running task_zombie : State

abbrev pub is_running : State → Bool
is_running task_running = true
is_running task_zombie = false

-- The fields of `struct task_struct` that the scheduler reads and writes.
pub record Task : Type 0 where
  pub state : State
  pub counter : ℤ
  pub priority : ℤ
  pub preempt_count : ℤ

-- The array `task`, the task structures, and `current`.
pub record Sched : Type 0 where
  pub task : ℕ → Ptr
  pub tasks : ℕ → Task
  pub current : ℕ

-- A write to the task p.
abbrev pub set_task : Sched → ℕ → Task → Sched
set_task s p x = record s { tasks = update s.tasks p x }

unfoldable pub preempt_disable : Sched → Sched
preempt_disable s =
    let x = s.tasks s.current in
    set_task s s.current (record x { preempt_count = x.preempt_count +ℤ pos 1 })

-- `preempt_enable`, and `schedule_tail`, which only calls it
unfoldable pub preempt_enable : Sched → Sched
preempt_enable s =
    let x = s.tasks s.current in
    set_task s s.current (record x { preempt_count = x.preempt_count -ℤ pos 1 })

abbrev pub schedule_tail : Sched → Sched
schedule_tail = preempt_enable

-- Whether the task p is taken in place of one with the counter c, which is an int.
unfoldable pub is_better : Sched → Ptr → ℤ → Bool
is_better s none c = false
is_better s (some p) c = is_running (s.tasks p).state && ltb_ℤ c (s.tasks p).counter

-- `c = p->counter`: a long becomes an int.
unfoldable pub counter_of : Sched → Ptr → ℤ
counter_of s none = pos 0
counter_of s (some p) = to_s32 (to_u32 (s.tasks p).counter)

-- The loop in `_schedule` that picks a task: the counter, and the index.
unfoldable pub pick : ℕ → ℕ → Sched → ℤ → ℕ → ℤ × ℕ
pick zero i s c next = (c, next)
pick (suc n) i s c next = elim (is_better s (s.task i) c) [
  | true ↦ pick n (suc i) s (counter_of s (s.task i)) i
  | false ↦ pick n (suc i) s c next
]

-- `counter >> 1`, which rounds down.
abbrev pub half : ℤ → ℤ
half (pos n) = pos (n / 2)
half (negsuc n) = negsuc (n / 2)

abbrev pub charge_one : Sched → Ptr → Sched
charge_one s none = s
charge_one s (some p) =
    let x = s.tasks p in set_task s p (record x { counter = half x.counter +ℤ x.priority })

-- The loop in `_schedule` that hands out new counters.
unfoldable pub charge : ℕ → ℕ → Sched → Sched
charge zero i s = s
charge (suc n) i s = charge n (suc i) (charge_one s (s.task i))

-- The `while` loop of `_schedule`: the index of the next task, and the state.
unfoldable pub choose : ℕ → Sched → Outcome (ℕ × Sched)
choose zero s = out_of_fuel
choose (suc k) s =
    let (c, next) = pick nr_tasks 0 s (negsuc 0) 0 in
    elim (is_zero c) [ true ↦ choose k (charge nr_tasks 0 s) | false ↦ ok (next, s) ]

-- `switch_to`: from here on the next task runs.
unfoldable pub switch_to : Sched → Ptr → Outcome Sched
switch_to s none = fault
switch_to s (some next) = if s.current == next then ok s else ok (record s { current = next })

-- `_schedule`. The task that is switched to goes on behind its own `switch_to`, or at
-- `schedule_tail` where it is new, and so calls `preempt_enable`.
unfoldable pub schedule_next : ℕ → Sched → Outcome Sched
schedule_next k s = do
  (next, s') ← choose k (preempt_disable s)
  s'' ← switch_to s' (s'.task next)
  ok (preempt_enable s'')

-- `schedule`
unfoldable pub schedule : ℕ → Sched → Outcome Sched
schedule k s =
    schedule_next k (set_task s s.current (record (s.tasks s.current) { counter = pos 0 }))

-- `timer_tick`
unfoldable pub timer_tick : ℕ → Sched → Outcome Sched
timer_tick k s =
    let x = s.tasks s.current in
    let s' = set_task s s.current (record x { counter = x.counter -ℤ pos 1 }) in
    if ltb_ℤ (pos 0) (x.counter -ℤ pos 1) || ltb_ℤ (pos 0) x.preempt_count
    then ok s'
    else schedule_next k (set_task s s.current (record x { counter = pos 0 }))

-- The loop in `exit_process`.
unfoldable pub kill : ℕ → ℕ → Sched → Sched
kill zero i s = s
kill (suc n) i s = elim (points_to (s.task i) s.current) [
  | true ↦ set_task s s.current (record (s.tasks s.current) { state = task_zombie })
  | false ↦ kill n (suc i) s
]

-- `exit_process`
unfoldable pub exit_process : ℕ → Sched → Outcome Sched
exit_process k s = schedule k (preempt_enable (kill nr_tasks 0 (preempt_disable s)))
