-- ===== src/Tests/Devices.antt =====
-- The theorems on the serial line, on the timer's tick and on negative counters, at small states.
use clb_filesystem.Common.{
  ℕ, ◌-◌, ◌%◌, ◌≡◌, refl, ◌⊎◌, arith, [], ◌∷◌, ◌++◌, map, none, some, false, ok, if◌then◌else◌,
  ◌==◌,
}
use clb_filesystem.Common.Words.{pos, negsuc}
use clb_filesystem.Sched.{
  task_running, task_zombie, Sched, is_better, preempt_disable, preempt_enable, schedule_next,
  timer_tick,
}
use clb_filesystem.Sched.Fair.{Switched}
use clb_filesystem.Sched.Tick.{GoesOn, used_up, one_less, timer_tick_lem}
use clb_filesystem.Sched.Negative.{schedule_next_negative}
use clb_filesystem.Devices.{Device, uart_send_string}
use clb_filesystem.Devices.Console.{IsReady, sent, uart_send_string_lem}
use clb_filesystem.Tests.{two_tasks}
use clb_filesystem.Tests.Kernel.{two_tasks-IsFair, second-IsRunnable}

-- The transmitter is ready at every second read.
abbrev every_second : ℕ → ℕ → ℕ
every_second n register = if n % 2 == 1 then 0x20 else 0

every_second-IsReady : IsReady every_second 0x20 1
every_second-IsReady n = (1 - n % 2, omega arith, ground arith)

abbrev silent : Device
silent = record { reads = 0; written = [] }

uart_send_string_lem_example :
    (d' : Device) × (uart_send_string every_second 2 silent (0x6f ∷ 0x6b ∷ 0 ∷ 0x21 ∷ []) ≡ ok d')
    × (d'.written ≡ [] ++ map sent (0x6f ∷ 0x6b ∷ []))
uart_send_string_lem_example =
    uart_send_string_lem every_second 1 (0x6f ∷ 0x6b ∷ []) (0x6f ∷ 0x6b ∷ 0 ∷ 0x21 ∷ []) silent
      every_second-IsReady (omega arith)

timer_tick_lem_example :
    (GoesOn two_tasks × (timer_tick 2 two_tasks ≡ ok (one_less two_tasks)))
    ⊎ ((GoesOn two_tasks → ⊥) × ((q : ℕ) × Switched (used_up two_tasks) (timer_tick 2 two_tasks) q))
timer_tick_lem_example = timer_tick_lem 0 1 1 two_tasks two_tasks-IsFair second-IsRunnable

-- The first task has exited; the second one runs, and its counter went below 0.
abbrev overdrawn : Sched
overdrawn = record {
  task = λ i. if i == 0 then some 0 else if i == 1 then some 1 else none;
  tasks = λ p. record {
    state = if p == 0 then task_zombie else task_running;
    counter = if p == 0 then pos 0 else negsuc 0;
    priority = pos 15;
    preempt_count = pos 0;
  };
  current = 1;
}

overdrawn-worse :
    (j : ℕ)
    → is_better (preempt_disable overdrawn) ((preempt_disable overdrawn).task j) (negsuc 0) ≡ false
unfolding preempt_disable is_better
overdrawn-worse j = ground arith

schedule_next_negative_example :
    schedule_next 1 overdrawn
    ≡ ok (preempt_enable (record (preempt_disable overdrawn) { current = 0 }))
unfolding preempt_disable
schedule_next_negative_example =
    schedule_next_negative 0 0 overdrawn (λ j lt. overdrawn-worse j) refl
