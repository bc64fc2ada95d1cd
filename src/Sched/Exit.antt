-- ===== src/Sched/Exit.antt =====
-- A task that exits does not run again.
use clb_filesystem.Common.{ℕ, ◌≡◌, ◌≢◌}
use clb_filesystem.Common.Words.{pos}
use clb_filesystem.Sched.{task_zombie, Sched}

-- The state u is s but for the current task, which is a zombie without time left.
pub record Ended (s u : Sched) : Type 0 where
  pub array : u.task ≡ s.task
  pub current : u.current ≡ s.current
  pub zombie : (u.tasks s.current).state ≡ task_zombie
  pub spent : (u.tasks s.current).counter ≡ pos 0
  pub others : (q : ℕ) → q ≢ s.current → u.tasks q ≡ s.tasks q
