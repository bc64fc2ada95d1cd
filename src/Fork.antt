-- ===== src/Fork.antt =====
-- fork.c: new processes, and the way of a kernel thread into user mode. A pointer to a task is the
-- address of its page, and the structures in that page, the task's and its saved registers, are
-- maps from this address; the page was cleared, so they start out as zeros.
pub mod Full
pub mod Spawn
pub mod ToUser
use clb_filesystem.Common.{
  ℕ, suc, ◌+◌, ◌-◌, ◌*◌, ◌/◌, ◌%◌, Bool, true, false, Option, none, some, ltb, ◌==◌, Outcome, ok,
  if◌then◌else◌, fault, ◌>>=◌,
}
use clb_filesystem.Common.Words.{ℤ, pos, negsuc}
use clb_filesystem.Memory.{Memory, memcpy}
use clb_filesystem.Inode.{update}
use clb_filesystem.Pages.{Pages, page_size, allocate_kernel_page}
use clb_filesystem.Pages.Tables.{MmStruct, allocate_user_page, copy_virt_memory}
use clb_filesystem.Sched.{
  task_running, Task, Sched, nr_tasks, set_task, preempt_disable, preempt_enable,
}

-- `struct cpu_context`
pub record CpuContext : Type 0 where
  pub x19 : ℕ
  pub x20 : ℕ
  pub x21 : ℕ
  pub x22 : ℕ
  pub x23 : ℕ
  pub x24 : ℕ
  pub x25 : ℕ
  pub x26 : ℕ
  pub x27 : ℕ
  pub x28 : ℕ
  pub fp : ℕ
  pub sp : ℕ
  pub pc : ℕ

-- `struct pt_regs`
pub record PtRegs : Type 0 where
  pub regs : ℕ → ℕ
  pub sp : ℕ
  pub pc : ℕ
  pub pstate : ℕ

-- `mm`, `cpu_context` and `flags` are fields of the task structure, which `sched` has the others of.
-- `count` is the global `nr_tasks`, and `ttbr` the register that `set_pgd` writes.
pub record Processes : Type 0 where
  pub pages : Pages
  pub sched : Sched
  pub count : ℕ
  pub mm : ℕ → MmStruct
  pub cpu_context : ℕ → CpuContext
  pub flags : ℕ → ℕ
  pub pt_regs : ℕ → PtRegs
  pub ttbr : ℕ

abbrev pub zero_task : Task
zero_task = record {
  state = task_running;
  counter = pos 0;
  priority = pos 0;
  preempt_count = pos 0;
}

abbrev pub zero_mm : MmStruct
zero_mm = record {
  pgd = 0;
  user_pages_count = 0;
  user_pages = λ i. record { phys_addr = 0; virt_addr = 0 };
  kernel_pages_count = 0;
  kernel_pages = λ i. 0;
}

abbrev pub zero_context : CpuContext
zero_context = record {
  x19 = 0;
  x20 = 0;
  x21 = 0;
  x22 = 0;
  x23 = 0;
  x24 = 0;
  x25 = 0;
  x26 = 0;
  x27 = 0;
  x28 = 0;
  fp = 0;
  sp = 0;
  pc = 0;
}

abbrev pub zero_regs : PtRegs
zero_regs = record { regs = λ i. 0; sp = 0; pc = 0; pstate = 0 }

-- The structures in the page p, which was cleared.
abbrev pub with_zeros : Processes → (p : ℕ) → Pages → Processes
with_zeros s p pages = record s {
  pages = pages;
  sched = set_task s.sched p zero_task;
  mm = update s.mm p zero_mm;
  cpu_context = update s.cpu_context p zero_context;
  flags = update s.flags p 0;
  pt_regs = update s.pt_regs p zero_regs;
}

-- `task_pt_regs`: the address, `THREAD_SIZE` less the 272 bytes of the registers behind the task
unfoldable pub task_pt_regs : ℕ → ℕ
task_pt_regs tsk = tsk + 4096 - 272

-- `clone_flags & PF_KTHREAD`
abbrev pub is_kthread : ℕ → Bool
is_kthread clone_flags = clone_flags / 2 % 2 == 1

-- The fields of the new task from `flags` to `cpu_context.sp`.
unfoldable pub set_fields : Processes → (ret_from_fork p clone_flags : ℕ) → Processes
set_fields s ret_from_fork p clone_flags =
    let priority = (s.sched.tasks s.sched.current).priority in
    record s {
      flags = update s.flags p clone_flags;
      sched = set_task s.sched p (record {
        state = task_running;
        counter = priority;
        priority = priority;
        preempt_count = pos 1;
      });
      cpu_context =
          update s.cpu_context p
            (record (s.cpu_context p) { pc = ret_from_fork; sp = task_pt_regs p });
    }

-- `task[nr_tasks++] = p`
unfoldable pub add_task : Processes → (p : ℕ) → Outcome Processes
add_task s p =
    if ltb s.count nr_tasks
    then ok (record s {
      count = suc s.count;
      sched = record s.sched { task = update s.sched.task s.count (some p) };
    })
    else fault

-- The branch of a kernel thread.
unfoldable pub start_kthread : Processes → (p fn arg : ℕ) → Processes
start_kthread s p fn arg = record s {
  cpu_context = update s.cpu_context p (record (s.cpu_context p) { x19 = fn; x20 = arg });
}

module _ (mmu : Memory → ℕ → ℕ → ℕ) (ret_from_fork : ℕ) where
  -- The other branch: `*cur_regs = *childregs`, the first register, and the user's pages.
  unfoldable pub copy_user : Processes → (p : ℕ) → Outcome Processes
  copy_user s p = do
    let current = s.sched.current
    let child = s.pt_regs p
    let child_regs = record child { regs = update child.regs 0 0 }
    (r, mm', pages') ← copy_virt_memory mmu (s.mm current) s.pages (s.mm p)
    ok (record s {
      pages = pages';
      mm = update s.mm p mm';
      pt_regs = update (update s.pt_regs current child) p child_regs;
    })

  -- `copy_process`
  unfoldable pub copy_process : Processes → (clone_flags fn arg : ℕ) → Outcome (ℤ × Processes)
  copy_process s clone_flags fn arg = do
    let s₁ = record s { sched = preempt_disable s.sched }
    let (p, pages') = allocate_kernel_page s₁.pages
    let s₂ = with_zeros s₁ p pages'
    elim (p == 0) [
      | true ↦ ok (negsuc 0, record s₁ { pages = pages' })
      | false ↦ do
        s₃ ← elim (is_kthread clone_flags) [
          | true ↦ ok (start_kthread s₂ p fn arg)
          | false ↦ copy_user s₂ p
        ]
        let s₄ = set_fields s₃ ret_from_fork p clone_flags
        s₅ ← add_task s₄ p
        ok (pos s₄.count, record s₅ { sched = preempt_enable s₅.sched })
    ]

-- `move_to_user_mode`: the code at `start` goes to a page at address 0.
unfoldable pub move_to_user_mode : Processes → (start size pc : ℕ) → Outcome (ℤ × Processes)
move_to_user_mode s start size pc = do
  let current = s.sched.current
  let regs = record (s.pt_regs current) { pstate = 0; pc = pc; sp = 2 * page_size }
  let s₁ = record s { pt_regs = update s.pt_regs current regs }
  (code_page, mm', pages') ← allocate_user_page s₁.pages (s₁.mm current) 0
  let s₂ = record s₁ { pages = pages'; mm = update s₁.mm current mm' }
  let copied = record pages' { memory = memcpy pages'.memory start code_page size }
  elim (code_page == 0) [
    | true ↦ ok (negsuc 0, s₂)
    | false ↦ ok (pos 0, record s₂ { pages = copied; ttbr = mm'.pgd })
  ]
