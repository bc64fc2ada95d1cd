-- ===== src/Boot.antt =====
-- kernel.c: the start of the kernel. The vectors and flags of the processor that it sets are left
-- out.
pub mod Handover
pub mod Printed
pub mod Room
pub mod Started
pub mod UserMode
use clb_filesystem.Common.{
  ℕ, ◌+◌, ◌-◌, ◌%◌, ◌^◌, ◌==◌, some, none, if◌then◌else◌, Outcome, ok, ◌>>=◌, List, [], ◌∷◌,
}
use clb_filesystem.Common.Words.{ℤ, pos, negsuc}
use clb_filesystem.Memory.{Memory}
use clb_filesystem.Inode.{Table}
use clb_filesystem.Pages.{Pages}
use clb_filesystem.Filesystem.{init_fs}
use clb_filesystem.Sched.{Sched, task_running}
use clb_filesystem.Fork.{
  Processes, zero_mm, zero_context, zero_regs, copy_process, move_to_user_mode,
}
use clb_filesystem.Devices.{
  Device, Clock, uart_send, uart_init, timer_init, enable_interrupt_controller,
}

-- `INIT_TASK`, the first task of the array and the current one, and `nr_tasks` at the start, for
-- the address of `init_task`.
abbrev pub first_sched : (init_task : ℕ) → Sched
first_sched init_task = record {
  task = λ i. if i == 0 then some init_task else none;
  tasks = λ p. record {
    state = task_running;
    counter = pos 0;
    priority = pos 15;
    preempt_count = pos 0;
  };
  current = init_task;
}

abbrev pub first_processes : (init_task : ℕ) → Pages → Processes
first_processes init_task pages = record {
  pages = pages;
  sched = first_sched init_task;
  count = 1;
  mm = λ p. zero_mm;
  cpu_context = λ p. zero_context;
  flags = λ p. 2;
  pt_regs = λ p. zero_regs;
  ttbr = 0;
}

pub record Machine : Type 0 where
  pub inodes : Table
  pub device : Device
  pub cur_val : ℕ
  pub processes : Processes

-- The state in which `kernel_main` is called.
abbrev pub first_machine : (init_task : ℕ) → Table → Device → (cur_val : ℕ) → Pages → Machine
first_machine init_task inodes device cur_val pages = record {
  inodes = inodes;
  device = device;
  cur_val = cur_val;
  processes = first_processes init_task pages;
}

-- The texts that kernel.c prints.
abbrev pub kernel_boots : List ℕ
kernel_boots =
    b'k' ∷ b'e' ∷ b'r' ∷ b'n' ∷ b'e' ∷ b'l' ∷ 32 ∷ b'b' ∷ b'o' ∷ b'o' ∷ b't' ∷ b's' ∷ 32 ∷ 46 ∷ 46
    ∷ 46 ∷ 10 ∷ 13 ∷ []

abbrev pub fs_init_ok : List ℕ
fs_init_ok = b'F' ∷ b'S' ∷ 32 ∷ b'i' ∷ b'n' ∷ b'i' ∷ b't' ∷ 32 ∷ b'O' ∷ b'K' ∷ 10 ∷ 13 ∷ []

abbrev pub vector_init_ok : List ℕ
vector_init_ok =
    b'V' ∷ b'e' ∷ b'c' ∷ b't' ∷ b'o' ∷ b'r' ∷ 32 ∷ b'i' ∷ b'n' ∷ b'i' ∷ b't' ∷ 32 ∷ b'O' ∷ b'K' ∷ 10
    ∷ 13 ∷ []

abbrev pub timer_init_ok : List ℕ
timer_init_ok =
    b'T' ∷ b'i' ∷ b'm' ∷ b'e' ∷ b'r' ∷ 32 ∷ b'i' ∷ b'n' ∷ b'i' ∷ b't' ∷ 32 ∷ b'O' ∷ b'K' ∷ 10 ∷ 13
    ∷ []

abbrev pub interrupt_init_ok : List ℕ
interrupt_init_ok =
    b'I' ∷ b'n' ∷ b't' ∷ b'e' ∷ b'r' ∷ b'r' ∷ b'u' ∷ b'p' ∷ b't' ∷ 32 ∷ b'i' ∷ b'n' ∷ b'i' ∷ b't'
    ∷ 32 ∷ b'O' ∷ b'K' ∷ 10 ∷ 13 ∷ []

abbrev pub irq_enable_ok : List ℕ
irq_enable_ok =
    b'I' ∷ b'R' ∷ b'Q' ∷ 32 ∷ b'e' ∷ b'n' ∷ b'a' ∷ b'b' ∷ b'l' ∷ b'e' ∷ 32 ∷ b'O' ∷ b'K' ∷ 10 ∷ 13
    ∷ []

abbrev pub error_starting : List ℕ
error_starting =
    b'e' ∷ b'r' ∷ b'r' ∷ b'o' ∷ b'r' ∷ 32 ∷ b'w' ∷ b'h' ∷ b'i' ∷ b'l' ∷ b'e' ∷ 32 ∷ b's' ∷ b't'
    ∷ b'a' ∷ b'r' ∷ b't' ∷ b'i' ∷ b'n' ∷ b'g' ∷ 32 ∷ b'k' ∷ b'e' ∷ b'r' ∷ b'n' ∷ b'e' ∷ b'l' ∷ 32
    ∷ b'p' ∷ b'r' ∷ b'o' ∷ b'c' ∷ b'e' ∷ b's' ∷ b's' ∷ []

abbrev pub process_started : List ℕ
process_started =
    b'K' ∷ b'e' ∷ b'r' ∷ b'n' ∷ b'e' ∷ b'l' ∷ 32 ∷ b'p' ∷ b'r' ∷ b'o' ∷ b'c' ∷ b'e' ∷ b's' ∷ b's'
    ∷ 32 ∷ b's' ∷ b't' ∷ b'a' ∷ b'r' ∷ b't' ∷ b'e' ∷ b'd' ∷ 46 ∷ 32 ∷ b'E' ∷ b'L' ∷ 32 ∷ 37 ∷ b'd'
    ∷ 13 ∷ 10 ∷ []

abbrev pub error_moving : List ℕ
error_moving =
    b'E' ∷ b'r' ∷ b'r' ∷ b'o' ∷ b'r' ∷ 32 ∷ b'w' ∷ b'h' ∷ b'i' ∷ b'l' ∷ b'e' ∷ 32 ∷ b'm' ∷ b'o'
    ∷ b'v' ∷ b'i' ∷ b'n' ∷ b'g' ∷ 32 ∷ b'p' ∷ b'r' ∷ b'o' ∷ b'c' ∷ b'e' ∷ b's' ∷ b's' ∷ 32 ∷ b't'
    ∷ b'o' ∷ 32 ∷ b'u' ∷ b's' ∷ b'e' ∷ b'r' ∷ 32 ∷ b'm' ∷ b'o' ∷ b'd' ∷ b'e' ∷ 10 ∷ 13 ∷ []

-- `printf` of printf.c is third-party code: `format text arguments` is the bytes that it makes of a
-- text and its arguments. It hands them one by one to `putc`, as `init_printf` has told it to do.
module _ (format : List ℕ → List ℤ → List ℕ) (input : ℕ → ℕ → ℕ) (w : ℕ) where
  -- `putc` of each byte, which waits for the transmitter, for w rounds of its loop.
  unfoldable pub put_bytes : Device → List ℕ → Outcome Device
  put_bytes d [] = ok d
  put_bytes d (c ∷ text) = uart_send input w d c >>= λ d'. put_bytes d' text

  unfoldable pub printf : Device → (text : List ℕ) → (arguments : List ℤ) → Outcome Device
  printf d text arguments = put_bytes d (format text arguments)

  -- What is printed where an answer is negative.
  unfoldable pub report_negative : Device → (text : List ℕ) → ℤ → Outcome Device
  report_negative d text (pos n) = ok d
  report_negative d text (negsuc n) = printf d text []

  -- `kernel_process`, for the exception level that `get_el` answers and the addresses of the symbols it
  -- names: the answer of `move_to_user_mode`, the device and the processes.
  unfoldable pub kernel_process :
      Device
      → Processes
      → (el : ℤ) → (user_begin user_end user_process : ℕ) → Outcome (ℤ × Device × Processes)
  kernel_process d s el user_begin user_end user_process = do
    d₁ ← printf d process_started (el ∷ [])
    (err, s') ←
        move_to_user_mode s user_begin ((user_end + 2 ^ 64 - user_begin) % 2 ^ 64)
          ((user_process + 2 ^ 64 - user_begin) % 2 ^ 64)
    d₂ ← report_negative d₁ error_moving err
    ok (err, d₂, s')

  -- The device and `curVal`, after the first three texts are printed, when the timer has been set up.
  abbrev pub clock_of : Machine → Device → Clock
  clock_of s d =
      timer_init input (record { cur_val = s.cur_val; device = d; sched = s.processes.sched })

  module _ (mmu : Memory → ℕ → ℕ → ℕ) (ret_from_fork kernel_process_at : ℕ) where
    -- `kernel_main` up to the loop that calls `schedule`: the answer of `copy_process`. No interrupt
    -- comes before the loop.
    unfoldable pub kernel_main : Machine → Outcome (ℤ × Machine)
    kernel_main s = do
      d₁ ← printf (uart_init input s.device) kernel_boots []
      (inodes, pages) ← init_fs (s.inodes, s.processes.pages)
      d₂ ← printf d₁ fs_init_ok []
      d₃ ← printf d₂ vector_init_ok []
      let clock = clock_of s d₃
      d₄ ← printf clock.device timer_init_ok []
      d₅ ← printf (enable_interrupt_controller d₄) interrupt_init_ok []
      d₆ ← printf d₅ irq_enable_ok []
      (res, processes) ←
          copy_process mmu ret_from_fork (record s.processes { pages = pages }) 2 kernel_process_at
            0
      d₇ ← report_negative d₆ error_starting res
      ok (
        res,
        record { inodes = inodes; device = d₇; cur_val = clock.cur_val; processes = processes },
      )
