-- ===== src/Boot/Started.antt =====
-- The state in which the kernel begins to schedule.
use clb_filesystem.Common.{
  ℕ, suc, ◌+◌, ◌≤◌, ◌<◌, ◌≡◌, ◌≢◌, refl, arith, inl, inr, Bool-cases, some, none, ok, ◌==◌, List,
  [], ◌∷◌, ◌++◌, map, ◌%◌, ◌^◌,
}
use mathlib.Core.List.{append_assoc}
use clb_filesystem.Common.Words.{ℤ, pos}
use clb_filesystem.Memory.{Memory}
use clb_filesystem.Inode.{Table, fs_npages}
use clb_filesystem.Pages.{Pages, low_memory, va_start}
use clb_filesystem.Pages.Free.{page_at}
use clb_filesystem.Pages.Tables.Count.{free_pages}
use clb_filesystem.Inode.Name.{IsLaidOut}
use clb_filesystem.Filesystem.Tree.{IsTree}
use clb_filesystem.Filesystem.Init.Bare.{bare, init_fs-IsTree}
use clb_filesystem.Sched.Charge.{IsFair}
use clb_filesystem.Fork.Spawn.{IsPlaced, Spawned, copy_process-Spawned}
use clb_filesystem.Devices.{
  Device, enable_interrupt_controller, uart_init, timer_init, timer_clo, timer_c1, enable_irqs_1,
  gpfsel1,
}
use clb_filesystem.Devices.Console.{IsReady, sent}
use clb_filesystem.Boot.Printed.{line_setup, uart_init-writes, printf_lem}
use clb_filesystem.Boot.{
  first_sched, first_processes, first_machine, clock_of, Machine, kernel_main, report_negative,
  kernel_boots, fs_init_ok, vector_init_ok, timer_init_ok, interrupt_init_ok, irq_enable_ok,
}
use clb_filesystem.Boot.Room.{init_fs-free}

first_sched-IsFair : (init_task : ℕ) → IsFair (first_sched init_task)
first_sched-IsFair init_task = record {
  once = λ i j p lt lt' e e'. ground arith;
  counters = λ i p lt e. (0, refl);
  priorities = λ i p lt e. (14, refl);
  small = λ i p n lt e c. ground arith;
  low = λ i p n lt e c. ground arith;
}

-- The kernel's image is below the pages.
first_apart :
    (init_task i q j : ℕ)
    → init_task < low_memory + va_start
    → (first_sched init_task).task i ≡ some q
    → q ≢ page_at j + va_start
first_apart init_task i q j below e at = elim (Bool-cases (i == 0)) [
  | inl first ↦
      let same : some init_task ≡ some q = rw first at e in
      let address : init_task ≡ q = cc in omega (arith, address)
  | inr later ↦ let nothing : none ≡ some q = rw later at e in cc
]

first_processes-IsPlaced :
    (init_task : ℕ) (pages : Pages)
    → init_task < low_memory + va_start
    → IsPlaced (first_processes init_task pages)
first_processes-IsPlaced init_task pages below = record {
  placed = λ i q j lt e lt' at. absurd (first_apart init_task i q j below e at);
  index = 0;
  below = omega arith;
  size = omega arith;
  listed = refl;
}

-- After the start: the file system has a root only, the kernel's first thread p is the second task,
-- the tasks are fit for scheduling, and at most 129 pages were taken.
pub record Started (ret_from_fork kernel_process init_task : ℕ) (first pages : Pages) (s : Machine)
    (p : ℕ) : Type 0 where
  pub tree : IsTree s.inodes bare
  pub thread :
      Spawned ret_from_fork (first_processes init_task pages) 2 kernel_process 0 p s.processes
  pub fair : IsFair s.processes.sched
  pub is_placed : IsPlaced s.processes
  pub room : free_pages first ≤ free_pages s.processes.pages + suc fs_npages

-- What the devices are told: the serial line is set up, the texts are sent between the steps of the
-- start, the compare register gets the time in `interval` ticks, and its interrupt is enabled.
abbrev pub boot_writes :
    (format : List ℕ → List ℤ → List ℕ) → Device → (selector cur_val : ℕ) → List (ℕ × ℕ)
boot_writes format d selector cur_val =
    d.written
    ++ line_setup selector
    ++ map sent (format kernel_boots [])
    ++ map sent (format fs_init_ok [])
    ++ map sent (format vector_init_ok [])
    ++ ((timer_c1, cur_val) ∷ map sent (format timer_init_ok []))
    ++ ((enable_irqs_1, 2) ∷ map sent (format interrupt_init_ok []))
    ++ map sent (format irq_enable_ok [])

-- The n-th read is the timer's; the next interrupt is 200000 ticks behind the time that it gave.
pub record Told (format : List ℕ → List ℤ → List ℕ) (input : ℕ → ℕ → ℕ) (d : Device) (s : Machine)
    : Type 0 where
  pub n : ℕ
  pub timer : s.cur_val ≡ (input n timer_clo % 2 ^ 32 + 200000) % 2 ^ 32
  pub written : s.device.written ≡ boot_writes format d (input d.reads gpfsel1 % 2 ^ 32) s.cur_val

module _ (format : List ℕ → List ℤ → List ℕ) (input : ℕ → ℕ → ℕ) (w : ℕ)
    (ready : IsReady input 0x20 w) where
  -- With 129 free pages, an image of the kernel below `LOW_MEMORY`, the name arrays in place, and a
  -- transmitter that is ready after at most w + 1 reads each time, the start ends with the answer 1:
  -- the file system has a root only, the task at index 1 is the kernel's thread, which can run, at most
  -- 129 pages were taken, and the writes to the devices are exactly those of the setup of the serial
  -- line, of the texts, of the timer and of its interrupt, in this order.
  pub kernel_main-Started :
      (mmu : Memory → ℕ → ℕ → ℕ) (ret_from_fork kernel_process init_task : ℕ) (inodes : Table)
      (device : Device) (cur_val : ℕ) (pages : Pages)
      → init_task < low_memory + va_start
      → fs_npages < free_pages pages
      → ((i : ℕ) → i < fs_npages → IsLaidOut (inodes i))
      → (p : ℕ) × (s' : Machine) × (pages' : Pages) × (kernel_main format input
            (suc w)
            mmu
            ret_from_fork
            kernel_process
            (first_machine init_task inodes device cur_val pages)
          ≡ ok (pos 1, s'))
        × Started ret_from_fork kernel_process init_task pages pages' s' p
        × Told format input device s'
  unfolding kernel_main timer_init report_negative
  kernel_main-Started mmu ret_from_fork kernel_process init_task inodes device cur_val pages below
        room laid =
      let (t', pages', runs, tree, empty_entries, apart, owned) =
        init_fs-IsTree inodes pages laid in
      let left = init_fs-free inodes t' pages pages' runs in
      let (p, processes, spawns, thread, fair, is_placed) =
        copy_process-Spawned mmu ret_from_fork (first_processes init_task pages') 2 kernel_process 0
          (first_processes-IsPlaced init_task pages' below) (first_sched-IsFair init_task)
          (omega arith) (omega arith) refl in
      let d₀ = uart_init input device in
      let (d₁, prints₁, w₁) = printf_lem format input w ready d₀ kernel_boots [] in
      let (d₂, prints₂, w₂) = printf_lem format input w ready d₁ fs_init_ok [] in
      let (d₃, prints₃, w₃) = printf_lem format input w ready d₂ vector_init_ok [] in
      let clock =
        clock_of format input w (first_machine init_task inodes device cur_val pages) d₃ in
      let (d₄, prints₄, w₄) = printf_lem format input w ready clock.device timer_init_ok [] in
      let d₅ = enable_interrupt_controller d₄ in
      let (d₆, prints₆, w₆) = printf_lem format input w ready d₅ interrupt_init_ok [] in
      let (d₇, prints₇, w₇) = printf_lem format input w ready d₆ irq_enable_ok [] in
      let told : d₇.written
          ≡ boot_writes format device (input device.reads gpfsel1 % 2 ^ 32) clock.cur_val =
        rw (w₇, w₆, w₄, w₃, w₂, w₁, uart_init-writes input device) (simp (append_assoc)) in
      (
        p,
        record { inodes = t'; device = d₇; cur_val = clock.cur_val; processes = processes },
        pages',
        rw (prints₁, kernel_main)
            (rw runs
              (rw prints₂ (rw prints₃ (rw prints₄ (rw prints₆ (rw prints₇ (rw spawns refl))))))),
        record {
          tree = tree;
          thread = thread;
          fair = fair;
          is_placed = is_placed;
          room = omega (arith, left, thread.room);
        },
        record { n = d₃.reads; timer = refl; written = told },
      )
