-- ===== src/Tests/Processes.antt =====
-- The theorems on page tables and on new processes, and the start of the kernel, at small states.
use clb_filesystem.Common.{List, [], ◌+◌, ℕ, ◌≡◌, refl, arith, some, ok}
use clb_filesystem.Common.Words.{ℤ, pos, negsuc, ◌+ℤ◌}
use clb_filesystem.Memory.{Memory}
use clb_filesystem.Pages.{Pages, va_start, paging_pages}
use clb_filesystem.Pages.Free.{page_at}
use clb_filesystem.Pages.Tables.{MmStruct, map_page, do_mem_abort}
use clb_filesystem.Pages.Tables.Count.{free_pages, free_pages-clear}
use clb_filesystem.Pages.Tables.Level.{IsLevelled}
use clb_filesystem.Pages.Tables.Top.{Top, no_top}
use clb_filesystem.Pages.Tables.Walk.{walk}
use clb_filesystem.Pages.Tables.Map.{map_page-walk}
use clb_filesystem.Pages.Tables.Mapped.{Mapped}
use clb_filesystem.Pages.Tables.Fault.{do_mem_abort-walk}
use clb_filesystem.Sched.{preempt_disable}
use clb_filesystem.Fork.{Processes, zero_mm, zero_context, zero_regs, copy_process}
use clb_filesystem.Fork.Full.{copy_process_full}
use clb_filesystem.Boot.{Machine, first_machine, kernel_main}
use clb_filesystem.Boot.Started.{Started, Told, kernel_main-Started}
use clb_filesystem.Devices.Console.{IsReady}
use clb_filesystem.Tests.{two_tasks}
use clb_filesystem.Tests.Calls.{no_table, no_table-IsLaidOut}

-- No page is in use, and the memory holds other bytes than 0.
abbrev pub all_free : Pages
all_free = record { mem_map = λ i. 0; memory = λ a. a }

abbrev all_used : Pages
all_used = record { mem_map = λ i. 1; memory = λ a. a }

abbrev pub no_tables : ℕ → ℕ
no_tables t = 4

pub all_free-count : free_pages all_free ≡ paging_pages
all_free-count = free_pages-clear all_free λ k. refl

pub all_free-IsLevelled : IsLevelled all_free no_tables
all_free-IsLevelled l t k at low index = absurd (at.used refl)

map_page-walk_example :
    (mm' : MmStruct) × (s' : Pages) × (level' : ℕ → ℕ) × (map_page all_free zero_mm 0x12345678
        0x800000
      ≡ ok (mm', s'))
    × Mapped all_free zero_mm no_tables 0x12345678 0x800000 mm' s' level'
map_page-walk_example =
    map_page-walk all_free zero_mm no_tables 0x12345678 0x800000 all_free-IsLevelled (no_top refl)
      (omega (arith, all_free-count)) (omega arith) (omega arith) (omega arith) (omega arith)

do_mem_abort-walk_example :
    (i : ℕ) × (mm' : MmStruct) × (s' : Pages) × (level' : ℕ → ℕ) × (do_mem_abort all_free zero_mm
        (pos 2)
        0x12345678
        0x92000047
      ≡ ok (negsuc 0, pos 3, mm', s'))
    × (all_free.mem_map i ≡ 0)
    × (walk s'.memory mm'.pgd 0x12345678 ≡ some (page_at i))
    × IsLevelled s' level'
    × Top s' level' mm'.pgd
do_mem_abort-walk_example =
    do_mem_abort-walk all_free zero_mm no_tables 2 0x12345678 0x92000047 all_free-IsLevelled
      (no_top refl) (omega (arith, all_free-count)) (omega arith) (omega arith) (omega arith)

abbrev two_processes : Pages → Processes
two_processes pages = record {
  pages = pages;
  sched = two_tasks;
  count = 2;
  mm = λ p. zero_mm;
  cpu_context = λ p. zero_context;
  flags = λ p. 2;
  pt_regs = λ p. zero_regs;
  ttbr = 0;
}

abbrev pub same_address : Memory → ℕ → ℕ → ℕ
same_address m pgd va = va

copy_process_full_example :
    (s' : Processes) × (copy_process same_address 0x80000 (two_processes all_used) 0 0 0
      ≡ ok (negsuc 0, s'))
    × (s' ≡ record (two_processes all_used) { sched = preempt_disable two_tasks })
    × ((s'.sched.tasks two_tasks.current).preempt_count
        ≡ (two_tasks.tasks two_tasks.current).preempt_count +ℤ pos 1)
copy_process_full_example =
    copy_process_full same_address 0x80000 (two_processes all_used) 0 0 0 (λ k lt. omega arith)

-- Each read gives 32, with which the transmitter is ready, and the first task is at an address of the
-- image. A text is printed as it is.
abbrev pub ready_input : ℕ → ℕ → ℕ
ready_input n register = 32

abbrev pub as_it_is : List ℕ → List ℤ → List ℕ
as_it_is text arguments = text

pub ready_input-IsReady : IsReady ready_input 0x20 0
ready_input-IsReady n = (0, omega arith, refl)

kernel_main-Started_example :
    (p : ℕ) × (s' : Machine) × (pages' : Pages) × (kernel_main as_it_is ready_input 1 same_address
        0x80000 0x81000
        (first_machine
          (0x90000 + va_start)
          no_table
          (record { reads = 0; written = [] })
          0
          all_free)
      ≡ ok (pos 1, s'))
    × Started 0x80000 0x81000 (0x90000 + va_start) all_free pages' s' p
    × Told as_it_is ready_input (record { reads = 0; written = [] }) s'
kernel_main-Started_example =
    kernel_main-Started as_it_is ready_input 0 ready_input-IsReady same_address 0x80000 0x81000
      (0x90000 + va_start) no_table (record { reads = 0; written = [] }) 0 all_free (omega arith)
      (omega (arith, all_free-count)) no_table-IsLaidOut
