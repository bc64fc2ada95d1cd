-- ===== src/Tests/Kernel.antt =====
-- The theorems on pages and on the scheduler, at small states.
use clb_filesystem.Common.{ℕ, ◌<◌, ◌≡◌, ◌≢◌, refl, ◌⊎◌, arith, if◌then◌else◌, ◌==◌}
use clb_filesystem.Pages.{Pages, paging_pages, find_page, take_page, get_free_page, free_page}
use clb_filesystem.Pages.Free.{page_at, IsFirst, Taken, get_free_page_lem, free_page-get_free_page}
use clb_filesystem.Sched.{Sched}
use clb_filesystem.Sched.Charge.{IsFair}
use clb_filesystem.Sched.Fair.{IsRunnable}
use clb_filesystem.Tests.{two_tasks}

-- The first page is in use.
abbrev one_used : Pages
one_used = record { mem_map = λ i. if i == 0 then 1 else 0; memory = λ a. a }

get_free_page_lem_example :
    ((get_free_page one_used ≡ (0, one_used))
      × ((k : ℕ) → k < paging_pages → one_used.mem_map k ≢ 0))
    ⊎ ((i : ℕ) × (s' : Pages) × (get_free_page one_used ≡ (page_at i, s'))
        × (i < paging_pages)
        × IsFirst one_used.mem_map 0 i
        × Taken one_used i s')
get_free_page_lem_example = get_free_page_lem one_used

free_page-get_free_page_example :
    (free_page (take_page one_used 1).1 (page_at 1)).mem_map ≡ one_used.mem_map
unfolding get_free_page find_page
free_page-get_free_page_example =
    free_page-get_free_page one_used (take_page one_used 1).1 (page_at 1) refl (omega arith)

pub two_tasks-IsFair : IsFair two_tasks
two_tasks-IsFair = record {
  once = λ i j p h k e f. ground arith;
  counters = λ i p h e. (if p == 0 then 0 else 3, ground arith);
  priorities = λ i p h e. (14, refl);
  small = λ i p n h e c. ground arith;
  low = λ i p n h e c. ground arith;
}

pub second-IsRunnable : IsRunnable two_tasks 1 1
second-IsRunnable = record { inside = omega arith; found = refl; runs = refl }
