-- ===== src/Boot/UserMode.antt =====
-- The kernel's first thread goes to user mode.
use clb_filesystem.Common.{
  Bool, ℕ, suc, ◌+◌, ◌-◌, ◌%◌, ◌^◌, ◌≤◌, ◌<◌, ◌≡◌, ◌∙◌, arith, ok, ap, none, List, [], ◌∷◌, ◌++◌,
  map, refl,
}
use clb_filesystem.Common.Words.{ℤ, pos}
use clb_filesystem.Pages.{Pages, page_size, low_memory, va_start}
use clb_filesystem.Pages.Tables.Count.{free_pages}
use clb_filesystem.Pages.Tables.Level.{IsLevelled}
use clb_filesystem.Pages.Tables.Top.{no_top}
use clb_filesystem.Fork.{Processes, zero_mm, move_to_user_mode}
use clb_filesystem.Fork.ToUser.{Entered, move_to_user_mode-Entered}
use clb_filesystem.Sched.{Sched}
use clb_filesystem.Boot.{kernel_process, process_started, report_negative}
use clb_filesystem.Boot.Printed.{printf_lem}
use clb_filesystem.Devices.Console.{IsReady, sent}
use clb_filesystem.Memory.{Memory}
use clb_filesystem.Inode.{Table}
use clb_filesystem.Devices.{Device}
use clb_filesystem.Vfs.{Vfs}

-- The image of the user program, from `user_begin` to `user_end`, with its first function in it: it
-- lies below the pages, and fits into one of them with seven bytes left.
pub record IsImage (user_begin user_end user_process : ℕ) : Type 0 where
  pub starts : user_begin ≤ user_process
  pub inside : user_process < user_end
  pub fits : user_end + 7 ≤ user_begin + page_size
  pub below : user_end + 7 ≤ low_memory + va_start

-- Before there are tables.
no_tables-IsLevelled : (s : Pages) → IsLevelled s (λ t. 4)
no_tables-IsLevelled s l t k at low lt = absurd (omega (arith, at.of_level))

module _ (format : List ℕ → List ℤ → List ℕ) (input : ℕ → ℕ → ℕ) (w : ℕ)
    (ready : IsReady input 0x20 w) where
  pub kernel_process-Entered :
      (d : Device) (s : Processes) (el : ℤ) (user_begin user_end user_process : ℕ)
      → IsImage user_begin user_end user_process
      → s.mm s.sched.current ≡ zero_mm
      → 5 ≤ free_pages s.pages
      → (i : ℕ) × (d' : Device) × (s' : Processes) × (kernel_process format input
            (suc w)
            d
            s
            el
            user_begin
            user_end
            user_process
          ≡ ok (pos 0, d', s'))
        × (d'.written ≡ d.written ++ map sent (format process_started (el ∷ [])))
        × Entered s user_begin (user_end - user_begin) (user_process - user_begin) i s'
  unfolding kernel_process report_negative
  kernel_process-Entered d s el user_begin user_end user_process image fresh free =
      let starts = image.starts in
      let inside = image.inside in
      let fits = image.fits in
      let below = image.below in
      let size : (user_end + 2 ^ 64 - user_begin) % 2 ^ 64 ≡ user_end - user_begin = omega arith in
      let pc : (user_process + 2 ^ 64 - user_begin) % 2 ^ 64 ≡ user_process - user_begin =
        omega arith in
      let (d', prints, put) = printf_lem format input w ready d process_started (el ∷ []) in
      let (i, s', enters, entered) =
        move_to_user_mode-Entered s (λ t. 4) user_begin (user_end - user_begin)
          (user_process - user_begin) (no_tables-IsLevelled s.pages)
          (no_top (ap (λ m. m.pgd) fresh)) free (rw fresh (omega arith)) (rw fresh (omega arith))
          (omega arith) (omega arith) (omega arith) in
      let enters' : move_to_user_mode s user_begin ((user_end + 2 ^ 64 - user_begin) % 2 ^ 64)
            ((user_process + 2 ^ 64 - user_begin) % 2 ^ 64)
          ≡ ok (pos 0, s') =
        ap (λ z. move_to_user_mode s user_begin z ((user_process + 2 ^ 64 - user_begin) % 2 ^ 64))
          size
        ∙ ap (λ z. move_to_user_mode s user_begin (user_end - user_begin) z) pc
        ∙ enters in
      (i, d', s', rw prints (rw enters' refl), put, entered)

-- The file system after the start: no descriptor is open.
abbrev pub closed_vfs : Table → Memory → (objects : ℕ → Bool) → Vfs
closed_vfs inodes memory objects = record {
  ram = record { inodes = inodes; memory = memory; objects = objects };
  open_inodes = λ fd. record { inode = none; next = 0; next_son = none };
}
