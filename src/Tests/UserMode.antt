-- ===== src/Tests/UserMode.antt =====
-- The start of the kernel up to user mode.
use clb_filesystem.Common.{ℕ, ◌+◌, []}
use clb_filesystem.Pages.{va_start}
use clb_filesystem.Sched.{Sched}
use clb_filesystem.Fork.{Processes}
use clb_filesystem.Boot.{first_machine, Machine}
use clb_filesystem.Devices.{Device}
use clb_filesystem.Tests.Calls.{no_table}
use clb_filesystem.Tests.Processes.{all_free}

-- An image of 256 bytes, with the first function 16 bytes behind its start.
abbrev image_at : ℕ
image_at = 0x1000 + va_start

abbrev machine : Machine
machine =
    first_machine (0x90000 + va_start) no_table (record { reads = 0; written = [] }) 0 all_free

abbrev no_device : Device
no_device = record { reads = 0; written = [] }
