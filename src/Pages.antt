-- ===== src/Pages.antt =====
-- mm.c: the page allocator, one flag for each page between `LOW_MEMORY` and the devices.
pub mod Free
pub mod Tables
use clb_filesystem.Common.{
  ℕ, zero, suc, ◌+◌, ◌-◌, ◌*◌, ◌/◌, ◌%◌, ◌^◌, true, false, Option, none, some, ◌==◌, if◌then◌else◌,
}
use clb_filesystem.Memory.{Memory, memzero}
use clb_filesystem.Inode.{update}

-- `PAGE_SIZE`, `LOW_MEMORY` (two sections of 2 MB), `VA_START`
abbrev pub page_size : ℕ
page_size = 4096

abbrev pub low_memory : ℕ
low_memory = 0x400000

abbrev pub va_start : ℕ
va_start = 0xffff000000000000

-- `PAGING_PAGES`: the pages from `LOW_MEMORY` to `DEVICE_BASE`, 0x3F000000.
abbrev pub paging_pages : ℕ
paging_pages = 257024

pub record Pages : Type 0 where
  pub mem_map : ℕ → ℕ
  pub memory : Memory

-- The first page whose flag is clear, in n rounds from i on.
unfoldable pub find_page : ℕ → ℕ → (ℕ → ℕ) → Option ℕ
find_page zero i flags = none
find_page (suc n) i flags = elim (flags i == 0) [
  | true ↦ some i
  | false ↦ find_page n (suc i) flags
]

abbrev pub take_page : Pages → ℕ → ℕ × Pages
take_page s i =
    let page = low_memory + i * page_size in
    (
      page,
      record s {
        mem_map = update s.mem_map i 1;
        memory = memzero s.memory (page + va_start) page_size;
      },
    )

-- `get_free_page`: the physical address, or 0
unfoldable pub get_free_page : Pages → ℕ × Pages
unfolding find_page
get_free_page s = elim (find_page paging_pages 0 s.mem_map) [
  | none ↦ (0, s)
  | some i ↦ take_page s i
]

-- `allocate_kernel_page`: the address in the kernel's mapping, or 0
unfoldable pub allocate_kernel_page : Pages → ℕ × Pages
allocate_kernel_page s =
    let (page, s') = get_free_page s in if page == 0 then (0, s') else (page + va_start, s')

-- `free_page`
unfoldable pub free_page : Pages → ℕ → Pages
free_page s p = record s {
  mem_map = update s.mem_map ((p + 2 ^ 64 - low_memory) % 2 ^ 64 / page_size) 0;
}
