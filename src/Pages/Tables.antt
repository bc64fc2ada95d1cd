-- ===== src/Pages/Tables.antt =====
-- mm.c: the page tables of a task, in four levels of 512 entries. The tables are in memory, and the
-- code reaches a page through the kernel's mapping, `VA_START` above it. A bit operation is written
-- with the quotients and remainders that it comes to.
pub mod Apart
pub mod Count
pub mod Fault
pub mod Isolation
pub mod Level
pub mod Linked
pub mod Map
pub mod Mapped
pub mod Route
pub mod Same
pub mod Step
pub mod Top
pub mod Walk
use clb_filesystem.Common.{
  ℕ, suc, zero, ◌+◌, ◌-◌, ◌*◌, ◌/◌, ◌%◌, ◌^◌, Bool, true, false, not, ◌&&◌, ◌||◌, ltb, ◌==◌,
  if◌then◌else◌, Outcome, ok, fault, ◌>>=◌,
}
use clb_filesystem.Common.Words.{ℤ, pos, negsuc, ltb_ℤ, ◌+ℤ◌}
use clb_filesystem.Memory.{Memory, memcpy}
use clb_filesystem.Memory.Entry.{load, store}
use clb_filesystem.Inode.{update}
use clb_filesystem.Pages.{Pages, page_size, va_start, get_free_page}

-- `MAX_PROCESS_PAGES`, `PTRS_PER_TABLE`
abbrev pub max_process_pages : ℕ
max_process_pages = 16

abbrev pub ptrs_per_table : ℕ
ptrs_per_table = 512

-- What a virtual address is divided by at each level: 2 to the power of `PAGE_SHIFT`, `PMD_SHIFT`,
-- `PUD_SHIFT` and `PGD_SHIFT`.
abbrev pub page_span : ℕ
page_span = 0x1000

abbrev pub pmd_span : ℕ
pmd_span = 0x200000

abbrev pub pud_span : ℕ
pud_span = 0x40000000

abbrev pub pgd_span : ℕ
pgd_span = 0x8000000000

-- `struct user_page`
pub record UserPage : Type 0 where
  pub phys_addr : ℕ
  pub virt_addr : ℕ

-- `struct mm_struct`
pub record MmStruct : Type 0 where
  pub pgd : ℕ
  pub user_pages_count : ℕ
  pub user_pages : ℕ → UserPage
  pub kernel_pages_count : ℕ
  pub kernel_pages : ℕ → ℕ

-- `(va >> shift) & (PTRS_PER_TABLE - 1)`
unfoldable pub index_of : (span va : ℕ) → ℕ
index_of span va = va / span % ptrs_per_table

-- `x & PAGE_MASK`
abbrev pub page_mask : ℕ → ℕ
page_mask x = x - x % page_size

-- The bit 2 ^ k set, for `bit` its value.
abbrev pub set_bit : (bit x : ℕ) → ℕ
set_bit bit x = if x / bit % 2 == 0 then x + bit else x

-- `x | MM_TYPE_PAGE_TABLE`: the bits 0 and 1
unfoldable pub table_entry : ℕ → ℕ
table_entry x = set_bit 2 (set_bit 1 x)

-- `x | MMU_PTE_FLAGS`: the type of a page, its memory attributes, access, and the permission
unfoldable pub page_entry : ℕ → ℕ
page_entry x = set_bit 64 (set_bit 1024 (set_bit 4 (set_bit 2 (set_bit 1 x))))

-- The address of an entry.
abbrev pub entry_at : (table index : ℕ) → ℕ
entry_at table index = table + 8 * index

-- `map_table_entry`
unfoldable pub map_table_entry : Pages → (pte va pa : ℕ) → Pages
map_table_entry s pte va pa = record s {
  memory = store s.memory (entry_at pte (index_of page_span va)) (page_entry pa);
}

-- `map_table`: the next table's physical address, and whether it is new
unfoldable pub map_table : Pages → (table span va : ℕ) → ℕ × Bool × Pages
map_table s table span va =
    let at = entry_at table (index_of span va) in
    elim (load s.memory at == 0) [
      | true ↦
          let (next_level_table, s') = get_free_page s in
          (
            next_level_table,
            true,
            record s' { memory = store s'.memory at (table_entry next_level_table) },
          )
      | false ↦ (page_mask (load s.memory at), false, s)
    ]

-- `kernel_pages[++kernel_pages_count] = page`, which leaves the first entry of the array unused
abbrev pub push_kernel_page : MmStruct → ℕ → Outcome MmStruct
push_kernel_page mm page =
    let n = suc mm.kernel_pages_count in
    if ltb n max_process_pages
    then ok (record mm { kernel_pages_count = n; kernel_pages = update mm.kernel_pages n page })
    else fault

-- What `map_page` does with a table that `map_table` gave.
abbrev pub push_new : MmStruct → Bool → ℕ → Outcome MmStruct
push_new mm new_table page = elim new_table [ true ↦ push_kernel_page mm page | false ↦ ok mm ]

-- `user_pages[user_pages_count++] = p`
abbrev pub push_user_page : MmStruct → UserPage → Outcome MmStruct
push_user_page mm p =
    let n = mm.user_pages_count in
    if ltb n max_process_pages
    then ok (record mm { user_pages_count = suc n; user_pages = update mm.user_pages n p })
    else fault

-- The start of `map_page`: the top-level table, which is allocated if it is absent.
unfoldable pub top_table : Pages → MmStruct → Outcome (MmStruct × Pages)
top_table s mm = elim (mm.pgd == 0) [
  | true ↦ do
    let page = (get_free_page s).0
    mm' ← push_kernel_page (record mm { pgd = page }) page
    ok (mm', (get_free_page s).1)
  | false ↦ ok (mm, s)
]

-- One of the three steps of `map_page` to the next level.
unfoldable pub descend : Pages → MmStruct → (table span va : ℕ) → Outcome (ℕ × MmStruct × Pages)
descend s mm table span va = do
  let step = map_table s (table + va_start) span va
  mm' ← push_new mm step.1 step.0
  ok (step.0, mm', step.2)

-- `map_page`
unfoldable pub map_page : Pages → MmStruct → (va page : ℕ) → Outcome (MmStruct × Pages)
map_page s mm va page = do
  (mm₀, s₀) ← top_table s mm
  (pud, mm₁, s₁) ← descend s₀ mm₀ mm₀.pgd pgd_span va
  (pmd, mm₂, s₂) ← descend s₁ mm₁ pud pud_span va
  (pte, mm₃, s₃) ← descend s₂ mm₂ pmd pmd_span va
  let s₄ = map_table_entry s₃ (pte + va_start) va page
  mm₄ ← push_user_page mm₃ (record { phys_addr = page; virt_addr = va })
  ok (mm₄, s₄)

-- `allocate_user_page`: the address in the kernel's mapping, or 0
unfoldable pub allocate_user_page : Pages → MmStruct → (va : ℕ) → Outcome (ℕ × MmStruct × Pages)
allocate_user_page s mm va =
    let (page, s') = get_free_page s in
    elim (page == 0) [
      | true ↦ ok (0, mm, s')
      | false ↦ do (mm', s'') ← map_page s' mm va page; ok (page + va_start, mm', s'')
    ]

-- The global `ind` of mm.c counts the faults; `do_mem_abort` answers -1 from the second on.
unfoldable pub do_mem_abort :
    Pages → MmStruct → (ind : ℤ) → (addr esr : ℕ) → Outcome (ℤ × ℤ × MmStruct × Pages)
do_mem_abort s mm ind addr esr =
    let dfs = esr % 64 in
    elim (dfs - dfs % 4 == 4) [
      | true ↦
          let (page, s') = get_free_page s in
          elim (page == 0) [
            | true ↦ ok (negsuc 0, ind, mm, s')
            | false ↦ do
              (mm', s'') ← map_page s' mm (page_mask addr) page
              let ind' = ind +ℤ pos 1
              ok (if ltb_ℤ (pos 2) ind' then negsuc 0 else pos 0, ind', mm', s'')
          ]
      | false ↦ ok (negsuc 0, ind, mm, s)
    ]

-- The translation of the running task's addresses is the processor's work: `mmu` gives the address
-- in the kernel's mapping of what a page of the task is mapped to, by the memory and the task's pgd.
module _ (mmu : Memory → ℕ → ℕ → ℕ) (src : MmStruct) where
  -- The rounds of `copy_virt_memory` from i on.
  copy_pages : ℕ → ℕ → Pages → MmStruct → Outcome (ℤ × MmStruct × Pages)
  copy_pages zero i s dst = ok (pos 0, dst, s)
  copy_pages (suc n) i s dst = do
    let va = (src.user_pages i).virt_addr
    (kernel_va, dst', s') ← allocate_user_page s dst va
    let from = mmu s'.memory src.pgd va
    let copied = record s' { memory = memcpy s'.memory from kernel_va page_size }
    elim (kernel_va == 0) [
      | true ↦ ok (negsuc 0, dst', s')
      | false ↦ copy_pages n (suc i) copied dst'
    ]

  -- `copy_virt_memory`, from the current task `src`
  unfoldable pub copy_virt_memory : Pages → MmStruct → Outcome (ℤ × MmStruct × Pages)
  unfolding copy_pages
  copy_virt_memory s dst = copy_pages src.user_pages_count 0 s dst
