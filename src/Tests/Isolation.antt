-- ===== src/Tests/Isolation.antt =====
-- Two tasks map a page at the same address.
use clb_filesystem.Common.{ℕ, ◌≡◌, refl, ◌∙◌, sym, ap, arith, some, ok, inl}
use clb_filesystem.Pages.{Pages}
use clb_filesystem.Pages.Free.{page_at}
use clb_filesystem.Pages.Tables.{MmStruct, map_page}
use clb_filesystem.Pages.Tables.Level.{IsLevelled}
use clb_filesystem.Pages.Tables.Apart.{IsApart}
use clb_filesystem.Pages.Tables.Top.{no_top}
use clb_filesystem.Pages.Tables.Walk.{walk}
use clb_filesystem.Pages.Tables.Map.{map_page-walk}
use clb_filesystem.Pages.Tables.Mapped.{Mapped}
use clb_filesystem.Pages.Tables.Isolation.{map_page-kept}
use clb_filesystem.Fork.{zero_mm}
use clb_filesystem.Tests.Processes.{all_free, all_free-count, no_tables, all_free-IsLevelled}

all_free-IsApart : IsApart all_free no_tables
all_free-IsApart l t t' k k' u at at' low lt lt' e e' = absurd (at.used refl)

-- The state after the first of them.
mapped_once :
    (mm' : MmStruct) × (s' : Pages) × (level' : ℕ → ℕ) × (map_page all_free zero_mm 0x12345678
        0x800000
      ≡ ok (mm', s'))
    × Mapped all_free zero_mm no_tables 0x12345678 0x800000 mm' s' level'
mapped_once =
    map_page-walk all_free zero_mm no_tables 0x12345678 0x800000 all_free-IsLevelled (no_top refl)
      (omega (arith, all_free-count)) (omega arith) (omega arith) (omega arith) (omega arith)

map_page-kept_example :
    (mm' : MmStruct) × (s' : Pages) × (level' : ℕ → ℕ) × (map_page mapped_once.1 zero_mm 0x12345678
        0x900000
      ≡ ok (mm', s'))
    × (walk s'.memory mm'.pgd 0x12345678 ≡ some 0x900000)
    × (walk s'.memory (page_at mapped_once.4.table) 0x12345678 ≡ some 0x800000)
    × IsLevelled s' level'
    × IsApart s' level'
map_page-kept_example =
    map_page-kept mapped_once.1 zero_mm mapped_once.2 0x12345678 0x900000 mapped_once.4.table
      0x12345678 0x800000 mapped_once.4.levelled (mapped_once.4.apart all_free-IsApart)
      (no_top refl) (omega (arith, all_free-count, mapped_once.4.free)) (omega arith) (omega arith)
      (omega arith) (omega arith) mapped_once.4.route.at
      (ap (λ p. walk mapped_once.1.memory p 0x12345678) (sym mapped_once.4.pgd)
        ∙ mapped_once.4.walks)
      (inl (omega arith))
