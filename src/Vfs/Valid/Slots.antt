-- ===== src/Vfs/Valid/Slots.antt =====
-- The numbers of descriptors.
use clb_filesystem.Common.{ℕ, ◌<◌, ◌≡◌, ok, arith}
use clb_filesystem.Common.Words.{pos}
use clb_filesystem.Vfs.{slot, max_open_files}

pub slot-ok : (i : ℕ) → i < max_open_files → slot (pos i) ≡ ok i
slot-ok i h = ground arith
