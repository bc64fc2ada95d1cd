-- ===== src/Tests/Listing.antt =====
-- The root folder of the small file system is listed.
use clb_filesystem.Common.{
  ℕ, zero, suc, ◌<◌, true, has, ◌≡◌, refl, some, [], ◌∷◌, ok, arith, length,
}
use clb_filesystem.Common.Words.{pos, negsuc}
use clb_filesystem.Vfs.{vfs_ok, Vfs}
use clb_filesystem.Vfs.Dir.{open_dir}
use clb_filesystem.Vfs.Dir.Names.{next_names}
use clb_filesystem.Vfs.Dir.Listing.{open_dir-next_names}
use clb_filesystem.Vfs.Path.Sons.{find_son}
use clb_filesystem.Vfs.Path.Resolve.{resolve, visit}
use clb_filesystem.Vfs.Descriptor.{get_next_fd, fd_loop}
use clb_filesystem.Tests.{view, sons, names, table-IsTree, vfs, path_root, zeros}

open_dir-next_names_example :
    (s₁ : Vfs) × (s₂ : Vfs) × (open_dir vfs (some path_root) (some (negsuc 0))
      ≡ ok (vfs_ok, some (pos 0), s₁))
    × (next_names 3 s₁ (some (pos 0)) (zeros 17) ≡ ok ((0x61 ∷ []) ∷ [] ∷ [] ∷ [], s₂))
unfolding resolve visit find_son get_next_fd fd_loop
open_dir-next_names_example =
    open_dir-next_names vfs view table-IsTree 0 0 path_root [] (zeros 17) (negsuc 0) 2
      (refl, omega arith, refl) refl refl refl (omega arith) fits
  where
    fits : (c : ℕ) → has c (sons 0) ≡ true → length (names c) < length (zeros 17)
    fits zero m = cc
    fits (suc c) m = omega arith
