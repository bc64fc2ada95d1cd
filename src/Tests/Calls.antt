-- ===== src/Tests/Calls.antt =====
-- The theorems on calls of the file system, at the small file system.
use clb_filesystem.Common.{
  ℕ, ◌+◌, ◌<◌, ◌≡◌, ◌≢◌, refl, ◌⊎◌, inl, inr, none, some, List, [], ◌∷◌, ok, Outcome, arith,
}
use clb_filesystem.Common.Words.{ℤ, pos, negsuc}
use clb_filesystem.Inode.{file, empty, Table, fs_npages}
use clb_filesystem.Inode.Name.{IsLaidOut}
use clb_filesystem.Pages.{Pages}
use clb_filesystem.Filesystem.{init_fs}
use clb_filesystem.Filesystem.Tree.{IsTree}
use clb_filesystem.Filesystem.Init.Begun.{Owned}
use clb_filesystem.Filesystem.Init.Bare.{bare, init_fs-IsTree}
use clb_filesystem.Vfs.{vfs_ok, vfs_memory_full, Vfs}
use clb_filesystem.Vfs.Path.{parse_path}
use clb_filesystem.Vfs.Path.Sons.{find_son}
use clb_filesystem.Vfs.Path.Resolve.{resolve, visit, parse_path-resolve}
use clb_filesystem.Vfs.File.{create, with_inodes, read_file, write_file}
use clb_filesystem.Vfs.File.Create.{parse_path-create}
use clb_filesystem.Vfs.File.Contents.{IsOpenOn, read_file-write_file}
use clb_filesystem.Vfs.Valid.{IsValid}
use clb_filesystem.Sys.{Kernel, Call, sys_create_file}
use clb_filesystem.Sys.Calls.{start}
use clb_filesystem.Tests.{
  blank, table, view, table-IsTree, a-IsFile, ram, vfs, path_root, name_b, two_tasks,
}

pub vfs-IsValid : IsValid vfs view
vfs-IsValid = record {
  tree = table-IsTree;
  descriptors = λ fd h. record { inode = λ i e. cc; next_son = λ i e. cc };
}

abbrev pub kernel : Kernel
kernel = record { vfs = vfs; sched = two_tasks }

abbrev pub no_process : Kernel → Outcome (ℤ × Kernel)
no_process s = ok (negsuc 0, s)

abbrev make_b : Call
make_b = sys_create_file (some path_root) (some name_b)

abbrev pub no_table : Table
no_table i = record (blank 0) { data_block = 0 }

pub no_table-IsLaidOut : (i : ℕ) → i < fs_npages → IsLaidOut (no_table i)
no_table-IsLaidOut i h = record { name_size = refl; word = omega arith; aligned = refl }

abbrev all_free : Pages
all_free = record { mem_map = λ i. 0; memory = λ a. a }

init_fs-IsTree_example :
    (t' : Table) × (s' : Pages) × (init_fs (no_table, all_free) ≡ ok (t', s'))
    × IsTree t' bare
    × ((i : ℕ) → i < fs_npages → i ≢ 0 → (t' i).type ≡ empty)
    × ((i j : ℕ)
        → i < j
        → j < fs_npages
        → ((t' j).data_block ≡ 0) ⊎ ((t' i).data_block ≢ (t' j).data_block))
    × ((i : ℕ) → i < fs_npages → Owned all_free s' (t' i).data_block)
init_fs-IsTree_example = init_fs-IsTree no_table all_free no_table-IsLaidOut

-- "//b"
abbrev path_b : List ℕ
path_b = 0x2f ∷ 0x2f ∷ 0x62 ∷ 0 ∷ []

parse_path-create_example :
    (create file vfs (some path_root) (some name_b) ≡ ok (vfs_memory_full, vfs))
    ⊎ ((i : ℕ) × (t' : Table) × (create file vfs (some path_root) (some name_b)
          ≡ ok (vfs_ok, with_inodes vfs t'))
        × (parse_path t' (some path_b) ≡ ok (some i))
        × ((t' i).type ≡ file)
        × ((table i).type ≡ empty))
unfolding resolve visit find_son
parse_path-create_example =
    parse_path-create vfs view table-IsTree file path_root path_b name_b [] (0x62 ∷ []) 0 (λ e. cc)
      (refl, omega arith, refl) (omega arith) (omega arith) refl (refl, omega arith, refl)
      (refl, omega arith, (refl, omega arith, (refl, omega arith, refl))) (omega arith) refl
      (parse_path-resolve table view path_root [] table-IsTree (refl, omega arith, refl)) refl

-- The file "a" is open.
abbrev vfs_open : Vfs
vfs_open = record {
  ram = ram;
  open_inodes = λ fd. record { inode = some 1; next = 0; next_son = none };
}

vfs_open-IsOpenOn : IsOpenOn vfs_open 0 1
vfs_open-IsOpenOn = record {
  slot_in = omega arith;
  inode = refl;
  start = refl;
  of_file = a-IsFile;
  named = refl;
}

read_file-write_file_example :
    (s₁ : Vfs) × (s₂ : Vfs) × (write_file vfs_open (some (pos 0)) 64 5 ≡ ok (pos 5, s₁))
    × (read_file s₁ (some (pos 0)) 96 5 ≡ ok (pos 5, s₂))
    × ((k : ℕ) → k < 5 → s₂.ram.memory (96 + k) ≡ 64 + k)
read_file-write_file_example =
    read_file-write_file vfs_open 0 1 64 96 5 vfs_open-IsOpenOn (omega arith) (omega arith)
      (omega arith) (omega arith) (λ a le lt. ground arith) (λ a le lt. ground arith)
      (inr (omega arith)) (inl (omega arith))
