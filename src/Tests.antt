-- ===== src/Tests.antt =====
-- A small file system, with the file "a" in the root folder, and the theorems at it.
pub mod Calls
pub mod Devices
pub mod Isolation
pub mod Kernel
pub mod Listing
pub mod Processes
pub mod Run
pub mod UserMode
use clb_filesystem.Common.{
  ltb, Bool-cases, if◌then◌else◌, ◌==◌, ℕ, zero, suc, ◌+◌, ◌*◌, ◌≤◌, ◌<◌, ◌≡◌, ◌≢◌, refl, inl, inr,
  true, false, none, some, List, [], ◌∷◌, arith, has, IsDistinct, ◌⊎◌, fault, ok,
}
use clb_filesystem.Common.Words.{ℤ, pos, negsuc, is_zero}
use clb_filesystem.CString.{Holds, strcpy, strcat, strcmp}
use clb_filesystem.CString.Laws.{strcpy_lem, strcat-append, strcmp-eq}
use clb_filesystem.Memory.{Memory}
use clb_filesystem.Inode.Name.{set_name, set_name-Holds}
use clb_filesystem.Filesystem.{alloc_inode, free_inode, write_inode, read_inode, reset_inode}
use clb_filesystem.Filesystem.Alloc.{Allocated, alloc_inode_lem}
use clb_filesystem.Filesystem.Alloc.Attach.{SameData}
use clb_filesystem.Filesystem.Free.{free_inode-shrunk, free_inode_refuses}
use clb_filesystem.Filesystem.Free.Shrunk.{shrunk}
use clb_filesystem.Filesystem.Data.{
  IsFile, write_inode_lem, read_inode_short, read_inode_long, reset_inode_lem,
}
use clb_filesystem.Vfs.Path.{get_son_inode, parse_path}
use clb_filesystem.Vfs.Path.Sons.{find_son, get_son_inode-find_son}
use clb_filesystem.Vfs.Path.Resolve.{resolve, visit, parse_path-resolve}
use clb_filesystem.Vfs.{max_open_files, vfs_ok, vfs_memory_full, vfs_invalid_name, Vfs}
use clb_filesystem.Vfs.File.{create, with_inodes}
use clb_filesystem.Vfs.File.Create.{create-Allocated, create_refuses}
use clb_filesystem.Vfs.Descriptor.{is_null, get_next_fd}
use clb_filesystem.Vfs.Descriptor.Lowest.{IsLowest, get_next_fd_lem}
use clb_filesystem.Vfs.Delete.{delete_inode}
use clb_filesystem.Sched.{
  Sched, task_running, nr_tasks, is_better, schedule_next, preempt_disable, preempt_enable,
}
use clb_filesystem.Sched.Pick.{Picked, IsLargest, schedule_next-Picked}
use clb_filesystem.Vfs.Delete.Subtree.{Deleted, delete_inode-Deleted, delete_inode-root}
use clb_filesystem.Inode.{file, folder, empty, Inode, Table, Ram, update, fs_npages}
use clb_filesystem.Inode.Name.{name_object, IsLaidOut}
use clb_filesystem.Filesystem.Chain.{Chain}
use clb_filesystem.Filesystem.Tree.{View, IsSon, IsBlank, IsTree}

abbrev pub zeros : ℕ → List ℕ
zeros zero = []
zeros (suc n) = 0 ∷ zeros n

abbrev pub blank : ℕ → Inode
blank i = record {
  id = i;
  ref = pos 0;
  type = empty;
  size = 0;
  father = none;
  brother = none;
  first_son = none;
  name = zeros 16;
  data_block = 4096 * (i + 1);
}

abbrev pub table : Table
table zero = record (blank 0) { type = folder; first_son = some 1; name = 0x2f ∷ zeros 15 }
table (suc zero) = record (blank 1) {
  type = file;
  father = some 0;
  name = 0x61 ∷ zeros 15;
  size = 3;
}
table (suc (suc i)) = blank (suc (suc i))

abbrev pub sons : ℕ → List ℕ
sons zero = 1 ∷ []
sons (suc i) = []

abbrev pub names : ℕ → List ℕ
names zero = 0x2f ∷ []
names (suc i) = 0x61 ∷ []

abbrev pub depth : ℕ → ℕ
depth zero = 0
depth (suc i) = 1

abbrev pub view : View
view = record { sons = sons; names = names; depth = depth }

pub table-laid : (i : ℕ) → i < fs_npages → IsLaidOut (table i)
table-laid zero h = record { name_size = refl; word = omega arith; aligned = refl }
table-laid (suc zero) h = record { name_size = refl; word = omega arith; aligned = refl }
table-laid (suc (suc i)) h = record { name_size = refl; word = omega arith; aligned = omega arith }

table-named :
    (i : ℕ) → i < fs_npages → (table i).type ≢ empty → Holds (name_object (table i)) (view.names i)
unfolding name_object
table-named zero h live = (refl, omega arith, refl)
table-named (suc zero) h live = (refl, omega arith, refl)
table-named (suc (suc i)) h live = absurd (live refl)

table-Chain : (d : ℕ) → d < fs_npages → Chain table (table d).first_son (view.sons d)
table-Chain zero h = (refl, refl)
table-Chain (suc zero) h = refl
table-Chain (suc (suc d)) h = refl

table-IsSon : (d c : ℕ) → d < fs_npages → has c (view.sons d) ≡ true → IsSon table view d c
table-IsSon zero zero h m = cc
table-IsSon zero (suc zero) h m = record {
  inside = omega arith;
  not_root = omega arith;
  father = refl;
  live = λ e. cc;
  deeper = omega arith;
}
table-IsSon zero (suc (suc c)) h m = ground arith
table-IsSon (suc d) c h m = cc

table-father :
    (c : ℕ)
    → c < fs_npages
    → c ≢ 0
    → (table c).type ≢ empty
    → (d : ℕ) × (d < fs_npages) × ((table c).father ≡ some d) × (has c (view.sons d) ≡ true)
table-father zero h ne live = absurd (ne refl)
table-father (suc zero) h ne live = (0, omega arith, refl, refl)
table-father (suc (suc c)) h ne live = absurd (live refl)

pub table-IsTree : IsTree table view
table-IsTree = record {
  root = refl;
  orphan = refl;
  ids = λ i h. table-id i;
  laid = table-laid;
  sized = λ i h. table-size i;
  named = table-named;
  chain = table-Chain;
  distinct = λ d h. sons-IsDistinct d;
  son = table-IsSon;
  father = λ c h ne live loose. table-father c h ne live;
  leaf = λ d h ne. table-leaf d ne;
  blank = λ i h e. table-blank i e;
  adrift = λ c m. cc;
}
  where
    table-id : (i : ℕ) → (table i).id ≡ i
    table-id zero = refl
    table-id (suc zero) = refl
    table-id (suc (suc i)) = refl

    table-size : (i : ℕ) → (table i).size ≤ 4096
    table-size zero = omega arith
    table-size (suc zero) = omega arith
    table-size (suc (suc i)) = omega arith

    sons-IsDistinct : (d : ℕ) → IsDistinct (sons d)
    sons-IsDistinct zero = (refl, tt)
    sons-IsDistinct (suc d) = tt

    table-leaf : (d : ℕ) → (table d).type ≢ folder → sons d ≡ []
    table-leaf zero ne = absurd (ne refl)
    table-leaf (suc d) ne = refl

    table-blank : (i : ℕ) → (table i).type ≡ empty → IsBlank (table i)
    table-blank zero e = cc
    table-blank (suc zero) e = cc
    table-blank (suc (suc i)) e = record { no_brother = refl; no_father = refl; no_size = refl }

abbrev pub ram : Ram
ram = record { inodes = table; memory = λ a. a; objects = λ a. ltb 0 a }

pub a-IsFile : IsFile ram 1
a-IsFile = record {
  inside = omega arith;
  is_file = refl;
  sized = omega arith;
  page = omega arith;
  mapped = λ a le lt. ground arith;
}

-- "/a", "a" and "b"
abbrev pub path_a : List ℕ
path_a = 0x2f ∷ 0x61 ∷ 0 ∷ []

abbrev pub name_a : List ℕ
name_a = 0x61 ∷ 0 ∷ []

abbrev pub name_b : List ℕ
name_b = 0x62 ∷ 0 ∷ []

parse_path-resolve_example : parse_path table (some path_a) ≡ ok (some 1)
unfolding resolve visit find_son
parse_path-resolve_example =
    parse_path-resolve table view path_a (0x61 ∷ []) table-IsTree
      (refl, omega arith, (refl, omega arith, refl))

get_son_inode-find_son_example : get_son_inode table 0 name_a ≡ ok (some 1)
unfolding find_son
get_son_inode-find_son_example =
    get_son_inode-find_son table view [] 0 name_a (0x61 ∷ []) table-IsTree (omega arith)
      (refl, omega arith, refl)

delete_inode-Deleted_example :
    (t' : Table) × (v' : View) × (delete_inode fs_npages table 1 ≡ ok t')
    × IsTree t' v'
    × Deleted table view 0 1 t' v'
delete_inode-Deleted_example = delete_inode-Deleted table view table-IsTree 0 1 (omega arith) refl

delete_inode-root_example : delete_inode fs_npages table 0 ≡ fault
delete_inode-root_example = delete_inode-root table view table-IsTree

alloc_inode_lem_example :
    ((alloc_inode table name_b (some 0) file ≡ ok (none, table))
      × ((k : ℕ) → k < fs_npages → (table k).type ≢ empty))
    ⊎ ((i : ℕ) × (t' : Table) × (alloc_inode table name_b (some 0) file ≡ ok (some i, t'))
        × (i < fs_npages)
        × ((table i).type ≡ empty)
        × ((k : ℕ) → k < i → (table k).type ≢ empty)
        × Allocated table view table-IsTree 0 i (0x62 ∷ []) file t')
alloc_inode_lem_example =
    alloc_inode_lem table view table-IsTree 0 name_b (0x62 ∷ []) file (omega arith) refl (λ e. cc)
      (refl, omega arith, refl) (omega arith)

free_inode-shrunk_example :
    (t' : Table) × (free_inode table (pos 1) ≡ ok (pos 0, t'))
    × IsTree t' (shrunk view 0 1)
    × ((t' 1).type ≡ empty)
    × ((j : ℕ) → j ≢ 1 → SameData (table j) (t' j))
free_inode-shrunk_example = free_inode-shrunk table view 0 1 table-IsTree (omega arith) refl refl

free_inode_refuses_example : free_inode table (pos 0) ≡ ok (negsuc 1, table)
free_inode_refuses_example = free_inode_refuses table view 0 1 [] table-IsTree (omega arith) refl

set_name-Holds_example :
    (y : Inode) × (set_name (blank 2) name_b ≡ ok y)
    × Holds (name_object y) (0x62 ∷ [])
    × IsLaidOut y
    × (y ≡ record (blank 2) { name = y.name })
set_name-Holds_example =
    set_name-Holds (blank 2) (table-laid 2 (omega arith)) name_b (0x62 ∷ [])
      (refl, omega arith, refl) (omega arith)

write_inode_lem_example :
    (m : Memory) × (write_inode ram (pos 1) 64 (pos 5)
      ≡ ok (
        pos 5,
        record ram { inodes = update table 1 (record (table 1) { size = 8 }); memory = m },
      ))
    × ((k : ℕ) → k < 5 → m (8195 + k) ≡ 64 + k)
    × ((a : ℕ) → (a < 8195) ⊎ (8200 ≤ a) → m a ≡ a)
write_inode_lem_example =
    write_inode_lem ram 1 a-IsFile 64 5 (omega arith) (omega arith) (λ a le lt. ground arith)
      (inr (omega arith))

read_inode_short_example :
    (m : Memory) × (read_inode ram (pos 1) (pos 0) (pos 5) 64
      ≡ ok (pos 3, record ram { inodes = table; memory = m }))
    × ((k : ℕ) → k < 3 → m (64 + k) ≡ 8192 + k)
read_inode_short_example =
    read_inode_short ram 1 a-IsFile 5 64 (omega arith) (omega arith) (λ a le lt. ground arith)
      (inl (omega arith))

read_inode_long_example :
    (m : Memory) × (read_inode ram (pos 1) (pos 0) (pos 128) 64
      ≡ ok (pos 128, record ram { inodes = table; memory = m }))
read_inode_long_example =
    read_inode_long ram 1 a-IsFile 128 64 (omega arith) (omega arith) (λ a le lt. ground arith)

strcmp-eq_example : (z : ℤ) × (strcmp name_a name_b ≡ ok z) × (is_zero z ≡ false)
strcmp-eq_example =
    strcmp-eq name_a name_b (0x61 ∷ []) (0x62 ∷ []) (refl, omega arith, refl)
      (refl, omega arith, refl)

strcpy_lem_example : strcpy (9 ∷ 8 ∷ 7 ∷ []) name_a ≡ ok (0x61 ∷ 0 ∷ 7 ∷ [])
strcpy_lem_example =
    strcpy_lem (9 ∷ 8 ∷ 7 ∷ []) name_a (0x61 ∷ []) (refl, omega arith, refl) (omega arith)

strcat-append_example : strcat (0x61 ∷ 0 ∷ 7 ∷ []) name_b ≡ ok (0x61 ∷ 0x62 ∷ 0 ∷ [])
strcat-append_example =
    strcat-append (0x61 ∷ 0 ∷ 7 ∷ []) name_b (0x61 ∷ []) (0x62 ∷ []) (refl, omega arith, refl)
      (refl, omega arith, refl) (omega arith)

-- Two tasks, the first of which runs and has used up its time.
abbrev pub two_tasks : Sched
two_tasks = record {
  task = λ i. if i == 0 then some 0 else if i == 1 then some 1 else none;
  tasks = λ p. record {
    state = task_running;
    counter = if p == 0 then pos 0 else pos 3;
    priority = pos 15;
    preempt_count = pos 0;
  };
  current = 0;
}

schedule_next-Picked_example :
    (c : ℤ) × (i : ℕ) × (q : ℕ) × (schedule_next 1 two_tasks
      ≡ ok (preempt_enable (record (preempt_disable two_tasks) { current = q })))
    × Picked two_tasks c i q
    × IsLargest two_tasks c
schedule_next-Picked_example =
    schedule_next-Picked 0 1 1 two_tasks
      (λ i p lt e. elim (Bool-cases (p == 0)) [
        | inl first ↦ rw first (omega arith)
        | inr later ↦ rw later (omega arith)
      ])
      (omega arith) refl refl refl

abbrev pub vfs : Vfs
vfs = record { ram = ram; open_inodes = λ fd. record { inode = none; next = 0; next_son = none } }

-- "/"
abbrev pub path_root : List ℕ
path_root = 0x2f ∷ 0 ∷ []

create-Allocated_example :
    ((create file vfs (some path_root) (some name_b) ≡ ok (vfs_memory_full, vfs))
      × ((k : ℕ) → k < fs_npages → (table k).type ≢ empty))
    ⊎ ((i : ℕ) × (t' : Table) × (create file vfs (some path_root) (some name_b)
          ≡ ok (vfs_ok, with_inodes vfs t'))
        × ((table i).type ≡ empty)
        × Allocated table view table-IsTree 0 i (0x62 ∷ []) file t')
unfolding resolve visit
create-Allocated_example =
    create-Allocated vfs view table-IsTree file path_root name_b (0x62 ∷ []) 0 (λ e. cc)
      (refl, omega arith, refl) (omega arith) (omega arith) (omega arith) refl
      (parse_path-resolve table view path_root [] table-IsTree (refl, omega arith, refl))

create_refuses_example :
    create file vfs (some path_root) (some (0 ∷ [])) ≡ ok (vfs_invalid_name, vfs)
create_refuses_example = create_refuses file vfs path_root (0 ∷ []) [] refl (inl refl)

get_next_fd_lem_example :
    ((get_next_fd vfs.open_inodes ≡ negsuc 0)
      × ((k : ℕ) → k < max_open_files → is_null (vfs.open_inodes k).inode ≡ false))
    ⊎ ((i : ℕ) × (get_next_fd vfs.open_inodes ≡ pos i)
        × (i < max_open_files)
        × IsLowest vfs.open_inodes 0 i)
get_next_fd_lem_example = get_next_fd_lem vfs.open_inodes
