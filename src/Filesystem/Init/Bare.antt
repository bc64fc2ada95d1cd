-- ===== src/Filesystem/Init/Bare.antt =====
-- The table that `init_fs` leaves is well-formed.
use clb_filesystem.Common.{ℕ, zero, suc, ◌<◌, ◌≡◌, ◌≢◌, refl, ◌∙◌, ◌⊎◌, [], ◌∷◌, ok, arith, ne→==}
use clb_filesystem.Inode.{folder, empty, Table, fs_npages}
use clb_filesystem.Inode.Name.{IsLaidOut}
use clb_filesystem.Pages.{Pages}
use clb_filesystem.Filesystem.{init_fs}
use clb_filesystem.Filesystem.Tree.{View, IsTree}
use clb_filesystem.Filesystem.Init.Begun.{Owned, Begun, init_entries-Begun}

-- The tree with a root only.
abbrev pub bare : View
bare = record { sons = λ d. []; names = λ i. 0x2f ∷ []; depth = λ i. 0 }

module _ (s₀ : Pages) (t : Table) (s : Pages) (done : Begun s₀ fs_npages t s) where
  root-type : (t 0).type ≡ folder
  root-type = (done.fresh 0 (omega arith)).type

  not_folder : (j : ℕ) → j < fs_npages → j ≢ 0 → (t j).type ≡ empty
  not_folder j h ne = let made = done.fresh j h in made.type ∙ rw (ne→== j 0 ne) refl

  root_only : (j : ℕ) → j < fs_npages → (t j).type ≢ empty → j ≡ 0
  root_only zero h live = refl
  root_only (suc j) h live = absurd (live (not_folder (suc j) h (omega arith)))

  bare-IsTree : IsTree t bare
  bare-IsTree = record {
    root = root-type;
    orphan = (done.fresh 0 (omega arith)).alone.1;
    ids = λ j h. (done.fresh j h).id;
    laid = λ j h. (done.fresh j h).laid;
    sized = λ j h. omega (arith, (done.fresh j h).no_size);
    named = λ j h live. (done.fresh j h).named (root_only j h live);
    chain = λ d h. (done.fresh d h).alone.2;
    distinct = λ d h. tt;
    son = λ d c h m. cc;
    father = λ c h ne live loose. absurd (ne (root_only c h live));
    leaf = λ d h n. refl;
    blank = λ j h e. record {
      no_brother = (done.fresh j h).alone.0;
      no_father = (done.fresh j h).alone.1;
      no_size = (done.fresh j h).no_size;
    };
    adrift = λ c m. cc;
  }

-- `init_fs` ends, from a table whose name arrays are in place and any memory map. It leaves a
-- well-formed table for the tree with a root only, in which every other entry is free. The data block
-- of each entry is a page that was free before and is in use now, and no other entry's, or it is null,
-- and then all pages are in use.
pub init_fs-IsTree :
    (t : Table) (s : Pages)
    → ((i : ℕ) → i < fs_npages → IsLaidOut (t i))
    → (t' : Table) × (s' : Pages) × (init_fs (t, s) ≡ ok (t', s'))
      × IsTree t' bare
      × ((i : ℕ) → i < fs_npages → i ≢ 0 → (t' i).type ≡ empty)
      × ((i j : ℕ)
          → i < j
          → j < fs_npages
          → ((t' j).data_block ≡ 0) ⊎ ((t' i).data_block ≢ (t' j).data_block))
      × ((i : ℕ) → i < fs_npages → Owned s s' (t' i).data_block)
unfolding init_fs
init_fs-IsTree t s laid =
    let nothing : Begun s 0 t s = record {
      fresh = λ j h. absurd (omega arith);
      rest = λ j le h. laid j h;
      owned = λ j h. absurd (omega arith);
      used = λ k h. h;
      apart = λ j k jk h. absurd (omega arith);
    } in
    let (t', s', runs, done) = init_entries-Begun s fs_npages 0 t s nothing (omega arith) in
    (t', s', runs, bare-IsTree s t' s' done, not_folder s t' s' done, done.apart, done.owned)
