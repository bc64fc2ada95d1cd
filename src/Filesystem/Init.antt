-- ===== src/Filesystem/Init.antt =====
-- `init_fs` sets up the empty tree, with a page for each inode.
pub mod Bare
pub mod Begun
use clb_filesystem.Common.{
  ℕ, zero, suc, ◌+◌, ◌*◌, ◌%◌, ◌^◌, ◌≤◌, ◌<◌, ◌≡◌, ◌≢◌, refl, ◌∙◌, inl, inr, ◌⊎◌, true, false, none,
  some, List, [], ◌∷◌, ◌++◌, Outcome, ok, ◌>>=◌, arith, length, has, Bool-cases, ◌==◌,
  if◌then◌else◌, ap, sym, subst, ne→==, ==_refl,
}
use clb_filesystem.Common.Words.{pos}
use clb_filesystem.CString.{Holds}
use clb_filesystem.Inode.{TypeFile, folder, empty, Inode, Table, update, fs_npages}
use clb_filesystem.Inode.Name.{name_object, set_name, set_name-Holds, IsLaidOut}
use clb_filesystem.Pages.{Pages, allocate_kernel_page}
use clb_filesystem.Pages.Free.{Block, no_page, page, allocate_kernel_page-Block}
use clb_filesystem.Filesystem.{init_entry, init_entries, init_fs}
use clb_filesystem.Filesystem.Tree.{View, IsTree, IsBlank}

-- What `init_fs` makes of the entry i.
pub record Fresh (i : ℕ) (x : Inode) : Type 0 where
  pub id : x.id ≡ i
  pub type : x.type ≡ (if i == 0 then folder else empty)
  pub alone : (x.brother ≡ none) × (x.father ≡ none) × (x.first_son ≡ none)
  pub no_size : x.size ≡ 0
  pub laid : IsLaidOut x
  pub named : i ≡ 0 → Holds (name_object x) (0x2f ∷ [])

-- A text that ends inside an array is not changed by what stands behind the array.
Holds-inside :
    (xs ys zs s : List ℕ) → Holds (xs ++ ys) s → length s < length xs → Holds (xs ++ zs) s
Holds-inside [] ys zs s h lt = absurd (omega arith)
Holds-inside (x ∷ xs) ys zs [] h lt = h
Holds-inside (x ∷ xs) ys zs (c ∷ s) h lt = (h.0, h.1, Holds-inside xs ys zs s h.2 (omega arith))

Block-aligned : (s s' : Pages) (b : ℕ) → Block s s' b → (b < 2 ^ 64) × (b % 256 ≡ 0)
Block-aligned s s' b (no_page e same used) = rw e (omega arith, refl)
Block-aligned s s' b (page i e lt free marked) = rw e (omega arith, omega arith)

-- The entry i once its name and type are set, and the rest.
abbrev fresh : ℕ → Inode → ℕ → Inode
fresh i x block = record x {
  id = i;
  data_block = block;
  brother = none;
  father = none;
  first_son = none;
  size = 0;
  ref = pos 0;
}

fresh-IsLaidOut :
    (i : ℕ) (x : Inode) (s s' : Pages) (b : ℕ)
    → Block s s' b
    → IsLaidOut x
    → IsLaidOut (fresh i x b)
fresh-IsLaidOut i x s s' b at laid =
    let (word, aligned) = Block-aligned s s' b at in
    record { name_size = laid.name_size; word = word; aligned = aligned }

init_entry-Fresh :
    (i : ℕ) (t : Table) (s : Pages)
    → IsLaidOut (t i)
    → (x : Inode) × (init_entry i (t, s) ≡ ok (update t i x, (allocate_kernel_page s).1))
      × Fresh i x
      × (x.data_block ≡ (allocate_kernel_page s).0)
unfolding init_entry name_object
init_entry-Fresh i t s laid =
    let b = (allocate_kernel_page s).0 in
    let at = allocate_kernel_page-Block s in
    elim (Bool-cases (i == 0)) [
      | inl root ↦
          let (y, names, held, laid', same) =
            set_name-Holds (t i) laid (0x2f ∷ 0 ∷ []) (0x2f ∷ []) (refl, omega arith, refl)
              (omega arith) in
          (
            fresh i (record y { type = folder }) b,
            rw (root, names) refl,
            record {
              id = refl;
              type = rw root refl;
              alone = (refl, refl, refl);
              no_size = refl;
              laid =
                  fresh-IsLaidOut i (record y { type = folder }) s _ b at
                    (record {
                      name_size = laid'.name_size;
                      word = laid'.word;
                      aligned = laid'.aligned;
                    });
              named = λ e. root_named y b held laid'.name_size;
            },
            refl,
          )
      | inr other ↦ (
        fresh i (record (t i) { type = empty }) b,
        rw other refl,
        record {
          id = refl;
          type = rw other refl;
          alone = (refl, refl, refl);
          no_size = refl;
          laid =
              fresh-IsLaidOut i (record (t i) { type = empty }) s _ b at
                (record { name_size = laid.name_size; word = laid.word; aligned = laid.aligned });
          named = λ e. absurd (ground arith);
        },
        refl,
      )
    ]
  where
    root_named :
        (y : Inode) (b : ℕ)
        → Holds (name_object y) (0x2f ∷ [])
        → length y.name ≡ 16
        → Holds (name_object (fresh i (record y { type = folder }) b)) (0x2f ∷ [])
    root_named y b held size = Holds-inside y.name _ _ (0x2f ∷ []) held (omega arith)
