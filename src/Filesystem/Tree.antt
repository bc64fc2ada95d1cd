-- ===== src/Filesystem/Tree.antt =====
-- What a table of inodes stands for: a tree with names, as the sons of each folder in order.
use clb_filesystem.Common.{
  ℕ, ◌≤◌, ◌<◌, ◌≡◌, ◌≢◌, refl, true, false, none, some, List, [], ◌∷◌, arith, length, has,
  IsDistinct, length-le_of_distinct, inl, inr, Bool-cases, false_of_ne,
}
use clb_filesystem.CString.{Holds}
use clb_filesystem.Inode.{folder, empty, Inode, Table, fs_npages, file_max_size}
use clb_filesystem.Inode.Name.{name_object, IsLaidOut}
use clb_filesystem.Filesystem.Chain.{Chain}

-- The abstract tree. A son lies deeper than its father, so there are no cycles.
pub record View : Type 0 where
  pub sons : ℕ → List ℕ
  pub names : ℕ → List ℕ
  pub depth : ℕ → ℕ

-- c is a son of d.
pub record IsSon (t : Table) (v : View) (d c : ℕ) : Type 0 where
  pub inside : c < fs_npages
  pub not_root : c ≢ 0
  pub father : (t c).father ≡ some d
  pub live : (t c).type ≢ empty
  pub deeper : v.depth d < v.depth c

-- An entry that is not in use hangs nowhere.
pub record IsBlank (x : Inode) : Type 0 where
  pub no_brother : x.brother ≡ none
  pub no_father : x.father ≡ none
  pub no_size : x.size ≡ 0

-- An inode in use that hangs nowhere any more, while it is being deleted. Its father pointer is
-- still set.
pub record IsLoose (t : Table) (v : View) (c : ℕ) : Type 0 where
  pub inside : c < fs_npages
  pub not_root : c ≢ 0
  pub live : (t c).type ≢ empty
  pub father : (f : ℕ) × (f < fs_npages) × ((t c).father ≡ some f)
  pub nowhere : (d : ℕ) → d < fs_npages → has c (v.sons d) ≡ false

-- The table is in a consistent state and stands for v, but for the loose inodes.
pub record IsForest (t : Table) (v : View) (loose : List ℕ) : Type 0 where
  pub root : (t 0).type ≡ folder
  pub orphan : (t 0).father ≡ none
  pub ids : (i : ℕ) → i < fs_npages → (t i).id ≡ i
  pub laid : (i : ℕ) → i < fs_npages → IsLaidOut (t i)
  pub sized : (i : ℕ) → i < fs_npages → (t i).size ≤ file_max_size
  pub named : (i : ℕ) → i < fs_npages → (t i).type ≢ empty → Holds (name_object (t i)) (v.names i)
  pub chain : (d : ℕ) → d < fs_npages → Chain t (t d).first_son (v.sons d)
  pub distinct : (d : ℕ) → d < fs_npages → IsDistinct (v.sons d)
  pub son : (d c : ℕ) → d < fs_npages → has c (v.sons d) ≡ true → IsSon t v d c
  pub father :
      (c : ℕ)
      → c < fs_npages
      → c ≢ 0
      → (t c).type ≢ empty
      → has c loose ≡ false
      → (d : ℕ) × (d < fs_npages) × ((t c).father ≡ some d) × (has c (v.sons d) ≡ true)
  pub leaf : (d : ℕ) → d < fs_npages → (t d).type ≢ folder → v.sons d ≡ []
  pub blank : (i : ℕ) → i < fs_npages → (t i).type ≡ empty → IsBlank (t i)
  pub adrift : (c : ℕ) → has c loose ≡ true → IsLoose t v c

-- The table stands for the tree v: every inode in use but the root is the son of its father.
abbrev pub IsTree : Table → View → Type 0
IsTree t v = IsForest t v []

module _ {t : Table} {v : View} {loose : List ℕ} (tree : IsForest t v loose) where
  -- The root is nobody's son, so a folder has at most 127 sons.
  pub length-sons : (d : ℕ) → d < fs_npages → length (v.sons d) < fs_npages
  length-sons d h =
      length-le_of_distinct fs_npages (0 ∷ v.sons d) (no_root, tree.distinct d h)
        λ a m. elim (Bool-cases (has a (v.sons d))) [
          | inl in_sons ↦ (tree.son d a h in_sons).inside
          | inr not_in ↦ ground arith
        ]
    where
      no_root : has 0 (v.sons d) ≡ false
      no_root = false_of_ne _ λ m. (tree.son d 0 h m).not_root refl

  pub not-son_of_empty : (d i : ℕ) → d < fs_npages → (t i).type ≡ empty → has i (v.sons d) ≡ false
  not-son_of_empty d i h e = false_of_ne _ λ m. (tree.son d i h m).live e

  -- An inode is the son of its father only.
  pub not-son_of_other :
      (d f i : ℕ) → d < fs_npages → (t i).father ≡ some f → d ≢ f → has i (v.sons d) ≡ false
  not-son_of_other d f i h e ne =
      false_of_ne _ λ m. let actual = (tree.son d i h m).father in ne (cc)
