-- ===== src/Vfs/Delete/Subtree.antt =====
-- `delete_inode` of an inode that hangs in the tree, and of the root.
use native.Mathlib.Decide.{ℕ_discrete}
use clb_filesystem.Common.{
  ℕ, suc, ◌≤◌, ◌<◌, ◌≡◌, ◌≢◌, refl, subst, sym, ap, ◌∙◌, inl, inr, true, [], ok, fault, arith, has,
  erase, ne→==, ==_refl,
}
use clb_filesystem.Common.Words.{pos}
use clb_filesystem.Inode.{empty, Table, fs_npages}
use clb_filesystem.Filesystem.{free_inode}
use clb_filesystem.Filesystem.Tree.{View, IsTree, length-sons}
use clb_filesystem.Filesystem.Alloc.Attach.{SameData}
use clb_filesystem.Filesystem.Free.{free_inode-shrunk, free_inode-root}
use clb_filesystem.Filesystem.Free.Shrunk.{shrunk}
use clb_filesystem.Vfs.Delete.{free_id, delete_inode}
use clb_filesystem.Vfs.Delete.Below.{
  Below, self, Below-up, Below-cases, not-Below-father, deeper, deeper-bound,
}
use clb_filesystem.Vfs.Delete.Sons.{
  PrunedSons, PrunedSons-nil, SameData-trans, delete_sons-PrunedSons,
}
use clb_filesystem.Vfs.Delete.Prune.{
  free_id-ok, delete_inode-file, delete_inode-folder, type_cases, delete_inode-Deletes,
}

-- What `delete_inode` of the son i of d leaves.
pub record Deleted (t : Table) (v : View) (d i : ℕ) (t' : Table) (v' : View) : Type 0 where
  pub names : v'.names ≡ v.names
  pub gone : (j : ℕ) → Below v i j → (t' j).type ≡ empty
  pub data_kept : (j : ℕ) → ¬ Below v i j → SameData (t j) (t' j)
  pub father : v'.sons d ≡ erase i (v.sons d)
  pub sons_kept : (j : ℕ) → j ≢ d → ¬ Below v i j → v'.sons j ≡ v.sons j

module _ (t : Table) (v : View) (tree : IsTree t v) where
  -- When its sons are gone, a son is taken out of its father's chain and freed.
  module _ (d i : ℕ) (d_in : d < fs_npages) (m : has i (v.sons d) ≡ true) (t₁ : Table) (v₁ : View)
      (tree₁ : IsTree t₁ v₁) (sons : PrunedSons t v i (v.sons i) t₁ v₁) where
    i_ne_d : i ≢ d
    i_ne_d same = not-Below-father tree d i d_in m (subst (λ z. Below v i z) same self)

    d_not-Below : (s : ℕ) → has s (v.sons i) ≡ true → ¬ Below v s d
    d_not-Below s n q = not-Below-father tree d i d_in m (Below-up v i s n q)

    same_sons : v₁.sons d ≡ v.sons d
    same_sons = sons.sons_kept d (λ same. i_ne_d (sym same)) d_not-Below

    finish :
        (t' : Table) × (v' : View) × (free_id t₁ i ≡ ok t') × IsTree t' v' × Deleted t v d i t' v'
    finish =
        let (t', runs, tree', is_free, others) =
          free_inode-shrunk t₁ v₁ d i tree₁ d_in (subst (λ l. has i l ≡ true) (sym same_sons) m)
            sons.no_sons in
        (
          t',
          shrunk v₁ d i,
          free_id-ok t₁ t' i (tree₁.ids i (tree.son d i d_in m).inside) runs,
          tree',
          record {
            names = sons.shrinks.names;
            gone = λ j p. elim (ℕ_discrete j i) [
              | yes same ↦ subst (λ z. (t' z).type ≡ empty) (sym same) is_free
              | no other ↦ below_freed t' others j other p
            ];
            data_kept = λ j out.
                let ne : j ≢ i = λ same. out (subst (λ z. Below v i z) (sym same) self) in
                SameData-trans (t j) (t₁ j) (t' j)
                  (sons.data_kept j (λ s n q. out (Below-up v i s n q))) (others j ne);
            father = rw ==_refl (ap (erase i) same_sons);
            sons_kept = λ j ne out. rw (ne→== j d ne) (
                sons.sons_kept j (λ same. out (subst (λ z. Below v i z) (sym same) self))
                  (λ s n q. out (Below-up v i s n q)));
          },
        )
      where
        below_freed :
            (t' : Table)
            → ((j : ℕ) → j ≢ i → SameData (t₁ j) (t' j))
            → (j : ℕ) → j ≢ i
            → Below v i j
            → (t' j).type ≡ empty
        below_freed t' others j other p = elim (Below-cases v i p) [
          | inl here ↦ absurd (other here)
          | inr (s, n, q) ↦ ground (arith, others j other, sons.gone s j n q)
        ]

  delete_inode-step :
      (k d i : ℕ)
      → d < fs_npages
      → has i (v.sons d) ≡ true
      → deeper v.depth (v.depth i) fs_npages ≤ k
      → (t' : Table) × (v' : View) × (delete_inode (suc k) t i ≡ ok t')
        × IsTree t' v'
        × Deleted t v d i t' v'
  delete_inode-step k d i d_in m fuel =
      let son = tree.son d i d_in m in
      elim (type_cases (t i).type) [
        | inl is_file ↦
            let none_below : v.sons i ≡ [] = tree.leaf i son.inside (λ z. cc) in
            let sons : PrunedSons t v i (v.sons i) t v =
              subst (λ l. PrunedSons t v i l t v) (sym none_below)
                (PrunedSons-nil t v i none_below) in
            let (t', v', runs, tree', deleted) = finish d i d_in m t v tree sons in
            (t', v', delete_inode-file k t i is_file ∙ runs, tree', deleted)
        | inr (inl is_folder) ↦
            let (t₁, v₁, runs₁, tree₁, sons) =
              delete_sons-PrunedSons (delete_inode k) k (delete_inode-Deletes k) fs_npages
                (v.sons i) t v [] i tree son.inside refl (length-sons tree i son.inside) fuel in
            let (t', v', runs, tree', deleted) = finish d i d_in m t₁ v₁ tree₁ sons in
            (t', v', delete_inode-folder k t t₁ i is_folder runs₁ ∙ runs, tree', deleted)
        | inr (inr is_empty) ↦ absurd (son.live is_empty)
      ]

  -- In a well-formed table, `delete_inode` of a son i of d ends: it frees i and every inode below
  -- it, changes no data of any other inode, takes i alone out of the list of d's sons, and leaves a
  -- well-formed table.
  pub delete_inode-Deleted :
      (d i : ℕ)
      → d < fs_npages
      → has i (v.sons d) ≡ true
      → (t' : Table) × (v' : View) × (delete_inode fs_npages t i ≡ ok t')
        × IsTree t' v'
        × Deleted t v d i t' v'
  delete_inode-Deleted d i d_in m =
      delete_inode-step 127 d i d_in m
        (omega (arith, deeper-bound v.depth i fs_npages (tree.son d i d_in m).inside))

  delete_root-step :
      (k : ℕ) → deeper v.depth (v.depth 0) fs_npages ≤ k → delete_inode (suc k) t 0 ≡ fault
  unfolding free_id
  delete_root-step k fuel =
      let (t₁, v₁, runs₁, tree₁, sons) =
        delete_sons-PrunedSons (delete_inode k) k (delete_inode-Deletes k) fs_npages (v.sons 0) t v
          [] 0 tree (omega arith) refl (length-sons tree 0 (omega arith)) fuel in
      delete_inode-folder k t t₁ 0 tree.root runs₁
      ∙ free_root t₁ (tree₁.ids 0 (omega arith)) (free_inode-root t₁ v₁ tree₁ sons.no_sons)
    where
      free_root : (u : Table) → (u 0).id ≡ 0 → free_inode u (pos 0) ≡ fault → free_id u 0 ≡ fault
      free_root u e runs = rw (e, runs) refl

  -- In a well-formed table, `delete_inode` of the root deletes everything below it and then goes
  -- through the root's father pointer, which is null.
  pub delete_inode-root : delete_inode fs_npages t 0 ≡ fault
  delete_inode-root =
      delete_root-step 127 (omega (arith, deeper-bound v.depth 0 fs_npages (omega arith)))
