-- ===== src/Vfs/Delete/Prune.antt =====
-- `delete_inode` of a loose inode frees it with all that is below it, and nothing else.
use clb_filesystem.Common.{
  ℕ, zero, suc, ◌≡◌, ◌≢◌, refl, subst, sym, ◌∙◌, ◌⊎◌, inl, inr, false, List, [], ◌∷◌, ok, arith,
  has,
}
use clb_filesystem.Common.Words.{pos}
use clb_filesystem.Inode.{TypeFile, file, folder, empty, Table, update, fs_npages}
use clb_filesystem.Filesystem.{free_inode, cleared}
use clb_filesystem.Filesystem.Tree.{View, IsForest, length-sons}
use clb_filesystem.Filesystem.Free.{free_inode-loose}
use clb_filesystem.Filesystem.Free.Cleared.{cleared-IsForest}
use clb_filesystem.Vfs.Delete.{free_id, delete_sons, delete_inode}
use clb_filesystem.Vfs.Delete.Below.{Below, self, Below-up, Below-cases}
use clb_filesystem.Vfs.Delete.Sons.{
  Pruned, PrunedSons, PrunedSons-nil, Deletes, delete_sons-PrunedSons,
}

pub free_id-ok :
    (t t' : Table) (i : ℕ)
    → (t i).id ≡ i
    → free_inode t (pos i) ≡ ok (pos 0, t')
    → free_id t i ≡ ok t'
unfolding free_id
free_id-ok t t' i e runs = rw (e, runs) refl

pub delete_inode-file :
    (k : ℕ) (t : Table) (i : ℕ) → (t i).type ≡ file → delete_inode (suc k) t i ≡ free_id t i
unfolding delete_inode
delete_inode-file k t i e = rw (e, delete_inode) refl

pub delete_inode-folder :
    (k : ℕ) (t t' : Table) (i : ℕ)
    → (t i).type ≡ folder
    → delete_sons (delete_inode k) fs_npages t i ≡ ok t'
    → delete_inode (suc k) t i ≡ free_id t' i
unfolding delete_inode
delete_inode-folder k t t' i e runs = rw (e, delete_inode, runs) refl

-- When its sons are gone, a loose inode is freed.
module _ (t t' : Table) (v v' : View) (loose : List ℕ) (i : ℕ) (forest : IsForest t' v' (i ∷ loose))
    (fresh : has i loose ≡ false) (sons : PrunedSons t v i (v.sons i) t' v') where
  abbrev freed : Table
  freed = update t' i (cleared (t' i))

  freed-runs : free_id t' i ≡ ok freed
  freed-runs =
      let adrift = forest.adrift i (ground arith) in
      free_id-ok t' freed i (forest.ids i adrift.inside)
        (free_inode-loose t' v' (i ∷ loose) i forest (ground arith) sons.no_sons)

  freed-IsForest : IsForest freed v' loose
  freed-IsForest = cleared-IsForest t' v' loose i forest fresh sons.no_sons

  freed-Pruned : Pruned t v i freed v'
  freed-Pruned = record {
    shrinks = record {
      names = sons.shrinks.names;
      depth = sons.shrinks.depth;
      fewer = sons.shrinks.fewer;
      stay_free = λ j z. ground (arith, sons.shrinks.stay_free j);
    };
    gone = λ j p. elim (Below-cases v i p) [
      | inl here ↦ ground arith
      | inr (s, m, q) ↦ ground (arith, sons.gone s j m q)
    ];
    data_kept = λ j out.
        let ne : j ≢ i = λ same. out (subst (λ z. Below v i z) (sym same) self) in
        let kept = sons.data_kept j (λ s m q. out (Below-up v i s m q)) in ground arith;
    sons_kept = λ j out.
        sons.sons_kept j (λ same. out (subst (λ z. Below v i z) (sym same) self))
          (λ s m q. out (Below-up v i s m q));
  }

pub type_cases : (y : TypeFile) → (y ≡ file) ⊎ ((y ≡ folder) ⊎ (y ≡ empty))
type_cases file = inl refl
type_cases folder = inr (inl refl)
type_cases empty = inr (inr refl)

-- Enough fuel for the levels below a loose inode deletes it.
pub delete_inode-Deletes : (k : ℕ) → Deletes (delete_inode k) k
delete_inode-Deletes zero t v loose i forest fresh fuel = absurd (omega arith)
delete_inode-Deletes (suc k) t v loose i forest fresh fuel =
    let adrift = forest.adrift i (ground arith) in
    elim (type_cases (t i).type) [
      | inl is_file ↦
          let none_below : v.sons i ≡ [] = forest.leaf i adrift.inside (λ z. cc) in
          let sons : PrunedSons t v i (v.sons i) t v =
            subst (λ l. PrunedSons t v i l t v) (sym none_below)
              (PrunedSons-nil t v i none_below) in
          (
            freed t t v v loose i forest fresh sons,
            v,
            delete_inode-file k t i is_file ∙ freed-runs t t v v loose i forest fresh sons,
            freed-IsForest t t v v loose i forest fresh sons,
            freed-Pruned t t v v loose i forest fresh sons,
          )
      | inr (inl is_folder) ↦
          let (t', v', runs, forest', sons) =
            delete_sons-PrunedSons (delete_inode k) k (delete_inode-Deletes k) fs_npages (v.sons i)
              t v (i ∷ loose) i forest adrift.inside refl (length-sons forest i adrift.inside)
              (omega arith) in
          (
            freed t t' v v' loose i forest' fresh sons,
            v',
            delete_inode-folder k t t' i is_folder runs
                ∙ freed-runs t t' v v' loose i forest' fresh sons,
            freed-IsForest t t' v v' loose i forest' fresh sons,
            freed-Pruned t t' v v' loose i forest' fresh sons,
          )
      | inr (inr is_empty) ↦ absurd (adrift.live is_empty)
    ]
