-- ===== src/Filesystem/Free.antt =====
-- `free_inode` takes an inode without sons out of the tree.
pub mod Cleared
pub mod Detach
pub mod Shrunk
use clb_filesystem.Common.{
  ℕ, suc, ◌≤◌, ◌<◌, ◌≡◌, ◌≢◌, refl, subst, sym, ap, ◌∙◌, true, false, none, some, List, [], ◌∷◌,
  Outcome, ok, fault, arith, has, ◌&&◌, ne→==,
}
use clb_filesystem.Common.Words.{ℤ, pos, negsuc}
use clb_filesystem.Inode.{folder, empty, is_folder, Inode, Table, update, fs_npages}
use clb_filesystem.Filesystem.{unlink, cleared, is_some, free_inode}
use clb_filesystem.Filesystem.Chain.{Chain}
use clb_filesystem.Filesystem.Tree.{View, IsForest, IsTree, length-sons}
use clb_filesystem.Filesystem.Alloc.Attach.{SameData}
use clb_filesystem.Filesystem.Free.Detach.{unlink-Unhooked, unlink_absent}
use clb_filesystem.Filesystem.Free.Shrunk.{shrunk, shrunk-IsForest}
use clb_filesystem.Filesystem.Free.Cleared.{cleared-IsForest}

free_inode-ok :
    (t u : Table) (i f : ℕ)
    → i < fs_npages
    → (t i).first_son ≡ none
    → (t i).father ≡ some f
    → unlink t i (some f) ≡ ok u
    → free_inode t (pos i) ≡ ok (pos 0, update u i (cleared (u i)))
unfolding free_inode
free_inode-ok t u i f h childless of_f runs = rw (childless, of_f, free_inode, runs) (ground arith)

module _ (t : Table) (v : View) (loose : List ℕ) where
  pub no_first_son :
      (i : ℕ) → IsForest t v loose → i < fs_npages → v.sons i ≡ [] → (t i).first_son ≡ none
  no_first_son i forest h e = subst (Chain t (t i).first_son) e (forest.chain i h)

  -- A loose inode without sons is not found in its father's chain, and is given back.
  pub free_inode-loose :
      (i : ℕ)
      → IsForest t v loose
      → has i loose ≡ true
      → v.sons i ≡ []
      → free_inode t (pos i) ≡ ok (pos 0, update t i (cleared (t i)))
  free_inode-loose i forest m e =
      let adrift = forest.adrift i m in
      let (f, f_in, of_f) = adrift.father in
      free_inode-ok t t i f adrift.inside (no_first_son i forest adrift.inside e) of_f (
        unlink_absent t f i (v.sons f) (forest.chain f f_in) (adrift.nowhere f f_in)
          (length-sons forest f f_in))

-- In a well-formed table, `free_inode` of an inode d's son without sons succeeds: it returns 0 and
-- leaves a well-formed table for the tree without that son, whose entry is free, the data of all
-- other entries unchanged.
pub free_inode-shrunk :
    (t : Table) (v : View) (d i : ℕ)
    → IsTree t v
    → d < fs_npages
    → has i (v.sons d) ≡ true
    → v.sons i ≡ []
    → (t' : Table) × (free_inode t (pos i) ≡ ok (pos 0, t'))
      × IsTree t' (shrunk v d i)
      × ((t' i).type ≡ empty)
      × ((j : ℕ) → j ≢ i → SameData (t j) (t' j))
free_inode-shrunk t v d i tree d_in m e =
    let son = tree.son d i d_in m in
    let (u, runs, unhooked) =
      unlink-Unhooked t d i (v.sons d) (tree.chain d d_in) (tree.distinct d d_in) m
        (length-sons tree d d_in) in
    let loose = shrunk-IsForest t u v [] d i tree d_in m unhooked in
    let i_ne_d : i ≢ d = λ same. ground (arith, son.deeper) in
    (
      update u i (cleared (u i)),
      free_inode-ok t u i d son.inside (no_first_son t v [] i tree son.inside e) son.father runs,
      cleared-IsForest u (shrunk v d i) [] i loose refl (rw (ne→== i d i_ne_d) e),
      ground arith,
      λ j ne. ground (arith, unhooked.data_kept j),
    )

-- In a well-formed table, an inode that still has sons is refused with -2, and nothing changes.
pub free_inode_refuses :
    (t : Table) (v : View) (i s : ℕ) (ss : List ℕ)
    → IsTree t v
    → i < fs_npages
    → v.sons i ≡ s ∷ ss
    → free_inode t (pos i) ≡ ok (negsuc 1, t)
unfolding free_inode
free_inode_refuses t v i s ss tree h e =
    let chain : Chain t (t i).first_son (s ∷ ss) =
      subst (Chain t (t i).first_son) e (tree.chain i h) in
    ground (arith, tree.leaf i h, chain.0)

-- The root has no father: where it has no sons either, `free_inode` goes through a null pointer.
pub free_inode-root :
    (t : Table) (v : View) → IsTree t v → v.sons 0 ≡ [] → free_inode t (pos 0) ≡ fault
unfolding free_inode unlink
free_inode-root t v tree e =
    ground (arith, no_first_son t v [] 0 tree (omega arith) e, tree.orphan, tree.root)
