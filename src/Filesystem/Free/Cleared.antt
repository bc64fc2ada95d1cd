-- ===== src/Filesystem/Free/Cleared.antt =====
-- A loose entry without sons is given back.
use clb_filesystem.Common.{
  ℕ, ◌<◌, ◌≡◌, ◌≢◌, refl, subst, sym, true, false, some, List, [], ◌∷◌, arith, has, ne→==,
}
use clb_filesystem.CString.{Holds}
use clb_filesystem.Inode.{empty, Table, update, fs_npages}
use clb_filesystem.Inode.Name.{name_object}
use clb_filesystem.Filesystem.{cleared}
use clb_filesystem.Filesystem.Chain.{Chain, Chain-frame}
use clb_filesystem.Filesystem.Tree.{View, IsForest, IsLoose, IsSon}

module _ (t : Table) (v : View) (loose : List ℕ) (i : ℕ) (forest : IsForest t v (i ∷ loose))
    (once : has i loose ≡ false) (no_sons : v.sons i ≡ []) where
  -- The table with the entry i given back.
  abbrev pub t' : Table
  t' = update t i (cleared (t i))

  i-IsLoose : IsLoose t v i
  i-IsLoose = forest.adrift i (ground arith)

  t'_other : (j : ℕ) → j ≢ i → t' j ≡ t j
  t'_other j h = rw (ne→== j i h) refl

  cleared-Chain : (e : ℕ) → e < fs_npages → Chain t' (t' e).first_son (v.sons e)
  cleared-Chain e h =
      subst (λ p. Chain t' p (v.sons e)) (ground arith)
        (Chain-frame t t' (t e).first_son (v.sons e) (forest.chain e h)
          (λ c m. ground (arith, i-IsLoose.nowhere e h)))

  cleared-IsSon : (e c : ℕ) → e < fs_npages → has c (v.sons e) ≡ true → IsSon t' v e c
  cleared-IsSon e c h m =
      let was = forest.son e c h m in
      let ne : c ≢ i = λ same. ground (arith, i-IsLoose.nowhere e h) in
      record {
        inside = was.inside;
        not_root = was.not_root;
        father = ground (arith, was.father);
        live = λ z. was.live (ground arith);
        deeper = was.deeper;
      }

  cleared-adrift : (c : ℕ) → has c loose ≡ true → IsLoose t' v c
  cleared-adrift c m =
      let was = forest.adrift c (ground arith) in
      let ne : c ≢ i = λ same. ground arith in
      let (f, f_in, of_f) = was.father in
      record {
        inside = was.inside;
        not_root = was.not_root;
        live = λ z. was.live (ground arith);
        father = (f, f_in, ground arith);
        nowhere = was.nowhere;
      }

  cleared-father :
      (c : ℕ)
      → c < fs_npages
      → c ≢ 0
      → (t' c).type ≢ empty
      → has c loose ≡ false
      → (e : ℕ) × (e < fs_npages) × ((t' c).father ≡ some e) × (has c (v.sons e) ≡ true)
  cleared-father c h nz live hangs =
      let ne : c ≢ i = λ same. live (ground arith) in
      let (e, e_in, of_e, m) = forest.father c h nz (λ z. live (ground arith)) (ground arith) in
      (e, e_in, ground arith, m)

  cleared-named :
      (j : ℕ) → j < fs_npages → (t' j).type ≢ empty → Holds (name_object (t' j)) (v.names j)
  cleared-named j h live =
      let ne : j ≢ i = λ same. live (ground arith) in
      subst (λ x. Holds (name_object x) (v.names j)) (sym (t'_other j ne))
        (forest.named j h (λ z. live (ground arith)))

  pub cleared-IsForest : IsForest t' v loose
  cleared-IsForest = record {
    root = ground (arith, forest.root, i-IsLoose.not_root);
    orphan = ground (arith, forest.orphan);
    ids = λ j h. ground (arith, forest.ids j h);
    laid = λ j h. ground (arith, forest.laid j h);
    sized = λ j h. ground (arith, forest.sized j h);
    named = cleared-named;
    chain = cleared-Chain;
    distinct = forest.distinct;
    son = cleared-IsSon;
    father = cleared-father;
    leaf = λ e h n. ground (arith, forest.leaf e h);
    blank = λ j h e. ground (arith, forest.blank j h);
    adrift = cleared-adrift;
  }
