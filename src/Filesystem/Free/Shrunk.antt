-- ===== src/Filesystem/Free/Shrunk.antt =====
-- An entry that is taken out of its father's chain is loose, and the table is consistent but for it.
use native.Mathlib.Decide.{ℕ_discrete}
use clb_filesystem.Common.{
  ℕ, ◌<◌, ◌≡◌, ◌≢◌, subst, sym, true, false, some, List, ◌∷◌, arith, has, has-erase_ne,
  has-erase_self, erase, erase-IsDistinct, not-has-erase,
}
use clb_filesystem.CString.{Holds}
use clb_filesystem.Inode.{empty, Table, update, fs_npages}
use clb_filesystem.Inode.Name.{name_object, name_object-eq}
use clb_filesystem.Filesystem.Chain.{Chain, Chain-frame}
use clb_filesystem.Filesystem.Tree.{
  View, IsForest, IsLoose, IsSon, IsBlank, not-son_of_empty, not-son_of_other,
}
use clb_filesystem.Filesystem.Free.Detach.{Unhooked}

-- The tree without the son i of d.
abbrev pub shrunk : View → ℕ → ℕ → View
shrunk v d i = record v { sons = update v.sons d (erase i (v.sons d)) }

module _ (t t' : Table) (v : View) (loose : List ℕ) (d i : ℕ) (tree : IsForest t v loose)
    (d_in : d < fs_npages) (i_son : has i (v.sons d) ≡ true)
    (gone : Unhooked t t' (v.sons d) d i) where
  open gone use {data_kept, sons_kept, brothers_kept, chain}

  i_ne_root : i ≢ 0
  i_ne_root = (tree.son d i d_in i_son).not_root

  i_ne_d : i ≢ d
  i_ne_d e = ground (arith, tree.son d i d_in i_son)

  father_of_i : (t i).father ≡ some d
  father_of_i = (tree.son d i d_in i_son).father

  sons_at_d : (shrunk v d i).sons d ≡ erase i (v.sons d)
  sons_at_d = ground arith

  sons_elsewhere : (e : ℕ) → e ≢ d → (shrunk v d i).sons e ≡ v.sons e
  sons_elsewhere e h = ground arith

  not_elsewhere : (e : ℕ) → e < fs_npages → e ≢ d → has i (v.sons e) ≡ false
  not_elsewhere e h other = not-son_of_other tree e d i h father_of_i other

  -- The sons are those of before but i.
  son_of_before :
      (e c : ℕ)
      → e < fs_npages
      → has c ((shrunk v d i).sons e) ≡ true
      → (c ≢ i) × (has c (v.sons e) ≡ true)
  son_of_before e c h m = (
    λ same.
        ground (arith, same, has-erase_self i (v.sons d) (tree.distinct d d_in), not_elsewhere e h),
    ground (arith, has-erase_ne c i (v.sons d), has-erase_self i (v.sons d) (tree.distinct d d_in)),
  )

  still_son : (e c : ℕ) → c ≢ i → has c (v.sons e) ≡ true → has c ((shrunk v d i).sons e) ≡ true
  still_son e c ne m = ground (arith, has-erase_ne c i (v.sons d) ne)

  elsewhere : (e : ℕ) → e < fs_npages → e ≢ d → Chain t' (t' e).first_son (v.sons e)
  elsewhere e h other =
      subst (λ p. Chain t' p (v.sons e)) (sym (sons_kept e other))
        (Chain-frame t t' (t e).first_son (v.sons e) (tree.chain e h) λ c m.
          brothers_kept c
            (not-son_of_other tree d e c d_in (tree.son e c h m).father (λ same. other (sym same))))

  shrunk-Chain : (e : ℕ) → e < fs_npages → Chain t' (t' e).first_son ((shrunk v d i).sons e)
  shrunk-Chain e h = elim (ℕ_discrete e d) [
    | yes same ↦
        subst (λ z. Chain t' (t' z).first_son ((shrunk v d i).sons z)) (sym same)
          (subst (λ l. Chain t' (t' d).first_son l) (sym sons_at_d) chain)
    | no other ↦
        subst (λ l. Chain t' (t' e).first_son l) (sym (sons_elsewhere e other))
          (elsewhere e h other)
  ]

  shrunk-IsSon :
      (e c : ℕ) → e < fs_npages → has c ((shrunk v d i).sons e) ≡ true → IsSon t' (shrunk v d i) e c
  shrunk-IsSon e c h m =
      let (ne, m') = son_of_before e c h m in
      let was = tree.son e c h m' in
      let kept = data_kept c in
      record {
        inside = was.inside;
        not_root = was.not_root;
        father = ground arith;
        live = λ z. ground (arith, was.live);
        deeper = was.deeper;
      }

  shrunk-father :
      (c : ℕ)
      → c < fs_npages
      → c ≢ 0
      → (t' c).type ≢ empty
      → has c (i ∷ loose) ≡ false
      → (e : ℕ) × (e < fs_npages)
        × ((t' c).father ≡ some e)
        × (has c ((shrunk v d i).sons e) ≡ true)
  shrunk-father c h nz live hangs =
      let ne : c ≢ i = λ same. ground arith in
      let kept = data_kept c in
      let (e, e_in, of_e, m) = tree.father c h nz (λ z. live (ground arith)) (ground arith) in
      (e, e_in, ground arith, still_son e c ne m)

  shrunk-named :
      (j : ℕ) → j < fs_npages → (t' j).type ≢ empty → Holds (name_object (t' j)) (v.names j)
  shrunk-named j h live =
      let kept = data_kept j in
      subst (λ o. Holds o (v.names j)) (name_object-eq (t j) (t' j) (ground arith) (ground arith))
        (tree.named j h (λ z. live (ground arith)))

  shrunk-blank : (j : ℕ) → j < fs_npages → (t' j).type ≡ empty → IsBlank (t' j)
  shrunk-blank j h e =
      let kept = data_kept j in
      let was : (t j).type ≡ empty = ground arith in
      let blank = tree.blank j h was in
      let stays = brothers_kept j (not-son_of_empty tree d j d_in was) in ground arith

  shrunk-adrift : (c : ℕ) → has c (i ∷ loose) ≡ true → IsLoose t' (shrunk v d i) c
  shrunk-adrift c m = elim (ℕ_discrete c i) [
    | yes same ↦ subst (IsLoose t' (shrunk v d i)) (sym same) i-IsLoose
    | no other ↦ old_loose (ground arith)
  ]
    where
      i-IsLoose : IsLoose t' (shrunk v d i) i
      i-IsLoose =
          let was = tree.son d i d_in i_son in
          record {
            inside = was.inside;
            not_root = was.not_root;
            live = λ z. was.live (ground (arith, data_kept i));
            father = (d, d_in, ground (arith, data_kept i));
            nowhere = λ e h.
                ground
                  (arith, has-erase_self i (v.sons d) (tree.distinct d d_in), not_elsewhere e h);
          }

      old_loose : has c loose ≡ true → IsLoose t' (shrunk v d i) c
      old_loose m' =
          let was = tree.adrift c m' in
          let (f, f_in, of_f) = was.father in
          record {
            inside = was.inside;
            not_root = was.not_root;
            live = λ z. was.live (ground (arith, data_kept c));
            father = (f, f_in, ground (arith, data_kept c));
            nowhere = λ e h.
                ground (arith, was.nowhere e h, not-has-erase c i (v.sons d) (was.nowhere d d_in));
          }

  -- The sons of every folder are those of before but i, which is loose.
  pub shrunk-IsForest : IsForest t' (shrunk v d i) (i ∷ loose)
  shrunk-IsForest = record {
    root = ground (arith, tree.root, data_kept 0);
    orphan = ground (arith, tree.orphan, data_kept 0);
    ids = λ j h. ground (arith, tree.ids j h, data_kept j);
    laid = λ j h. ground (arith, tree.laid j h, data_kept j);
    sized = λ j h. ground (arith, tree.sized j h, data_kept j);
    named = shrunk-named;
    chain = shrunk-Chain;
    distinct = λ e h. ground (arith, tree.distinct e h, erase-IsDistinct i (v.sons d));
    son = shrunk-IsSon;
    father = shrunk-father;
    leaf = λ e h n. ground (arith, tree.leaf e h, data_kept e);
    blank = shrunk-blank;
    adrift = shrunk-adrift;
  }
