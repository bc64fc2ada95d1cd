-- ===== src/Vfs/Path/Below.antt =====
-- A path with a first component does not lead to the root.
use clb_filesystem.Common.{
  ℕ, ◌<◌, ◌≡◌, ◌≢◌, ◌⊎◌, inl, inr, refl, sym, ◌∙◌, none, some, List, [], ◌∷◌, ok, arith,
  Option-cases,
}
use clb_filesystem.CString.{Holds}
use clb_filesystem.Inode.{TypeFile, file, folder, empty, Ptr, Table, fs_npages}
use clb_filesystem.Filesystem.Tree.{View, IsTree}
use clb_filesystem.Vfs.Path.{slash, parse_path}
use clb_filesystem.Vfs.Path.Pieces.{piece, pieces}
use clb_filesystem.Vfs.Path.Sons.{find_son-some}
use clb_filesystem.Vfs.Path.Resolve.{visit, resolve, parse_path-resolve, visit_inside}

-- What a round makes of an inode and of what the rest leads to is not the root either.
last_below :
    (type : TypeFile) (i : ℕ)
    → i ≢ 0
    → elim type [ file ↦ some i | folder ↦ some i | empty ↦ none ] ≢ some 0
last_below file i ne e = ne (cc)
last_below folder i ne e = ne (cc)
last_below empty i ne e = cc

next_below :
    (type : TypeFile) (p : Ptr)
    → p ≢ some 0
    → elim type [ file ↦ none | folder ↦ p | empty ↦ none ] ≢ some 0
next_below file p ne e = cc
next_below folder p ne e = ne e
next_below empty p ne e = cc

module _ (t : Table) (v : View) (tree : IsTree t v) where
  visit_below :
      (cur i : ℕ) (name : List ℕ)
      → cur < fs_npages
      → (cur ≢ 0) ⊎ (name ≢ [])
      → visit v cur name ≡ some i
      → i ≢ 0
  unfolding visit
  visit_below cur i [] h (inl ne) e zero_i = ne (omega (arith, same))
    where
      same : cur ≡ i
      same = cc
  visit_below cur i [] h (inr ne) e zero_i = ne refl
  visit_below cur i (c ∷ name) h off e zero_i =
      let found = find_son-some v.names (c ∷ name) (v.sons cur) i (ground arith) in
      (tree.son cur i h found.0).not_root zero_i

  resolve_below :
      (cur : ℕ) (name : List ℕ) (rest : List (List ℕ))
      → cur < fs_npages
      → (cur ≢ 0) ⊎ (name ≢ [])
      → resolve (λ i. (t i).type) v cur name rest ≢ some 0
  unfolding resolve
  resolve_below cur name [] h off = elim (Option-cases (visit v cur name)) [
    | inl lost ↦ rw (lost, resolve) (λ e. cc)
    | inr (i, found) ↦
        rw (found, resolve) (last_below (t i).type i (visit_below cur i name h off found))
  ]
  resolve_below cur name (next ∷ rest) h off = elim (Option-cases (visit v cur name)) [
    | inl lost ↦ rw (lost, resolve) (λ e. cc)
    | inr (i, found) ↦
        let inside = visit_inside t v [] tree cur i name h found in
        let ne = visit_below cur i name h off found in
        rw (found, resolve)
          (next_below (t i).type (resolve (λ i. (t i).type) v i next rest)
            (resolve_below i next rest inside (inl ne)))
  ]

  pub parse_path_below :
      (buf s : List ℕ)
      → Holds buf (slash ∷ s)
      → piece s ≢ []
      → parse_path t (some buf) ≢ ok (some 0)
  parse_path_below buf s held given e =
      let same : resolve (λ i. (t i).type) v 0 (piece s) (pieces s) ≡ some 0 =
        let leads = sym (parse_path-resolve t v buf s tree held) ∙ e in cc in
      resolve_below 0 (piece s) (pieces s) (omega arith) (inr given) same
