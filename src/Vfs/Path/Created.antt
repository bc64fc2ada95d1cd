-- ===== src/Vfs/Path/Created.antt =====
-- What is created is found at the path of its folder followed by its name.
use clb_filesystem.Common.{
  ℕ, ◌≤◌, ◌<◌, ◌≡◌, ◌≢◌, refl, ◌∙◌, inl, inr, true, false, none, some, List, [], ◌∷◌, ◌++◌, Outcome,
  ok, arith, length, has, Bool-cases, ltb, ◌==◌, ap, sym, subst, ==_refl,
}
use clb_filesystem.CString.{Holds}
use clb_filesystem.Inode.{TypeFile, folder, empty, Ptr, Table, fs_npages, max_size_name}
use clb_filesystem.Filesystem.Tree.{View, IsTree, not-son_of_empty}
use clb_filesystem.Filesystem.Alloc.{Allocated}
use clb_filesystem.Filesystem.Alloc.Grown.{grown}
use clb_filesystem.Vfs.Path.{slash, parse_path}
use clb_filesystem.Vfs.Path.Sons.{find_son}
use clb_filesystem.Vfs.Path.Pieces.{piece, pieces}
use clb_filesystem.Vfs.Path.Resolve.{visit, resolve, visit_inside, parse_path-resolve}
use clb_filesystem.Vfs.Path.Append.{
  piece-append, pieces-append, piece-plain, pieces-plain, next_folder, last_one, last-some,
  next-some, resolve-append, find_son-append, find_son-kept,
}

visit-find_son :
    (w : View) (cur : ℕ) (n : List ℕ)
    → 0 < length n
    → length n ≤ max_size_name
    → visit w cur n ≡ find_son w.names n (w.sons cur)
unfolding visit
visit-find_son w cur [] some_bytes short = absurd (omega arith)
visit-find_son w cur (c ∷ n) some_bytes short =
    let e : ltb max_size_name (length (c ∷ n)) ≡ false = ground arith in rw e refl

module _ (t t' : Table) (v : View) (tree : IsTree t v) (d i : ℕ) (s : List ℕ) (type : TypeFile)
    (d_in : d < fs_npages) (unused : (t i).type ≡ empty) (used : type ≢ empty)
    (allocated : Allocated t v tree d i s type t') where
  abbrev v' : View
  v' = grown v d i s

  abbrev types : ℕ → TypeFile
  types j = (t j).type

  abbrev types' : ℕ → TypeFile
  types' j = (t' j).type

  types_kept : (j : ℕ) → types j ≢ empty → types' j ≡ types j
  types_kept j live =
      let ne : j ≢ i = λ e. live (subst (λ z. types z ≡ empty) (sym e) unused) in
      (allocated.others j ne).2

  names_kept : (cur c : ℕ) → cur < fs_npages → has c (v.sons cur) ≡ true → v'.names c ≡ v.names c
  names_kept cur c h m = elim (Bool-cases (c == i)) [
    | inl hit ↦
        let e : c ≡ i = ground arith in
        let absent = not-son_of_empty tree cur i h unused in
        ground (arith, subst (λ z. has z (v.sons cur) ≡ true) e m, absent)
    | inr miss ↦ rw miss refl
  ]

  visit-kept :
      (cur j : ℕ) (n : List ℕ) → cur < fs_npages → visit v cur n ≡ some j → visit v' cur n ≡ some j
  unfolding visit
  visit-kept cur j [] h e = e
  visit-kept cur j (c ∷ n) h e = elim (Bool-cases (ltb max_size_name (length (c ∷ n)))) [
    | inl long ↦ let e' : ◌≡◌ {A = Ptr} none (some j) = rw long at e in cc
    | inr short ↦
        let found : find_son v.names (c ∷ n) (v.sons cur) ≡ some j = rw short at e in
        let both =
          find_son-kept v.names v'.names (c ∷ n) (v.sons cur) (i ∷ []) j
            (λ x m. names_kept cur x h m) found in
        elim (Bool-cases (cur == d)) [
          | inl here ↦
              let same : cur ≡ d = ground arith in
              rw (short, here)
                (subst (λ z. find_son v'.names (c ∷ n) (v.sons z ++ i ∷ []) ≡ some j) same both.0)
          | inr other ↦ rw (short, other) both.1
        ]
  ]

  resolve-kept :
      (cur e : ℕ) (n : List ℕ) (rest : List (List ℕ))
      → cur < fs_npages
      → resolve types v cur n rest ≡ some e
      → resolve types' v' cur n rest ≡ some e
  resolve-kept cur e n [] h leads =
      let (found, live) = last-some types v cur e n leads in
      last_one types' v' cur e n (visit-kept cur e n h found)
        (λ z. live (sym (types_kept e live) ∙ z))
  resolve-kept cur e n (next ∷ rest) h leads =
      let (j, found, of_folder, later) = next-some types v cur e n next rest leads in
      let live : types j ≢ empty = λ z. ground arith in
      next_folder types' v' cur j n next rest (visit-kept cur j n h found)
        (types_kept j live ∙ of_folder)
      ∙ resolve-kept j e next rest (visit_inside t v [] tree cur j n h found) later

  -- The new inode is found in its folder, where no older son has its name.
  visit-new :
      0 < length s
      → length s ≤ max_size_name
      → find_son v.names s (v.sons d) ≡ none
      → visit v' d s ≡ some i
  visit-new some_bytes short fresh =
      let sons : v'.sons d ≡ v.sons d ++ i ∷ [] = rw ==_refl refl in
      let named : v'.names i ≡ s = rw ==_refl refl in
      visit-find_son v' d s some_bytes short
      ∙ ap (find_son v'.names s) sons
      ∙ find_son-append v.names v'.names s (v.sons d) i (λ c m. names_kept d c d_in m) named
      ∙ ap (λ o. elim o [ none ↦ some i | some c ↦ some c ]) fresh

  -- The path of the folder and the name lead to the new inode.
  pub parse_path-new :
      (path full p : List ℕ)
      → 0 < length s
      → length s ≤ max_size_name
      → has slash s ≡ false
      → find_son v.names s (v.sons d) ≡ none
      → Holds path (slash ∷ p)
      → Holds full (slash ∷ p ++ slash ∷ s)
      → types d ≡ folder
      → parse_path t (some path) ≡ ok (some d)
      → parse_path t' (some full) ≡ ok (some i)
  parse_path-new path full p some_bytes short plain fresh held held' of_folder leads =
      let walk : ◌≡◌ {A = Outcome Ptr} (ok (resolve types v 0 (piece p) (pieces p))) (ok (some d)) =
        sym (parse_path-resolve t v path p tree held) ∙ leads in
      let walk' : resolve types v 0 (piece p) (pieces p) ≡ some d = cc in
      let live : types d ≢ empty = λ z. ground arith in
      let there =
        resolve-append types' v' 0 d (piece p) s (pieces p)
          (resolve-kept 0 d (piece p) (pieces p) (omega arith) walk')
          (types_kept d live ∙ of_folder) in
      let found = visit-new some_bytes short fresh in
      let last = last_one types' v' d i s found (λ z. used (sym allocated.new_type ∙ z)) in
      parse_path-resolve t' v' full (p ++ slash ∷ s) allocated.is_tree held'
      ∙ ap ok (
          rw (piece-append, pieces-append, piece-plain s plain, pieces-plain s plain)
            (there ∙ last))
