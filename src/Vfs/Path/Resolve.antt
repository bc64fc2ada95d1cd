-- ===== src/Vfs/Path/Resolve.antt =====
-- `parse_path` resolves the components of an absolute path one after another.
use clb_filesystem.Common.{
  ℕ, zero, suc, ◌≤◌, ◌<◌, ◌≡◌, refl, ◌∙◌, inl, inr, Bool-cases, Option-cases, none, some, List, [],
  ◌∷◌, ◌++◌, Outcome, ok, arith, length, drop, ltb, if◌then◌else◌,
}
use clb_filesystem.CString.{Holds}
use clb_filesystem.Inode.{TypeFile, file, folder, empty, Ptr, Table, fs_npages, max_size_name}
use clb_filesystem.Filesystem.Tree.{View, IsForest, IsTree}
use clb_filesystem.Vfs.Path.{
  slash, get_path_first_token, follow, parse_step, parse_loop, parse_path,
}
use clb_filesystem.Vfs.Path.Sons.{find_son, find_son-some, get_son_inode-find_son}
use clb_filesystem.Vfs.Path.Pieces.{
  piece, after, pieces, pieces-after, token_loop-piece, get_elem?-piece, Holds-after, length-after,
  Holds-piece, Holds-length,
}

-- A component leads to a son of that name; an empty one stays, one of more than sixteen bytes fails.
unfoldable pub visit : View → ℕ → List ℕ → Ptr
visit v cur [] = some cur
visit v cur (c ∷ name) =
    if ltb max_size_name (length (c ∷ name)) then none else find_son v.names (c ∷ name) (v.sons cur)

-- The path semantics: every component but the last leads to a folder.
unfoldable pub resolve : (ℕ → TypeFile) → View → ℕ → List ℕ → List (List ℕ) → Ptr
resolve types v cur name [] = elim (visit v cur name) [
  | none ↦ none
  | some i ↦ elim (types i) [ file ↦ some i | folder ↦ some i | empty ↦ none ]
]
resolve types v cur name (next ∷ rest) = elim (visit v cur name) [
  | none ↦ none
  | some i ↦ elim (types i) [ file ↦ none | folder ↦ resolve types v i next rest | empty ↦ none ]
]

module _ (t : Table) (v : View) (loose : List ℕ) (forest : IsForest t v loose) where
  abbrev types : ℕ → TypeFile
  types i = (t i).type

  follow-visit :
      (cur : ℕ) (token name : List ℕ)
      → cur < fs_npages
      → Holds token name
      → length name ≤ max_size_name
      → follow t cur (length name) token ≡ ok (visit v cur name)
  unfolding follow visit
  follow-visit cur token [] h held short = refl
  follow-visit cur token (c ∷ name) h held short =
      ground (arith, get_son_inode-find_son t v loose cur token (c ∷ name) forest h held)

  pub visit_inside :
      (cur i : ℕ) (name : List ℕ) → cur < fs_npages → visit v cur name ≡ some i → i < fs_npages
  unfolding visit
  visit_inside cur i [] h e = ground arith
  visit_inside cur i (c ∷ name) h e =
      let found = find_son-some v.names (c ∷ name) (v.sons cur) i (ground arith) in
      (forest.son cur i h found.0).inside

  visit_long : (cur : ℕ) (name : List ℕ) → max_size_name < length name → visit v cur name ≡ none
  unfolding visit
  visit_long cur [] h = absurd (omega arith)
  visit_long cur (c ∷ name) h = ground arith

  resolve_lost :
      (cur : ℕ) (name : List ℕ) (rest : List (List ℕ))
      → visit v cur name ≡ none
      → resolve types v cur name rest ≡ none
  unfolding resolve
  resolve_lost cur name [] e = rw (e, resolve) refl
  resolve_lost cur name (next ∷ rest) e = rw (e, resolve) refl

  resolve-last :
      (cur i : ℕ) (name : List ℕ)
      → visit v cur name ≡ some i
      → resolve types v cur name []
        ≡ elim (types i) [ file ↦ some i | folder ↦ some i | empty ↦ none ]
  unfolding resolve
  resolve-last cur i name e = rw (e, resolve) refl

  resolve-next :
      (cur i : ℕ) (name next : List ℕ) (rest : List (List ℕ))
      → visit v cur name ≡ some i
      → resolve types v cur name (next ∷ rest)
        ≡ elim (types i) [ file ↦ none | folder ↦ resolve types v i next rest | empty ↦ none ]
  unfolding resolve
  resolve-next cur i name next rest e = rw (e, resolve) refl

  -- What a round does with the inode that its component leads to.
  abbrev onward : (ℕ → List ℕ → Outcome Ptr) → List ℕ → List ℕ → Ptr → Outcome Ptr
  onward next buf s none = ok none
  onward next buf s (some i) = elim (types i) [
    | file ↦ elim (after s) [ none ↦ ok (some i) | some _ ↦ ok none ]
    | folder ↦ elim (after s) [
      | none ↦ ok (some i)
      | some _ ↦ next i (drop (suc (length (piece s))) buf)
    ]
    | empty ↦ ok none
  ]

  parse_step-onward :
      (next : ℕ → List ℕ → Outcome Ptr) (cur : ℕ) (buf s : List ℕ) (o : Ptr)
      → Holds buf s
      → get_path_first_token buf ≡ ok (some (length (piece s), piece s ++ 0 ∷ []))
      → follow t cur (length (piece s)) (piece s ++ 0 ∷ []) ≡ ok o
      → parse_step t next cur buf ≡ onward next buf s o
  unfolding parse_step
  parse_step-onward next cur buf s none held token leads = rw (token, parse_step, leads) refl
  parse_step-onward next cur buf s (some i) held token leads =
      rw (token, parse_step, leads, get_elem?-piece buf s held) (ground arith)

  token_short :
      (buf s : List ℕ)
      → Holds buf s
      → length (piece s) ≤ max_size_name
      → get_path_first_token buf ≡ ok (some (length (piece s), piece s ++ 0 ∷ []))
  unfolding get_path_first_token
  token_short buf s held short = ground (arith, token_loop-piece (suc max_size_name) buf s held)

  token_long :
      (buf s : List ℕ)
      → Holds buf s
      → max_size_name < length (piece s)
      → get_path_first_token buf ≡ ok none
  unfolding get_path_first_token
  token_long buf s held long = ground (arith, token_loop-piece (suc max_size_name) buf s held)

  -- A round agrees with `resolve`, if the rounds behind it do.
  onward-resolve :
      (next : ℕ → List ℕ → Outcome Ptr) (cur : ℕ) (buf s : List ℕ) (o : Ptr)
      → visit v cur (piece s) ≡ o
      → ((i : ℕ) (r : List ℕ)
          → o ≡ some i
          → after s ≡ some r
          → next i (drop (suc (length (piece s))) buf)
            ≡ ok (resolve types v i (piece r) (pieces r)))
      → onward next buf s o ≡ ok (resolve types v cur (piece s) (pieces s))
  onward-resolve next cur buf s none e later = rw (resolve_lost cur (piece s) (pieces s) e) refl
  onward-resolve next cur buf s (some i) e later = elim (Option-cases (after s)) [
    | inl last ↦
        let done : pieces s ≡ [] = ground (arith, pieces-after s) in
        rw done (ground (arith, last, resolve-last cur i (piece s) e))
    | inr (r, more) ↦
        let left : pieces s ≡ piece r ∷ pieces r = ground (arith, pieces-after s) in
        rw left (
          ground
            (arith, more, later i r refl more, resolve-next cur i (piece s) (piece r) (pieces r) e))
  ]

  parse_step_long :
      (next : ℕ → List ℕ → Outcome Ptr) (cur : ℕ) (buf s : List ℕ)
      → Holds buf s
      → max_size_name < length (piece s)
      → parse_step t next cur buf ≡ ok (resolve types v cur (piece s) (pieces s))
  unfolding parse_step
  parse_step_long next cur buf s held long =
      rw
        (
          token_long buf s held long,
          resolve_lost cur (piece s) (pieces s) (visit_long cur (piece s) long),
        )
        refl

  parse_loop-resolve :
      (k cur : ℕ) (buf s : List ℕ)
      → cur < fs_npages
      → Holds buf s
      → length s < k
      → parse_loop k t cur buf ≡ ok (resolve types v cur (piece s) (pieces s))
  unfolding parse_loop
  parse_loop-resolve zero cur buf s h held lt = absurd (omega arith)
  parse_loop-resolve (suc k) cur buf s h held lt =
      elim (Bool-cases (ltb max_size_name (length (piece s)))) [
        | inl long ↦ parse_step_long (parse_loop k t) cur buf s held (ground arith)
        | inr short ↦
            parse_step-onward (parse_loop k t) cur buf s (visit v cur (piece s)) held
              (token_short buf s held (ground arith))
              (follow-visit cur (piece s ++ 0 ∷ []) (piece s) h (Holds-piece buf s held)
                (ground arith))
            ∙ onward-resolve (parse_loop k t) cur buf s (visit v cur (piece s)) refl λ i r e more.
              parse_loop-resolve k i (drop (suc (length (piece s))) buf) r
                (visit_inside cur i (piece s) h e) (Holds-after buf s r held more)
                (omega (arith, length-after s r more))
      ]

-- In a consistent table, `parse_path` of any path that begins with a slash ends, reads inside the
-- path and the names only, and returns what the components between the slashes resolve to from the
-- root: null if one is longer than sixteen bytes or names no son, or if one but the last leads to a
-- file.
pub parse_path-resolve :
    (t : Table) (v : View) (buf s : List ℕ)
    → IsTree t v
    → Holds buf (slash ∷ s)
    → parse_path t (some buf) ≡ ok (resolve (λ i. (t i).type) v 0 (piece s) (pieces s))
unfolding parse_path
parse_path-resolve t v [] s tree held = absurd held
parse_path-resolve t v (c ∷ buf) s tree held = ground (
  arith,
  parse_loop-resolve t v [] tree (length buf) 0 buf s (omega arith) held.2
      (Holds-length buf s held.2),
)
