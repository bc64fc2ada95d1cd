-- ===== src/Vfs/Path/Append.antt =====
-- Paths that go on by one more component, and the tree that has one more son.
use clb_filesystem.Common.{
  ℕ, ◌≡◌, ◌≢◌, refl, ◌∙◌, inl, inr, true, false, none, some, List, [], ◌∷◌, ◌++◌, arith, has,
  Bool-cases, Option-cases,
}
use clb_filesystem.CString.Laws.{text_eq, text_eq_iff}
use clb_filesystem.Inode.{TypeFile, file, folder, empty, Ptr}
use clb_filesystem.Filesystem.Tree.{View}
use clb_filesystem.Vfs.Path.{slash}
use clb_filesystem.Vfs.Path.Sons.{find_son}
use clb_filesystem.Vfs.Path.Pieces.{piece, pieces}
use clb_filesystem.Vfs.Path.Resolve.{visit, resolve}

pub piece-append : (p n : List ℕ) → piece (p ++ slash ∷ n) ≡ piece p
piece-append [] n = refl
piece-append (c ∷ p) n = ground (arith, piece-append p n)

pub pieces-append : (p n : List ℕ) → pieces (p ++ slash ∷ n) ≡ pieces p ++ piece n ∷ pieces n
pieces-append [] n = refl
pieces-append (c ∷ p) n = ground (arith, pieces-append p n, piece-append p n)

-- A component has no slash.
pub piece-plain : (n : List ℕ) → has slash n ≡ false → piece n ≡ n
piece-plain [] h = refl
piece-plain (c ∷ n) h = ground (arith, piece-plain n)

pub pieces-plain : (n : List ℕ) → has slash n ≡ false → pieces n ≡ []
pieces-plain [] h = refl
pieces-plain (c ∷ n) h = ground (arith, pieces-plain n)

module _ (types : ℕ → TypeFile) (v : View) where
  pub next_folder :
      (cur i : ℕ) (name next : List ℕ) (rest : List (List ℕ))
      → visit v cur name ≡ some i
      → types i ≡ folder
      → resolve types v cur name (next ∷ rest) ≡ resolve types v i next rest
  unfolding resolve
  next_folder cur i name next rest found of_folder = rw (found, resolve, of_folder) refl

  pub last_one :
      (cur i : ℕ) (name : List ℕ)
      → visit v cur name ≡ some i
      → types i ≢ empty
      → resolve types v cur name [] ≡ some i
  unfolding resolve
  last_one cur i name found live = rw (found, resolve) (at (types i) live)
    where
      at :
          (type : TypeFile)
          → type ≢ empty
          → ◌≡◌ {A = Ptr} (elim type [ file ↦ some i | folder ↦ some i | empty ↦ none ]) (some i)
      at file live = refl
      at folder live = refl
      at empty live = absurd (live refl)

  -- What a successful walk has gone through.
  pub last-some :
      (cur d : ℕ) (name : List ℕ)
      → resolve types v cur name [] ≡ some d
      → (visit v cur name ≡ some d) × (types d ≢ empty)
  unfolding resolve
  last-some cur d name e = elim (Option-cases (visit v cur name)) [
    | inl lost ↦ let e' : ◌≡◌ {A = Ptr} none (some d) = rw (lost, resolve) at e in cc
    | inr (i, found) ↦ at i found (types i) refl (rw (found, resolve) at e)
  ]
    where
      at :
          (i : ℕ)
          → visit v cur name ≡ some i
          → (type : TypeFile) → types i ≡ type
          → ◌≡◌ {A = Ptr} (elim type [ file ↦ some i | folder ↦ some i | empty ↦ none ]) (some d)
          → (visit v cur name ≡ some d) × (types d ≢ empty)
      at i found file is e' = (cc, λ z. ground arith)
      at i found folder is e' = (cc, λ z. ground arith)
      at i found empty is e' = cc

  pub next-some :
      (cur d : ℕ) (name next : List ℕ) (rest : List (List ℕ))
      → resolve types v cur name (next ∷ rest) ≡ some d
      → (i : ℕ) × (visit v cur name ≡ some i)
        × (types i ≡ folder)
        × (resolve types v i next rest ≡ some d)
  unfolding resolve
  next-some cur d name next rest e = elim (Option-cases (visit v cur name)) [
    | inl lost ↦ let e' : ◌≡◌ {A = Ptr} none (some d) = rw (lost, resolve) at e in cc
    | inr (i, found) ↦ at i found (types i) refl (rw (found, resolve) at e)
  ]
    where
      at :
          (i : ℕ)
          → visit v cur name ≡ some i
          → (type : TypeFile) → types i ≡ type
          → ◌≡◌ {A = Ptr}
              (elim type [ file ↦ none | folder ↦ resolve types v i next rest | empty ↦ none ])
              (some d)
          → (j : ℕ) × (visit v cur name ≡ some j)
            × (types j ≡ folder)
            × (resolve types v j next rest ≡ some d)
      at i found file is e' = cc
      at i found folder is e' = (i, found, is, e')
      at i found empty is e' = cc

  -- From the folder that the components lead to, one more component leads on.
  pub resolve-append :
      (cur d : ℕ) (name next : List ℕ) (rest : List (List ℕ))
      → resolve types v cur name rest ≡ some d
      → types d ≡ folder
      → resolve types v cur name (rest ++ next ∷ []) ≡ resolve types v d next []
  resolve-append cur d name next [] e of_d =
      next_folder cur d name next [] (last-some cur d name e).0 of_d
  resolve-append cur d name next (n ∷ rest) e of_d =
      let (i, found, of_folder, later) = next-some cur d name n rest e in
      next_folder cur i name n (rest ++ next ∷ []) found of_folder
      ∙ resolve-append i d n next rest later of_d

pub find_son-append :
    (names names' : ℕ → List ℕ) (s xs : List ℕ) (i : ℕ)
    → ((c : ℕ) → has c xs ≡ true → names' c ≡ names c)
    → names' i ≡ s
    → find_son names' s (xs ++ i ∷ [])
      ≡ (elim (find_son names s xs) [ none ↦ some i | some c ↦ some c ])
unfolding find_son
find_son-append names names' s [] i same new = ground (arith, text_eq_iff s (names' i))
find_son-append names names' s (x ∷ xs) i same new =
    let kept = same x (ground arith) in
    elim (Bool-cases (text_eq s (names x))) [
      | inl hit ↦ rw (kept, hit) refl
      | inr miss ↦
          rw (kept, miss) (find_son-append names names' s xs i (λ c m. same c (ground arith)) new)
    ]

-- What was found among the first sons is found still.
pub find_son-kept :
    (names names' : ℕ → List ℕ) (s xs ys : List ℕ) (j : ℕ)
    → ((c : ℕ) → has c xs ≡ true → names' c ≡ names c)
    → find_son names s xs ≡ some j
    → (find_son names' s (xs ++ ys) ≡ some j) × (find_son names' s xs ≡ some j)
unfolding find_son
find_son-kept names names' s [] ys j same e = cc
find_son-kept names names' s (x ∷ xs) ys j same e =
    let kept = same x (ground arith) in
    elim (Bool-cases (text_eq s (names x))) [
      | inl hit ↦ let e' : some x ≡ some j = rw hit at e in rw (kept, hit) (e', e')
      | inr miss ↦
          let e' : find_son names s xs ≡ some j = rw miss at e in
          rw (kept, miss) (find_son-kept names names' s xs ys j (λ c m. same c (ground arith)) e')
    ]
