-- ===== src/Vfs/Path/Pieces.antt =====
-- The components of a path, and what `get_path_first_token` makes of the first one.
use clb_filesystem.Common.{
  ℕ, zero, suc, ◌<◌, ◌≡◌, refl, subst, sym, inl, inr, Bool-cases, Option, none, some, List, [], ◌∷◌,
  ◌++◌, ok, arith, length, drop, get_elem?, ltb, ◌==◌, if◌then◌else◌,
}
use clb_filesystem.CString.{Holds}
use clb_filesystem.Vfs.Path.{slash, token_loop}

-- The text in front of the first slash, and the text behind it, if there is one.
abbrev pub piece : List ℕ → List ℕ
piece [] = []
piece (c ∷ s) = if c == slash then [] else c ∷ piece s

abbrev pub after : List ℕ → Option (List ℕ)
after [] = none
after (c ∷ s) = if c == slash then some s else after s

-- The components behind the first one.
abbrev pub pieces : List ℕ → List (List ℕ)
pieces [] = []
pieces (c ∷ s) = if c == slash then piece s ∷ pieces s else pieces s

pub pieces-after :
    (s : List ℕ) → pieces s ≡ elim (after s) [ none ↦ [] | some r ↦ piece r ∷ pieces r ]
pieces-after [] = refl
pieces-after (c ∷ s) = ground (arith, pieces-after s)

-- `get_path_first_token` reads no further than the terminator, and returns the first component.
pub token_loop-piece :
    (n : ℕ) (buf s : List ℕ)
    → Holds buf s
    → token_loop n buf ≡ (
        if ltb (length (piece s)) n
        then ok (some (length (piece s), piece s ++ 0 ∷ []))
        else ok none)
unfolding token_loop
token_loop-piece zero buf s h = ground arith
token_loop-piece (suc n) [] s h = absurd h
token_loop-piece (suc n) (c ∷ buf) [] h = ground arith
token_loop-piece (suc n) (c ∷ buf) (x ∷ s) h = ground (arith, token_loop-piece n buf s h.2)

-- Behind the component stands a slash or the terminator.
pub get_elem?-piece :
    (buf s : List ℕ)
    → Holds buf s
    → get_elem? buf (length (piece s)) ≡ some (elim (after s) [ none ↦ 0 | some _ ↦ slash ])
get_elem?-piece [] s h = absurd h
get_elem?-piece (c ∷ buf) [] h = ground arith
get_elem?-piece (c ∷ buf) (x ∷ s) h = ground (arith, get_elem?-piece buf s h.2)

pub Holds-after :
    (buf s r : List ℕ)
    → Holds buf s
    → after s ≡ some r
    → Holds (drop (suc (length (piece s))) buf) r
Holds-after [] s r h e = absurd h
Holds-after (c ∷ buf) [] r h e = cc
Holds-after (c ∷ buf) (x ∷ s) r h e = elim (Bool-cases (x == slash)) [
  | inl hit ↦
      let none_in_front : piece (x ∷ s) ≡ [] = rw hit refl in
      let same : s ≡ r = ground arith in
      subst (λ l. Holds (drop (length l) buf) r) (sym none_in_front) (subst (Holds buf) same h.2)
  | inr miss ↦
      let one_more : piece (x ∷ s) ≡ x ∷ piece s = rw miss refl in
      subst (λ l. Holds (drop (length l) buf) r) (sym one_more)
        (Holds-after buf s r h.2 (ground arith))
]

pub length-after : (s r : List ℕ) → after s ≡ some r → length r < length s
length-after [] r e = cc
length-after (c ∷ s) r e = ground (arith, length-after s r)

pub Holds-piece : (buf s : List ℕ) → Holds buf s → Holds (piece s ++ 0 ∷ []) (piece s)
Holds-piece [] s h = absurd h
Holds-piece (c ∷ buf) [] h = refl
Holds-piece (c ∷ buf) (x ∷ s) h = ground (arith, Holds-piece buf s h.2)

pub Holds-length : (buf s : List ℕ) → Holds buf s → length s < length buf
Holds-length [] s h = absurd h
Holds-length (c ∷ buf) [] h = omega arith
Holds-length (c ∷ buf) (x ∷ s) h = omega (arith, Holds-length buf s h.2)
