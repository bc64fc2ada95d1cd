-- ===== src/CString.antt =====
-- string.c. A `char *` is the list of the bytes from its address to the end of the object that it
-- points into, so an access outside that object is a fault.
pub mod Laws
use clb_filesystem.Common.{
  ℕ, zero, suc, ◌+◌, ◌≡◌, ◌≢◌, Bool, true, false, not, ◌&&◌, List, [], ◌∷◌, Outcome, ok, fault,
  ◌>>=◌, ◌==◌, if◌then◌else◌,
}
use clb_filesystem.Common.Words.{ℤ, sub_ℕ}

-- `strlen`
unfoldable pub strlen : List ℕ → Outcome ℕ
strlen [] = fault
strlen (c ∷ s) = if c == 0 then ok 0 else do n ← strlen s; ok (suc n)

-- `strcpy`: the object behind `dst` afterwards.
unfoldable pub strcpy : List ℕ → List ℕ → Outcome (List ℕ)
strcpy dst [] = fault
strcpy [] (c ∷ src) = fault
strcpy (d ∷ dst) (c ∷ src) =
    if c == 0 then ok (0 ∷ dst) else do rest ← strcpy dst src; ok (c ∷ rest)

-- `strcat`: find the terminator of `dst`, and copy from there on.
unfoldable pub strcat : List ℕ → List ℕ → Outcome (List ℕ)
strcat [] src = fault
strcat (d ∷ dst) src =
    if d == 0 then strcpy (d ∷ dst) src else do rest ← strcat dst src; ok (d ∷ rest)

-- `strcmp`: the difference of the first bytes that differ, or of those at the first terminator.
unfoldable pub strcmp : List ℕ → List ℕ → Outcome ℤ
strcmp [] src = fault
strcmp (d ∷ dst) [] = fault
strcmp (d ∷ dst) (c ∷ src) =
    if not (d == 0) && not (c == 0) && (d == c) then strcmp dst src else ok (sub_ℕ d c)

-- What is printed of a string: the bytes in front of the terminator.
unfoldable pub c_text : List ℕ → Outcome (List ℕ)
c_text [] = fault
c_text (c ∷ s) = elim (c == 0) [ true ↦ ok [] | false ↦ c_text s >>= λ text. ok (c ∷ text) ]

-- The object holds the text `s`, which has no zero byte, and its terminator.
abbrev pub Holds : List ℕ → List ℕ → Type 0
Holds [] s = ⊥
Holds (c ∷ buf) [] = c ≡ 0
Holds (c ∷ buf) (x ∷ s) = (c ≡ x) × (x ≢ 0) × Holds buf s

-- A terminated text.
abbrev pub IsText : List ℕ → Type 0
IsText buf = (s : List ℕ) × Holds buf s
