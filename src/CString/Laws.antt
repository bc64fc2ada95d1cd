-- ===== src/CString/Laws.antt =====
-- string.c on terminated texts: no access outside the objects, and the results.
use Prim.Native.Nat.add
use clb_filesystem.Common.{
  ℕ, suc, ◌+◌, ◌<◌, ◌≡◌, refl, ◌↔◌, Bool, true, false, List, [], ◌∷◌, ◌++◌, arith, ok, fault,
  length, drop, ◌&&◌, ◌==◌, if◌then◌else◌,
}
use clb_filesystem.Common.Words.{ℤ, pos, sub_ℕ, is_zero}
use clb_filesystem.CString.{strlen, strcpy, strcat, strcmp, Holds, c_text}

-- `strlen` counts the bytes before the terminator.
pub strlen-length : (buf s : List ℕ) → Holds buf s → strlen buf ≡ ok (length s)
unfolding strlen
strlen-length [] s h = absurd h
strlen-length (c ∷ buf) [] h = ground arith
strlen-length (c ∷ buf) (x ∷ s) h = ground (arith, strlen-length buf s h.2)

-- `strcpy` of a text into an object that has room for it and its terminator writes both, and leaves
-- the bytes behind them.
pub strcpy_lem :
    (dst buf s : List ℕ)
    → Holds buf s
    → length s < length dst
    → strcpy dst buf ≡ ok (s ++ 0 ∷ drop (suc (length s)) dst)
unfolding strcpy
strcpy_lem dst [] s h lt = absurd h
strcpy_lem [] (c ∷ buf) s h lt = absurd (omega arith)
strcpy_lem (d ∷ dst) (c ∷ buf) [] h lt = ground arith
strcpy_lem (d ∷ dst) (c ∷ buf) (x ∷ s) h lt = ground (arith, strcpy_lem dst buf s h.2 (omega arith))

-- `strcpy` of a text into an object too small for it and its terminator runs over the object's end.
pub strcpy-overrun :
    (dst buf s : List ℕ) → Holds buf s → length dst < suc (length s) → strcpy dst buf ≡ fault
unfolding strcpy
strcpy-overrun dst [] s h lt = absurd h
strcpy-overrun [] (c ∷ buf) s h lt = refl
strcpy-overrun (d ∷ dst) (c ∷ buf) [] h lt = absurd (omega arith)
strcpy-overrun (d ∷ dst) (c ∷ buf) (x ∷ s) h lt =
    ground (arith, strcpy-overrun dst buf s h.2 (omega arith))

-- What is printed of a text is all of it.
pub c_text_lem : (buf s : List ℕ) → Holds buf s → c_text buf ≡ ok s
unfolding c_text
c_text_lem [] s h = absurd h
c_text_lem (c ∷ buf) [] h = rw (h, c_text) refl
c_text_lem (c ∷ buf) (x ∷ s) h =
    let more : (c == 0) ≡ false = ground arith in
    rw (more, c_text, c_text_lem buf s h.2) (rw h.0 refl)

-- What `strcpy` wrote is a text.
pub Holds-append : (buf s tail : List ℕ) → Holds buf s → Holds (s ++ 0 ∷ tail) s
Holds-append [] s tail h = absurd h
Holds-append (c ∷ buf) [] tail h = refl
Holds-append (c ∷ buf) (x ∷ s) tail h = (refl, h.1, Holds-append buf s tail h.2)

-- The order of texts that `strcmp` computes.
pub compare_texts : List ℕ → List ℕ → ℤ
compare_texts [] [] = pos 0
compare_texts [] (y ∷ r) = sub_ℕ 0 y
compare_texts (x ∷ s) [] = sub_ℕ x 0
compare_texts (x ∷ s) (y ∷ r) = if x == y then compare_texts s r else sub_ℕ x y

pub strcmp_lem : (a b s r : List ℕ) → Holds a s → Holds b r → strcmp a b ≡ ok (compare_texts s r)
unfolding strcmp compare_texts
strcmp_lem [] b s r h k = absurd h
strcmp_lem (d ∷ a) [] s r h k = absurd k
strcmp_lem (d ∷ a) (c ∷ b) [] [] h k = ground arith
strcmp_lem (d ∷ a) (c ∷ b) [] (y ∷ r) h k = ground arith
strcmp_lem (d ∷ a) (c ∷ b) (x ∷ s) [] h k = ground arith
strcmp_lem (d ∷ a) (c ∷ b) (x ∷ s) (y ∷ r) h k = ground (arith, strcmp_lem a b s r h.2 k.2)

-- Whether two texts are equal.
abbrev pub text_eq : List ℕ → List ℕ → Bool
text_eq [] [] = true
text_eq [] (y ∷ r) = false
text_eq (x ∷ s) [] = false
text_eq (x ∷ s) (y ∷ r) = (x == y) && text_eq s r

pub text_eq_iff : (s r : List ℕ) → (text_eq s r ≡ true) ↔ (s ≡ r)
text_eq_iff [] [] = (λ _. refl, λ _. refl)
text_eq_iff [] (y ∷ r) = (λ e. cc, λ e. cc)
text_eq_iff (x ∷ s) [] = (λ e. cc, λ e. cc)
text_eq_iff (x ∷ s) (y ∷ r) = ground (arith, text_eq_iff s r)

pub compare_texts-eq :
    (a b s r : List ℕ) → Holds a s → Holds b r → is_zero (compare_texts s r) ≡ text_eq s r
unfolding compare_texts
compare_texts-eq [] b s r h k = absurd h
compare_texts-eq (d ∷ a) [] s r h k = absurd k
compare_texts-eq (d ∷ a) (c ∷ b) [] [] h k = refl
compare_texts-eq (d ∷ a) (c ∷ b) [] (y ∷ r) h k = ground arith
compare_texts-eq (d ∷ a) (c ∷ b) (x ∷ s) [] h k = ground arith
compare_texts-eq (d ∷ a) (c ∷ b) (x ∷ s) (y ∷ r) h k =
    ground (arith, compare_texts-eq a b s r h.2 k.2)

-- `strcmp` of two terminated texts stays inside their objects, and returns 0 exactly if they are
-- equal.
pub strcmp-eq :
    (a b s r : List ℕ)
    → Holds a s
    → Holds b r
    → (z : ℤ) × (strcmp a b ≡ ok z) × (is_zero z ≡ text_eq s r)
strcmp-eq a b s r h k = (compare_texts s r, strcmp_lem a b s r h k, compare_texts-eq a b s r h k)

-- `strcat` appends a text to a text whose object has room for both and one terminator, and leaves
-- the bytes behind them.
pub strcat-append :
    (dst buf s r : List ℕ)
    → Holds dst s
    → Holds buf r
    → length s + length r < length dst
    → strcat dst buf ≡ ok (s ++ r ++ 0 ∷ drop (suc (length s + length r)) dst)
unfolding strcat
strcat-append [] buf s r h k lt = absurd h
strcat-append (d ∷ dst) buf [] r h k lt =
    rw add.zero (ground (arith, strcpy_lem (d ∷ dst) buf r k (omega arith)))
strcat-append (d ∷ dst) buf (x ∷ s) r h k lt =
    rw add.suc (ground (arith, strcat-append dst buf s r h.2 k (omega arith)))
