-- ===== src/Filesystem/Chain.antt =====
-- Chains of brothers: the lists that the `brother` pointers spell, and what filesystem.c's walks
-- along them compute.
use clb_filesystem.Common.{
  ℕ, zero, suc, ◌<◌, ◌≡◌, ◌≢◌, refl, subst, sym, inl, inr, Bool-cases, true, false, none, some,
  List, [], ◌∷◌, ◌++◌, ok, arith, length, has, IsDistinct, erase, ◌==◌, if◌then◌else◌,
}
use clb_filesystem.Inode.{Ptr, Table, update}
use clb_filesystem.Filesystem.{last_loop, unlink_loop}

-- From p the `brother` pointers lead through the inodes of the list to null.
abbrev pub Chain : Table → Ptr → List ℕ → Type 0
Chain t p [] = p ≡ none
Chain t p (x ∷ xs) = (p ≡ some x) × Chain t (t x).brother xs

-- A chain survives a change that spares the `brother` pointers of its inodes.
pub Chain-frame :
    (t t' : Table) (p : Ptr) (xs : List ℕ)
    → Chain t p xs
    → ((c : ℕ) → has c xs ≡ true → (t' c).brother ≡ (t c).brother)
    → Chain t' p xs
Chain-frame t t' p [] h same = h
Chain-frame t t' p (x ∷ xs) h same = (
  h.0,
  subst (λ q. Chain t' q xs) (sym (same x (ground arith)))
      (Chain-frame t t' (t x).brother xs h.1 (λ c m. same c (ground arith))),
)

-- The `brother` of an inode of a chain is in the chain too.
pub Chain-brother :
    (t : Table) (p : Ptr) (xs : List ℕ) (x i : ℕ)
    → Chain t p xs
    → has x xs ≡ true
    → (t x).brother ≡ some i
    → has i xs ≡ true
Chain-brother t p [] x i h m e = cc
Chain-brother t p (y ∷ []) x i h m e = ground arith
Chain-brother t p (y ∷ z ∷ xs) x i h m e = elim (Bool-cases (x == y)) [
  | inl here ↦ ground arith
  | inr other ↦ ground (arith, Chain-brother t (t y).brother (z ∷ xs) x i h.1)
]

-- The last inode of a chain that begins with x.
abbrev pub last_of : ℕ → List ℕ → ℕ
last_of x [] = x
last_of x (y ∷ xs) = last_of y xs

pub has-last_of : (x : ℕ) (xs : List ℕ) → has (last_of x xs) (x ∷ xs) ≡ true
has-last_of x [] = ground arith
has-last_of x (y ∷ xs) = ground (arith, has-last_of y xs)

pub last_loop-last_of :
    (k : ℕ) (t : Table) (x : ℕ) (xs : List ℕ)
    → Chain t (some x) (x ∷ xs)
    → length xs < k
    → last_loop k t x ≡ ok ((t (last_of x xs)).id)
unfolding last_loop
last_loop-last_of zero t x xs h lt = absurd (omega arith)
last_loop-last_of (suc k) t x [] h lt = rw (h.1, last_loop)
last_loop-last_of (suc k) t x (y ∷ xs) h lt =
    rw (h.1.0, last_loop) (last_loop-last_of k t y xs (refl, h.1.1) (omega arith))

-- A write of `brother` at the last inode makes the chain longer by one.
pub Chain-append :
    (t t' : Table) (x i : ℕ) (xs : List ℕ) (p : Ptr)
    → Chain t p (x ∷ xs)
    → IsDistinct (x ∷ xs)
    → (t' (last_of x xs)).brother ≡ some i
    → (t' i).brother ≡ none
    → ((c : ℕ) → has c (x ∷ xs) ≡ true → c ≢ last_of x xs → (t' c).brother ≡ (t c).brother)
    → Chain t' p (x ∷ xs ++ i ∷ [])
Chain-append t t' x i [] p h d last end same = (h.0, (last, end))
Chain-append t t' x i (y ∷ xs) p h d last end same = (
  h.0,
  subst (λ q. Chain t' q (y ∷ xs ++ i ∷ [])) (sym (same x (ground arith) ne))
      (Chain-append t t' y i xs (t x).brother h.1 d.1 last end (λ c m n. same c (ground arith) n)),
)
  where
    ne : x ≢ last_of y xs
    ne e = ground (arith, has-last_of y xs)

-- The inode in front of i in the chain x ∷ xs.
abbrev pub before : ℕ → ℕ → List ℕ → ℕ
before i x [] = x
before i x (y ∷ xs) = if y == i then x else before i y xs

pub has-before : (i x : ℕ) (xs : List ℕ) → has (before i x xs) (x ∷ xs) ≡ true
has-before i x [] = ground arith
has-before i x (y ∷ xs) = ground (arith, has-before i y xs)

pub before-ne : (i x : ℕ) (xs : List ℕ) → IsDistinct (x ∷ xs) → has i xs ≡ true → before i x xs ≢ i
before-ne i x [] d m e = cc
before-ne i x (y ∷ xs) d m e = ground (arith, before-ne i y xs d.1)

module _ (t : Table) (i : ℕ) where
  -- The table after the `brother` pointer of c has passed over i.
  abbrev pub bypassed : ℕ → Table
  bypassed c = update t c (record (t c) { brother = (t i).brother })

  -- Behind its first inode, the walk of `free_inode` stops in front of i.
  pub unlink_loop-bypassed :
      (k x : ℕ) (xs : List ℕ)
      → Chain t (some x) (x ∷ xs)
      → has i xs ≡ true
      → length xs < k
      → unlink_loop k t i (t i).brother (some x) ≡ ok (bypassed (before i x xs))
  unfolding unlink_loop
  unlink_loop-bypassed k x [] h m lt = cc
  unlink_loop-bypassed zero x (y ∷ xs) h m lt = absurd (omega arith)
  unlink_loop-bypassed (suc k) x (y ∷ xs) h m lt =
      rw (h.1.0, unlink_loop)
        (elim (Bool-cases (y == i)) [
          | inl hit ↦ rw hit refl
          | inr miss ↦
              rw miss
                (rw h.1.0 (unlink_loop-bypassed k y xs (refl, h.1.1) (ground arith) (omega arith)))
        ])

  -- A write that passes over i takes it out of the chain.
  pub Chain-erase :
      (t' : Table) (x : ℕ) (xs : List ℕ) (p : Ptr)
      → Chain t p (x ∷ xs)
      → IsDistinct (x ∷ xs)
      → has i xs ≡ true
      → (t' (before i x xs)).brother ≡ (t i).brother
      → ((c : ℕ)
          → has c (x ∷ xs) ≡ true
          → c ≢ before i x xs
          → c ≢ i
          → (t' c).brother ≡ (t c).brother)
      → Chain t' p (x ∷ erase i xs)
  Chain-erase t' x [] p h d m skip same = cc
  Chain-erase t' x (y ∷ xs) p h d m skip same = elim (Bool-cases (y == i)) [
    | inl hit ↦
        let here : before i x (y ∷ xs) ≡ x = rw hit refl in
        let left : erase i (y ∷ xs) ≡ xs = ground arith in
        let e : y ≡ i = ground arith in
        let skips : (t' x).brother ≡ (t i).brother =
          subst (λ b. (t' b).brother ≡ (t i).brother) here skip in
        let rest : Chain t' (t i).brother xs =
          Chain-frame t t' (t i).brother xs (subst (λ z. Chain t (t z).brother xs) e h.1.1)
            (λ c m'. same c (ground arith) (ground arith) (λ z. ground arith)) in
        subst (λ l. Chain t' p (x ∷ l)) (sym left)
          (h.0, subst (λ q. Chain t' q xs) (sym skips) rest)
    | inr miss ↦
        let there : before i x (y ∷ xs) ≡ before i y xs = rw miss refl in
        let left : erase i (y ∷ xs) ≡ y ∷ erase i xs = ground arith in
        let keeps : (t' x).brother ≡ (t x).brother =
          same x (ground arith) (ground (arith, has-before i y xs)) (λ z. ground arith) in
        let rest : Chain t' (t x).brother (y ∷ erase i xs) =
          Chain-erase t' y xs (t x).brother h.1 d.1 (ground arith)
            (subst (λ b. (t' b).brother ≡ (t i).brother) there skip)
            (λ c m' n o. same c (ground arith) (ground arith) o) in
        subst (λ l. Chain t' p (x ∷ l)) (sym left)
          (h.0, subst (λ q. Chain t' q (y ∷ erase i xs)) (sym keeps) rest)
  ]

  -- Where i is not in the chain, the walk changes nothing.
  pub unlink_loop_absent :
      (k : ℕ) (p : Ptr) (xs : List ℕ)
      → Chain t p xs
      → has i xs ≡ false
      → length xs < k
      → unlink_loop k t i (t i).brother p ≡ ok t
  unfolding unlink_loop
  unlink_loop_absent zero p xs h m lt = absurd (omega arith)
  unlink_loop_absent (suc k) p [] h m lt = rw h
  unlink_loop_absent (suc k) p (x ∷ []) h m lt =
      ground (arith, unlink_loop_absent k (t x).brother [] h.1)
  unlink_loop_absent (suc k) p (x ∷ y ∷ xs) h m lt =
      ground (arith, unlink_loop_absent k (t x).brother (y ∷ xs) h.1)
