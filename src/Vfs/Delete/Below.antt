-- ===== src/Vfs/Delete/Below.antt =====
-- The inodes below an inode, and how deep a tree can be.
use clb_filesystem.Common.{
  ℕ, zero, suc, ◌+◌, ◌≤◌, ◌<◌, ◌≡◌, ◌≢◌, refl, subst, ◌⊎◌, inl, inr, Bool-cases, true, List, arith,
  has, ltb, ◌==◌, if◌then◌else◌,
}
use clb_filesystem.Inode.{Table, fs_npages}
use clb_filesystem.Filesystem.Tree.{View, IsForest}

-- j is i, or below a son of i.
pub data Below (v : View) (i : ℕ) : ℕ → Type 0 where
  self : Below v i i
  down : {j c : ℕ} → Below v i j → has c (v.sons j) ≡ true → Below v i c

pub Below-up : (v : View) (i s : ℕ) {j : ℕ} → has s (v.sons i) ≡ true → Below v s j → Below v i j
Below-up v i s m self = down self m
Below-up v i s m (down p m') = down (Below-up v i s m p) m'

-- A path down from i begins with one of its sons.
pub Below-cases :
    (v : View) (i : ℕ) {j : ℕ}
    → Below v i j
    → (j ≡ i) ⊎ ((s : ℕ) × (has s (v.sons i) ≡ true) × Below v s j)
Below-cases v i self = inl refl
Below-cases v i (down {c} p m) = elim (Below-cases v i p) [
  | inl here ↦ inr (c, subst (λ z. has c (v.sons z) ≡ true) here m, self)
  | inr (s, m', q) ↦ inr (s, m', down q m)
]

-- A path down ends with a step from a father, or at once.
pub Below-last :
    (v : View) (i : ℕ) {j : ℕ}
    → Below v i j
    → (j ≡ i) ⊎ ((f : ℕ) × Below v i f × (has j (v.sons f) ≡ true))
Below-last v i self = inl refl
Below-last v i (down {j} p m) = inr (j, p, m)

-- Where the sons on the way are kept, so is the path.
pub Below-mono :
    (v w : View) (i : ℕ) {j : ℕ}
    → ((x c : ℕ) → Below v i x → has c (v.sons x) ≡ true → has c (w.sons x) ≡ true)
    → Below v i j
    → Below w i j
Below-mono v w i keep self = self
Below-mono v w i keep (down {j} {c} p m) = down (Below-mono v w i keep p) (keep j c p m)

module _ {t : Table} {v : View} {loose : List ℕ} (forest : IsForest t v loose) where
  pub Below-inside : (i : ℕ) {j : ℕ} → i < fs_npages → Below v i j → j < fs_npages
  Below-inside i h self = h
  Below-inside i h (down {j} {c} p m) = (forest.son j c (Below-inside i h p) m).inside

  pub Below-depth : (i : ℕ) {j : ℕ} → i < fs_npages → Below v i j → v.depth i ≤ v.depth j
  Below-depth i h self = omega arith
  Below-depth i h (down {j} {c} p m) =
      omega (arith, Below-depth i h p, (forest.son j c (Below-inside i h p) m).deeper)

  pub not-Below-father : (i s : ℕ) → i < fs_npages → has s (v.sons i) ≡ true → Below v s i → ⊥
  not-Below-father i s h m p =
      let son = forest.son i s h m in absurd (omega (arith, son.deeper, Below-depth s son.inside p))

  pub father_unique :
      (d e c : ℕ)
      → d < fs_npages
      → e < fs_npages
      → has c (v.sons d) ≡ true
      → has c (v.sons e) ≡ true
      → d ≡ e
  father_unique d e c h k m n =
      let a = (forest.son d c h m).father in let b = (forest.son e c k n).father in ground arith

  -- Two sons of one folder have nothing below them in common.
  pub Below-disjoint :
      (i s r : ℕ) {j : ℕ}
      → i < fs_npages
      → has s (v.sons i) ≡ true
      → has r (v.sons i) ≡ true
      → s ≢ r
      → Below v s j
      → Below v r j
      → ⊥
  Below-disjoint i s r h m n ne self q = elim (Below-last v r q) [
    | inl same ↦ ne same
    | inr (f, q', of_f) ↦
        let f_in = Below-inside r (forest.son i r h n).inside q' in
        let top : f ≡ i = father_unique f i s f_in h of_f m in
        not-Below-father i r h n (subst (λ z. Below v r z) top q')
  ]
  Below-disjoint i s r h m n ne (down {j} {c} p m') q = elim (Below-last v r q) [
    | inl same ↦
        let j_in = Below-inside s (forest.son i s h m).inside p in
        let top : j ≡ i =
          father_unique j i r j_in h (subst (λ z. has z (v.sons j) ≡ true) same m') n in
        not-Below-father i s h m (subst (λ z. Below v s z) top p)
    | inr (f, q', of_f) ↦
        let j_in = Below-inside s (forest.son i s h m).inside p in
        let f_in = Below-inside r (forest.son i r h n).inside q' in
        let top : f ≡ j = father_unique f j c f_in j_in of_f m' in
        Below-disjoint i s r h m n ne p (subst (λ z. Below v r z) top q')
  ]

-- The number of inodes below n that lie deeper than m.
pub deeper : (ℕ → ℕ) → ℕ → ℕ → ℕ
deeper depth m zero = 0
deeper depth m (suc n) = (if ltb m (depth n) then 1 else 0) + deeper depth m n

deeper-antitone : (depth : ℕ → ℕ) (m k n : ℕ) → m ≤ k → deeper depth k n ≤ deeper depth m n
unfolding deeper
deeper-antitone depth m k zero h = omega arith
deeper-antitone depth m k (suc n) h = ground (arith, deeper-antitone depth m k n h)

pub deeper-lt :
    (depth : ℕ → ℕ) (i j n : ℕ)
    → depth i < depth j
    → j < n
    → deeper depth (depth j) n < deeper depth (depth i) n
unfolding deeper
deeper-lt depth i j zero h lt = absurd (omega arith)
deeper-lt depth i j (suc n) h lt = elim (Bool-cases (j == n)) [
  | inl here ↦ ground (arith, deeper-antitone depth (depth i) (depth j) n (omega arith))
  | inr there ↦ ground (arith, deeper-lt depth i j n h)
]

deeper-le : (depth : ℕ → ℕ) (m n : ℕ) → deeper depth m n ≤ n
unfolding deeper
deeper-le depth m zero = omega arith
deeper-le depth m (suc n) = ground (arith, deeper-le depth m n)

-- No inode lies deeper than itself.
pub deeper-bound : (depth : ℕ → ℕ) (i n : ℕ) → i < n → deeper depth (depth i) n < n
unfolding deeper
deeper-bound depth i zero h = absurd (omega arith)
deeper-bound depth i (suc n) h = elim (Bool-cases (i == n)) [
  | inl here ↦ ground (arith, deeper-le depth (depth i) n)
  | inr there ↦ ground (arith, deeper-bound depth i n)
]
