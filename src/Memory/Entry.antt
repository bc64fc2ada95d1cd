-- ===== src/Memory/Entry.antt =====
-- A 64-bit word in memory, such as an entry of a page table: eight bytes, the lowest first.
use clb_filesystem.Common.{
  ℕ, true, zero, suc, ◌+◌, ◌-◌, ◌*◌, ◌/◌, ◌%◌, ◌^◌, ◌≤◌, ◌<◌, ◌≡◌, ◌&&◌, ◌⊎◌, refl, arith, ltb, leb,
  if◌then◌else◌,
}
use clb_filesystem.Memory.{Memory}

-- The value of the n bytes from p on.
load_bytes : ℕ → Memory → ℕ → ℕ
load_bytes zero m p = 0
load_bytes (suc n) m p = m p + 256 * load_bytes n m (p + 1)

unfoldable pub load : Memory → ℕ → ℕ
unfolding load_bytes
load m p = load_bytes 8 m p

byte_of : ℕ → ℕ → ℕ
byte_of v zero = v % 256
byte_of v (suc i) = byte_of (v / 256) i

unfoldable pub store : Memory → ℕ → ℕ → Memory
unfolding byte_of
store m p v a = if leb p a && ltb a (p + 8) then byte_of v (a - p) else m a

bound : ℕ → ℕ
bound zero = 1
bound (suc n) = 256 * bound n

next :
    (n v : ℕ) (m : Memory) (p : ℕ)
    → ((i : ℕ) → i < suc n → m (p + i) ≡ byte_of v i)
    → (i : ℕ) → i < n
    → m (p + 1 + i) ≡ byte_of (v / 256) i
unfolding byte_of
next n v m p bytes i lt =
    let e : p + 1 + i ≡ p + suc i = omega arith in rw e (bytes (suc i) (omega arith))

load_bytes-byte_of :
    (n v : ℕ) (m : Memory) (p : ℕ)
    → v < bound n
    → ((i : ℕ) → i < n → m (p + i) ≡ byte_of v i)
    → load_bytes n m p ≡ v
unfolding load_bytes byte_of bound
load_bytes-byte_of zero v m p lt bytes = omega arith
load_bytes-byte_of (suc n) v m p lt bytes =
    let start : p + 0 ≡ p = omega arith in
    let here : m p ≡ v % 256 = rw start at (bytes 0 (omega arith)) in
    let rest : load_bytes n m (p + 1) ≡ v / 256 =
      load_bytes-byte_of n (v / 256) m (p + 1) (omega arith) (next n v m p bytes) in
    omega (arith, here, rest)

load_bytes-same :
    (n : ℕ) (m m' : Memory) (p : ℕ)
    → ((a : ℕ) → p ≤ a → a < p + n → m a ≡ m' a)
    → load_bytes n m p ≡ load_bytes n m' p
unfolding load_bytes
load_bytes-same zero m m' p same = refl
load_bytes-same (suc n) m m' p same =
    let rest = load_bytes-same n m m' (p + 1) λ a le lt. same a (omega arith) (omega arith) in
    omega (arith, rest, same p (omega arith) (omega arith))

store_inside : (m : Memory) (p v i : ℕ) → i < 8 → store m p v (p + i) ≡ byte_of v i
unfolding store
store_inside m p v i lt =
    let inside : (leb p (p + i) && ltb (p + i) (p + 8)) ≡ true = ground arith in
    let offset : p + i - p ≡ i = omega arith in rw inside (rw offset refl)

-- What is stored is loaded again.
pub load-store : (m : Memory) (p v : ℕ) → v < 2 ^ 64 → load (store m p v) p ≡ v
unfolding load bound
load-store m p v lt =
    load_bytes-byte_of 8 v (store m p v) p (omega arith) λ i h. store_inside m p v i h

-- A word that a change of memory leaves alone.
pub load-same :
    (m m' : Memory) (p : ℕ) → ((a : ℕ) → p ≤ a → a < p + 8 → m a ≡ m' a) → load m p ≡ load m' p
unfolding load
load-same m m' p same = load_bytes-same 8 m m' p same

pub load-store_other :
    (m : Memory) (p q v : ℕ) → (q + 8 ≤ p) ⊎ (p + 8 ≤ q) → load (store m p v) q ≡ load m q
unfolding store
load-store_other m p q v apart = load-same (store m p v) m q λ a le lt. ground arith

load_bytes-clear :
    (n : ℕ) (m : Memory) (p : ℕ) → ((a : ℕ) → p ≤ a → a < p + n → m a ≡ 0) → load_bytes n m p ≡ 0
unfolding load_bytes
load_bytes-clear zero m p clear = refl
load_bytes-clear (suc n) m p clear =
    let rest = load_bytes-clear n m (p + 1) λ a le lt. clear a (omega arith) (omega arith) in
    omega (arith, rest, clear p (omega arith) (omega arith))

pub load-clear : (m : Memory) (p : ℕ) → ((a : ℕ) → p ≤ a → a < p + 8 → m a ≡ 0) → load m p ≡ 0
unfolding load
load-clear m p clear = load_bytes-clear 8 m p clear
