-- ===== src/Memory/Copy.antt =====
-- What the copying loops leave in memory.
use native.Mathlib.Decide.{dec_lt}
use clb_filesystem.Common.{
  ℕ, zero, suc, ◌+◌, ◌-◌, ◌*◌, ◌%◌, ◌^◌, ◌≤◌, ◌<◌, ◌≡◌, refl, ◌⊎◌, arith, ◌&&◌, ltb, leb, ◌∙◌,
  if◌then◌else◌,
}
use clb_filesystem.Memory.{
  Memory, store_byte, copy_word, rounds, copy_words, memcpy, zero_word, zero_words, memzero,
  copy_bytes, memwrite,
}

-- A forward copy of n bytes reads none that it has written.
abbrev pub IsForward : (src dst n : ℕ) → Type 0
IsForward src dst n = (dst ≤ src) ⊎ (src + n ≤ dst)

copy_bytes_outside :
    (k : ℕ) (m : Memory) (src dst a : ℕ)
    → (a < dst) ⊎ (dst + k ≤ a)
    → copy_bytes k m src dst a ≡ m a
unfolding copy_bytes store_byte
copy_bytes_outside zero m src dst a h = refl
copy_bytes_outside (suc k) m src dst a h =
    ground
      (arith, copy_bytes_outside k (store_byte m dst (m src)) (src + 1) (dst + 1) a (omega arith))

copy_bytes_inside :
    (k : ℕ) (m : Memory) (src dst a : ℕ)
    → IsForward src dst k
    → dst ≤ a
    → a < dst + k
    → copy_bytes k m src dst a ≡ m (src + (a - dst))
unfolding copy_bytes store_byte
copy_bytes_inside zero m src dst a h le lt = absurd (omega arith)
copy_bytes_inside (suc k) m src dst a h le lt =
    let m' = store_byte m dst (m src) in
    elim (dec_lt dst a) [
      | yes later ↦
          let rest : m' (src + 1 + (a - (dst + 1))) ≡ m (src + (a - dst)) =
            let same : src + 1 + (a - (dst + 1)) ≡ src + (a - dst) = omega arith in
            rw same (ground arith) in
          copy_bytes_inside k m' (src + 1) (dst + 1) a (omega arith) (omega arith) (omega arith)
          ∙ rest
      | no first ↦
          let here : m' a ≡ m (src + (a - dst)) =
            let e : src + (a - dst) ≡ src = omega arith in rw e (ground arith) in
          copy_bytes_outside k m' (src + 1) (dst + 1) a (omega arith) ∙ here
    ]

copy_words_outside :
    (k : ℕ) (m : Memory) (src dst a : ℕ)
    → (a < dst) ⊎ (dst + 8 * k ≤ a)
    → copy_words k m src dst a ≡ m a
unfolding copy_words copy_word
copy_words_outside zero m src dst a h = refl
copy_words_outside (suc k) m src dst a h =
    ground (arith, copy_words_outside k (copy_word m src dst) (src + 8) (dst + 8) a (omega arith))

copy_words_inside :
    (k : ℕ) (m : Memory) (src dst a : ℕ)
    → IsForward src dst (8 * k)
    → dst ≤ a
    → a < dst + 8 * k
    → copy_words k m src dst a ≡ m (src + (a - dst))
unfolding copy_words copy_word
copy_words_inside zero m src dst a h le lt = absurd (omega arith)
copy_words_inside (suc k) m src dst a h le lt =
    let m' = copy_word m src dst in
    elim (dec_lt a (dst + 8)) [
      | yes first ↦
          let here : m' a ≡ m (src + (a - dst)) = ground arith in
          copy_words_outside k m' (src + 8) (dst + 8) a (omega arith) ∙ here
      | no later ↦
          let rest : m' (src + 8 + (a - (dst + 8))) ≡ m (src + (a - dst)) =
            let same : src + 8 + (a - (dst + 8)) ≡ src + (a - dst) = omega arith in
            rw same (ground arith) in
          copy_words_inside k m' (src + 8) (dst + 8) a (omega arith) (omega arith) (omega arith)
          ∙ rest
    ]

zero_words_lem :
    (k : ℕ) (m : Memory) (p a : ℕ)
    → zero_words k m p a ≡ (if leb p a && ltb a (p + 8 * k) then 0 else m a)
unfolding zero_words
zero_words_lem zero m p a = ground arith
zero_words_lem (suc k) m p a = ground (arith, zero_words_lem k (zero_word m p) (p + 8) a)

-- The number of words that `memcpy` copies and `memzero` clears.
pub rounds_words : (n : ℕ) → 0 < n → n < 2 ^ 63 → (n ≤ 8 * rounds n 8) × (8 * rounds n 8 < n + 8)
unfolding rounds
rounds_words n h lt = ground arith

pub rounds_bytes : (n : ℕ) → 0 < n → n < 2 ^ 63 → rounds n 1 ≡ n
unfolding rounds
rounds_bytes n h lt = ground arith

module _ (m : Memory) (src dst n a : ℕ) (some_bytes : 0 < n) (positive : n < 2 ^ 63) where
  -- `memwrite` copies n bytes forward, returns n, and writes nowhere else.
  pub memwrite-count : (memwrite m src dst n).0 ≡ n
  unfolding memwrite
  memwrite-count = rounds_bytes n some_bytes positive

  pub memwrite_inside :
      IsForward src dst n → dst ≤ a → a < dst + n → (memwrite m src dst n).1 a ≡ m (src + (a - dst))
  unfolding memwrite
  memwrite_inside h le lt =
      rw (rounds_bytes n some_bytes positive) (copy_bytes_inside n m src dst a h le lt)

  pub memwrite_outside : (a < dst) ⊎ (dst + n ≤ a) → (memwrite m src dst n).1 a ≡ m a
  unfolding memwrite
  memwrite_outside h = rw (rounds_bytes n some_bytes positive) (copy_bytes_outside n m src dst a h)

  -- `memcpy` copies n bytes forward, and writes at most seven bytes behind them.
  pub memcpy_inside :
      IsForward src dst (n + 7) → dst ≤ a → a < dst + n → memcpy m src dst n a ≡ m (src + (a - dst))
  unfolding memcpy
  memcpy_inside h le lt =
      let words = rounds_words n some_bytes positive in
      copy_words_inside (rounds n 8) m src dst a (omega arith) le (omega arith)

  pub memcpy_outside : (a < dst) ⊎ (dst + n + 7 ≤ a) → memcpy m src dst n a ≡ m a
  unfolding memcpy
  memcpy_outside h =
      let words = rounds_words n some_bytes positive in
      copy_words_outside (rounds n 8) m src dst a (omega arith)

  pub memzero_inside : dst ≤ a → a < dst + n → memzero m dst n a ≡ 0
  unfolding memzero
  memzero_inside le lt =
      let words = rounds_words n some_bytes positive in
      ground (arith, zero_words_lem (rounds n 8) m dst a)

  -- `memzero` of whole words writes nowhere else.
  pub memzero_outside : n % 8 ≡ 0 → (a < dst) ⊎ (dst + n ≤ a) → memzero m dst n a ≡ m a
  unfolding memzero
  memzero_outside whole h =
      let words = rounds_words n some_bytes positive in
      ground (arith, zero_words_lem (rounds n 8) m dst a)
