-- ===== src/Memory.antt =====
-- mm.S and filesystem.S: the copying loops, over a memory that maps an address to a byte.
-- Counts are 64-bit registers, and `b.gt` compares them as signed numbers.
pub mod Copy
pub mod Entry
use clb_filesystem.Common.{
  ℕ, zero, suc, ◌+◌, ◌-◌, ◌/◌, ◌^◌, Bool, ◌&&◌, ltb, leb, ◌==◌, if◌then◌else◌,
}

abbrev pub Memory : Type 0
Memory = ℕ → ℕ

-- `strb`
unfoldable pub store_byte : Memory → ℕ → ℕ → Memory
store_byte m p b a = if a == p then b else m a

-- `ldr x3, [x0], #8; str x3, [x1], #8`: the eight bytes are read before any is written.
unfoldable pub copy_word : Memory → ℕ → ℕ → Memory
copy_word m src dst a = if leb dst a && ltb a (dst + 8) then m (src + (a - dst)) else m a

-- What `subs; b.gt` sees of a count: whether `n - k` is positive, for `k` the step.
abbrev pub goes_on : ℕ → ℕ → Bool
goes_on n k = ltb k n && ltb n (2 ^ 63)

-- The rounds of a loop `do { …; n -= k; } while (n > 0)`.
unfoldable pub rounds : ℕ → ℕ → ℕ
rounds n k = if goes_on n k then (n + k - 1) / k else 1

copy_words : ℕ → Memory → ℕ → ℕ → Memory
copy_words zero m src dst = m
copy_words (suc k) m src dst = copy_words k (copy_word m src dst) (src + 8) (dst + 8)

-- `memcpy(src, dst, n)`: whole words, so up to seven bytes behind `n` are copied too.
unfoldable pub memcpy : Memory → (src dst n : ℕ) → Memory
unfolding copy_words
memcpy m src dst n = copy_words (rounds n 8) m src dst

zero_word : Memory → ℕ → Memory
zero_word m p a = if leb p a && ltb a (p + 8) then 0 else m a

zero_words : ℕ → Memory → ℕ → Memory
unfolding zero_word
zero_words zero m p = m
zero_words (suc k) m p = zero_words k (zero_word m p) (p + 8)

-- `memzero(p, n)`
unfoldable pub memzero : Memory → (p n : ℕ) → Memory
unfolding zero_words
memzero m p n = zero_words (rounds n 8) m p

copy_bytes : ℕ → Memory → ℕ → ℕ → Memory
copy_bytes zero m src dst = m
copy_bytes (suc k) m src dst = copy_bytes k (store_byte m dst (m src)) (src + 1) (dst + 1)

-- `memwrite(src, dst, n)`: byte by byte; it returns the number of bytes copied.
unfoldable pub memwrite : Memory → (src dst n : ℕ) → ℕ × Memory
unfolding copy_bytes
memwrite m src dst n = let k = rounds n 1 in (k, copy_bytes k m src dst)
