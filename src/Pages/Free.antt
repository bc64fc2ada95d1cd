-- ===== src/Pages/Free.antt =====
-- Which page `get_free_page` takes, and giving it back.
use clb_filesystem.Common.{
  ℕ, zero, suc, ◌+◌, ◌-◌, ◌*◌, ◌/◌, ◌%◌, ◌^◌, ◌≤◌, ◌<◌, ◌≡◌, ◌≢◌, refl, ◌∙◌, inl, inr, ◌⊎◌, false,
  none, some, arith, Bool-cases, ◌==◌, fun_ext, ap, sym, subst,
}
use native.Mathlib.Decide.{ℕ_discrete}
use clb_filesystem.Memory.Copy.{memzero_inside, memzero_outside}
use clb_filesystem.Inode.{update}
use clb_filesystem.Pages.{
  Pages, page_size, low_memory, va_start, paging_pages, find_page, take_page, get_free_page,
  allocate_kernel_page, free_page,
}

-- i is the lowest page from a on whose flag is clear.
pub record IsFirst (flags : ℕ → ℕ) (a i : ℕ) : Type 0 where
  pub from : a ≤ i
  pub free : flags i ≡ 0
  pub used : (k : ℕ) → a ≤ k → k < i → flags k ≢ 0

find_page_lem :
    (n a : ℕ) (flags : ℕ → ℕ)
    → ((find_page n a flags ≡ none) × ((k : ℕ) → a ≤ k → k < a + n → flags k ≢ 0))
      ⊎ ((i : ℕ) × (find_page n a flags ≡ some i) × (i < a + n) × IsFirst flags a i)
unfolding find_page
find_page_lem zero a flags = inl (refl, λ k le lt. absurd (omega arith))
find_page_lem (suc n) a flags = elim (Bool-cases (flags a == 0)) [
  | inl here ↦ inr (
    a,
    rw (find_page, here) refl,
    omega arith,
    record { from = omega arith; free = ground arith; used = λ k le lt. absurd (omega arith) },
  )
  | inr taken ↦ elim (find_page_lem n (suc a) flags) [
    | inl (runs, used) ↦ inl (
      rw (find_page, taken) runs,
      λ k le lt. used_from k taken le λ le'. used k le' (omega arith),
    )
    | inr (i, runs, lt, first) ↦ inr (
      i,
      rw (find_page, taken) runs,
      omega arith,
      record {
        from = omega (arith, first.from);
        free = first.free;
        used = λ k le lt'. used_from k taken le λ le'. first.used k le' lt';
      },
    )
  ]
]
  where
    used_from : (k : ℕ) → (flags a == 0) ≡ false → a ≤ k → (suc a ≤ k → flags k ≢ 0) → flags k ≢ 0
    used_from k taken le later = elim (ℕ_discrete a k) [
      | yes same ↦ subst (λ z. flags z ≢ 0) same (ground arith)
      | no other ↦ later (omega arith)
    ]

-- The physical address of the page i, and its address in the kernel's mapping.
abbrev pub page_at : ℕ → ℕ
page_at i = low_memory + i * page_size

-- The page i is marked and cleared, and nothing else of the memory map and the memory changes.
pub record Taken (s : Pages) (i : ℕ) (s' : Pages) : Type 0 where
  pub marked : s'.mem_map ≡ update s.mem_map i 1
  pub cleared :
      (a : ℕ) → page_at i + va_start ≤ a → a < page_at i + va_start + page_size → s'.memory a ≡ 0
  pub kept :
      (a : ℕ)
      → (a < page_at i + va_start) ⊎ (page_at i + va_start + page_size ≤ a)
      → s'.memory a ≡ s.memory a

-- `get_free_page` answers 0 and changes nothing if every page is in use; otherwise it takes the
-- lowest page that is free, marks it as used, clears its bytes and changes no others, and answers
-- its address.
pub get_free_page_lem :
    (s : Pages)
    → ((get_free_page s ≡ (0, s)) × ((k : ℕ) → k < paging_pages → s.mem_map k ≢ 0))
      ⊎ ((i : ℕ) × (s' : Pages) × (get_free_page s ≡ (page_at i, s'))
          × (i < paging_pages)
          × IsFirst s.mem_map 0 i
          × Taken s i s')
unfolding get_free_page
get_free_page_lem s = elim (find_page_lem paging_pages 0 s.mem_map) [
  | inl (none_free, used) ↦
      inl (rw (none_free, get_free_page) refl, λ k lt. used k (omega arith) (omega arith))
  | inr (i, found, lt, first) ↦ inr (
    i,
    (take_page s i).1,
    rw (found, get_free_page) refl,
    omega arith,
    first,
    record {
      marked = refl;
      cleared = λ a le lt'.
          memzero_inside s.memory 0 (page_at i + va_start) page_size a (omega arith) (omega arith)
            le (omega arith);
      kept = λ a out.
          memzero_outside s.memory 0 (page_at i + va_start) page_size a (omega arith) (omega arith)
            (omega arith) out;
    },
  )
]

-- Giving a page back that `get_free_page` took restores the memory map.
pub free_page-get_free_page :
    (s s' : Pages) (p : ℕ)
    → get_free_page s ≡ (p, s')
    → p ≢ 0
    → (free_page s' p).mem_map ≡ s.mem_map
unfolding free_page
free_page-get_free_page s s' p runs some_page = elim (get_free_page_lem s) [
  | inl (full, used) ↦ absurd (some_page (ground (arith, full)))
  | inr (i, s'', takes, lt, first, taken) ↦
      let address : p ≡ page_at i = cc in
      let state : s' ≡ s'' = cc in
      let index : (p + 2 ^ 64 - low_memory) % 2 ^ 64 / page_size ≡ i = omega arith in
      let marked : s'.mem_map ≡ update s.mem_map i 1 =
        subst (λ z. z.mem_map ≡ update s.mem_map i 1) (sym state) taken.marked in
      fun_ext λ k. elim (Bool-cases (k == i)) [
        | inl here ↦
            let e : k ≡ i = ground arith in
            rw index (rw here (sym (subst (λ z. s.mem_map z ≡ 0) (sym e) first.free)))
        | inr other ↦
            let kept : update s.mem_map i 1 k ≡ s.mem_map k = rw other refl in
            rw index (rw other (ap (λ f. f k) marked ∙ kept))
      ]
]

-- A page's address in the kernel's mapping, which is a multiple of the page size, or 0.
pub data Block (s s' : Pages) (b : ℕ) : Type 0 where
  no_page : b ≡ 0 → s' ≡ s → ((k : ℕ) → k < paging_pages → s.mem_map k ≢ 0) → Block s s' b
  page :
      (i : ℕ)
      → b ≡ page_at i + va_start
      → i < paging_pages
      → s.mem_map i ≡ 0
      → s'.mem_map ≡ update s.mem_map i 1
      → Block s s' b

pub allocate_kernel_page-Block :
    (s : Pages) → Block s (allocate_kernel_page s).1 (allocate_kernel_page s).0
unfolding allocate_kernel_page
allocate_kernel_page-Block s = elim (get_free_page_lem s) [
  | inl (full, used) ↦ rw full (no_page refl refl used)
  | inr (i, s', takes, lt, first, taken) ↦
      let not_null : page_at i == 0 ≡ false = ground arith in
      rw takes (rw not_null (page i refl lt first.free taken.marked))
]
