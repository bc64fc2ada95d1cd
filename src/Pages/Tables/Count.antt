-- ===== src/Pages/Tables/Count.antt =====
-- How many pages are free, and that `get_free_page` finds one as long as there is one.
use clb_filesystem.Common.{
  ℕ, zero, suc, ◌+◌, ◌<◌, ◌≡◌, ◌≢◌, refl, inl, inr, arith, ◌==◌, ap, if◌then◌else◌, ne→==,
}
use native.Mathlib.Decide.{ℕ_discrete}
use clb_filesystem.Memory.{Memory}
use clb_filesystem.Inode.{update}
use clb_filesystem.Pages.{Pages, paging_pages, get_free_page}
use clb_filesystem.Pages.Free.{Taken, page_at, get_free_page_lem}

-- The number of clear flags below n.
count_free : ℕ → (ℕ → ℕ) → ℕ
count_free zero flags = 0
count_free (suc n) flags = count_free n flags + (if flags n == 0 then 1 else 0)

-- The pages that are free.
pub free_pages : Pages → ℕ
free_pages s = count_free paging_pages s.mem_map

count_free_of_used :
    (n : ℕ) (flags : ℕ → ℕ) → ((k : ℕ) → k < n → flags k ≢ 0) → count_free n flags ≡ 0
unfolding count_free
count_free_of_used zero flags used = refl
count_free_of_used (suc n) flags used =
    ground (arith, count_free_of_used n flags (λ k lt. used k (omega arith)), used n)

count_free-same :
    (n : ℕ) (f g : ℕ → ℕ) → ((k : ℕ) → k < n → f k ≡ g k) → count_free n f ≡ count_free n g
unfolding count_free
count_free-same zero f g same = refl
count_free-same (suc n) f g same =
    rw (same n (omega arith), count_free-same n f g (λ k lt. same k (omega arith))) refl

count_free-update :
    (n i : ℕ) (flags : ℕ → ℕ)
    → i < n
    → flags i ≡ 0
    → count_free n flags ≡ suc (count_free n (update flags i 1))
unfolding count_free
count_free-update zero i flags lt free = absurd (omega arith)
count_free-update (suc n) i flags lt free = elim (ℕ_discrete n i) [
  | yes here ↦
      let same : count_free n flags ≡ count_free n (update flags i 1) =
        count_free-same n flags (update flags i 1) λ k lt'. rw (ne→== k i (omega arith)) refl in
      ground (arith, same, ap flags here)
  | no below ↦
      let rest = count_free-update n i flags (omega arith) free in
      rw (ne→== n i below) (omega (arith, rest))
]

count_free-clear : (n : ℕ) (flags : ℕ → ℕ) → ((k : ℕ) → flags k ≡ 0) → count_free n flags ≡ n
unfolding count_free
count_free-clear zero flags clear = refl
count_free-clear (suc n) flags clear = ground (arith, count_free-clear n flags clear, clear n)

-- All pages are free.
pub free_pages-clear : (s : Pages) → ((k : ℕ) → s.mem_map k ≡ 0) → free_pages s ≡ paging_pages
unfolding free_pages
free_pages-clear s clear = count_free-clear paging_pages s.mem_map clear

pub no_free_pages : (s : Pages) → ((k : ℕ) → k < paging_pages → s.mem_map k ≢ 0) → free_pages s ≡ 0
unfolding free_pages
no_free_pages s used = count_free_of_used paging_pages s.mem_map used

pub one_free_page :
    (s s' : Pages) (i : ℕ)
    → i < paging_pages
    → s.mem_map i ≡ 0
    → Taken s i s'
    → free_pages s ≡ suc (free_pages s')
unfolding free_pages
one_free_page s s' i lt free taken =
    rw taken.marked (count_free-update paging_pages i s.mem_map lt free)

pub free_pages-memory :
    (s : Pages) (m : Memory) → free_pages (record s { memory = m }) ≡ free_pages s
unfolding free_pages
free_pages-memory s m = refl

-- The page i is taken, and one page less is free.
pub record TakenOne (s : Pages) (i : ℕ) (s' : Pages) : Type 0 where
  pub runs : get_free_page s ≡ (page_at i, s')
  pub inside : i < paging_pages
  pub free : s.mem_map i ≡ 0
  pub taken : Taken s i s'
  pub fewer : free_pages s ≡ suc (free_pages s')

pub get_free_page-TakenOne :
    (s : Pages) → 0 < free_pages s → (i : ℕ) × (s' : Pages) × TakenOne s i s'
get_free_page-TakenOne s some_free = elim (get_free_page_lem s) [
  | inl (full, used) ↦ absurd (omega (arith, no_free_pages s used))
  | inr (i, s', runs, lt, first, taken) ↦ (
    i,
    s',
    record {
      runs = runs;
      inside = lt;
      free = first.free;
      taken = taken;
      fewer = one_free_page s s' i lt first.free taken;
    },
  )
]
