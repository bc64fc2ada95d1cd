-- ===== src/Boot/Room.antt =====
-- How many pages `init_fs` takes.
use clb_filesystem.Common.{
  ℕ, zero, suc, ◌+◌, ◌≤◌, ◌≡◌, refl, inl, inr, arith, Outcome, ok, fault, out_of_fuel, ◌>>=◌, ap,
  ◌==◌, Bool-cases,
}
use clb_filesystem.Inode.{Inode, Table, fs_npages}
use clb_filesystem.Pages.{Pages, allocate_kernel_page, get_free_page}
use clb_filesystem.Pages.Free.{get_free_page_lem}
use clb_filesystem.Pages.Tables.Count.{free_pages, one_free_page}
use clb_filesystem.Filesystem.{init_entry, init_entries, init_fs}

bind_ok :
    {A B : Type 0} (m : Outcome A) (f : A → Outcome B) (b : B)
    → (m >>= f) ≡ ok b
    → (a : A) × (m ≡ ok a) × (f a ≡ ok b)
bind_ok (ok a) f b e = (a, refl, e)
bind_ok fault f b e = cc
bind_ok out_of_fuel f b e = cc

bind_state :
    (m : Outcome Inode) (g : Inode → Table) (s s' : Pages) (t' : Table)
    → ◌>>=◌ {B = Table × Pages} m (λ x. ok (g x, s)) ≡ ok (t', s')
    → s' ≡ s
bind_state (ok x) g s s' t' e = cc
bind_state fault g s s' t' e = cc
bind_state out_of_fuel g s s' t' e = cc

get_free_page-free : (s : Pages) → free_pages s ≤ suc (free_pages (get_free_page s).1)
get_free_page-free s = elim (get_free_page_lem s) [
  | inl (full, used) ↦ rw full (omega arith)
  | inr (i, s', runs, lt, first, taken) ↦
      rw runs (omega (arith, one_free_page s s' i lt first.free taken))
]

allocate_kernel_page-state : (s : Pages) → (allocate_kernel_page s).1 ≡ (get_free_page s).1
unfolding allocate_kernel_page
allocate_kernel_page-state s = elim (Bool-cases ((get_free_page s).0 == 0)) [
  | inl e ↦ rw (e, allocate_kernel_page) refl
  | inr e ↦ rw (e, allocate_kernel_page) refl
]

allocate_kernel_page-free : (s : Pages) → free_pages s ≤ suc (free_pages (allocate_kernel_page s).1)
allocate_kernel_page-free s = rw (allocate_kernel_page-state s) (get_free_page-free s)

init_entry-pages :
    (i : ℕ) (t t' : Table) (s s' : Pages)
    → init_entry i (t, s) ≡ ok (t', s')
    → s' ≡ (allocate_kernel_page s).1
unfolding init_entry
init_entry-pages i t t' s s' e = bind_state _ _ (allocate_kernel_page s).1 s' t' e

init_entries-free :
    (n i : ℕ) (t t' : Table) (s s' : Pages)
    → init_entries n i (t, s) ≡ ok (t', s')
    → free_pages s ≤ free_pages s' + n
unfolding init_entries
init_entries-free zero i t t' s s' e = let same : s ≡ s' = cc in omega (arith, ap free_pages same)
init_entries-free (suc n) i t t' s s' e =
    let ((t₁, s₁), runs, rest) = bind_ok (init_entry i (t, s)) _ (t', s') e in
    let taken : s₁ ≡ (allocate_kernel_page s).1 = init_entry-pages i t t₁ s s₁ runs in
    omega (
      arith,
      init_entries-free n (suc i) t₁ t' s₁ s' rest,
      allocate_kernel_page-free s,
      ap free_pages taken,
    )

pub init_fs-free :
    (t t' : Table) (s s' : Pages)
    → init_fs (t, s) ≡ ok (t', s')
    → free_pages s ≤ free_pages s' + fs_npages
unfolding init_fs
init_fs-free t t' s s' e = init_entries-free fs_npages 0 t t' s s' e
