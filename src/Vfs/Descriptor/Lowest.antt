-- ===== src/Vfs/Descriptor/Lowest.antt =====
-- `get_next_fd` finds the lowest descriptor that is free.
use clb_filesystem.Common.{
  ℕ, zero, suc, ◌+◌, ◌≤◌, ◌<◌, ◌≡◌, refl, inl, inr, ◌⊎◌, true, false, arith, Bool-cases, subst,
}
use native.Mathlib.Decide.{ℕ_discrete}
use clb_filesystem.Common.Words.{pos, negsuc}
use clb_filesystem.Vfs.{FileDescriptor, max_open_files}
use clb_filesystem.Vfs.Descriptor.{is_null, fd_loop, get_next_fd}

-- i is the lowest free descriptor from a on.
pub record IsLowest (fds : ℕ → FileDescriptor) (a i : ℕ) : Type 0 where
  pub from : a ≤ i
  pub free : is_null (fds i).inode ≡ true
  pub used : (k : ℕ) → a ≤ k → k < i → is_null (fds k).inode ≡ false

fd_loop_lem :
    (n a : ℕ) (fds : ℕ → FileDescriptor)
    → ((fd_loop n a fds ≡ negsuc 0) × ((k : ℕ) → a ≤ k → k < a + n → is_null (fds k).inode ≡ false))
      ⊎ ((i : ℕ) × (fd_loop n a fds ≡ pos i) × (i < a + n) × IsLowest fds a i)
unfolding fd_loop
fd_loop_lem zero a fds = inl (refl, λ k le lt. absurd (omega arith))
fd_loop_lem (suc n) a fds = elim (Bool-cases (is_null (fds a).inode)) [
  | inl here ↦ inr (
    a,
    rw (fd_loop, here) refl,
    omega arith,
    record { from = omega arith; free = here; used = λ k le lt. absurd (omega arith) },
  )
  | inr taken ↦ elim (fd_loop_lem n (suc a) fds) [
    | inl (runs, used) ↦
        inl (
          rw (fd_loop, taken) runs,
          λ k le lt. used_from k taken le λ le'. used k le' (omega arith),
        )
    | inr (i, runs, lt, lowest) ↦ inr (
      i,
      rw (fd_loop, taken) runs,
      omega arith,
      record {
        from = omega (arith, lowest.from);
        free = lowest.free;
        used = λ k le lt'. used_from k taken le λ le'. lowest.used k le' lt';
      },
    )
  ]
]
  where
    used_from :
        (k : ℕ)
        → is_null (fds a).inode ≡ false
        → a ≤ k
        → (suc a ≤ k → is_null (fds k).inode ≡ false)
        → is_null (fds k).inode ≡ false
    used_from k taken le later = elim (ℕ_discrete a k) [
      | yes same ↦ subst (λ z. is_null (fds z).inode ≡ false) same taken
      | no other ↦ later (omega arith)
    ]

-- `get_next_fd` answers -1 if all 128 descriptors are in use, and the lowest free one otherwise.
pub get_next_fd_lem :
    (fds : ℕ → FileDescriptor)
    → ((get_next_fd fds ≡ negsuc 0)
        × ((k : ℕ) → k < max_open_files → is_null (fds k).inode ≡ false))
      ⊎ ((i : ℕ) × (get_next_fd fds ≡ pos i) × (i < max_open_files) × IsLowest fds 0 i)
unfolding get_next_fd
get_next_fd_lem fds = elim (fd_loop_lem max_open_files 0 fds) [
  | inl (runs, used) ↦ inl (runs, λ k lt. used k (omega arith) (omega arith))
  | inr (i, runs, lt, lowest) ↦ inr (i, runs, omega arith, lowest)
]
