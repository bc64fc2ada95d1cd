-- ===== src/Sched/Pick.antt =====
-- What the scheduler picks: a running task with the largest counter, the first of these.
use native.Mathlib.Decide.{ℕ_discrete}
use clb_filesystem.Common.{
  ltb, ◌-◌, ◌%◌, ◌^◌, ℕ, zero, suc, ◌+◌, ◌≤◌, ◌<◌, ◌≡◌, refl, subst, sym, ap, ◌∙◌, inl, inr, ◌⊎◌,
  true, false, none, some, ok, arith, Bool-cases, ◌==◌,
}
use clb_filesystem.Common.Words.{ℤ, pos, negsuc, ltb_ℤ, is_zero, to_u32, to_s32}
use clb_filesystem.Inode.{Ptr}
use clb_filesystem.Sched.{
  task_running, Sched, is_better, counter_of, pick, choose, nr_tasks, preempt_disable, switch_to,
  schedule_next, preempt_enable,
}

-- What an int holds.
abbrev pub IsInt : ℤ → Type 0
IsInt (pos n) = n < 2 ^ 31
IsInt (negsuc n) = n < 2 ^ 31

int-same : (z : ℤ) → IsInt z → to_s32 (to_u32 z) ≡ z
unfolding to_s32 to_u32
int-same (pos n) h = ground arith
int-same (negsuc n) h =
    let word : (2 ^ 32 - 1 - n % 2 ^ 32) % 2 ^ 32 ≡ 2 ^ 32 - 1 - n = omega arith in
    let high : ltb (2 ^ 32 - 1 - n) (2 ^ 31) ≡ false = ground arith in
    let back : 2 ^ 32 - 1 - (2 ^ 32 - 1 - n) ≡ n = omega arith in rw word (rw high (ap negsuc back))

-- The tasks of the array have counters that an int holds.
abbrev pub AreInts : Sched → Type 0
AreInts s = (i p : ℕ) → i < nr_tasks → s.task i ≡ some p → IsInt (s.tasks p).counter

abbrev long_of : Sched → Ptr → ℤ
long_of s none = pos 0
long_of s (some p) = (s.tasks p).counter

-- No running task of the array has a counter above c.
abbrev pub IsLargest : Sched → ℤ → Type 0
IsLargest s c =
    (j p : ℕ)
    → j < nr_tasks
    → s.task j ≡ some p
    → (s.tasks p).state ≡ task_running
    → ltb_ℤ c (s.tasks p).counter ≡ false

pub not_better-IsLargest :
    (s : Sched) (c : ℤ)
    → ((j : ℕ) → j < nr_tasks → is_better s (s.task j) c ≡ false)
    → IsLargest s c
unfolding is_better
not_better-IsLargest s c worse j p lt found runs =
    let bound : is_better s (some p) c ≡ false =
      subst (λ o. is_better s o c ≡ false) found (worse j lt) in
    ground (arith, runs, bound)

-- A task that is taken has the larger counter.
is_better-counter :
    (s : Sched) (p : Ptr) (c : ℤ) → is_better s p c ≡ true → ltb_ℤ c (long_of s p) ≡ true
unfolding is_better
is_better-counter s none c e = cc
is_better-counter s (some p) c e = ground arith

is_better_mono :
    (s : Sched) (p : Ptr) (c d : ℤ)
    → ltb_ℤ d c ≡ false
    → is_better s p c ≡ false
    → is_better s p d ≡ false
unfolding is_better
is_better_mono s none c d le e = refl
is_better_mono s (some p) c d le e = ground arith

not_better_self : (s : Sched) (p : Ptr) → is_better s p (long_of s p) ≡ false
unfolding is_better
not_better_self s none = refl
not_better_self s (some p) = ground arith

module _ (s : Sched) (small : AreInts s) where
  counter_of-long : (i : ℕ) → i < nr_tasks → counter_of s (s.task i) ≡ long_of s (s.task i)
  unfolding counter_of
  counter_of-long i lt = at (s.task i) refl
    where
      at : (o : Ptr) → s.task i ≡ o → counter_of s o ≡ long_of s o
      at none e = refl
      at (some p) e = int-same (s.tasks p).counter (small i p lt e)

  better_counter :
      (i : ℕ) (c : ℤ)
      → i < nr_tasks
      → is_better s (s.task i) c ≡ true
      → ltb_ℤ c (counter_of s (s.task i)) ≡ true
  better_counter i c lt taken = rw (counter_of-long i lt) (is_better-counter s (s.task i) c taken)

  not_better_counter :
      (i : ℕ) → i < nr_tasks → is_better s (s.task i) (counter_of s (s.task i)) ≡ false
  not_better_counter i lt =
      subst (λ z. is_better s (s.task i) z ≡ false) (sym (counter_of-long i lt))
        (not_better_self s (s.task i))

  pick_grows :
      (n i : ℕ) (c : ℤ) (next : ℕ) → i + n ≤ nr_tasks → ltb_ℤ (pick n i s c next).0 c ≡ false
  unfolding pick
  pick_grows zero i c next le = ground arith
  pick_grows (suc n) i c next le = elim (Bool-cases (is_better s (s.task i) c)) [
    | inl taken ↦
        rw (pick, taken)
          (ground (
            arith,
            pick_grows n (suc i) (counter_of s (s.task i)) i (omega arith),
            better_counter i c (omega arith) taken,
          ))
    | inr left ↦ rw (pick, left) (pick_grows n (suc i) c next (omega arith))
  ]

  -- No task from i on is taken in place of the one that was picked.
  pub pick_bound :
      (n i : ℕ) (c : ℤ) (next j : ℕ)
      → i + n ≤ nr_tasks
      → i ≤ j
      → j < i + n
      → is_better s (s.task j) (pick n i s c next).0 ≡ false
  unfolding pick
  pick_bound zero i c next j room le lt = absurd (omega arith)
  pick_bound (suc n) i c next j room le lt = elim (ℕ_discrete i j) [
    | yes same ↦ subst (λ z. is_better s (s.task z) (pick (suc n) i s c next).0 ≡ false) same here
    | no later ↦ elim (Bool-cases (is_better s (s.task i) c)) [
      | inl taken ↦
          rw (pick, taken)
            (pick_bound n (suc i) (counter_of s (s.task i)) i j (omega arith) (omega arith)
              (omega arith))
      | inr left ↦
          rw (pick, left) (pick_bound n (suc i) c next j (omega arith) (omega arith) (omega arith))
    ]
  ]
    where
      here : is_better s (s.task i) (pick (suc n) i s c next).0 ≡ false
      here = elim (Bool-cases (is_better s (s.task i) c)) [
        | inl taken ↦
            rw (pick, taken)
              (is_better_mono s (s.task i) (counter_of s (s.task i)) _
                (pick_grows n (suc i) (counter_of s (s.task i)) i (omega arith))
                (not_better_counter i (omega arith)))
        | inr left ↦
            rw (pick, left)
              (is_better_mono s (s.task i) c _ (pick_grows n (suc i) c next (omega arith)) left)
      ]

-- The task at the index k of the array is running and has the counter c.
pub record Picked (s : Sched) (c : ℤ) (k p : ℕ) : Type 0 where
  pub inside : k < nr_tasks
  pub found : s.task k ≡ some p
  pub runs : (s.tasks p).state ≡ task_running
  pub counter : (s.tasks p).counter ≡ c

is_better-Picked :
    (s : Sched) (small : AreInts s) (i : ℕ) (c : ℤ)
    → i < nr_tasks
    → is_better s (s.task i) c ≡ true
    → (p : ℕ) × Picked s (counter_of s (s.task i)) i p
unfolding is_better
is_better-Picked s small i c h e = at (s.task i) refl e
  where
    at :
        (o : Ptr)
        → s.task i ≡ o
        → is_better s o c ≡ true
        → (p : ℕ) × Picked s (counter_of s (s.task i)) i p
    at none f e' = cc
    at (some p) f e' = (
      p,
      record {
        inside = h;
        found = f;
        runs = ground arith;
        counter = sym (counter_of-long s small i h ∙ ap (long_of s) f);
      },
    )

pub pick-Picked :
    (s : Sched) (small : AreInts s) (n i : ℕ) (c : ℤ) (next : ℕ)
    → i + n ≤ nr_tasks
    → (pick n i s c next ≡ (c, next))
      ⊎ ((p : ℕ) × Picked s (pick n i s c next).0 (pick n i s c next).1 p)
unfolding pick
pick-Picked s small zero i c next le = inl refl
pick-Picked s small (suc n) i c next le = elim (Bool-cases (is_better s (s.task i) c)) [
  | inl taken ↦
      rw (pick, taken)
        (elim (pick-Picked s small n (suc i) (counter_of s (s.task i)) i (omega arith)) [
          | inl same ↦
              let (p, picked) = is_better-Picked s small i c (omega arith) taken in
              inr (p, subst (λ z. Picked s z.0 z.1 p) (sym same) picked)
          | inr later ↦ inr later
        ])
  | inr left ↦ rw (pick, left) (pick-Picked s small n (suc i) c next (omega arith))
]

pub better_than :
    (s : Sched) (p : ℕ) (q : Ptr) (c : ℤ)
    → q ≡ some p
    → (s.tasks p).state ≡ task_running
    → ltb_ℤ (pos 0) (s.tasks p).counter ≡ true
    → is_better s q c ≡ false
    → ltb_ℤ (pos 0) c ≡ true
unfolding is_better
better_than s p none c found runs ready e = cc
better_than s p (some q) c found runs ready e =
    let same : q ≡ p = ground (arith, found) in
    ground (arith, subst (λ z. is_better s (some z) c ≡ false) same e)

is_zero_positive : (c : ℤ) → ltb_ℤ (pos 0) c ≡ true → is_zero c ≡ false
is_zero_positive (pos n) e = ground arith
is_zero_positive (negsuc n) e = refl

not_start : (r : ℤ × ℕ) → r ≡ (negsuc 0, 0) → ¬ (ltb_ℤ (pos 0) r.0 ≡ true)
not_start r same big =
    let e : ltb_ℤ (pos 0) (negsuc 0) ≡ true = subst (λ z. ltb_ℤ (pos 0) z.0 ≡ true) same big in
    ground (arith, e)

choose_ends :
    (k : ℕ) (s : Sched)
    → ltb_ℤ (pos 0) (pick nr_tasks 0 s (negsuc 0) 0).0 ≡ true
    → choose (suc k) s ≡ ok ((pick nr_tasks 0 s (negsuc 0) 0).1, s)
unfolding choose
choose_ends k s big = rw (choose, is_zero_positive (pick nr_tasks 0 s (negsuc 0) 0).0 big) refl

-- Where a running task has a positive counter, `choose` ends in its first round, and takes a running
-- task with the largest counter of all running tasks.
pub choose-Picked :
    (k j p : ℕ) (s : Sched)
    → AreInts s
    → j < nr_tasks
    → s.task j ≡ some p
    → (s.tasks p).state ≡ task_running
    → ltb_ℤ (pos 0) (s.tasks p).counter ≡ true
    → (c : ℤ) × (i : ℕ) × (q : ℕ) × (choose (suc k) s ≡ ok (i, s)) × Picked s c i q × IsLargest s c
choose-Picked k j p s small h found runs ready =
    let r : ℤ × ℕ = pick nr_tasks 0 s (negsuc 0) 0 in
    let bound : (j' : ℕ) → j' < nr_tasks → is_better s (s.task j') r.0 ≡ false =
      λ j' lt. pick_bound s small nr_tasks 0 (negsuc 0) 0 j' (omega arith) (omega arith) lt in
    let big = better_than s p (s.task j) r.0 found runs ready (bound j h) in
    elim (pick-Picked s small nr_tasks 0 (negsuc 0) 0 (omega arith)) [
      | inl same ↦ absurd (not_start r same big)
      | inr (q, picked) ↦
          (r.0, r.1, q, choose_ends k s big, picked, not_better-IsLargest s r.0 bound)
    ]

switch_to-current : (s : Sched) (q : ℕ) → switch_to s (some q) ≡ ok (record s { current = q })
unfolding switch_to
switch_to-current s q = elim (Bool-cases (s.current == q)) [
  | inl same ↦
      let e : s.current ≡ q = ground arith in rw same (ap (λ z. ok (record s { current = z })) e)
  | inr other ↦ rw other refl
]

pub schedule_next-ok :
    (k i q : ℕ) (s s' : Sched)
    → choose k (preempt_disable s) ≡ ok (i, s')
    → s'.task i ≡ some q
    → schedule_next k s ≡ ok (preempt_enable (record s' { current = q }))
unfolding schedule_next
schedule_next-ok k i q s s' runs found =
    rw (runs, schedule_next, found, switch_to-current s' q) refl

pub preempt_disable-kept :
    (s : Sched) (p : ℕ)
    → ((preempt_disable s).task ≡ s.task)
      × (((preempt_disable s).tasks p).state ≡ (s.tasks p).state)
      × (((preempt_disable s).tasks p).counter ≡ (s.tasks p).counter)
unfolding preempt_disable
preempt_disable-kept s p = (refl, ground arith, ground arith)

preempt_disable-AreInts : (s : Sched) → AreInts s → AreInts (preempt_disable s)
preempt_disable-AreInts s small i p lt found =
    let kept = preempt_disable-kept s p in
    subst IsInt (sym kept.2) (small i p lt (sym (ap (λ f. f i) kept.0) ∙ found))

-- Where the array of tasks has a running task with a positive counter, and the counters of its tasks
-- are ints, `_schedule` ends after one round of its loop: it switches to a running task of the array,
-- with preemption disabled before and enabled behind the switch, and no running task of the array has
-- a larger counter than that task.
pub schedule_next-Picked :
    (k j p : ℕ) (s : Sched)
    → AreInts s
    → j < nr_tasks
    → s.task j ≡ some p
    → (s.tasks p).state ≡ task_running
    → ltb_ℤ (pos 0) (s.tasks p).counter ≡ true
    → (c : ℤ) × (i : ℕ) × (q : ℕ) × (schedule_next (suc k) s
        ≡ ok (preempt_enable (record (preempt_disable s) { current = q })))
      × Picked s c i q
      × IsLargest s c
schedule_next-Picked k j p s small h found runs ready =
    let kept = preempt_disable-kept s in
    let (c, i, q, chooses, picked, bound) =
      choose-Picked k j p (preempt_disable s) (preempt_disable-AreInts s small) h
        (ap (λ f. f j) (kept p).0 ∙ found) ((kept p).1 ∙ runs)
        (subst (λ z. ltb_ℤ (pos 0) z ≡ true) (sym (kept p).2) ready) in
    (
      c,
      i,
      q,
      schedule_next-ok (suc k) i q s (preempt_disable s) chooses picked.found,
      record {
        inside = picked.inside;
        found = sym (ap (λ f. f i) (kept q).0) ∙ picked.found;
        runs = sym (kept q).1 ∙ picked.runs;
        counter = sym (kept q).2 ∙ picked.counter;
      },
      λ j' r lt e running.
          sym (ap (ltb_ℤ c) (kept r).2)
          ∙ bound j' r lt (ap (λ f. f j') (kept r).0 ∙ e) ((kept r).1 ∙ running),
    )
