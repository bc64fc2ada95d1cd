-- ===== src/Sched/Charge.antt =====
-- The counters that `_schedule` hands out when those of the running tasks are used up.
use clb_filesystem.Common.{
  ◌⊎◌, ◌^◌, ℕ, zero, suc, ◌+◌, ◌≤◌, ◌<◌, ◌≡◌, ◌≢◌, refl, subst, sym, ap, ◌∙◌, inl, inr, true, false,
  none, some, ok, arith, Bool-cases, ◌==◌, ne→==,
}
use native.Mathlib.Decide.{ℕ_discrete}
use clb_filesystem.Common.Words.{ℤ, pos, negsuc, ◌+ℤ◌, ltb_ℤ, is_zero}
use clb_filesystem.Inode.{Ptr}
use clb_filesystem.Sched.{
  task_running, Task, Sched, nr_tasks, half, charge_one, charge, choose, pick, is_better,
}
use clb_filesystem.Sched.Pick.{
  Picked, IsInt, AreInts, IsLargest, not_better-IsLargest, choose-Picked, pick_bound, pick-Picked,
}

-- What a task's counter becomes.
abbrev pub charged : Task → ℤ
charged x = half x.counter +ℤ x.priority

-- Only counters change.
record Kept (s s' : Sched) : Type 0 where
  task : s'.task ≡ s.task
  current : s'.current ≡ s.current
  state : (p : ℕ) → (s'.tasks p).state ≡ (s.tasks p).state
  priority : (p : ℕ) → (s'.tasks p).priority ≡ (s.tasks p).priority

charge_one-Kept : (s : Sched) (o : Ptr) → Kept s (charge_one s o)
charge_one-Kept s none = record {
  task = refl;
  current = refl;
  state = λ p. refl;
  priority = λ p. refl;
}
charge_one-Kept s (some q) = record {
  task = refl;
  current = refl;
  state = λ p. ground arith;
  priority = λ p. ground arith;
}

Kept-trans : (a b c : Sched) → Kept a b → Kept b c → Kept a c
Kept-trans a b c h k = record {
  task = k.task ∙ h.task;
  current = k.current ∙ h.current;
  state = λ p. k.state p ∙ h.state p;
  priority = λ p. k.priority p ∙ h.priority p;
}

charge-Kept : (n i : ℕ) (s : Sched) → Kept s (charge n i s)
unfolding charge
charge-Kept zero i s = record {
  task = refl;
  current = refl;
  state = λ p. refl;
  priority = λ p. refl;
}
charge-Kept (suc n) i s =
    let one = charge_one s (s.task i) in
    Kept-trans s one (charge n (suc i) one) (charge_one-Kept s (s.task i))
      (charge-Kept n (suc i) one)

charge_one_other : (s : Sched) (o : Ptr) (p : ℕ) → o ≢ some p → (charge_one s o).tasks p ≡ s.tasks p
charge_one_other s none p ne = refl
charge_one_other s (some q) p ne =
    let other : p ≢ q = λ e. ne (ap some (sym e)) in rw (ne→== p q other) refl

charge_one_self :
    (s : Sched) (o : Ptr) (p : ℕ)
    → o ≡ some p
    → ((charge_one s o).tasks p).counter ≡ charged (s.tasks p)
charge_one_self s none p e = cc
charge_one_self s (some q) p e =
    let same : p ≡ q = cc in
    let e' : p == q ≡ true = ground arith in
    let there : charged (s.tasks q) ≡ charged (s.tasks p) =
      ap (λ z. charged (s.tasks z)) (sym same) in
    rw e' there

-- A task that is not met keeps its counter.
charge_unmet :
    (n i p : ℕ) (s : Sched)
    → ((j : ℕ) → i ≤ j → j < i + n → s.task j ≢ some p)
    → (charge n i s).tasks p ≡ s.tasks p
unfolding charge
charge_unmet zero i p s unmet = refl
charge_unmet (suc n) i p s unmet =
    let one = charge_one s (s.task i) in
    let kept = charge_one-Kept s (s.task i) in
    charge_unmet n (suc i) p one
      (λ j le lt e. unmet j (omega arith) (omega arith) (sym (ap (λ f. f j) kept.task) ∙ e))
    ∙ charge_one_other s (s.task i) p (unmet i (omega arith) (omega arith))

-- A task that is met once is charged once.
charge-charged :
    (n i j p : ℕ) (s : Sched)
    → i ≤ j
    → j < i + n
    → s.task j ≡ some p
    → ((j' : ℕ) → j' < i + n → s.task j' ≡ some p → j' ≡ j)
    → ((charge n i s).tasks p).counter ≡ charged (s.tasks p)
unfolding charge
charge-charged zero i j p s le lt found once = absurd (omega arith)
charge-charged (suc n) i j p s le lt found once =
    let one = charge_one s (s.task i) in
    let kept = charge_one-Kept s (s.task i) in
    elim (ℕ_discrete i j) [
      | yes here ↦
          let at : s.task i ≡ some p = subst (λ z. s.task z ≡ some p) (sym here) found in
          let spared = charge_unmet n (suc i) p one λ j' le' lt' e.
            let again : j' ≡ j = once j' (omega arith) (sym (ap (λ f. f j') kept.task) ∙ e) in
            omega arith in
          ap (λ x. x.counter) spared ∙ charge_one_self s (s.task i) p at
      | no later ↦
          charge-charged n (suc i) j p one (omega arith) (omega arith)
            (ap (λ f. f j) kept.task ∙ found)
            (λ j' h e. once j' (omega arith) (sym (ap (λ f. f j') kept.task) ∙ e))
          ∙ ap charged (charge_one_other s (s.task i) p (λ e. later (once i (omega arith) e)))
    ]

-- No task is in the array twice, and the tasks of the array have counters and priorities as
-- `copy_process` and `_schedule` give them: the counters are ints, and the priorities so small that
-- they remain ints.
pub record IsFair (s : Sched) : Type 0 where
  pub once :
      (i j p : ℕ) → i < nr_tasks → j < nr_tasks → s.task i ≡ some p → s.task j ≡ some p → i ≡ j
  pub counters :
      (i p : ℕ) → i < nr_tasks → s.task i ≡ some p → (n : ℕ) × ((s.tasks p).counter ≡ pos n)
  pub priorities :
      (i p : ℕ) → i < nr_tasks → s.task i ≡ some p → (n : ℕ) × ((s.tasks p).priority ≡ pos (suc n))
  pub small :
      (i p n : ℕ) → i < nr_tasks → s.task i ≡ some p → (s.tasks p).counter ≡ pos n → n < 2 ^ 31
  pub low :
      (i p n : ℕ) → i < nr_tasks → s.task i ≡ some p → (s.tasks p).priority ≡ pos n → n ≤ 2 ^ 30

pub IsFair-AreInts : (s : Sched) → IsFair s → AreInts s
IsFair-AreInts s fair i p lt found =
    let (n, counter) = fair.counters i p lt found in
    subst IsInt (sym counter) (fair.small i p n lt found counter)

-- What the counters are in u, when they were those of s: the same, or each task's new one where no
-- running task had time left.
abbrev pub Recharged : (s u : Sched) → Type 0
Recharged s u =
    ((p : ℕ) → (u.tasks p).counter ≡ (s.tasks p).counter)
    ⊎ (IsLargest s (pos 0)
        × ((i p : ℕ)
            → i < nr_tasks
            → s.task i ≡ some p
            → (u.tasks p).counter ≡ charged (s.tasks p)))

charged_positive :
    (x : Task) (m n : ℕ)
    → x.counter ≡ pos m
    → x.priority ≡ pos (suc n)
    → ltb_ℤ (pos 0) (charged x) ≡ true
unfolding ◌+ℤ◌
charged_positive x m n e f = rw (e, f) (ground arith)

charged-IsInt :
    (x : Task) (m n : ℕ)
    → x.counter ≡ pos m
    → x.priority ≡ pos (suc n)
    → m < 2 ^ 31
    → suc n ≤ 2 ^ 30
    → IsInt (charged x)
unfolding ◌+ℤ◌
charged-IsInt x m n e f small low = rw (e, f) (ground arith)

zero-eq : (c : ℤ) → is_zero c ≡ true → c ≡ pos 0
zero-eq (pos n) e = let z : n ≡ 0 = ground arith in ap pos z
zero-eq (negsuc n) e = cc

choose_again :
    (k : ℕ) (s : Sched)
    → is_zero (pick nr_tasks 0 s (negsuc 0) 0).0 ≡ true
    → choose (suc k) s ≡ choose k (charge nr_tasks 0 s)
unfolding choose
choose_again k s e = rw (choose, e) refl

-- The task that a call of `choose` has picked, in the state s.
pub record Chosen (k : ℕ) (s : Sched) : Type 0 where
  pub state : Sched
  pub counter : ℤ
  pub index : ℕ
  pub picks : ℕ
  pub runs : choose k s ≡ ok (index, state)
  pub states : (p : ℕ) → (state.tasks p).state ≡ (s.tasks p).state
  pub array : state.task ≡ s.task
  pub recharged : Recharged s state
  pub picked : Picked state counter index picks
  pub largest : IsLargest state counter

choose_stops :
    (k : ℕ) (s : Sched)
    → is_zero (pick nr_tasks 0 s (negsuc 0) 0).0 ≡ false
    → choose (suc k) s ≡ ok ((pick nr_tasks 0 s (negsuc 0) 0).1, s)
unfolding choose
choose_stops k s e = rw (choose, e) refl

better_than_none :
    (s : Sched) (p n : ℕ)
    → (s.tasks p).state ≡ task_running
    → (s.tasks p).counter ≡ pos n
    → is_better s (some p) (negsuc 0) ≡ true
unfolding is_better
better_than_none s p n runs e = ground (arith, runs, e)

module _ (k j p : ℕ) (s : Sched) (fair : IsFair s) (h : j < nr_tasks) (found : s.task j ≡ some p)
    (runs : (s.tasks p).state ≡ task_running) where
  abbrev first : ℤ × ℕ
  first = pick nr_tasks 0 s (negsuc 0) 0

  bound : (j' : ℕ) → j' < nr_tasks → is_better s (s.task j') first.0 ≡ false
  bound j' lt =
      pick_bound s (IsFair-AreInts s fair) nr_tasks 0 (negsuc 0) 0 j' (omega arith) (omega arith) lt

  not_idle : first ≢ (negsuc 0, 0)
  not_idle e =
      let (n, counter) = fair.counters j p h found in
      let better = better_than_none s p n runs counter in
      let worse : is_better s (some p) (negsuc 0) ≡ false =
        subst (λ z. is_better s (some p) z.0 ≡ false) e
          (subst (λ o. is_better s o first.0 ≡ false) found (bound j h)) in
      cc

  charged_state : Sched
  charged_state = charge nr_tasks 0 s

  charged_counter :
      (i q : ℕ)
      → i < nr_tasks
      → s.task i ≡ some q
      → (charged_state.tasks q).counter ≡ charged (s.tasks q)
  unfolding charged_state
  charged_counter i q lt e =
      charge-charged nr_tasks 0 i q s (omega arith) (omega arith) e
        λ j' lt' e'. fair.once j' i q (omega arith) lt e' e

  charged_state-AreInts : AreInts charged_state
  unfolding charged_state
  charged_state-AreInts i q lt e =
      let e' = sym (ap (λ f. f i) (charge-Kept nr_tasks 0 s).task) ∙ e in
      let (m, counter) = fair.counters i q lt e' in
      let (n, priority) = fair.priorities i q lt e' in
      subst IsInt (sym (charged_counter i q lt e')) (
        charged-IsInt (s.tasks q) m n counter priority (fair.small i q m lt e' counter)
          (fair.low i q (suc n) lt e' priority))

  charged_ready :
      (charged_state.task j ≡ some p)
      × ((charged_state.tasks p).state ≡ task_running)
      × (ltb_ℤ (pos 0) (charged_state.tasks p).counter ≡ true)
  unfolding charged_state
  charged_ready =
      let kept = charge-Kept nr_tasks 0 s in
      let (m, counter) = fair.counters j p h found in
      let (n, priority) = fair.priorities j p h found in
      let counts = charged_counter j p h found in
      (
        ap (λ f. f j) kept.task ∙ found,
        kept.state p ∙ runs,
        subst (λ z. ltb_ℤ (pos 0) z ≡ true) (sym counts)
            (charged_positive (s.tasks p) m n counter priority),
      )

  pub choose-Chosen : Chosen (suc (suc k)) s
  unfolding charged_state
  choose-Chosen = elim (Bool-cases (is_zero first.0)) [
    | inl used_up ↦
        let (found', runs', ready) = charged_ready in
        let (c, i, q, chooses, picked, largest) =
          choose-Picked k j p (charge nr_tasks 0 s) charged_state-AreInts h found' runs' ready in
        record {
          state = charge nr_tasks 0 s;
          counter = c;
          index = i;
          picks = q;
          runs = choose_again (suc k) s used_up ∙ chooses;
          states = (charge-Kept nr_tasks 0 s).state;
          array = (charge-Kept nr_tasks 0 s).task;
          recharged = inr (
            subst (IsLargest s) (zero-eq first.0 used_up) (not_better-IsLargest s first.0 bound),
            charged_counter,
          );
          picked = picked;
          largest = largest;
        }
    | inr some_left ↦
        elim (pick-Picked s (IsFair-AreInts s fair) nr_tasks 0 (negsuc 0) 0 (omega arith)) [
          | inl idle ↦ absurd (not_idle idle)
          | inr (q, picked) ↦ record {
            state = s;
            counter = first.0;
            index = first.1;
            picks = q;
            runs = choose_stops (suc k) s some_left;
            states = λ p. refl;
            array = refl;
            recharged = inl (λ p. refl);
            picked = picked;
            largest = not_better-IsLargest s first.0 bound;
          }
        ]
  ]
