-- ===== src/Pages/Tables/Level.antt =====
-- Page tables in levels: what keeps the tables that a walk goes through apart, and that taking a
-- page and storing an entry preserve it.
use clb_filesystem.Common.{
  ℕ, suc, ◌+◌, ◌*◌, ◌^◌, ◌≤◌, ◌<◌, ◌≡◌, ◌≢◌, refl, ◌∙◌, arith, ap, sym, subst, ==_refl, ne→==,
}
use native.Mathlib.Decide.{ℕ_discrete}
use clb_filesystem.Memory.Entry.{load, store, load-store, load-store_other, load-same, load-clear}
use clb_filesystem.Inode.{update}
use clb_filesystem.Pages.{Pages, low_memory, va_start, paging_pages}
use clb_filesystem.Pages.Free.{Taken, page_at}
use clb_filesystem.Pages.Tables.Count.{TakenOne}

-- The entry k of the table in page t.
abbrev pub slot : (t k : ℕ) → ℕ
slot t k = page_at t + va_start + 8 * k

unfoldable pub entry : Pages → (t k : ℕ) → ℕ
entry s t k = load s.memory (slot t k)

abbrev pub put : Pages → (t k v : ℕ) → Pages
put s t k v = record s { memory = store s.memory (slot t k) v }

pub entry-put : (s : Pages) (t k v : ℕ) → v < 2 ^ 64 → entry (put s t k v) t k ≡ v
unfolding entry
entry-put s t k v lt = load-store s.memory (slot t k) v lt

pub entry-put_table :
    (s : Pages) (t k v t' k' : ℕ)
    → t' ≢ t
    → k < 512
    → k' < 512
    → entry (put s t k v) t' k' ≡ entry s t' k'
unfolding entry
entry-put_table s t k v t' k' ne lt lt' =
    load-store_other s.memory (slot t k) (slot t' k') v (omega arith)

pub entry-put_index : (s : Pages) (t k v k' : ℕ) → k' ≢ k → entry (put s t k v) t k' ≡ entry s t k'
unfolding entry
entry-put_index s t k v k' ne = load-store_other s.memory (slot t k) (slot t k') v (omega arith)

-- What lies below the pages, as the kernel's image does, is never written.
abbrev pub IsSameBelow : Pages → Pages → Type 0
IsSameBelow s s' = (a : ℕ) → a < low_memory + va_start → s'.memory a ≡ s.memory a

pub put-IsSameBelow : (s : Pages) (t k v : ℕ) → IsSameBelow s (put s t k v)
unfolding store
put-IsSameBelow s t k v a lt = ground arith

pub Taken-IsSameBelow : (s s' : Pages) (i : ℕ) → Taken s i s' → IsSameBelow s s'
Taken-IsSameBelow s s' i taken a lt = taken.kept a (omega arith)

pub entry-Taken :
    (s s' : Pages) (i t k : ℕ) → Taken s i s' → t ≢ i → k < 512 → entry s' t k ≡ entry s t k
unfolding entry
entry-Taken s s' i t k taken ne lt =
    load-same s'.memory s.memory (slot t k) λ a le lt'. taken.kept a (omega arith)

pub entry-Taken_new : (s s' : Pages) (i k : ℕ) → Taken s i s' → k < 512 → entry s' i k ≡ 0
unfolding entry
entry-Taken_new s s' i k taken lt =
    load-clear s'.memory (slot i k) λ a le lt'. taken.cleared a (omega arith) (omega arith)

-- A page in use, at a level: 0 for a top-level table, 3 for a table of pages, and 4 for no table.
pub record At (s : Pages) (level : ℕ → ℕ) (l t : ℕ) : Type 0 where
  pub inside : t < paging_pages
  pub used : s.mem_map t ≢ 0
  pub of_level : level t ≡ l

-- An entry of a table of the level l is clear, or leads to a table of the next level.
pub data Child (s : Pages) (level : ℕ → ℕ) (l e : ℕ) : Type 0 where
  absent : e ≡ 0 → Child s level l e
  child : (u : ℕ) → e ≡ page_at u + 3 → At s level (suc l) u → Child s level l e

abbrev pub IsLevelled : Pages → (ℕ → ℕ) → Type 0
IsLevelled s level = (l t k : ℕ) → At s level l t → l < 3 → k < 512 → Child s level l (entry s t k)

-- What a step from a table of the level l leaves: the tables, and the entries of those above.
pub record Kept (s : Pages) (level : ℕ → ℕ) (s' : Pages) (level' : ℕ → ℕ) (l : ℕ) : Type 0 where
  pub tables : (l' t : ℕ) → At s level l' t → At s' level' l' t
  pub above : (l' t k : ℕ) → At s level l' t → l' < l → k < 512 → entry s' t k ≡ entry s t k

Child-Kept :
    {s s' : Pages} {level level' : ℕ → ℕ} {l : ℕ} (l' e : ℕ)
    → Kept s level s' level' l
    → Child s level l' e
    → Child s' level' l' e
Child-Kept l' e kept (absent z) = absent z
Child-Kept l' e kept (child u z at) = child u z (kept.tables (suc l') u at)

pub Kept-trans :
    {s₀ s₁ s₂ : Pages} {level₀ level₁ level₂ : ℕ → ℕ} {l : ℕ}
    → Kept s₀ level₀ s₁ level₁ l
    → Kept s₁ level₁ s₂ level₂ l
    → Kept s₀ level₀ s₂ level₂ l
Kept-trans a b = record {
  tables = λ l' t at. b.tables l' t (a.tables l' t at);
  above = λ l' t k at lt lt'. b.above l' t k (a.tables l' t at) lt lt' ∙ a.above l' t k at lt lt';
}

pub Kept-le :
    {s s' : Pages} {level level' : ℕ → ℕ} {l : ℕ} (l' : ℕ)
    → l' ≤ l
    → Kept s level s' level' l
    → Kept s level s' level' l'
Kept-le l' le kept = record {
  tables = kept.tables;
  above = λ l'' t k at lt lt'. kept.above l'' t k at (omega arith) lt';
}

-- A page taken as a table of the level l.
module _ (s s' : Pages) (level : ℕ → ℕ) (l i : ℕ) (one : TakenOne s i s') where
  pub other : (l' t : ℕ) → At s level l' t → t ≢ i
  other l' t at same = at.used (subst (λ z. s.mem_map z ≡ 0) (sym same) one.free)

  marked_other : (t : ℕ) → t ≢ i → s'.mem_map t ≡ s.mem_map t
  marked_other t ne = rw one.taken.marked (rw (ne→== t i ne) refl)

  pub take-At : At s' (update level i l) l i
  take-At = record {
    inside = one.inside;
    used = rw one.taken.marked (rw (==_refl i) (omega arith));
    of_level = rw (==_refl i) refl;
  }

  take_tables : (l' t : ℕ) → At s level l' t → At s' (update level i l) l' t
  take_tables l' t at =
      let ne = other l' t at in
      record {
        inside = at.inside;
        used = rw (marked_other t ne) at.used;
        of_level = rw (ne→== t i ne) at.of_level;
      }

  pub take-Kept : Kept s level s' (update level i l) 4
  take-Kept = record {
    tables = take_tables;
    above = λ l' t k at lt lt'. entry-Taken s s' i t k one.taken (other l' t at) lt';
  }

  pub At_back : (l' t : ℕ) → At s' (update level i l) l' t → t ≢ i → At s level l' t
  At_back l' t at ne = record {
    inside = at.inside;
    used = rw (marked_other t ne) at at.used;
    of_level = rw (ne→== t i ne) at at.of_level;
  }

  pub take-IsLevelled : IsLevelled s level → IsLevelled s' (update level i l)
  take-IsLevelled levelled l' t k at lt lt' = elim (ℕ_discrete t i) [
    | yes here ↦
        absent (subst (λ z. entry s' z k ≡ 0) (sym here) (entry-Taken_new s s' i k one.taken lt'))
    | no ne ↦
        let old = At_back l' t at ne in
        rw (entry-Taken s s' i t k one.taken ne lt')
          (Child-Kept l' (entry s t k) take-Kept (levelled l' t k old lt lt'))
  ]

-- An entry v stored in a table of the level l.
module _ (s : Pages) (level : ℕ → ℕ) (l t k v : ℕ) (at : At s level l t) (index : k < 512) where
  put-At : (l' t' : ℕ) → At s level l' t' → At (put s t k v) level l' t'
  put-At l' t' at' = record { inside = at'.inside; used = at'.used; of_level = at'.of_level }

  pub At-put : (l' t' : ℕ) → At (put s t k v) level l' t' → At s level l' t'
  At-put l' t' at' = record { inside = at'.inside; used = at'.used; of_level = at'.of_level }

  pub put-Kept : Kept s level (put s t k v) level l
  put-Kept = record {
    tables = put-At;
    above = λ l' t' k' at' lt lt'.
        entry-put_table s t k v t' k'
          (λ same. absurd (omega (arith, ap level same, at.of_level, at'.of_level))) index lt';
  }

  pub put-IsLevelled :
      v < 2 ^ 64 → (l < 3 → Child s level l v) → IsLevelled s level → IsLevelled (put s t k v) level
  put-IsLevelled word new levelled l' t' k' at' lt lt' =
      let old = At-put l' t' at' in
      let kept = Child-Kept l' (entry s t' k') put-Kept (levelled l' t' k' old lt lt') in
      elim (ℕ_discrete t' t) [
        | no ne ↦ rw (entry-put_table s t k v t' k' ne index lt') kept
        | yes same ↦ elim (ℕ_discrete k' k) [
          | no ne ↦
              let apart : entry (put s t k v) t' k' ≡ entry s t' k' =
                subst (λ z. entry (put s t k v) z k' ≡ entry s z k') (sym same)
                  (entry-put_index s t k v k' ne) in
              rw apart kept
          | yes here ↦
              let level_eq : l' ≡ l = sym at'.of_level ∙ ap level same ∙ at.of_level in
              let stored : entry (put s t k v) t' k' ≡ v =
                ap (λ z. entry (put s t k v) z k') same
                ∙ ap (λ z. entry (put s t k v) t z) here
                ∙ entry-put s t k v word in
              let lead : Child s level l' v =
                subst (λ z. Child s level z v) (sym level_eq) (new (omega arith)) in
              rw stored (Child-Kept l' v put-Kept lead)
        ]
      ]
