-- ===== src/Pages/Tables/Apart.antt =====
-- Page tables that share no table: every table but the top-level ones has one entry that leads to it.
use native.Mathlib.Decide.{ℕ_discrete}
use clb_filesystem.Common.{ℕ, ◌+◌, ◌^◌, ◌<◌, ◌≡◌, ◌≢◌, ◌∙◌, arith, ap, sym, subst, ◌⊎◌, inl, inr}
use clb_filesystem.Inode.{update}
use clb_filesystem.Pages.{Pages}
use clb_filesystem.Pages.Free.{page_at}
use clb_filesystem.Pages.Tables.Count.{TakenOne}
use clb_filesystem.Pages.Tables.Level.{
  entry, put, entry-put, entry-put_table, entry-put_index, entry-Taken, entry-Taken_new, At, absent,
  child, IsLevelled, other, At_back, At-put,
}

abbrev pub IsApart : Pages → (ℕ → ℕ) → Type 0
IsApart s level =
    (l t t' k k' u : ℕ)
    → At s level l t
    → At s level l t'
    → l < 3
    → k < 512
    → k' < 512
    → entry s t k ≡ page_at u + 3
    → entry s t' k' ≡ page_at u + 3
    → (t ≡ t') × (k ≡ k')

-- The entries in use stay.
abbrev pub Keeps : Pages → (ℕ → ℕ) → Pages → Type 0
Keeps s level s' =
    (l t k : ℕ) → At s level l t → l < 4 → k < 512 → entry s t k ≢ 0 → entry s' t k ≡ entry s t k

pub Keeps-trans :
    (s s₁ s₂ : Pages) (level level₁ : ℕ → ℕ)
    → ((l t : ℕ) → At s level l t → At s₁ level₁ l t)
    → Keeps s level s₁
    → Keeps s₁ level₁ s₂
    → Keeps s level s₂
Keeps-trans s s₁ s₂ level level₁ tables first second l t k at lt lt' some_entry =
    let same = first l t k at lt lt' some_entry in
    second l t k (tables l t at) lt lt' (λ z. some_entry (sym same ∙ z)) ∙ same

-- No entry leads to the page u.
abbrev pub IsNew : Pages → (ℕ → ℕ) → ℕ → Type 0
IsNew s level u = (l t k : ℕ) → At s level l t → l < 3 → k < 512 → entry s t k ≢ page_at u + 3

module _ (s s' : Pages) (level : ℕ → ℕ) (l i : ℕ) (one : TakenOne s i s') where
  -- An entry in use after a page was taken is one from before.
  take_entry :
      (l' t k v : ℕ)
      → At s' (update level i l) l' t
      → k < 512
      → entry s' t k ≡ v + 3
      → At s level l' t × (entry s t k ≡ v + 3)
  take_entry l' t k v at lt leads = elim (ℕ_discrete t i) [
    | yes here ↦
        let clear : entry s' t k ≡ 0 =
          subst (λ z. entry s' z k ≡ 0) (sym here) (entry-Taken_new s s' i k one.taken lt) in
        absurd (omega (arith, clear, leads))
    | no ne ↦ (
      At_back s s' level l i one l' t at ne,
      sym (entry-Taken s s' i t k one.taken ne lt) ∙ leads,
    )
  ]

  pub take-IsApart : IsApart s level → IsApart s' (update level i l)
  take-IsApart apart l' t t' k k' u at at' lt lt₁ lt₂ e e' =
      let (old, f) = take_entry l' t k (page_at u) at lt₁ e in
      let (old', f') = take_entry l' t' k' (page_at u) at' lt₂ e' in
      apart l' t t' k k' u old old' lt lt₁ lt₂ f f'

  pub take-Keeps : Keeps s level s'
  take-Keeps l' t k at lt lt' some_entry =
      entry-Taken s s' i t k one.taken (other s s' level l i one l' t at) lt'

  pub take-IsNew : IsLevelled s level → IsNew s' (update level i l) i
  take-IsNew levelled l' t k at lt lt' leads =
      let (old, e) = take_entry l' t k (page_at i) at lt' leads in
      elim (levelled l' t k old lt lt') [
        | absent clear ↦ omega (arith, clear, e)
        | child u leads' next ↦
            let same : u ≡ i = omega (arith, leads', e) in
            next.used (subst (λ z. s.mem_map z ≡ 0) (sym same) one.free)
      ]

module _ (s : Pages) (level : ℕ → ℕ) (l t k v : ℕ) (at : At s level l t) (index : k < 512) where
  put_cases :
      (t' k' : ℕ) → k' < 512 → ((t' ≡ t) × (k' ≡ k)) ⊎ (entry (put s t k v) t' k' ≡ entry s t' k')
  put_cases t' k' lt = elim (ℕ_discrete t' t) [
    | no ne ↦ inr (entry-put_table s t k v t' k' ne index lt)
    | yes same ↦ elim (ℕ_discrete k' k) [
      | yes here ↦ inl (same, here)
      | no ne ↦ inr (
          subst (λ z. entry (put s t k v) z k' ≡ entry s z k') (sym same)
            (entry-put_index s t k v k' ne))
    ]
  ]

  pub put-other :
      (t' k' : ℕ) → k' < 512 → (t' ≢ t) ⊎ (k' ≢ k) → entry (put s t k v) t' k' ≡ entry s t' k'
  put-other t' k' lt differs = elim (put_cases t' k' lt) [
    | inr same ↦ same
    | inl (same, here) ↦ elim differs [ inl ne ↦ absurd (ne same) | inr ne ↦ absurd (ne here) ]
  ]

  put_here : (t' k' : ℕ) → v < 2 ^ 64 → t' ≡ t → k' ≡ k → entry (put s t k v) t' k' ≡ v
  put_here t' k' word same here =
      ap (λ z. entry (put s t k v) z k') same
      ∙ ap (λ z. entry (put s t k v) t z) here
      ∙ entry-put s t k v word

  pub put-Keeps : entry s t k ≡ 0 → Keeps s level (put s t k v)
  put-Keeps clear l' t' k' at' lt lt' some_entry = elim (put_cases t' k' lt') [
    | inr same ↦ same
    | inl (same, here) ↦
        absurd (some_entry (ap (λ z. entry s z k') same ∙ ap (λ z. entry s t z) here ∙ clear))
  ]

  -- A new table below an entry.
  pub put-IsApart :
      (u : ℕ)
      → v ≡ page_at u + 3
      → v < 2 ^ 64
      → IsNew s level u
      → IsApart s level
      → IsApart (put s t k v) level
  put-IsApart u is word new apart l' t₁ t₂ k₁ k₂ w at₁ at₂ lt lt₁ lt₂ e₁ e₂ =
      let old₁ = At-put s level l t k v at index l' t₁ at₁ in
      let old₂ = At-put s level l t k v at index l' t₂ at₂ in
      elim (put_cases t₁ k₁ lt₁) [
        | inl (a₁, b₁) ↦ elim (put_cases t₂ k₂ lt₂) [
          | inl (a₂, b₂) ↦ (a₁ ∙ sym a₂, b₁ ∙ sym b₂)
          | inr same₂ ↦
              let stored = put_here t₁ k₁ word a₁ b₁ in
              absurd (new l' t₂ k₂ old₂ lt lt₂ (sym same₂ ∙ e₂ ∙ sym e₁ ∙ stored ∙ is))
        ]
        | inr same₁ ↦ elim (put_cases t₂ k₂ lt₂) [
          | inl (a₂, b₂) ↦
              let stored = put_here t₂ k₂ word a₂ b₂ in
              absurd (new l' t₁ k₁ old₁ lt lt₁ (sym same₁ ∙ e₁ ∙ sym e₂ ∙ stored ∙ is))
          | inr same₂ ↦
              apart l' t₁ t₂ k₁ k₂ w old₁ old₂ lt lt₁ lt₂ (sym same₁ ∙ e₁) (sym same₂ ∙ e₂)
        ]
      ]

  -- A write to a table of pages.
  pub put_page-IsApart : l ≡ 3 → IsApart s level → IsApart (put s t k v) level
  put_page-IsApart low apart l' t₁ t₂ k₁ k₂ w at₁ at₂ lt lt₁ lt₂ e₁ e₂ =
      let old₁ = At-put s level l t k v at index l' t₁ at₁ in
      let old₂ = At-put s level l t k v at index l' t₂ at₂ in
      let ne₁ : t₁ ≢ t = λ same. absurd (omega (arith, ap level same, at.of_level, at₁.of_level)) in
      let ne₂ : t₂ ≢ t = λ same. absurd (omega (arith, ap level same, at.of_level, at₂.of_level)) in
      apart l' t₁ t₂ k₁ k₂ w old₁ old₂ lt lt₁ lt₂
        (sym (entry-put_table s t k v t₁ k₁ ne₁ index lt₁) ∙ e₁)
        (sym (entry-put_table s t k v t₂ k₂ ne₂ index lt₂) ∙ e₂)
