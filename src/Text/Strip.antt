-- ===== src/Text/Strip.antt =====
-- What `strip` keeps.
use project_linux.Base.{
  ℕ, ◌≡◌, refl, true, false, [], ◌∷◌, ◌++◌, ◌⊎◌, ◌∙◌, ap, Bool, Bool-cases, inl, inr, All,
}
use project_linux.Text.{Str, is_nonempty, is_space, trim_left, trim_cons, trim_right, trim, strip}

module _ (drops : ℕ → Bool) where
  trim_cons-ne : (c : ℕ) (s : Str) → is_nonempty s ≡ true → is_nonempty (trim_cons drops c s) ≡ true
  unfolding trim_cons is_nonempty
  trim_cons-ne c [] h = cc
  trim_cons-ne c (d ∷ s) h = refl

  trim_cons-kept : (c : ℕ) (s : Str) → drops c ≡ false → trim_cons drops c s ≡ c ∷ s
  unfolding trim_cons
  trim_cons-kept c [] h = rw h
  trim_cons-kept c (d ∷ s) h = refl

  trim_right-ne :
      (a : Str) (c : ℕ) (b : Str)
      → drops c ≡ false
      → is_nonempty (trim_right drops (a ++ (c ∷ b))) ≡ true
  unfolding trim_right
  trim_right-ne [] c b h = rw (trim_cons-kept c _ h) (unfold is_nonempty in refl)
  trim_right-ne (d ∷ a) c b h = trim_cons-ne d _ (trim_right-ne a c b h)

  trim-ne :
      (a : Str) (c : ℕ) (b : Str) → drops c ≡ false → is_nonempty (trim drops (a ++ (c ∷ b))) ≡ true
  unfolding trim trim_left
  trim-ne [] c b h = rw h (trim_right-ne [] c b h)
  trim-ne (d ∷ a) c b h = elim (Bool-cases (drops d)) [
    | inl e ↦ rw e (trim-ne a c b h)
    | inr e ↦ rw e (trim_right-ne (d ∷ a) c b h)
  ]

  trim_right-eq : (s : Str) → All (λ c. drops c ≡ false) s → trim_right drops s ≡ s
  unfolding trim_right
  trim_right-eq [] h = refl
  trim_right-eq (c ∷ s) (hc, h) = rw (trim_right-eq s h) (trim_cons-kept c s hc)

  pub trim-eq : (s : Str) → All (λ c. drops c ≡ false) s → trim drops s ≡ s
  unfolding trim trim_left
  trim-eq [] h = unfold trim_right in refl
  trim-eq (c ∷ s) (hc, h) = rw hc (trim_right-eq (c ∷ s) (hc, h))

module _ (drops : ℕ → Bool) where
  trim_left-cases :
      (s : Str)
      → (trim_left drops s ≡ [])
        ⊎ ((c : ℕ) × (t : Str) × (trim_left drops s ≡ c ∷ t) × (drops c ≡ false))
  unfolding trim_left
  trim_left-cases [] = inl refl
  trim_left-cases (c ∷ s) = elim (Bool-cases (drops c)) [
    | inl e ↦ rw e (trim_left-cases s)
    | inr e ↦ rw e (inr (c, s, refl, e))
  ]

  trim_right-cons :
      (c : ℕ) (s : Str) → trim_right drops (c ∷ s) ≡ trim_cons drops c (trim_right drops s)
  unfolding trim_right
  trim_right-cons c s = refl

  trim_cons_idem :
      (c : ℕ) (t : Str)
      → trim_right drops t ≡ t
      → trim_right drops (trim_cons drops c t) ≡ trim_cons drops c t
  trim_cons_idem c [] h = elim (Bool-cases (drops c)) [
    | inl e ↦ unfold trim_cons trim_right in rw e
    | inr e ↦ unfold trim_cons trim_right in rw (e, e)
  ]
  trim_cons_idem c (d ∷ t) h =
      unfold trim_cons in (trim_right-cons c (d ∷ t) ∙ ap (trim_cons drops c) h)

  trim_right_idem : (s : Str) → trim_right drops (trim_right drops s) ≡ trim_right drops s
  trim_right_idem [] = unfold trim_right in refl
  trim_right_idem (c ∷ s) =
      rw (trim_right-cons c s) (trim_cons_idem c (trim_right drops s) (trim_right_idem s))

  trim_left-kept : (c : ℕ) (s : Str) → drops c ≡ false → trim_left drops (c ∷ s) ≡ c ∷ s
  unfolding trim_left
  trim_left-kept c s h = rw h

  trim_idem : (s : Str) → trim drops (trim drops s) ≡ trim drops s
  unfolding trim
  trim_idem s = elim (trim_left-cases s) [
    | inl e ↦ rw e (unfold trim_right trim_left in refl)
    | inr (c, t, e, h) ↦ rw (
      e,
      trim_right-cons c t,
      trim_cons-kept drops c (trim_right drops t) h,
      trim_left-kept c (trim_right drops t) h,
      trim_right-cons c (trim_right drops t),
      trim_right_idem t,
      trim_cons-kept drops c (trim_right drops t) h,
    )
  ]

pub strip_idem : (s : Str) → strip (strip s) ≡ strip s
unfolding strip
strip_idem s = trim_idem is_space s

-- A text with a character that is no white space is not blank.
pub strip-ne :
    (a : Str) (c : ℕ) (b : Str) → is_space c ≡ false → is_nonempty (strip (a ++ (c ∷ b))) ≡ true
unfolding strip
strip-ne a c b h = trim-ne is_space a c b h
