-- ===== src/Cron/Field/Meaning.antt =====
-- What `valid_cron_field` accepts.
use project_linux.Base.{
  ℕ, ◌+◌, ◌≤◌, ◌≡◌, ◌⊎◌, ◌↔◌, inl, inr, refl, true, false, ◌&&◌, some, [], ◌∷◌, ◌++◌, drop, arith,
  Bool-cases, Option-cases,
}
use project_linux.Base.Int.{ℤ, pos, negsuc, ltb_ℤ}
use project_linux.Text.{Str, codes, Unicode, IsUnicode, starts_with, text_eq, isdigit}
use project_linux.Text.Decimal.{int}
use project_linux.Text.Laws.{text_eq→eq, text_eq_refl, starts_with_two, starts_with-append}
use project_linux.Value.{int_of_text, ok}
use project_linux.Cron.Field.{check_field, at_least, at_most, step_at_most}

-- The text is made of digits, and `int` gives `n` for it.
abbrev pub Spells : Unicode → Str → ℕ → Type 0
Spells U s n = (isdigit U s ≡ true) × (int U s ≡ some (pos n))

-- `*`; `*/n` with a step from 1 to one more than the upper bound; a number in the range.
abbrev pub IsField : Unicode → ℕ → ℕ → Str → Type 0
IsField U low high v =
    (v ≡ codes "*")
    ⊎ ((t : Str) × (n : ℕ) × (v ≡ codes "*/" ++ t) × Spells U t n × (1 ≤ n) × (n ≤ high + 1))
    ⊎ ((n : ℕ) × Spells U v n × (low ≤ n) × (n ≤ high))

behind_slash : (v : Str) → starts_with v (codes "*/") ≡ true → v ≡ codes "*/" ++ drop 2 v
unfolding codes
behind_slash v h = starts_with_two b'*' b'/' v h

slash_not_star : (t : Str) → text_eq (codes "*/" ++ t) (codes "*") ≡ false
unfolding codes text_eq
slash_not_star t = refl

drop_slash : (t : Str) → drop 2 (codes "*/" ++ t) ≡ t
unfolding codes
drop_slash t = refl

pub digits_not_star :
    (U : Unicode) → IsUnicode U → (v : Str) → isdigit U v ≡ true → text_eq v (codes "*") ≡ false
unfolding codes text_eq isdigit
digits_not_star U u [] h = refl
digits_not_star U u (c ∷ v) h = ground (arith, u.below 42 (omega arith), u.others 42 (omega arith))

pub digits_not_slash :
    (U : Unicode)
    → IsUnicode U
    → (v : Str) → isdigit U v ≡ true
    → starts_with v (codes "*/") ≡ false
unfolding codes starts_with isdigit
digits_not_slash U u [] h = refl
digits_not_slash U u (c ∷ v) h = ground (arith, u.below 42 (omega arith), u.others 42 (omega arith))

module _ (U : Unicode) (low high : ℕ) where
  from_step :
      (t : Str) (n : ℤ)
      → int U t ≡ some n
      → isdigit U t ≡ true
      → (ltb_ℤ (pos 0) n && step_at_most (some high) n) ≡ true
      → (k : ℕ) × Spells U t k × (1 ≤ k) × (k ≤ high + 1)
  from_step t (pos k) e d h = (k, (d, e), ground arith, ground arith)
  from_step t (negsuc k) e d h = absurd (ground arith)

  from_number :
      (t : Str) (n : ℤ)
      → int U t ≡ some n
      → isdigit U t ≡ true
      → (at_least (some low) n && at_most (some high) n) ≡ true
      → (k : ℕ) × Spells U t k × (low ≤ k) × (k ≤ high)
  from_number t (pos k) e d h = (k, (d, e), ground arith, ground arith)
  from_number t (negsuc k) e d h = absurd (ground arith)

  module _ (v : Str) (no_star : text_eq v (codes "*") ≡ false)
      (accepted : check_field U v (some low) (some high) ≡ ok true) where
    step_of :
        (starts_with v (codes "*/") && isdigit U (drop 2 v)) ≡ true
        → (t : Str) × (n : ℕ) × (v ≡ codes "*/" ++ t) × Spells U t n × (1 ≤ n) × (n ≤ high + 1)
    unfolding check_field int_of_text
    step_of g = elim (Option-cases (int U (drop 2 v))) [
      | inl e ↦ absurd (ground arith)
      | inr (n, e) ↦
          let (k, spells, lo, hi) = from_step (drop 2 v) n e (ground arith) (ground arith) in
          (drop 2 v, k, behind_slash v (ground arith), spells, lo, hi)
    ]

    number_of :
        (starts_with v (codes "*/") && isdigit U (drop 2 v)) ≡ false
        → (n : ℕ) × Spells U v n × (low ≤ n) × (n ≤ high)
    unfolding check_field int_of_text
    number_of g = elim (Option-cases (int U v)) [
      | inl e ↦ absurd (ground arith)
      | inr (n, e) ↦ from_number v n e (ground arith) (ground arith)
    ]

  meaning_of : (v : Str) → check_field U v (some low) (some high) ≡ ok true → IsField U low high v
  meaning_of v h = elim (Bool-cases (text_eq v (codes "*"))) [
    | inl e ↦ inl (text_eq→eq v (codes "*") e)
    | inr e ↦ elim (Bool-cases (starts_with v (codes "*/") && isdigit U (drop 2 v))) [
      | inl g ↦ inr (inl (step_of v e h g))
      | inr g ↦ inr (inr (number_of v e h g))
    ]
  ]

  star : check_field U (codes "*") (some low) (some high) ≡ ok true
  unfolding check_field
  star = rw text_eq_refl

  step_accepted :
      (t : Str) (n : ℕ)
      → Spells U t n
      → 1 ≤ n
      → n ≤ high + 1
      → check_field U (codes "*/" ++ t) (some low) (some high) ≡ ok true
  unfolding check_field int_of_text
  step_accepted t n (d, e) lo hi =
      ground (arith, slash_not_star t, starts_with-append (codes "*/") t, drop_slash t)

  number_accepted :
      IsUnicode U
      → (v : Str) (n : ℕ) → Spells U v n
      → low ≤ n
      → n ≤ high
      → check_field U v (some low) (some high) ≡ ok true
  unfolding check_field int_of_text
  number_accepted u v n (d, e) lo hi = ground (arith, digits_not_slash U u v d)

  accepted_of :
      IsUnicode U
      → (v : Str) → IsField U low high v
      → check_field U v (some low) (some high) ≡ ok true
  accepted_of u v (inl e) = rw e star
  accepted_of u v (inr (inl (t, n, e, spells, lo, hi))) = rw e (step_accepted t n spells lo hi)
  accepted_of u v (inr (inr (n, spells, lo, hi))) = number_accepted u v n spells lo hi

  -- A field is accepted exactly where it is `*`, or `*/n` with a step n from 1 to one more than the
  -- upper bound, or a number within the bounds, the numbers written in any digits that `int` reads.
  pub check_field_iff :
      IsUnicode U
      → (v : Str) → (check_field U v (some low) (some high) ≡ ok true) ↔ IsField U low high v
  check_field_iff u v = (meaning_of v, accepted_of u v)
