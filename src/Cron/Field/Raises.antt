-- ===== src/Cron/Field/Raises.antt =====
-- Where `valid_cron_field` raises, and where it does not.
use project_linux.Base.{
  ℕ, ◌≤◌, ◌≡◌, refl, Bool, true, false, ◌&&◌, Option, none, some, [], ◌∷◌, ◌++◌, drop, arith,
  Bool-cases, All, All-drop, length, inl, inr,
}
use project_linux.Base.Int.{pos, ltb_ℤ}
use project_linux.Text.{
  Str, codes, Unicode, IsUnicode, starts_with, text_eq, isdigit, is_digit, all_digits, is_int_space,
}
use project_linux.Text.Decimal.{int, max_str_digits}
use project_linux.Text.Decimal.RoundTrip.{IsDigit, int-some}
use project_linux.Text.Decimal.Refused.{int-none}
use project_linux.Value.{int_of_text, ok, raise, value_error}
use project_linux.Cron.Field.Meaning.{digits_not_star, digits_not_slash}
use project_linux.Cron.Field.{check_field, at_least, at_most, step_at_most}

abbrev pub IsAscii : Str → Type 0
IsAscii = All (λ c. c ≤ 127)

length-drop_two : (v : Str) → length (drop 2 v) ≤ length v
length-drop_two [] = omega arith
length-drop_two (c ∷ []) = omega arith
length-drop_two (c ∷ d ∷ v) = omega arith

module _ (U : Unicode) (u : IsUnicode U) where
  is_digit-ascii : (c : ℕ) → c ≤ 127 → is_digit U c ≡ true → IsDigit c
  unfolding is_digit
  is_digit-ascii c a h = ground (arith, u.below c, u.above c, u.others c)

  all_digits-ascii : (s : Str) → IsAscii s → all_digits U s ≡ true → All IsDigit s
  unfolding all_digits
  all_digits-ascii [] a h = tt
  all_digits-ascii (c ∷ s) (ac, a) h = ground (arith, is_digit-ascii c ac, all_digits-ascii s a)

  int-ascii :
      (s : Str)
      → IsAscii s
      → length s ≤ max_str_digits
      → isdigit U s ≡ true
      → (n : ℕ) × (int U s ≡ some (pos n))
  unfolding isdigit
  int-ascii [] a fits h = absurd (cc)
  int-ascii (c ∷ s) a fits h = int-some U u c s (all_digits-ascii (c ∷ s) a (ground arith)) fits

  -- On ASCII text that is not longer than Python's limit for `int` the check returns.
  pub check_field_total :
      (v : Str) (low high : Option ℕ)
      → IsAscii v
      → length v ≤ max_str_digits
      → (b : Bool) × (check_field U v low high ≡ ok b)
  unfolding check_field int_of_text
  check_field_total v low high a fits = elim (Bool-cases (text_eq v (codes "*"))) [
    | inl e ↦ (true, ground arith)
    | inr e ↦ elim (Bool-cases (starts_with v (codes "*/") && isdigit U (drop 2 v))) [
      | inl g ↦
          let (n, i) =
            int-ascii (drop 2 v) (All-drop _ 2 v a) (omega (arith, length-drop_two v))
              (ground arith) in
          (ltb_ℤ (pos 0) (pos n) && step_at_most high (pos n), ground arith)
      | inr g ↦ elim (Bool-cases (isdigit U v)) [
        | inl d ↦
            let (n, i) = int-ascii v a fits d in
            (at_least low (pos n) && at_most high (pos n), ground arith)
        | inr d ↦ (false, ground arith)
      ]
    ]
  ]

  all_digits-parts :
      (s : Str) (c : ℕ) (r : Str)
      → all_digits U (s ++ (c ∷ r)) ≡ true
      → (all_digits U s ≡ true) × (is_digit U c ≡ true)
  unfolding all_digits
  all_digits-parts [] c r h = (refl, ground arith)
  all_digits-parts (a ∷ s) c r h =
      let (hs, hc) = all_digits-parts s c r (ground arith) in (ground arith, hc)

  isdigit_of :
      (s : Str) (c : ℕ) (r : Str)
      → all_digits U (s ++ (c ∷ r)) ≡ true
      → isdigit U (s ++ (c ∷ r)) ≡ true
  unfolding isdigit
  isdigit_of [] c r h = h
  isdigit_of (a ∷ s) c r h = h

  -- `str.isdigit` accepts digits that `int` refuses, such as superscripts: a text of digits with one
  -- of them, and no white space, makes the check raise `ValueError`.
  pub check_field_raises :
      (s : Str) (c : ℕ) (r : Str) (low high : Option ℕ)
      → all_digits U (s ++ (c ∷ r)) ≡ true
      → U.decimal c ≡ none
      → All (λ d. is_int_space d ≡ false) (s ++ (c ∷ r))
      → check_field U (s ++ (c ∷ r)) low high ≡ raise value_error
  unfolding check_field int_of_text
  check_field_raises s c r low high digits h inner =
      let d = isdigit_of s c r digits in
      let (hs, hc) = all_digits-parts s c r digits in
      ground (
        arith,
        digits_not_star U u (s ++ (c ∷ r)) d,
        digits_not_slash U u (s ++ (c ∷ r)) d,
        int-none U u s c r hs hc h inner,
      )
