-- ===== src/Text/Decimal/Refused.antt =====
-- `int` refuses a text that `isdigit` accepts when one of its digits has no decimal value.
use project_linux.Base.{
  ℕ, ◌+◌, ◌*◌, ◌≡◌, Bool, true, false, some, none, [], ◌∷◌, ◌++◌, arith, All, Option-cases, inl,
  inr, ◌==◌,
}
use project_linux.Text.{Str, Unicode, IsUnicode, is_digit, all_digits, is_int_space}
use project_linux.Text.Strip.{trim-eq}
use project_linux.Text.Decimal.{number_from, natural, signed, int}

module _ (U : Unicode) (u : IsUnicode U) where
  not_underscore : (c : ℕ) → is_digit U c ≡ true → (c == b'_') ≡ false
  unfolding is_digit
  not_underscore c h =
      ground (arith, u.above 95 (omega arith) (omega arith), u.others 95 (omega arith))

  number_from-bad :
      (b : Bool) (acc c : ℕ) (r : Str)
      → is_digit U c ≡ true
      → U.decimal c ≡ none
      → number_from U b acc (c ∷ r) ≡ none
  unfolding number_from
  number_from-bad b acc c r hc h = ground (arith, not_underscore c hc)

  number_from-good :
      (b : Bool) (acc c d : ℕ) (r : Str)
      → U.decimal c ≡ some d
      → number_from U b acc (c ∷ r) ≡ number_from U true (acc * 10 + d) r
  unfolding number_from
  number_from-good b acc c d r h = ground arith

  number_from-none :
      (b : Bool) (acc : ℕ) (s : Str) (c : ℕ) (r : Str)
      → all_digits U s ≡ true
      → is_digit U c ≡ true
      → U.decimal c ≡ none
      → number_from U b acc (s ++ (c ∷ r)) ≡ none
  unfolding all_digits
  number_from-none b acc [] c r hs hc h = number_from-bad b acc c r hc h
  number_from-none b acc (a ∷ s) c r hs hc h = elim (Option-cases (U.decimal a)) [
    | inl e ↦ number_from-bad b acc a (s ++ (c ∷ r)) (ground arith) e
    | inr (d, e) ↦
        rw (number_from-good b acc a d (s ++ (c ∷ r)) e)
          (number_from-none true (acc * 10 + d) s c r (ground arith) hc h)
  ]

  not_sign : (c : ℕ) → is_digit U c ≡ true → ((c == b'-') ≡ false) × ((c == b'+') ≡ false)
  unfolding is_digit
  not_sign c h = ground (
    arith,
    u.below 43 (omega arith),
    u.others 43 (omega arith),
    u.below 45 (omega arith),
    u.others 45 (omega arith),
  )

  signed-none :
      (c : ℕ) (s : Str) → is_digit U c ≡ true → natural U (c ∷ s) ≡ none → signed U (c ∷ s) ≡ none
  unfolding signed
  signed-none c s hc h = let (minus, plus) = not_sign c hc in rw (minus, plus, h)

  natural-none :
      (s : Str) (c : ℕ) (r : Str)
      → all_digits U s ≡ true
      → is_digit U c ≡ true
      → U.decimal c ≡ none
      → natural U (s ++ (c ∷ r)) ≡ none
  unfolding natural
  natural-none s c r hs hc h = ground (arith, number_from-none false 0 s c r hs hc h)

  signed-refused :
      (s : Str) (c : ℕ) (r : Str)
      → all_digits U s ≡ true
      → is_digit U c ≡ true
      → U.decimal c ≡ none
      → signed U (s ++ (c ∷ r)) ≡ none
  unfolding all_digits
  signed-refused [] c r hs hc h = signed-none c r hc (natural-none [] c r hs hc h)
  signed-refused (a ∷ s) c r hs hc h =
      signed-none a (s ++ (c ∷ r)) (ground arith) (natural-none (a ∷ s) c r hs hc h)

  pub int-none :
      (s : Str) (c : ℕ) (r : Str)
      → all_digits U s ≡ true
      → is_digit U c ≡ true
      → U.decimal c ≡ none
      → All (λ d. is_int_space d ≡ false) (s ++ (c ∷ r))
      → int U (s ++ (c ∷ r)) ≡ none
  unfolding int
  int-none s c r hs hc h inner =
      rw (trim-eq is_int_space (s ++ (c ∷ r)) inner) (signed-refused s c r hs hc h)
