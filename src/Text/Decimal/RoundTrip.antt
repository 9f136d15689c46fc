-- ===== src/Text/Decimal/RoundTrip.antt =====
-- `int(str(n))` is n.
use project_linux.Base.{
  ℕ, zero, suc, ◌+◌, ◌-◌, ◌*◌, ◌/◌, ◌%◌, ◌≤◌, ◌<◌, ◌≡◌, ◌⊎◌, inl, inr, refl, Bool, true, false,
  some, none, [], ◌∷◌, ◌++◌, arith, append_assoc, All, All-append, All-mono, length, Bool-cases,
  ltb, append-nil, ap, sym, ◌∙◌, Option,
}
use project_linux.Base.Int.{ℤ, pos}
use project_linux.Text.{Str, Unicode, IsUnicode, is_int_space, is_nonempty}
use project_linux.Text.Strip.{trim-eq}
use project_linux.Text.Decimal.{
  digits_of, decimal, max_str_digits, count_digits, number_from, natural, signed, int,
}

abbrev pub IsDigit : ℕ → Type 0
IsDigit c = (48 ≤ c) × (c ≤ 57)

digits_of-short : (f n : ℕ) → n < 10 → digits_of (suc f) n ≡ (48 + n) ∷ []
unfolding digits_of
digits_of-short f n h = ground arith

digits_of-long :
    (f n : ℕ) → 10 ≤ n → digits_of (suc f) n ≡ digits_of f (n / 10) ++ ((48 + n % 10) ∷ [])
unfolding digits_of
digits_of-long f n h = ground arith

ten_or_more : (n : ℕ) → (n < 10) ⊎ (10 ≤ n)
ten_or_more n = elim (Bool-cases (ltb n 10)) [
  | inl e ↦ inl (ground arith)
  | inr e ↦ inr (ground arith)
]

digits_of-IsDigit : (f n : ℕ) → All IsDigit (digits_of f n)
digits_of-IsDigit zero n = unfold digits_of in tt
digits_of-IsDigit (suc f) n = elim (ten_or_more n) [
  | inl h ↦ rw (digits_of-short f n h) ((omega arith, omega arith), tt)
  | inr h ↦ rw (digits_of-long f n h) (
      All-append IsDigit (digits_of f (n / 10)) _ (digits_of-IsDigit f (n / 10))
        ((omega arith, omega arith), tt))
]

pub decimal-IsDigit : (n : ℕ) → All IsDigit (decimal n)
unfolding decimal
decimal-IsDigit n = digits_of-IsDigit (suc n) n

nonempty-append : (s : Str) (c : ℕ) → is_nonempty (s ++ (c ∷ [])) ≡ true
unfolding is_nonempty
nonempty-append [] c = refl
nonempty-append (d ∷ s) c = refl

pub decimal-nonempty : (n : ℕ) → is_nonempty (decimal n) ≡ true
unfolding decimal
decimal-nonempty n = elim (ten_or_more n) [
  | inl h ↦ rw (digits_of-short n n h) (unfold is_nonempty in refl)
  | inr h ↦ rw (digits_of-long n n h) (nonempty-append (digits_of n (n / 10)) (48 + n % 10))
]

module _ (U : Unicode) (u : IsUnicode U) where
  end_of : (n : ℕ) → number_from U true n [] ≡ some n
  unfolding number_from
  end_of n = refl

  number_from-digit :
      (b : Bool) (acc d : ℕ) (s : Str)
      → d ≤ 9
      → number_from U b acc ((48 + d) ∷ s) ≡ number_from U true (acc * 10 + d) s
  unfolding number_from
  number_from-digit b acc d s h = rw (number_from, u.digits d h)

  number_from-digits_of :
      (f n : ℕ) (b : Bool) (rest : Str)
      → n < f
      → number_from U b 0 (digits_of f n ++ rest) ≡ number_from U true n rest
  number_from-digits_of zero n b rest h = absurd (omega arith)
  number_from-digits_of (suc f) n b rest h = elim (ten_or_more n) [
    | inl e ↦
        rw (digits_of-short f n e, number_from-digit b 0 n rest (omega arith))
          (let whole : 0 * 10 + n ≡ n = omega arith in rw whole)
    | inr e ↦
        rw
          (
            digits_of-long f n e,
            append_assoc,
            number_from-digits_of f (n / 10) b _ (omega arith),
            number_from-digit true (n / 10) (n % 10) rest (omega arith),
          )
          (let whole : n / 10 * 10 + n % 10 ≡ n = omega arith in rw whole)
  ]

  count_digits-le : (s : Str) → count_digits U s ≤ length s
  unfolding count_digits
  count_digits-le [] = omega arith
  count_digits-le (c ∷ s) = ground (arith, count_digits-le s)

  pub number_from-decimal : (n : ℕ) → number_from U false 0 (decimal n) ≡ some n
  unfolding decimal
  number_from-decimal n =
      ap (number_from U false 0) (sym (append-nil (digits_of (suc n) n)))
      ∙ number_from-digits_of (suc n) n false [] (omega arith)
      ∙ end_of n

  natural-decimal : (n : ℕ) → length (decimal n) ≤ max_str_digits → natural U (decimal n) ≡ some n
  unfolding natural
  natural-decimal n h = ground (arith, count_digits-le (decimal n), number_from-decimal n)

  abbrev as_pos : Option ℕ → Option ℤ
  as_pos none = none
  as_pos (some n) = some (pos n)

  signed-natural : (s : Str) → All IsDigit s → signed U s ≡ as_pos (natural U s)
  unfolding signed
  signed-natural [] h = unfold natural number_from count_digits in refl
  signed-natural (c ∷ s) ((lo, hi), h) = ground arith

  no_space : (c : ℕ) → IsDigit c → is_int_space c ≡ false
  no_space c h = ground arith

  -- A printed number is read back, if it is not longer than Python's limit for `int`.
  pub int-decimal : (n : ℕ) → length (decimal n) ≤ max_str_digits → int U (decimal n) ≡ some (pos n)
  unfolding int
  int-decimal n h = rw (
    trim-eq is_int_space (decimal n) (All-mono no_space (decimal n) (decimal-IsDigit n)),
    signed-natural (decimal n) (decimal-IsDigit n),
    natural-decimal n h,
  )

  number_from-IsDigit :
      (b : Bool) (acc c : ℕ) (s : Str)
      → IsDigit c
      → number_from U b acc (c ∷ s) ≡ number_from U true (acc * 10 + (c - 48)) s
  number_from-IsDigit b acc c s (lo, hi) =
      let e : c ≡ 48 + (c - 48) = omega arith in
      rw (← e) at (number_from-digit b acc (c - 48) s (omega arith))

  number_from-some :
      (b : Bool) (acc c : ℕ) (s : Str)
      → All IsDigit (c ∷ s)
      → (n : ℕ) × (number_from U b acc (c ∷ s) ≡ some n)
  number_from-some b acc c [] (hc, h) =
      (acc * 10 + (c - 48), number_from-IsDigit b acc c [] hc ∙ end_of (acc * 10 + (c - 48)))
  number_from-some b acc c (d ∷ s) (hc, h) =
      let (n, r) = number_from-some true (acc * 10 + (c - 48)) d s h in
      (n, number_from-IsDigit b acc c (d ∷ s) hc ∙ r)

  -- A text of ASCII digits within the limit is read.
  pub int-some :
      (c : ℕ) (s : Str)
      → All IsDigit (c ∷ s)
      → length (c ∷ s) ≤ max_str_digits
      → (n : ℕ) × (int U (c ∷ s) ≡ some (pos n))
  unfolding int natural
  int-some c s h fits =
      let (n, r) = number_from-some false 0 c s h in
      (
        n,
        rw (trim-eq is_int_space (c ∷ s) (All-mono no_space (c ∷ s) h), signed-natural (c ∷ s) h)
            (ground (arith, count_digits-le (c ∷ s), r)),
      )
