-- ===== src/Text/Decimal.antt =====
-- `str(n)` and `int(s)`.
pub mod RoundTrip
pub mod Refused
use project_linux.Base.{
  ℕ, zero, suc, ◌+◌, ◌*◌, ◌/◌, ◌%◌, Bool, true, false, ◌&&◌, Option, none, some, [], ◌∷◌, ◌++◌, ltb,
  ◌==◌, if◌then◌else◌,
}
use project_linux.Base.Int.{ℤ, pos, negsuc, negate}
use project_linux.Text.{Str, Unicode, trim, is_int_space}

-- The last digit is written last; the fuel bounds the number of digits.
pub digits_of : ℕ → ℕ → Str
digits_of zero n = []
digits_of (suc fuel) n =
    let front = digits_of fuel (n / 10) in
    if ltb n 10 then (48 + n) ∷ [] else front ++ ((48 + n % 10) ∷ [])

-- `str(n)`: a number has no more digits than its successor counts.
unfoldable pub decimal : ℕ → Str
unfolding digits_of
decimal n = digits_of (suc n) n

unfoldable pub decimal_ℤ : ℤ → Str
unfolding decimal
decimal_ℤ (pos n) = decimal n
decimal_ℤ (negsuc n) = b'-' ∷ decimal (suc n)

-- sys.get_int_max_str_digits()
abbrev pub max_str_digits : ℕ
max_str_digits = 4300

module _ (U : Unicode) where
  count_digits : Str → ℕ
  count_digits [] = 0
  count_digits (c ∷ s) = elim (U.decimal c) [
    | some d ↦ suc (count_digits s)
    | none ↦ count_digits s
  ]

  -- `after`: the character before is a digit, so an underscore or the end may follow.
  unfoldable pub number_from : Bool → ℕ → Str → Option ℕ
  number_from after acc [] = if after then some acc else none
  number_from after acc (c ∷ s) = elim (U.decimal c) [
    | some d ↦ number_from true (acc * 10 + d) s
    | none ↦ if after && (c == b'_') then number_from false acc s else none
  ]

  natural : Str → Option ℕ
  unfolding count_digits number_from
  natural s = if ltb max_str_digits (count_digits s) then none else number_from false 0 s

  signed : Str → Option ℤ
  unfolding natural
  signed [] = none
  signed (c ∷ s) =
      if c == b'-'
      then elim (natural s) [ some n ↦ some (negate n) | none ↦ none ]
      else elim (natural (if c == b'+' then s else c ∷ s)) [ some n ↦ some (pos n) | none ↦ none ]

  -- `int(s)`; `none` is a `ValueError`.
  unfoldable pub int : Str → Option ℤ
  unfolding signed trim
  int s = signed (trim is_int_space s)
