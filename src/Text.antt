-- ===== src/Text.antt =====
-- Python's `str` as the list of its code points, and the methods of it that gui_app/app.py calls.
-- What Python takes from the Unicode character database is the parameter `Unicode`.
pub mod Lines
pub mod Decimal
pub mod Laws
pub mod Distinct
pub mod Strip
use Prim.Native.Char.{code}
use project_linux.Base.{
  ℕ, ◌+◌, ◌≤◌, ◌≡◌, Bool, true, false, ◌&&◌, ◌||◌, not, Option, none, some, List, [], ◌∷◌, ◌++◌,
  String, ltb, leb, ◌==◌, if◌then◌else◌, ◌↔◌,
}

abbrev pub Str : Type 0
Str = List ℕ

-- The code points of a literal.
unfoldable pub codes : String → Str
codes String.[] = []
codes (String.◌∷◌ c s) = code c ∷ codes s

unfoldable pub text_eq : Str → Str → Bool
text_eq [] [] = true
text_eq [] (d ∷ t) = false
text_eq (c ∷ s) [] = false
text_eq (c ∷ s) (d ∷ t) = (c == d) && text_eq s t

-- `bool(s)`
unfoldable pub is_nonempty : Str → Bool
is_nonempty [] = false
is_nonempty (c ∷ s) = true

-- `s or t`
unfoldable pub text_or : Str → Str → Str
text_or [] t = t
text_or (c ∷ s) t = c ∷ s

-- `s.startswith(p)`
unfoldable pub starts_with : Str → Str → Bool
starts_with s [] = true
starts_with [] (d ∷ p) = false
starts_with (c ∷ s) (d ∷ p) = (c == d) && starts_with s p

-- `p in s`
unfoldable pub contains : Str → Str → Bool
unfolding starts_with
contains p [] = starts_with [] p
contains p (c ∷ s) = starts_with (c ∷ s) p || contains p s

-- `sep.join(parts)`
unfoldable pub join : Str → List Str → Str
join sep [] = []
join sep (p ∷ []) = p
join sep (p ∷ q ∷ ps) = p ++ (sep ++ join sep (q ∷ ps))

-- `str.isspace` of one character.
abbrev pub is_space : ℕ → Bool
is_space c =
    (leb 9 c && leb c 13)
    || (leb 28 c && leb c 32)
    || (c == 0x85)
    || (c == 0xa0)
    || (c == 0x1680)
    || (leb 0x2000 c && leb c 0x200a)
    || (c == 0x2028)
    || (c == 0x2029)
    || (c == 0x202f)
    || (c == 0x205f)
    || (c == 0x3000)

-- `int` strips the same characters but for the four ASCII separators.
abbrev pub is_int_space : ℕ → Bool
is_int_space c = is_space c && not (leb 28 c && leb c 31)

module _ (drops : ℕ → Bool) where
  unfoldable pub trim_left : Str → Str
  trim_left [] = []
  trim_left (c ∷ s) = if drops c then trim_left s else c ∷ s

  unfoldable pub trim_cons : ℕ → Str → Str
  trim_cons c [] = if drops c then [] else c ∷ []
  trim_cons c (d ∷ s) = c ∷ d ∷ s

  unfoldable pub trim_right : Str → Str
  unfolding trim_cons
  trim_right [] = []
  trim_right (c ∷ s) = trim_cons c (trim_right s)

  unfoldable pub trim : Str → Str
  unfolding trim_left trim_right
  trim s = trim_right (trim_left s)

-- `s.strip()`
unfoldable pub strip : Str → Str
unfolding trim
strip = trim is_space

-- The character database: the value of a decimal digit (category Nd), the characters that are
-- digits without a decimal value, such as superscripts, and the lower case of a character.
pub record Unicode : Type 0 where
  pub decimal : ℕ → Option ℕ
  pub other_digit : ℕ → Bool
  pub lower : ℕ → Str

-- What the database says of ASCII, and that no character is both a digit and the end of a line.
pub record IsUnicode (U : Unicode) : Type 0 where
  pub digits : (d : ℕ) → d ≤ 9 → U.decimal (48 + d) ≡ some d
  pub below : (c : ℕ) → c ≤ 47 → U.decimal c ≡ none
  pub above : (c : ℕ) → 58 ≤ c → c ≤ 127 → U.decimal c ≡ none
  pub others : (c : ℕ) → c ≤ 127 → U.other_digit c ≡ false
  pub lowers :
      (c : ℕ) → c ≤ 127 → U.lower c ≡ (if leb 65 c && leb c 90 then (c + 32) ∷ [] else c ∷ [])
  pub wide_ends :
      (c : ℕ)
      → ((c == 0x85) || (c == 0x2028) || (c == 0x2029)) ≡ true
      → (U.decimal c ≡ none) × (U.other_digit c ≡ false)

module _ (U : Unicode) where
  -- `str.isdigit` of one character.
  unfoldable pub is_digit : ℕ → Bool
  is_digit c = elim (U.decimal c) [ some d ↦ true | none ↦ U.other_digit c ]

  unfoldable pub all_digits : Str → Bool
  unfolding is_digit
  all_digits [] = true
  all_digits (c ∷ s) = is_digit c && all_digits s

  -- `s.isdigit()`
  unfoldable pub isdigit : Str → Bool
  unfolding all_digits is_nonempty
  isdigit s = is_nonempty s && all_digits s

  -- `s.lower()`
  unfoldable pub lower : Str → Str
  lower [] = []
  lower (c ∷ s) = U.lower c ++ lower s
