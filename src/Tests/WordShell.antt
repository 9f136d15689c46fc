-- ===== src/Tests/WordShell.antt =====
-- A shell that reads one word: its value up to the first blank outside of quotation marks, unless
-- the input ends within them.
use project_linux.Base.{
  ℕ, true, false, Option, none, some, [], ◌∷◌, ◌++◌, ◌==◌, ◌≡◌, ◌≢◌, refl, arith,
}
use project_linux.Text.{Str}
use project_linux.Quote.Reading.{Quoting, bare, single, double, Shell}

unfoldable pub scan_word : Quoting → Str → Str → Option Str
scan_word bare acc [] = some acc
scan_word bare acc (c ∷ s) = elim (c == b'\'') [
  | true ↦ scan_word single acc s
  | false ↦ elim (c == b'"') [
    | true ↦ scan_word double acc s
    | false ↦ elim (c == b' ') [ true ↦ some acc | false ↦ scan_word bare (acc ++ (c ∷ [])) s ]
  ]
]
scan_word single acc [] = none
scan_word single acc (c ∷ s) = elim (c == b'\'') [
  | true ↦ scan_word bare acc s
  | false ↦ scan_word single (acc ++ (c ∷ [])) s
]
scan_word double acc [] = none
scan_word double acc (c ∷ s) = elim (c == b'"') [
  | true ↦ scan_word bare acc s
  | false ↦ scan_word double (acc ++ (c ∷ [])) s
]

pub single_other :
    (acc : Str) (c : ℕ) (s : Str)
    → c ≢ b'\''
    → scan_word single acc (c ∷ s) ≡ scan_word single (acc ++ (c ∷ [])) s
unfolding scan_word
single_other acc c s h = ground arith

unfoldable pub word_shell : Shell
unfolding scan_word
word_shell = record {
  Out = Option Str;
  scan = scan_word;
  bare_single = λ acc s. refl;
  bare_double = λ acc s. refl;
  single_char = single_other;
  single_end = λ acc s. refl;
  double_single = λ acc s. refl;
  double_end = λ acc s. refl;
}
