-- ===== src/Ansi.antt =====
-- `clean_output` of gui_app/app.py: the removal of terminal control sequences by the regular
-- expression `\x1b\[[0-?]*[ -/]*[@-~]`.
pub mod Matching
pub mod Cleaning
use project_linux.Base.{
  ℕ, zero, suc, Bool, ◌&&◌, Option, none, some, [], ◌∷◌, leb, ◌==◌, if◌then◌else◌,
}
use project_linux.Text.{Str}

abbrev pub escape : ℕ
escape = 0x1b

abbrev pub is_param : ℕ → Bool
is_param c = leb b'0' c && leb c b'?'

abbrev pub is_intermediate : ℕ → Bool
is_intermediate c = leb b' ' c && leb c b'/'

abbrev pub is_final : ℕ → Bool
is_final c = leb b'@' c && leb c b'~'

-- One more character.
abbrev pub longer : Option ℕ → Option ℕ
longer none = none
longer (some n) = some (suc n)

-- Each function returns the length of what it matches. The three classes share no character, so a
-- greedy match never has to give one back.
unfoldable pub match_intermediates : Str → Option ℕ
match_intermediates [] = none
match_intermediates (c ∷ s) =
    if is_intermediate c
    then longer (match_intermediates s)
    else if is_final c
    then some 1
    else none

unfoldable pub match_params : Str → Option ℕ
unfolding match_intermediates
match_params [] = none
match_params (c ∷ s) = if is_param c then longer (match_params s) else match_intermediates (c ∷ s)

-- What stands behind the escape character.
unfoldable pub match_sequence : Str → Option ℕ
unfolding match_params
match_sequence [] = none
match_sequence (c ∷ s) = if c == b'[' then longer (match_params s) else none

-- `ANSI_ESCAPE.sub("", s)`, from left to right; the number counts what is left of a match.
unfoldable pub sub : ℕ → Str → Str
unfolding match_sequence
sub skipped [] = []
sub (suc n) (c ∷ s) = sub n s
sub zero (c ∷ s) = elim (if c == escape then match_sequence s else none) [
  | some n ↦ sub n s
  | none ↦ c ∷ sub 0 s
]

unfoldable pub clean_output : Option Str → Str
unfolding sub
clean_output none = []
clean_output (some s) = sub 0 s
