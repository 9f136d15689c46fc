-- ===== src/Files/Glob.antt =====
-- `fnmatch.fnmatch` on a POSIX system, where it minds the case.
use project_linux.Base.{
  ℕ, zero, suc, ◌+◌, Bool, true, false, ◌&&◌, ◌||◌, not, Option, none, some, List, [], ◌∷◌, ◌==◌,
  leb, length, if◌then◌else◌,
}
use project_linux.Text.{Str}

pub data Item : Type 0 where
  star any : Item
  literal : ℕ → Item
  -- a set of ranges, negated or not
  class : Bool → List (ℕ × ℕ) → Item

abbrev pub after_char : ℕ → Option Str → Option Str
after_char c none = none
after_char c (some t) = some (c ∷ t)

-- What stands before the first "]".
unfoldable pub before_close : Str → Option Str
before_close [] = none
before_close (c ∷ s) = if c == b']' then some [] else after_char c (before_close s)

-- A "]" at the front stands for itself.
unfoldable pub class_text : Str → Option Str
unfolding before_close
class_text [] = none
class_text (c ∷ s) = if c == b']' then after_char c (before_close s) else before_close (c ∷ s)

-- "a-z" is a range, empty if it runs backwards; a "-" at either end stands for itself.
unfoldable pub ranges : Str → List (ℕ × ℕ)
ranges [] = []
ranges (a ∷ []) = (a, a) ∷ []
ranges (a ∷ d ∷ []) = (a, a) ∷ (d, d) ∷ []
ranges (a ∷ d ∷ b ∷ s) = elim (d == b'-') [
  | true ↦ (a, b) ∷ ranges s
  | false ↦ (a, a) ∷ ranges (d ∷ b ∷ s)
]

-- A class and the number of characters that it takes behind its "[".
abbrev pub sized_class : Bool → ℕ → Option Str → Option (Item × ℕ)
sized_class negated n none = none
sized_class negated n (some t) = some (class negated (ranges t), n + length t + 1)

unfoldable pub class_at : Str → Option (Item × ℕ)
unfolding class_text ranges
class_at [] = none
class_at (c ∷ s) =
    if c == b'!'
    then sized_class true 1 (class_text s)
    else sized_class false 0 (class_text (c ∷ s))

unfoldable pub compile_at : ℕ → Option (Item × ℕ) → Item × ℕ
compile_at c none = (literal c, 0)
compile_at c (some found) = found

-- The item that a character begins, and how many characters behind it belong to it.
unfoldable pub item_at : ℕ → Str → Item × ℕ
unfolding class_at compile_at
item_at c s =
    if c == b'*'
    then (star, 0)
    else if c == b'?'
    then (any, 0)
    else if c == b'['
    then compile_at c (class_at s)
    else (literal c, 0)

-- `skip`: the characters that belong to the last item.
unfoldable pub compile : ℕ → Str → List Item
unfolding item_at
compile skip [] = []
compile (suc skip) (c ∷ s) = compile skip s
compile zero (c ∷ s) = (item_at c s).0 ∷ compile (item_at c s).1 s

unfoldable pub in_ranges : List (ℕ × ℕ) → ℕ → Bool
in_ranges [] c = false
in_ranges ((a, b) ∷ rs) c = (leb a c && leb c b) || in_ranges rs c

unfoldable pub accepts : Item → ℕ → Bool
unfolding in_ranges
accepts star c = false
accepts any c = true
accepts (literal d) c = c == d
accepts (class true rs) c = not (in_ranges rs c)
accepts (class false rs) c = in_ranges rs c

unfoldable pub matches : List Item → Str → Bool
unfolding accepts
matches [] [] = true
matches [] (c ∷ s) = false
matches (star ∷ p) [] = matches p []
matches (star ∷ p) (c ∷ s) = elim (matches p (c ∷ s)) [ true ↦ true | false ↦ matches (star ∷ p) s ]
matches (item ∷ p) [] = false
matches (item ∷ p) (c ∷ s) = accepts item c && matches p s

unfoldable pub fnmatch : Str → Str → Bool
unfolding compile matches
fnmatch name pat = matches (compile 0 pat) name
