-- ===== src/Text/Lines.antt =====
-- `str.splitlines`, and the newline translation of a text-mode pipe.
pub mod Laws
use project_linux.Base.{ℕ, Bool, false, ◌&&◌, ◌||◌, List, [], ◌∷◌, ◌++◌, leb, ◌==◌}
use project_linux.Base.{if◌then◌else◌}
use project_linux.Text.{Str}

abbrev pub is_line_end : ℕ → Bool
is_line_end c =
    (leb 10 c && leb c 13)
    || (leb 28 c && leb c 30)
    || (c == 0x85)
    || (c == 0x2028)
    || (c == 0x2029)

-- What one character does: the second half of "\r\n", the end of a line, or a part of it.
pub data LineChar : Type 0 where
  joined ends inside : LineChar

line_char : Bool → ℕ → LineChar
line_char cr c = if cr && (c == 10) then joined else if is_line_end c then ends else inside

pub last_line : Str → List Str
last_line [] = []
last_line (c ∷ s) = (c ∷ s) ∷ []

-- `cr`: the character before was "\r"; `cur`: the line so far.
pub lines_onto : Bool → Str → Str → List Str
unfolding line_char last_line
lines_onto cr cur [] = last_line cur
lines_onto cr cur (c ∷ s) = elim (line_char cr c) [
  | joined ↦ lines_onto false cur s
  | ends ↦ cur ∷ lines_onto (c == 13) [] s
  | inside ↦ lines_onto false (cur ++ (c ∷ [])) s
]

-- `s.splitlines()`
unfoldable pub splitlines : Str → List Str
unfolding lines_onto
splitlines s = lines_onto false [] s

-- `cr`: the character before was "\r", for which "\n" has been written.
translate : Bool → Str → Str
translate cr [] = []
translate cr (c ∷ s) =
    let rest = translate (c == 13) s in
    if c == 13 then 10 ∷ rest else if cr && (c == 10) then rest else c ∷ rest

-- "\r\n" and "\r" are read as "\n".
unfoldable pub universal_newlines : Str → Str
unfolding translate
universal_newlines s = translate false s
