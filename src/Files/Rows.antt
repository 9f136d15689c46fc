-- ===== src/Files/Rows.antt =====
-- The rows that the two searches of gui_app/app.py collect, from names and lines.
use project_linux.Base.{
  ℕ, ◌+◌, Bool, true, false, List, [], ◌∷◌, ◌++◌, ◌==◌, ltb, take, if◌then◌else◌,
}
use project_linux.Text.{Str, codes, contains, text_eq}
use project_linux.Text.Decimal.{decimal}
use project_linux.Value.{Json, type_error, Result, ok, as_text, ◌>>=◌}
use project_linux.FilePath.{FilePath, path_of, ◌/◌, show}
use project_linux.Files.Glob.{fnmatch}

-- Python's order of texts.
unfoldable pub text_lt : Str → Str → Bool
text_lt s [] = false
text_lt [] (d ∷ t) = true
text_lt (c ∷ s) (d ∷ t) = if c == d then text_lt s t else ltb c d

unfoldable pub insert_name : Str → List Str → List Str
unfolding text_lt text_eq
insert_name n [] = n ∷ []
insert_name n (m ∷ ms) =
    if text_eq n m then m ∷ ms else if text_lt n m then n ∷ m ∷ ms else m ∷ insert_name n ms

-- `sorted(set(names))`
unfoldable pub sorted_set : List Str → List Str
unfolding insert_name
sorted_set [] = []
sorted_set (n ∷ ns) = insert_name n (sorted_set ns)

-- `Path(dirpath) / name`
abbrev pub in_dir : Str → Str → FilePath
in_dir dirpath name = ◌/◌ (path_of dirpath) (path_of name)

-- `if test: rows.append(row)`
abbrev pub row_if : Bool → Str → List Str → List Str
row_if b row rows = if b then row ∷ rows else rows

-- The names of a directory that match; `fnmatch` wants a text.
unfoldable pub name_rows : Json → Str → List Str → Result (List Str)
unfolding fnmatch
name_rows pat dirpath [] = ok []
name_rows pat dirpath (n ∷ ns) = do
  p ← as_text type_error pat
  rows ← name_rows pat dirpath ns
  ok (row_if (fnmatch n p) (show (in_dir dirpath n)) rows)

-- f"{path}:{no}: {line[:160]}"
unfoldable pub line_row : FilePath → ℕ → Str → Str
unfolding decimal codes
line_row path number line =
    show path ++ (codes ":" ++ (decimal number ++ (codes ": " ++ take 160 line)))

-- The lines of a file that hold the keyword, from the line with given number on; `in` wants a text.
unfoldable pub line_rows : Json → FilePath → ℕ → List Str → Result (List Str)
unfolding line_row contains
line_rows keyword path number [] = ok []
line_rows keyword path number (line ∷ lines) = do
  k ← as_text type_error keyword
  rows ← line_rows keyword path (number + 1) lines
  ok (row_if (contains k line) (line_row path number line) rows)
