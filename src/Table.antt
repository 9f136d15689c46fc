-- ===== src/Table.antt =====
-- `table` of gui_app/app.py: a numbered list of rows.
pub mod Rows
use project_linux.Base.{ℕ, ◌+◌, ◌-◌, List, [], ◌∷◌, ◌++◌, length, replicate}
use project_linux.Text.{Str, codes, join}
use project_linux.Text.Decimal.{decimal}

-- `f"{s:>3}"` of a number's text
unfoldable pub align_right : ℕ → Str → Str
align_right width s = replicate (width - length s) b' ' ++ s

unfoldable pub row_text : ℕ → Str → Str
unfolding align_right decimal codes
row_text i row = align_right 3 (decimal (i + 1)) ++ (codes ". " ++ row)

unfoldable pub rows_from : ℕ → List Str → List Str
unfolding row_text
rows_from i [] = []
rows_from i (row ∷ rows) = row_text i row ∷ rows_from (i + 1) rows

unfoldable pub table : List Str → Str
unfolding rows_from join codes
table [] = codes "Khong co ket qua."
table (row ∷ rows) = join (codes "\n") (rows_from 0 (row ∷ rows))
