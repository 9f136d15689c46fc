-- ===== src/Table/Rows.antt =====
-- How a table is read: its lines are the numbered rows.
use project_linux.Base.{
  ℕ, zero, suc, ◌+◌, ◌-◌, ◌≡◌, refl, true, some, [], ◌∷◌, ◌++◌, List, All, All-append, All-mono,
  arith, length, replicate, get_elem?, ap, ◌∙◌,
}
use project_linux.Text.{Str, codes, is_nonempty}
use project_linux.Text.Lines.{splitlines}
use project_linux.Text.Lines.Laws.{IsOneLine, splitlines-join}
use project_linux.Text.Decimal.{decimal}
use project_linux.Text.Decimal.RoundTrip.{IsDigit, decimal-IsDigit}
use project_linux.Table.{align_right, row_text, rows_from, table}

replicate-All {ℓ} : (Q : ℕ → Type ℓ) (n c : ℕ) → Q c → All Q (replicate n c)
replicate-All Q zero c q = tt
replicate-All Q (suc n) c q = (q, replicate-All Q n c q)

align_right-IsOneLine : (width n : ℕ) → IsOneLine (align_right width (decimal n))
unfolding align_right
align_right-IsOneLine width n =
    All-append _ (replicate (width - length (decimal n)) b' ') (decimal n)
      (replicate-All _ (width - length (decimal n)) b' ' refl)
      (All-mono (λ c (d : IsDigit c). ground arith) (decimal n) (decimal-IsDigit n))

row_text-IsOneLine : (i : ℕ) (row : Str) → IsOneLine row → IsOneLine (row_text i row)
unfolding row_text codes
row_text-IsOneLine i row h =
    All-append _ (align_right 3 (decimal (i + 1))) (b'.' ∷ b' ' ∷ row)
      (align_right-IsOneLine 3 (i + 1)) (refl, (refl, h))

append-nonempty : (s : Str) (c : ℕ) (t : Str) → is_nonempty (s ++ (c ∷ t)) ≡ true
unfolding is_nonempty
append-nonempty [] c t = refl
append-nonempty (d ∷ s) c t = refl

row_text-nonempty : (i : ℕ) (row : Str) → is_nonempty (row_text i row) ≡ true
unfolding row_text codes
row_text-nonempty i row = append-nonempty (align_right 3 (decimal (i + 1))) b'.' (b' ' ∷ row)

rows_from-IsOneLine :
    (i : ℕ) (rows : List Str) → All IsOneLine rows → All IsOneLine (rows_from i rows)
unfolding rows_from
rows_from-IsOneLine i [] h = tt
rows_from-IsOneLine i (row ∷ rows) (hr, h) =
    (row_text-IsOneLine i row hr, rows_from-IsOneLine (i + 1) rows h)

rows_from-nonempty : (i : ℕ) (rows : List Str) → All (λ k. is_nonempty k ≡ true) (rows_from i rows)
unfolding rows_from
rows_from-nonempty i [] = tt
rows_from-nonempty i (row ∷ rows) = (row_text-nonempty i row, rows_from-nonempty (i + 1) rows)

get_elem?-rows_from :
    (rows : List Str) (k i : ℕ) {row : Str}
    → get_elem? rows i ≡ some row
    → get_elem? (rows_from k rows) i ≡ some (row_text (k + i) row)
unfolding rows_from
get_elem?-rows_from [] k i h = absurd (cc)
get_elem?-rows_from (r ∷ rows) k zero {row} h =
    let same : k ≡ k + 0 = omega arith in let is : r ≡ row = cc (h) in rw (← same, is) refl
get_elem?-rows_from (r ∷ rows) k (suc i) {row} h =
    let same : k + 1 + i ≡ k + suc i = omega arith in
    get_elem?-rows_from rows (k + 1) i h ∙ ap (λ j. some (row_text j row)) same

table-splitlines :
    (rows : List Str) {row : Str} (i : ℕ)
    → get_elem? rows i ≡ some row
    → All IsOneLine rows
    → splitlines (table rows) ≡ rows_from 0 rows
unfolding table
table-splitlines [] i h one = absurd (cc)
table-splitlines (r ∷ rows) i h (hr, one) =
    unfold rows_from in
    splitlines-join (row_text 0 r) (rows_from 1 rows)
      (row_text-IsOneLine 0 r hr, rows_from-IsOneLine 1 rows one)
      (row_text-nonempty 0 r, rows_from-nonempty 1 rows)

-- The lines of a table are its rows in order: for rows without line ends, line `i`, counted from
-- 0, is the text of row `i` behind its number, one more, and ". ".
pub table-get_elem? :
    (rows : List Str) (i : ℕ) {row : Str}
    → All IsOneLine rows
    → get_elem? rows i ≡ some row
    → get_elem? (splitlines (table rows)) i
      ≡ some (align_right 3 (decimal (i + 1)) ++ (codes ". " ++ row))
unfolding row_text
table-get_elem? rows i {row} one h =
    let start : 0 + i ≡ i = omega arith in
    rw (table-splitlines rows i h one)
      (get_elem?-rows_from rows 0 i h ∙ ap (λ j. some (row_text j row)) start)
