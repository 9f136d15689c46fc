-- ===== src/Files/Search/Hits.antt =====
-- The lines of a file that hold the keyword, and the rows for them.
use project_linux.Base.{
  ℕ, zero, suc, ◌+◌, ◌≡◌, refl, sym, ap, ◌∙◌, ◌⊎◌, inl, inr, Bool, true, false, List, [], ◌∷◌,
  get_elem?, some, Memᴰ, arith,
}
use project_linux.Text.{Str, contains}
use project_linux.Value.{text, ok, as_text}
use project_linux.FilePath.{FilePath}
use project_linux.Files.Rows.{row_if, line_row, line_rows}

row_if_sound :
    (b : Bool) (r : Str) (rows : List Str) {a : Str}
    → Memᴰ a (row_if b r rows)
    → ((b ≡ true) × (a ≡ r)) ⊎ Memᴰ a rows
row_if_sound true r rows (Memᴰ.head e) = inl (refl, e)
row_if_sound true r rows (Memᴰ.tail m) = inr m
row_if_sound false r rows m = inr m

row_if_complete :
    (b : Bool) (r : Str) (rows : List Str) {a : Str}
    → ((b ≡ true) × (a ≡ r)) ⊎ Memᴰ a rows
    → Memᴰ a (row_if b r rows)
row_if_complete true r rows (inl (h, e)) = Memᴰ.head e
row_if_complete true r rows (inr m) = Memᴰ.tail m
row_if_complete false r rows (inl (h, e)) = absurd (cc)
row_if_complete false r rows (inr m) = m

module _ (k : Str) where
  -- The rows of lines that have numbers from `n` on.
  abbrev pub hits : FilePath → ℕ → List Str → List Str
  hits path n [] = []
  hits path n (line ∷ lines) =
      row_if (contains k line) (line_row path n line) (hits path (n + 1) lines)

  pub line_rows_lem :
      (path : FilePath) (n : ℕ) (lines : List Str)
      → line_rows (text k) path n lines ≡ ok (hits path n lines)
  unfolding line_rows as_text
  line_rows_lem path n [] = refl
  line_rows_lem path n (line ∷ lines) = rw (line_rows_lem path (n + 1) lines) refl

  -- A line with the keyword, by its number from 0.
  abbrev pub Hit : FilePath → ℕ → List Str → Str → Type 0
  Hit path n lines row =
      (i : ℕ) × (line : Str) × (get_elem? lines i ≡ some line)
      × (contains k line ≡ true)
      × (row ≡ line_row path (n + i) line)

  pub hits_sound :
      (path : FilePath) (n : ℕ) (lines : List Str) {row : Str}
      → Memᴰ row (hits path n lines)
      → Hit path n lines row
  hits_sound path n [] m = elim m [ ]
  hits_sound path n (line ∷ lines) m = elim (row_if_sound (contains k line) _ _ m) [
    | inl (has, e) ↦ (0, line, refl, has, e ∙ ap (λ j. line_row path j line) (omega arith))
    | inr later ↦
        let (i, l, at, has, e) = hits_sound path (n + 1) lines later in
        (suc i, l, at, has, e ∙ ap (λ j. line_row path j l) (omega arith))
  ]

  pub hits_complete :
      (path : FilePath) (n : ℕ) (lines : List Str) (i : ℕ) {line row : Str}
      → get_elem? lines i ≡ some line
      → contains k line ≡ true
      → row ≡ line_row path (n + i) line
      → Memᴰ row (hits path n lines)
  hits_complete path n [] i at has e = absurd (cc)
  hits_complete path n (l ∷ lines) zero {line} at has e =
      let same : l ≡ line = cc in
      row_if_complete (contains k l) _ _ (
        inl (
          rw same has,
          e
              ∙ (ap (λ j. line_row path j line) (omega arith)
                  ∙ ap (λ c. line_row path n c) (sym same)),
        ))
  hits_complete path n (l ∷ lines) (suc i) {line} at has e = row_if_complete (contains k l) _ _ (
      inr (
        hits_complete path (n + 1) lines i at has
          (e ∙ ap (λ j. line_row path j line) (omega arith))))
