-- ===== src/Quote/Reading.antt =====
-- How a shell reads what `sh_quote` writes.
use project_linux.Base.{
  ℕ, ◌≡◌, ◌≢◌, ◌∙◌, [], ◌∷◌, ◌++◌, append_assoc, arith, Bool-cases, inl, inr, true, false, ◌==◌,
  append-nil, ap,
}
use project_linux.Text.{Str, codes}
use project_linux.Quote.{replace, sh_quote}

pub data Quoting : Type 0 where
  bare single double : Quoting

-- What the POSIX shell says of quotation marks. `scan` reads from a position in a word, of which it
-- has the value so far, to the end of the input, and returns what the shell makes of it.
pub record Shell : Type 1 where
  pub Out : Type 0
  pub scan : Quoting → Str → Str → Out
  pub bare_single : (acc s : Str) → scan bare acc (b'\'' ∷ s) ≡ scan single acc s
  pub bare_double : (acc s : Str) → scan bare acc (b'"' ∷ s) ≡ scan double acc s
  pub single_char :
      (acc : Str) (c : ℕ) (s : Str)
      → c ≢ b'\''
      → scan single acc (c ∷ s) ≡ scan single (acc ++ (c ∷ [])) s
  pub single_end : (acc s : Str) → scan single acc (b'\'' ∷ s) ≡ scan bare acc s
  pub double_single :
      (acc s : Str) → scan double acc (b'\'' ∷ s) ≡ scan double (acc ++ (b'\'' ∷ [])) s
  pub double_end : (acc s : Str) → scan double acc (b'"' ∷ s) ≡ scan bare acc s

replace-mark :
    (c : ℕ) (s : Str)
    → (c == b'\'') ≡ true
    → replace b'\'' (codes "'\"'\"'") (c ∷ s) ≡ codes "'\"'\"'" ++ replace b'\'' (codes "'\"'\"'") s
unfolding replace
replace-mark c s e = rw e

replace-other :
    (c : ℕ) (s : Str)
    → (c == b'\'') ≡ false
    → replace b'\'' (codes "'\"'\"'") (c ∷ s) ≡ c ∷ replace b'\'' (codes "'\"'\"'") s
unfolding replace
replace-other c s e = rw e

module _ (S : Shell) where
  -- Out of the single quotes, one quotation mark in double quotes, and back.
  quote_mark :
      (acc s : Str)
      → S.scan single acc (codes "'\"'\"'" ++ s) ≡ S.scan single (acc ++ (b'\'' ∷ [])) s
  unfolding codes
  quote_mark acc s =
      S.single_end acc _
      ∙ S.bare_double acc _
      ∙ S.double_single acc _
      ∙ S.double_end _ _
      ∙ S.bare_single _ s

  inside_mark :
      (s acc rest t : Str)
      → S.scan single (acc ++ (b'\'' ∷ [])) rest ≡ S.scan bare ((acc ++ (b'\'' ∷ [])) ++ s) t
      → S.scan single acc (codes "'\"'\"'" ++ rest) ≡ S.scan bare (acc ++ (b'\'' ∷ s)) t
  inside_mark s acc rest t h =
      quote_mark acc rest ∙ h ∙ ap (λ a. S.scan bare a t) (append_assoc acc (b'\'' ∷ []) s)

  inside_char :
      (c : ℕ) (s acc rest t : Str)
      → c ≢ b'\''
      → S.scan single (acc ++ (c ∷ [])) rest ≡ S.scan bare ((acc ++ (c ∷ [])) ++ s) t
      → S.scan single acc (c ∷ rest) ≡ S.scan bare (acc ++ (c ∷ s)) t
  inside_char c s acc rest t n h =
      S.single_char acc c rest n ∙ h ∙ ap (λ a. S.scan bare a t) (append_assoc acc (c ∷ []) s)

  -- Within the single quotes, up to the closing one.
  inside :
      (s rest acc : Str)
      → S.scan single acc (replace b'\'' (codes "'\"'\"'") s ++ (b'\'' ∷ rest))
        ≡ S.scan bare (acc ++ s) rest
  inside [] rest acc = unfold replace in rw append-nil (S.single_end acc rest)
  inside (c ∷ s) rest acc = elim (Bool-cases (c == b'\'')) [
    | inl e ↦
        let h = inside s rest (acc ++ (b'\'' ∷ [])) in
        let is : c ≡ b'\'' = ground arith in
        rw (replace-mark c s e, append_assoc, is) (inside_mark s acc _ rest h)
    | inr n ↦
        let h = inside s rest (acc ++ (c ∷ [])) in
        rw (replace-other c s n) (inside_char c s acc _ rest (λ e. ground arith) h)
  ]

  -- A quoted text is read as itself, whatever it holds: from any position in a word, in front of
  -- anything, the shell has added the text to the word, and stands outside every quotation again.
  pub scan-sh_quote :
      (s rest acc : Str) → S.scan bare acc (sh_quote s ++ rest) ≡ S.scan bare (acc ++ s) rest
  unfolding sh_quote codes
  scan-sh_quote s rest acc = S.bare_single acc _ ∙ rw append_assoc (inside s rest acc)
