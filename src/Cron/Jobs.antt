-- ===== src/Cron/Jobs.antt =====
-- The view of a crontab that the program works with, as a list of jobs, and its round trip through
-- the text that is installed.
use project_linux.Base.{
  ℕ, ◌≡◌, ◌≢◌, refl, ap, ◌∙◌, true, false, Option, none, some, [], ◌∷◌, ◌++◌, List, All, All-append,
  All-mono, append_assoc, arith,
}
use project_linux.Text.{Str, codes, is_nonempty, strip, join}
use project_linux.Text.Lines.{is_line_end, splitlines, universal_newlines}
use project_linux.Text.Lines.Laws.{terminated, splitlines-terminated, universal_newlines-eq}
use project_linux.Ansi.{escape, clean_output}
use project_linux.Ansi.Cleaning.{clean_output-eq}
use project_linux.Cron.Crontab.{nonblank, content_of}

-- The jobs of a crontab, as `read_crontab_lines` finds them.
unfoldable pub jobs : Option Str → List Str
jobs none = []
jobs (some t) = nonblank (splitlines (clean_output (some (universal_newlines t))))

abbrev pub IsJobChar : ℕ → Type 0
IsJobChar c = (is_line_end c ≡ false) × (c ≢ escape)

-- A line that is not blank, and holds no line end and no escape character.
abbrev pub IsJob : Str → Type 0
IsJob l = All IsJobChar l × (is_nonempty (strip l) ≡ true)

nonblank-eq : (ls : List Str) → All IsJob ls → nonblank ls ≡ ls
unfolding nonblank
nonblank-eq [] h = refl
nonblank-eq (l ∷ ls) ((_, hl), h) = rw (hl, nonblank-eq ls h)

join-terminated :
    (l : Str) (ls : List Str) → join (codes "\n") (l ∷ ls) ++ codes "\n" ≡ terminated (l ∷ ls)
unfolding join terminated codes
join-terminated l [] = refl
join-terminated l (k ∷ ls) = simp append_assoc (ap (λ r. l ++ (10 ∷ r)) (join-terminated k ls))

-- The text with a final line break; a first job makes the text nonempty.
content_of-cons :
    (l : Str) (ls : List Str)
    → is_nonempty (strip l) ≡ true
    → content_of (l ∷ ls) ≡ join (codes "\n") (l ∷ ls) ++ codes "\n"
unfolding content_of
content_of-cons [] ls h = absurd (unfold strip is_nonempty in (cc))
content_of-cons (c ∷ l) [] h = refl
content_of-cons (c ∷ l) (k ∷ ls) h = refl

content-terminated : (ls : List Str) → All IsJob ls → content_of ls ≡ terminated ls
content-terminated [] h = unfold content_of terminated in refl
content-terminated (l ∷ ls) ((_, hl), h) = content_of-cons l ls hl ∙ join-terminated l ls

terminated-All {ℓ} :
    (Q : ℕ → Type ℓ) (ls : List Str) → Q 10 → All (All Q) ls → All Q (terminated ls)
unfolding terminated
terminated-All Q [] q h = tt
terminated-All Q (l ∷ ls) q (hl, h) = All-append Q l _ hl (q, terminated-All Q ls q h)

-- The text that `write_crontab_lines` installs for a list of jobs is read back as that list, if each
-- is one line without escape characters and not blank.
pub jobs-content_of : (ls : List Str) → All IsJob ls → jobs (some (content_of ls)) ≡ ls
unfolding jobs
jobs-content_of ls h =
    rw
      (
        content-terminated ls h,
        universal_newlines-eq (terminated ls) (
            terminated-All _ ls (omega arith) (
              All-mono (λ l (j : IsJob l). All-mono (λ c (k : IsJobChar c). ground arith) l j.0) ls
                h)),
        clean_output-eq (terminated ls) (
            terminated-All _ ls (omega arith)
              (All-mono (λ l (j : IsJob l). All-mono (λ c (k : IsJobChar c). k.1) l j.0) ls h)),
        splitlines-terminated ls
            (All-mono (λ l (j : IsJob l). All-mono (λ c (k : IsJobChar c). k.0) l j.0) ls h),
      )
      (nonblank-eq ls h)
