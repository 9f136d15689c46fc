-- ===== src/Tests/Machine.antt =====
-- A character database: ASCII, and the superscript two as a digit without a decimal value. And the
-- parts that a small machine has nothing to say of.
use project_linux.Base.{
  ◌+◌, ◌-◌, none, some, [], ◌∷◌, ◌&&◌, leb, ◌==◌, if◌then◌else◌, arith, All, Bool, true, ◌≡◌, not,
}
use project_linux.Text.{Str, Unicode, IsUnicode, codes, is_nonempty, strip}
use project_linux.Text.Lines.{is_line_end}
use project_linux.Ansi.{escape}
use project_linux.Value.{Json}
use project_linux.FilePath.{FilePath, path_of}
use project_linux.Cron.Jobs.{IsJob, IsJobChar}

abbrev pub ascii : Unicode
ascii = record {
  decimal = λ c. if leb 48 c && leb c 57 then some (c - 48) else none;
  other_digit = λ c. c == 0xb2;
  lower = λ c. if leb 65 c && leb c 90 then (c + 32) ∷ [] else c ∷ [];
}

pub ascii-IsUnicode : IsUnicode ascii
ascii-IsUnicode = record {
  digits = λ d h. ground arith;
  below = λ c h. ground arith;
  above = λ c h k. ground arith;
  others = λ c h. ground arith;
  lowers = λ c h. ground arith;
  wide_ends = λ c h. ground arith;
}

abbrev pub no_repr : Json → Str
no_repr v = []

abbrev pub home : FilePath
home = path_of (codes "/home/user/SysProject")

unfoldable pub job_chars : Str → Bool
job_chars [] = true
job_chars (c ∷ s) = not (is_line_end c) && not (c == escape) && job_chars s

pub job_chars-All : (s : Str) → job_chars s ≡ true → All IsJobChar s
unfolding job_chars
job_chars-All [] h = tt
job_chars-All (c ∷ s) h = ((ground arith, ground arith), job_chars-All s (ground arith))

pub job_chars-IsJob : (s : Str) → job_chars s ≡ true → is_nonempty (strip s) ≡ true → IsJob s
job_chars-IsJob s h n = (job_chars-All s h, n)
