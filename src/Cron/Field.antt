-- ===== src/Cron/Field.antt =====
-- `valid_cron_field` of gui_app/app.py.
pub mod Meaning
pub mod Raises
pub mod Clean
use project_linux.Base.{
  ℕ, ◌+◌, Bool, true, false, ◌&&◌, not, Option, none, some, drop, if◌then◌else◌,
}
use project_linux.Base.Int.{ℤ, pos, ltb_ℤ, leb_ℤ}
use project_linux.Text.{Str, codes, Unicode, strip, starts_with, text_eq, isdigit}
use project_linux.Value.{Json, str, int_of_text, Result, ok, ◌>>=◌}

-- `low is None or number >= low`
abbrev pub at_least : Option ℕ → ℤ → Bool
at_least none n = true
at_least (some low) n = leb_ℤ (pos low) n

-- `high is None or number <= high`
abbrev pub at_most : Option ℕ → ℤ → Bool
at_most none n = true
at_most (some high) n = leb_ℤ n (pos high)

-- `high is None or step <= high + 1`
abbrev pub step_at_most : Option ℕ → ℤ → Bool
step_at_most none n = true
step_at_most (some high) n = leb_ℤ n (pos (high + 1))

module _ (U : Unicode) where
  -- The checks of the stripped text.
  unfoldable pub check_field : Str → Option ℕ → Option ℕ → Result Bool
  check_field value low high =
      if text_eq value (codes "*")
      then ok true
      else if starts_with value (codes "*/") && isdigit U (drop 2 value)
      then (do
        step ← int_of_text U (drop 2 value)
        ok (ltb_ℤ (pos 0) step && step_at_most high step))
      else if not (isdigit U value)
      then ok false
      else (do number ← int_of_text U value; ok (at_least low number && at_most high number))

  unfoldable pub valid_cron_field : (Json → Str) → Json → Option ℕ → Option ℕ → Result Bool
  unfolding check_field strip str
  valid_cron_field repr value low high = check_field (strip (str repr value)) low high
