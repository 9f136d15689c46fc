-- ===== src/Cron/Raising.antt =====
-- A time field that makes `cron.add` raise.
use project_linux.Base.{ℕ, ◌≡◌, ◌∙◌, true, false, none, some, ◌∷◌, ◌++◌, All, arith}
use project_linux.Text.{
  Str, Unicode, IsUnicode, codes, strip, is_nonempty, all_digits, is_int_space,
}
use project_linux.Value.{Json, text, get, str, as_text, raise, value_error}
use project_linux.Host.{Host, App}
use project_linux.Cron.Field.{valid_cron_field}
use project_linux.Cron.Field.Raises.{check_field_raises}
use project_linux.Cron.Actions.{valid_times, action_cron_add}
use project_linux.Cron.Adding.{add_request, valid_cron_field-strip}

valid_times-raise :
    (U : Unicode) (repr : Json → Str) (m h : Str)
    → valid_cron_field U repr (text m) (some 0) (some 59) ≡ raise value_error
    → valid_times U repr m h ≡ raise value_error
unfolding valid_times
valid_times-raise U repr m h e = ground arith

module _ (H : Host) (u : IsUnicode H.unicode) (m h c : Str) (s : App H) where
  -- With a command, a minute that is made of digits, one of which has no decimal value, and holds no
  -- white space, is not refused with a message: `cron.add` raises `ValueError`, before it has done
  -- anything.
  pub action_cron_add_raises :
      (before : Str) (digit : ℕ) (after : Str)
      → is_nonempty (strip c) ≡ true
      → strip m ≡ before ++ (digit ∷ after)
      → all_digits H.unicode (before ++ (digit ∷ after)) ≡ true
      → H.unicode.decimal digit ≡ none
      → All (λ d. is_int_space d ≡ false) (before ++ (digit ∷ after))
      → action_cron_add H (add_request m h c) s ≡ (raise value_error, s)
  unfolding action_cron_add get codes str as_text
  action_cron_add_raises before digit after given e digits none_for inner =
      let raises =
        check_field_raises H.unicode u before digit after (some 0) (some 59) digits none_for
          inner in
      rw (
        given,
        valid_times-raise H.unicode H.repr (strip m) (strip h)
            (valid_cron_field-strip H.unicode H.repr m (some 0) (some 59) ∙ rw e raises),
      )
