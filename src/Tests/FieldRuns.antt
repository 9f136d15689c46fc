-- ===== src/Tests/FieldRuns.antt =====
-- Time fields of cron jobs.
use project_linux.Base.{◌≡◌, ◌↔◌, refl, ap, true, false, some, none, [], ◌∷◌, ◌++◌, All}
use project_linux.Text.{Str, codes, all_digits, strip, is_nonempty, is_int_space}
use project_linux.Value.{ok, raise, value_error}
use project_linux.Host.{App}
use project_linux.Cron.Field.{check_field}
use project_linux.Cron.Field.Meaning.{IsField, check_field_iff}
use project_linux.Cron.Actions.{action_cron_add}
use project_linux.Cron.Adding.{add_request}
use project_linux.Cron.Raising.{action_cron_add_raises}
use project_linux.Tests.Machine.{ascii, ascii-IsUnicode}
use project_linux.Tests.CrontabHost.{host}

check_field_iff_example :
    (check_field ascii (codes "*/60") (some 0) (some 59) ≡ ok true)
    ↔ IsField ascii 0 59 (codes "*/60")
check_field_iff_example = check_field_iff ascii 0 59 ascii-IsUnicode (codes "*/60")

-- "5" and a superscript two.
abbrev pub raised : Str
raised = b'5' ∷ 0xb2 ∷ []

raised_digits : all_digits ascii raised ≡ true
unfolding all_digits
raised_digits = refl

raised_inner : All (λ d. is_int_space d ≡ false) raised
raised_inner = (refl, (refl, tt))

abbrev pub start : App host
start = record { world = none; socket_demo_process = none }

given : is_nonempty (strip (codes "echo")) ≡ true
unfolding is_nonempty strip codes
given = refl

stripped : strip raised ≡ (b'5' ∷ []) ++ (0xb2 ∷ [])
unfolding strip
stripped = refl

action_cron_add_raises_example :
    action_cron_add host (add_request raised (codes "*") (codes "echo")) start
    ≡ (raise value_error, start)
action_cron_add_raises_example =
    action_cron_add_raises host ascii-IsUnicode raised (codes "*") (codes "echo") start (b'5' ∷ [])
      0xb2 [] given stripped raised_digits refl raised_inner

pub bad_minute_raises :
    (action_cron_add host (add_request raised (codes "*") (codes "echo")) start).0
    ≡ raise value_error
bad_minute_raises =
    ap (λ r. r.0)
      (action_cron_add_raises host ascii-IsUnicode raised (codes "*") (codes "echo") start
        (b'5' ∷ []) 0xb2 [] given stripped raised_digits refl raised_inner)
