-- ===== src/Cron/Program.antt =====
-- What gui_app/app.py assumes of the program `crontab`: `crontab -l` prints the user's table, or
-- says that there is none, and `crontab -` installs its input unless it finds a mistake in it.
use project_linux.Base.{◌≡◌, ◌≢◌, false, true, Bool, Option, none, some, [], ◌∷◌, ◌++◌, List, All}
use project_linux.Base.Int.{pos}
use project_linux.Text.{Str, codes}
use project_linux.Text.Lines.{universal_newlines}
use project_linux.Value.{Json, ok}
use project_linux.Ansi.{escape}
use project_linux.Host.{Host, Call, Completed}
use project_linux.Command.{word, is_zero}

abbrev pub list_args : List Json
list_args = word "crontab" ∷ word "-l" ∷ []

abbrev pub install_args : List Json
install_args = word "crontab" ∷ word "-" ∷ []

abbrev pub no_crontab : Str → Str
no_crontab user = codes "no crontab for " ++ (user ++ codes "\n")

pub record CrontabProgram (H : Host) : Type 0 where
  pub user : Str
  pub user_plain : All (λ c. c ≢ escape) user
  pub crontab : H.World → Option Str
  -- the check of the installed text
  pub accepts : Str → Bool
  pub lists :
      (c : Call) (w : H.World) {t : Str}
      → c.args ≡ list_args
      → crontab w ≡ some t
      → (H.run c w).0 ≡ ok (record { returncode = pos 0; stdout = some (universal_newlines t) })
  pub lists_none :
      (c : Call) (w : H.World)
      → c.args ≡ list_args
      → crontab w ≡ none
      → (H.run c w).0 ≡ ok (record { returncode = pos 1; stdout = some (no_crontab user) })
  pub list_keeps : (c : Call) (w : H.World) → c.args ≡ list_args → crontab (H.run c w).1 ≡ crontab w
  pub installs :
      (c : Call) (w : H.World) {t : Str}
      → c.args ≡ install_args
      → c.input ≡ some t
      → accepts t ≡ true
      → ((H.run c w).0 ≡ ok (record { returncode = pos 0; stdout = some [] }))
        × (crontab (H.run c w).1 ≡ some t)
  pub refuses :
      (c : Call) (w : H.World) {t : Str}
      → c.args ≡ install_args
      → c.input ≡ some t
      → accepts t ≡ false
      → (r : Completed) × ((H.run c w).0 ≡ ok r)
        × (is_zero r.returncode ≡ false)
        × (crontab (H.run c w).1 ≡ crontab w)
