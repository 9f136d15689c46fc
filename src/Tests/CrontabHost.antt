-- ===== src/Tests/CrontabHost.antt =====
-- A machine with one crontab and nothing else; its `crontab` refuses a text that holds "%".
use project_linux.Base.{
  ℕ, Bool, false, not, Option, none, some, List, [], ◌∷◌, ◌&&◌, ◌≡◌, refl, if◌then◌else◌, arith,
}
use project_linux.Base.Int.{pos}
use project_linux.Text.{Str, codes, text_eq, contains}
use project_linux.Text.Lines.{universal_newlines}
use project_linux.Value.{Json, text, Result, ok, raise, file_not_found}
use project_linux.Host.{Host, Completed}
use project_linux.Cron.Program.{CrontabProgram, list_args, install_args, no_crontab}
use project_linux.Tests.Machine.{ascii, no_repr, home}

pub data Command : Type 0 where
  list install other : Command

unfoldable pub command_of : List Json → Command
unfolding text_eq codes
command_of (text p ∷ text a ∷ []) =
    if text_eq p (codes "crontab") && text_eq a (codes "-l")
    then list
    else if text_eq p (codes "crontab") && text_eq a (codes "-")
    then install
    else other
command_of _ = other

abbrev pub owner : Str
owner = codes "user"

unfoldable pub is_accepted : Str → Bool
unfolding contains codes
is_accepted t = not (contains (codes "%") t)

abbrev pub done : ℕ → Str → Result Completed
done code out = ok (record { returncode = pos code; stdout = some out })

unfoldable pub print_table : Option Str → Result Completed
print_table none = done 1 (no_crontab owner)
print_table (some t) = done 0 (universal_newlines t)

unfoldable pub install_table : Option Str → Option Str → Result Completed × Option Str
unfolding is_accepted
install_table none w = (done 1 (codes "no input"), w)
install_table (some t) w =
    if is_accepted t then (done 0 [], some t) else (done 1 (codes "bad minute"), w)

unfoldable pub run : Command → Option Str → Option Str → Result Completed × Option Str
unfolding print_table install_table
run list input w = (print_table w, w)
run install input w = install_table input w
run other input w = (raise (file_not_found (codes "no such program")), w)

abbrev pub host : Host
host = record {
  World = Option Str;
  unicode = ascii;
  repr = no_repr;
  root = home;
  run = λ c w. run (command_of c.args) c.input w;
  exists = λ p w. (ok false, w);
  stat = λ p w. (raise (file_not_found []), w);
  Process = ℕ;
  popen = λ args cwd w. (raise (file_not_found []), w);
  pid = λ p. p;
  poll = λ p w. (some (pos 0), w);
  wait = λ p seconds w. (ok (pos 0), w);
  killpg = λ p sig w. (ok tt, w);
  sleep = λ ms w. w;
}

pub list_command : command_of list_args ≡ list
unfolding command_of codes text_eq
list_command = refl

pub install_command : command_of install_args ≡ install
unfolding command_of codes text_eq
install_command = refl

unfoldable pub program : CrontabProgram host
unfolding run print_table install_table
program = record {
  user = owner;
  user_plain = omega arith;
  crontab = λ w. w;
  accepts = is_accepted;
  lists = λ c w e h. rw (e, list_command, h) refl;
  lists_none = λ c w e h. rw (e, list_command, h) refl;
  list_keeps = λ c w e. rw (e, list_command) refl;
  installs = λ c w e i h. rw (e, install_command, i, h) (refl, refl);
  refuses = λ c w e i h. (
    record { returncode = pos 1; stdout = some (codes "bad minute") },
    rw (e, install_command, i, h) refl,
    refl,
    rw (e, install_command, i, h) refl,
  );
}
