-- ===== src/Tests/DeviceHost.antt =====
-- A machine with device nodes and nothing else: `mknod` and `chmod` through `sudo`.
use project_linux.Base.{
  ℕ, true, false, Option, none, some, List, [], ◌∷◌, ◌≡◌, inl, inr, refl, if◌then◌else◌, arith,
  Option-cases, Bool-cases,
}
use project_linux.Base.Int.{pos}
use project_linux.Text.{Str, codes, text_eq}
use project_linux.Text.Laws.{text_eq→eq, text_eq_refl}
use project_linux.Text.Decimal.{decimal, number_from}
use project_linux.Text.Decimal.RoundTrip.{number_from-decimal}
use project_linux.Value.{Json, text, Result, ok, raise, file_not_found}
use project_linux.FilePath.{FilePath, show}
use project_linux.Host.{Host, Call, Completed, Stat}
use project_linux.Command.{is_zero}
use project_linux.Nodes.Devices.{IsSudo, mknod_args, chmod_args, Devices}
use project_linux.Tests.Machine.{ascii, ascii-IsUnicode, no_repr, home}

pub data Command : Type 0 where
  mknod : Str → Str → Command
  other : Command

-- The arguments behind `sudo` and its options.
unfoldable pub behind_sudo : List Json → Command
behind_sudo (text name ∷ m ∷ mode ∷ text path ∷ c ∷ major ∷ text minor ∷ []) = mknod path minor
behind_sudo _ = other

unfoldable pub command_of : List Json → Command
unfolding behind_sudo
command_of (sudo ∷ s ∷ p ∷ text [] ∷ args) = behind_sudo args
command_of (sudo ∷ args) = behind_sudo args
command_of [] = other

abbrev pub Entries : Type 0
Entries = Str → Option Stat

abbrev pub make : Str → ℕ → Entries → Entries
make path minor w p =
    if text_eq p path then some (record { is_chr = true; major = 42; minor = minor }) else w p

abbrev pub done : ℕ → Entries → Result Completed × Entries
done code w = (ok (record { returncode = pos code; stdout = some [] }), w)

-- A node that is there is not made again.
unfoldable pub make_new : Str → Option ℕ → Option Stat → Entries → Result Completed × Entries
make_new path none there w = done 1 w
make_new path (some n) none w = done 0 (make path n w)
make_new path (some n) (some st) w = done 1 w

unfoldable pub run : Command → Entries → Result Completed × Entries
unfolding make_new
run (mknod path minor) w = make_new path (number_from ascii false 0 minor) (w path) w
run other w = done 0 w

unfoldable pub stat : Option Stat → Result Stat
stat none = raise (file_not_found [])
stat (some st) = ok st

abbrev pub host : Host
host = record {
  World = Entries;
  unicode = ascii;
  repr = no_repr;
  root = home;
  run = λ c w. run (command_of c.args) w;
  exists = λ p w. (ok false, w);
  stat = λ p w. (stat (w (show p)), w);
  Process = ℕ;
  popen = λ args cwd w. (raise (file_not_found []), w);
  pid = λ p. p;
  poll = λ p w. (some (pos 0), w);
  wait = λ p seconds w. (ok (pos 0), w);
  killpg = λ p sig w. (ok tt, w);
  sleep = λ ms w. w;
}

pub mknod_command :
    (c : Call) (p : FilePath) (minor : ℕ)
    → IsSudo (mknod_args p minor) c
    → command_of c.args ≡ mknod (show p) (decimal minor)
unfolding command_of codes
mknod_command c p minor (inl e) = rw e refl
mknod_command c p minor (inr e) = rw e refl

pub chmod_command : (c : Call) → IsSudo chmod_args c → command_of c.args ≡ other
unfolding command_of codes
chmod_command c (inl e) = rw e refl
chmod_command c (inr e) = rw e refl

pub make_new-makes :
    (path : Str) (n : ℕ) (there : Option Stat) (w : Entries) {r : Completed}
    → (make_new path (some n) there w).0 ≡ ok r
    → is_zero r.returncode ≡ true
    → (make_new path (some n) there w).1 path
      ≡ some (record { is_chr = true; major = 42; minor = n })
unfolding make_new
make_new-makes path n none w h z = rw (text_eq_refl path) refl
make_new-makes path n (some st) w h z = absurd (ground arith)

make-keeps :
    (path : Str) (n : ℕ) (w : Entries) (q : Str) {st : Stat}
    → w path ≡ none
    → w q ≡ some st
    → make path n w q ≡ some st
make-keeps path n w q e h = elim (Bool-cases (text_eq q path)) [
  | inl same ↦ absurd (cc (text_eq→eq q path same, e, h))
  | inr differs ↦ rw differs h
]

pub make_new-keeps :
    (path : Str) (n : Option ℕ) (w : Entries) (q : Str) {st : Stat}
    → w q ≡ some st
    → (make_new path n (w path) w).1 q ≡ some st
unfolding make_new
make_new-keeps path none w q h = h
make_new-keeps path (some n) w q h = elim (Option-cases (w path)) [
  | inl e ↦ rw e (make-keeps path n w q e h)
  | inr (st, e) ↦ rw e h
]

unfoldable pub devices : Devices host
unfolding run stat
devices = record {
  entry = λ p w. w (show p);
  stat_tells = λ p w h. ground arith;
  stat_keeps = λ p q w h. h;
  mknod_makes = λ c p minor w {r} sudo e z.
      let command = mknod_command c p minor sudo in
      let number = number_from-decimal ascii ascii-IsUnicode minor in
      rw (command, number)
        (make_new-makes (show p) minor (w (show p)) w (rw (command, number) at e) z);
  mknod_keeps = λ c p minor q w sudo h.
      rw (mknod_command c p minor sudo)
        (make_new-keeps (show p) (number_from ascii false 0 (decimal minor)) w (show q) h);
  chmod_keeps = λ c q w sudo h. rw (chmod_command c sudo) h;
}
