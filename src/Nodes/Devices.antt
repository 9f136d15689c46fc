-- ===== src/Nodes/Devices.antt =====
-- What `action_driver_nodes` assumes of the programs it runs and of `stat`.
use project_linux.Base.{
  ℕ, ◌≡◌, ◌⊎◌, inl, true, false, Bool, Option, none, some, List, [], ◌∷◌, arith, if◌then◌else◌,
}
use project_linux.Text.{codes}
use project_linux.Text.Decimal.{decimal}
use project_linux.Value.{Json, text, Result, ok, raise, get, truthy, type_error}
use project_linux.FilePath.{FilePath, show}
use project_linux.Host.{Host, Call, Completed, Stat}
use project_linux.Command.{word, is_zero}
use project_linux.Command.Outcome.{call_of}
use project_linux.Command.Sudo.{plain_args, password_args, call_for, sudo_call}

abbrev pub IsSudo : List Json → Call → Type 0
IsSudo args c = (c.args ≡ plain_args args) ⊎ (c.args ≡ password_args args)

abbrev pub mknod_args : FilePath → ℕ → List Json
mknod_args path minor =
    word "mknod"
    ∷ word "-m"
    ∷ word "666"
    ∷ text (show path)
    ∷ word "c"
    ∷ word "42"
    ∷ text (decimal minor)
    ∷ []

abbrev pub chmod_args : List Json
chmod_args = word "chmod" ∷ word "666" ∷ word "/dev/mychardev0" ∷ word "/dev/mychardev1" ∷ []

-- What the code assumes of `stat`, `mknod` and `chmod`: `stat` tells the kind and the numbers of
-- what is there; `mknod` makes a new node and does not touch one that exists; `chmod` changes
-- neither kind nor numbers.
pub record Devices (H : Host) : Type 0 where
  pub entry : FilePath → H.World → Option Stat
  pub stat_tells :
      (p : FilePath) (w : H.World) {st : Stat}
      → (H.stat p w).0 ≡ ok st
      → entry p (H.stat p w).1 ≡ some st
  pub stat_keeps :
      (p q : FilePath) (w : H.World) {st : Stat}
      → entry q w ≡ some st
      → entry q (H.stat p w).1 ≡ some st
  pub mknod_makes :
      (c : Call) (p : FilePath) (minor : ℕ) (w : H.World) {r : Completed}
      → IsSudo (mknod_args p minor) c
      → (H.run c w).0 ≡ ok r
      → is_zero r.returncode ≡ true
      → entry p (H.run c w).1 ≡ some (record { is_chr = true; major = 42; minor = minor })
  pub mknod_keeps :
      (c : Call) (p : FilePath) (minor : ℕ) (q : FilePath) (w : H.World) {st : Stat}
      → IsSudo (mknod_args p minor) c
      → entry q w ≡ some st
      → entry q (H.run c w).1 ≡ some st
  pub chmod_keeps :
      (c : Call) (q : FilePath) (w : H.World) {st : Stat}
      → IsSudo chmod_args c
      → entry q w ≡ some st
      → entry q (H.run c w).1 ≡ some st

no_text_arg :
    (b : Bool) (args : List Json) (cwd : FilePath) (timeout : ℕ) (c : Call)
    → (if b then raise type_error else ok (call_of (plain_args args) cwd timeout none)) ≡ ok c
    → IsSudo args c
no_text_arg true args cwd timeout c h = ground arith
no_text_arg false args cwd timeout c h = inl (ground arith)

-- The one call of `run_sudo_cmd`, if there is one, has the arguments behind `sudo`.
call_for-IsSudo :
    (v : Json) (args : List Json) (cwd : FilePath) (timeout : ℕ) (c : Call)
    → call_for v args cwd timeout ≡ ok c
    → IsSudo args c
unfolding call_for
call_for-IsSudo (text []) args cwd timeout c h = ground arith
call_for-IsSudo (text (d ∷ s)) args cwd timeout c h = ground arith
call_for-IsSudo v args cwd timeout c h = no_text_arg (truthy v) args cwd timeout c h

got_arg-IsSudo :
    (r : Result Json) (args : List Json) (cwd : FilePath) (timeout : ℕ) (c : Call)
    → elim r [ ok v ↦ call_for v args cwd timeout | raise e ↦ raise e ] ≡ ok c
    → IsSudo args c
got_arg-IsSudo (ok v) args cwd timeout c h = call_for-IsSudo v args cwd timeout c h
got_arg-IsSudo (raise e) args cwd timeout c h = ground arith

pub sudo_call-IsSudo :
    (data' : Json) (args : List Json) (cwd : FilePath) (timeout : ℕ) (c : Call)
    → sudo_call data' args cwd timeout ≡ ok c
    → IsSudo args c
sudo_call-IsSudo data' args cwd timeout c h =
    got_arg-IsSudo (get data' (codes "sudo_password") (text [])) args cwd timeout c h

pub stat_eq :
    (st : Stat) (n : ℕ)
    → st.is_chr ≡ true
    → st.major ≡ 42
    → st.minor ≡ n
    → st ≡ record { is_chr = true; major = 42; minor = n }
stat_eq st n e m k = cc (e, m, k)
