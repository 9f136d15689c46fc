-- ===== src/Command/Sudo.antt =====
-- `run_sudo_cmd` as one call: which arguments sudo gets, and where the password goes.
use project_linux.Base.{
  ℕ, ◌≡◌, refl, true, false, Bool, none, some, List, [], ◌∷◌, ◌++◌, if◌then◌else◌,
}
use project_linux.Text.{Str, codes}
use project_linux.Value.{Json, text, type_error, Result, ok, raise, get, truthy, as_text}
use project_linux.Value.Exec.{Exec, lift, ◌>>=◌}
use project_linux.FilePath.{FilePath}
use project_linux.Host.{Host, App, Call}
use project_linux.Command.{CmdResult, word, sudo_with, run_cmd, run_sudo_cmd}
use project_linux.Command.Outcome.{outcome, call_of, run_cmd_lem}

abbrev pub plain_args : List Json → List Json
plain_args args = word "sudo" ∷ args

abbrev pub password_args : List Json → List Json
password_args args = word "sudo" ∷ word "-S" ∷ word "-p" ∷ text [] ∷ args

-- The call for a value of `sudo_password`: an empty one is not passed on, a text is passed on the
-- input alone, and any other value has no `+` with a text.
unfoldable pub call_for : Json → List Json → FilePath → ℕ → Result Call
call_for (text []) args cwd timeout = ok (call_of (plain_args args) cwd timeout none)
call_for (text (c ∷ s)) args cwd timeout =
    ok (call_of (password_args args) cwd timeout (some ((c ∷ s) ++ codes "\n")))
call_for v args cwd timeout =
    if truthy v then raise type_error else ok (call_of (plain_args args) cwd timeout none)

abbrev pub sudo_call : Json → List Json → FilePath → ℕ → Result Call
sudo_call data' args cwd timeout = elim (get data' (codes "sudo_password") (text [])) [
  | ok v ↦ call_for v args cwd timeout
  | raise e ↦ raise e
]

module _ (H : Host) where
  abbrev pub run_call : ℕ → Result Call → App H → Result CmdResult × App H
  run_call timeout (ok c) s =
      (outcome timeout (H.run c s.world).0, record s { world = (H.run c s.world).1 })
  run_call timeout (raise e) s = (raise e, s)

  abbrev with_password : List Json → FilePath → ℕ → Str → Exec (App H) CmdResult
  with_password args cwd timeout secret =
      run_cmd H (password_args args) cwd timeout (some (secret ++ codes "\n"))

  -- A value that is no text: its truth decides.
  no_text :
      (b : Bool) (args : List Json) (cwd : FilePath) (timeout : ℕ) (s : App H)
      → (if b
            then (lift (raise type_error) >>= with_password args cwd timeout)
            else run_cmd H (plain_args args) cwd timeout none)
          s
        ≡ run_call timeout
            (if b then raise type_error else ok (call_of (plain_args args) cwd timeout none))
            s
  no_text true args cwd timeout s = refl
  no_text false args cwd timeout s = run_cmd_lem H (plain_args args) cwd timeout none s

  sudo_with_lem :
      (v : Json) (args : List Json) (cwd : FilePath) (timeout : ℕ) (s : App H)
      → sudo_with H v args cwd timeout s ≡ run_call timeout (call_for v args cwd timeout) s
  unfolding sudo_with call_for as_text
  sudo_with_lem (text []) args cwd timeout s =
      unfold truthy in run_cmd_lem H (plain_args args) cwd timeout none s
  sudo_with_lem (text (c ∷ t)) args cwd timeout s =
      unfold truthy in
      run_cmd_lem H (password_args args) cwd timeout (some ((c ∷ t) ++ codes "\n")) s
  sudo_with_lem v args cwd timeout s = no_text (truthy v) args cwd timeout s

  asked :
      (r : Result Json) (args : List Json) (cwd : FilePath) (timeout : ℕ) (s : App H)
      → (lift r >>= λ v. sudo_with H v args cwd timeout) s
        ≡ run_call timeout (elim r [ ok v ↦ call_for v args cwd timeout | raise e ↦ raise e ]) s
  asked (ok v) args cwd timeout s = sudo_with_lem v args cwd timeout s
  asked (raise e) args cwd timeout s = refl

  -- `run_sudo_cmd` makes at most one call: `sudo` and the arguments, with no input, where the
  -- password is missing or empty; `sudo -S -p ""` and the arguments, with the password and a line
  -- break as the input, where it is a text. Where `data` is no dict, or the password is a true value
  -- and no text, it raises before any call. The result is that of `run_cmd`.
  pub run_sudo_cmd_lem :
      (data' : Json) (args : List Json) (cwd : FilePath) (timeout : ℕ) (s : App H)
      → run_sudo_cmd H data' args cwd timeout s
        ≡ run_call timeout (sudo_call data' args cwd timeout) s
  unfolding run_sudo_cmd
  run_sudo_cmd_lem data' args cwd timeout s =
      asked (get data' (codes "sudo_password") (text [])) args cwd timeout s
