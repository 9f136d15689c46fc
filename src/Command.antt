-- ===== src/Command.antt =====
-- `run_cmd` and `run_sudo_cmd` of gui_app/app.py.
pub mod Outcome
pub mod Sudo
use project_linux.Base.{
  ℕ, Bool, false, Option, none, some, List, [], ◌∷◌, ◌++◌, String, ◌==◌, if◌then◌else◌,
}
use project_linux.Base.Int.{ℤ, pos}
use project_linux.Text.{Str, codes}
use project_linux.Text.Decimal.{decimal, decimal_ℤ}
use project_linux.Value.{
  Json, text, Exception, timeout_expired, file_not_found, type_error, get, truthy, as_text,
}
use project_linux.Value.Exec.{Exec, pure, lift, try_except, ◌>>=◌}
use project_linux.FilePath.{FilePath}
use project_linux.Ansi.{clean_output}
use project_linux.Host.{Host, App, Completed, system}

-- {"ok": …, "code": …, "output": …}
pub record CmdResult : Type 0 where
  pub is_ok : Bool
  pub code : ℤ
  pub output : Str

-- What an action returns, and the server sends; only `run_cmd` gives a code.
pub record Reply : Type 0 where
  pub is_ok : Bool
  pub code : Option ℤ
  pub output : Str

abbrev pub reply : Bool → Str → Reply
reply b out = record { is_ok = b; code = none; output = out }

abbrev pub as_reply : CmdResult → Reply
as_reply r = record { is_ok = r.is_ok; code = some r.code; output = r.output }

-- An argument that the source writes out.
abbrev pub word : String → Json
word s = text (codes s)

abbrev pub is_zero : ℤ → Bool
is_zero (pos n) = n == 0
is_zero _ = false

completed : Completed → CmdResult
completed proc = record {
  is_ok = is_zero proc.returncode;
  code = proc.returncode;
  output = clean_output proc.stdout;
}

module _ (H : Host) where
  -- The two `except` clauses.
  failed : ℕ → Exception → Option (Exec (App H) CmdResult)
  failed timeout (timeout_expired out) = some (
      pure (record {
        is_ok = false;
        code = pos 124;
        output = codes "Timeout after " ++ (decimal timeout ++ (codes "s\n" ++ out));
      }))
  failed timeout (file_not_found message) =
      some (pure (record { is_ok = false; code = pos 127; output = message }))
  failed timeout _ = none

  unfoldable pub run_cmd : List Json → FilePath → ℕ → Option Str → Exec (App H) CmdResult
  unfolding completed failed
  run_cmd args cwd timeout input =
      try_except
        (do
          proc ← system H (
              H.run (record { args = args; cwd = some cwd; input = input; timeout = some timeout }))
          pure (completed proc))
        (failed timeout)

  -- With a password sudo reads it from its input and prompts with nothing.
  unfoldable pub sudo_with : Json → List Json → FilePath → ℕ → Exec (App H) CmdResult
  sudo_with password args cwd timeout =
      if truthy password
      then (do
        secret ← lift (as_text type_error password)
        run_cmd (word "sudo" ∷ word "-S" ∷ word "-p" ∷ text [] ∷ args) cwd timeout
            (some (secret ++ codes "\n")))
      else run_cmd (word "sudo" ∷ args) cwd timeout none

  unfoldable pub run_sudo_cmd : Json → List Json → FilePath → ℕ → Exec (App H) CmdResult
  unfolding sudo_with
  run_sudo_cmd data' args cwd timeout = do
    password ← lift (get data' (codes "sudo_password") (text []))
    sudo_with password args cwd timeout

-- `result["output"] or f"exit code {result['code']}"`
unfoldable pub reason : CmdResult → Str
reason r = elim r.output [ [] ↦ codes "exit code " ++ decimal_ℤ r.code | c ∷ s ↦ c ∷ s ]
