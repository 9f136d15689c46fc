-- ===== src/Command/Outcome.antt =====
-- `run_cmd` as one effect: the result is a function of what the operating system answers.
use project_linux.Base.{ℕ, ◌≡◌, refl, Option, some, List, ◌++◌, false}
use project_linux.Base.Int.{pos}
use project_linux.Text.{Str, codes}
use project_linux.Text.Decimal.{decimal}
use project_linux.Value.{Json, file_not_found, timeout_expired, Result, ok, raise}
use project_linux.Value.Exec.{pure, except, continue}
use project_linux.FilePath.{FilePath}
use project_linux.Ansi.{clean_output}
use project_linux.Host.{Host, App, Call, Completed}
use project_linux.Command.{CmdResult, is_zero, completed, failed, run_cmd}

-- The result for each answer: the exit code and the cleaned output, 124 when the time was up, 127
-- when there is no such program. Any other exception goes on to the caller.
abbrev pub outcome : ℕ → Result Completed → Result CmdResult
outcome timeout (ok proc) = ok (record {
  is_ok = is_zero proc.returncode;
  code = proc.returncode;
  output = clean_output proc.stdout;
})
outcome timeout (raise (timeout_expired out)) = ok (record {
  is_ok = false;
  code = pos 124;
  output = codes "Timeout after " ++ (decimal timeout ++ (codes "s\n" ++ out));
})
outcome timeout (raise (file_not_found message)) =
    ok (record { is_ok = false; code = pos 127; output = message })
outcome timeout (raise e) = raise e

abbrev pub call_of : List Json → FilePath → ℕ → Option Str → Call
call_of args cwd timeout input = record {
  args = args;
  cwd = some cwd;
  input = input;
  timeout = some timeout;
}

module _ (H : Host) where
  settled :
      (timeout : ℕ) (r : Result Completed) (s : App H)
      → except (failed H timeout) (continue (λ proc. pure (completed proc)) (r, s))
        ≡ (outcome timeout r, s)
  unfolding failed completed
  settled timeout (ok proc) s = refl
  settled timeout (raise (timeout_expired out)) s = refl
  settled timeout (raise (file_not_found message)) s = refl
  settled timeout (raise _) s = refl

  -- `run_cmd` makes one call. It returns the exit code and the cleaned output, with `ok` exactly for
  -- the code 0; code 124 when the time was up, and 127 when there is no such program. Any other
  -- exception reaches the caller. Nothing of the application's own state changes.
  pub run_cmd_lem :
      (args : List Json) (cwd : FilePath) (timeout : ℕ) (input : Option Str) (s : App H)
      → run_cmd H args cwd timeout input s ≡ (
        outcome timeout (H.run (call_of args cwd timeout input) s.world).0,
        record s { world = (H.run (call_of args cwd timeout input) s.world).1 },
      )
  unfolding run_cmd
  run_cmd_lem args cwd timeout input s =
      settled timeout (H.run (call_of args cwd timeout input) s.world).0
        (record s { world = (H.run (call_of args cwd timeout input) s.world).1 })
