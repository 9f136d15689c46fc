-- ===== src/Cron/Crontab.antt =====
-- `read_crontab_lines` and `write_crontab_lines` of gui_app/app.py.
use project_linux.Base.{Option, none, some, List, [], ◌∷◌, ◌++◌, if◌then◌else◌}
use project_linux.Text.{Str, codes, is_nonempty, strip, contains, lower, join}
use project_linux.Text.Lines.{splitlines}
use project_linux.Value.Exec.{Exec, pure, ◌>>=◌}
use project_linux.Host.{Host, App, system}
use project_linux.Command.{CmdResult, word, is_zero, run_cmd}

-- {"ok": True, "lines": …} or {"ok": False, "error": …}
pub data ReadResult : Type 0 where
  lines : List Str → ReadResult
  error : CmdResult → ReadResult

-- `[line for line in … if line.strip()]`
unfoldable pub nonblank : List Str → List Str
unfolding is_nonempty strip
nonblank [] = []
nonblank (l ∷ ls) = if is_nonempty (strip l) then l ∷ nonblank ls else nonblank ls

-- `if content: content += "\n"`
unfoldable pub with_break : Str → Str
unfolding codes
with_break [] = []
with_break (c ∷ s) = (c ∷ s) ++ codes "\n"

-- What `write_crontab_lines` sends to `crontab -`.
unfoldable pub content_of : List Str → Str
unfolding with_break join codes
content_of ls = with_break (join (codes "\n") ls)

abbrev pub or_empty : Option Str → Str
or_empty none = []
or_empty (some s) = s

module _ (H : Host) where
  unfoldable pub read_result : CmdResult → ReadResult
  read_result current =
      if is_zero current.code
      then lines (nonblank (splitlines current.output))
      else if contains (codes "no crontab for") (lower H.unicode current.output)
      then lines []
      else error current

  unfoldable pub read_crontab_lines : Exec (App H) ReadResult
  read_crontab_lines = do
    current ← run_cmd H (word "crontab" ∷ word "-l" ∷ []) H.root 120 none
    pure (read_result current)

  unfoldable pub write_crontab_lines : List Str → Exec (App H) CmdResult
  write_crontab_lines ls = do
    proc ← system H (
        H.run (record {
          args = word "crontab" ∷ word "-" ∷ [];
          cwd = none;
          input = some (content_of ls);
          timeout = none;
        }))
    pure (record {
      is_ok = is_zero proc.returncode;
      code = proc.returncode;
      output = or_empty proc.stdout;
    })
