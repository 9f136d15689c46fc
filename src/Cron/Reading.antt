-- ===== src/Cron/Reading.antt =====
-- `read_crontab_lines` and `write_crontab_lines` over the program `crontab`.
use project_linux.Base.{
  ◌≡◌, refl, true, false, none, some, [], ◌++◌, List, All-append, arith, Option-cases, inl, inr,
}
use project_linux.Base.Int.{pos}
use project_linux.Text.{Str, IsUnicode, codes, lower, contains}
use project_linux.Text.Lines.{universal_newlines}
use project_linux.Text.Laws.{lower-small, contains-append}
use project_linux.Ansi.{clean_output}
use project_linux.Ansi.Cleaning.{clean_output-eq}
use project_linux.Value.{ok}
use project_linux.Host.{Host, App, Call}
use project_linux.Command.{CmdResult, is_zero}
use project_linux.Command.Outcome.{run_cmd_lem, call_of, outcome}
use project_linux.Cron.Crontab.{
  lines, or_empty, read_result, read_crontab_lines, write_crontab_lines, content_of,
}
use project_linux.Cron.Program.{CrontabProgram, no_crontab, list_args, install_args}
use project_linux.Cron.Jobs.{jobs}

abbrev pub list_call : Host → Call
list_call H = call_of list_args H.root 120 none

-- The state when the crontab has been listed, and when a text has been installed.
abbrev pub after_list : (H : Host) → App H → App H
after_list H s = record s { world = (H.run (list_call H) s.world).1 }

abbrev pub install_call : List Str → Call
install_call ls = record {
  args = install_args;
  cwd = none;
  input = some (content_of ls);
  timeout = none;
}

abbrev pub after_install : (H : Host) → List Str → App H → App H
after_install H ls s = record s { world = (H.run (install_call ls) s.world).1 }

message_start :
    (user : Str) → no_crontab user ≡ codes "no crontab for" ++ (codes " " ++ (user ++ codes "\n"))
unfolding codes
message_start user = refl

module _ (H : Host) (u : IsUnicode H.unicode) (P : CrontabProgram H) where
  clean_no_crontab : clean_output (some (no_crontab P.user)) ≡ no_crontab P.user
  clean_no_crontab = clean_output-eq (no_crontab P.user) (
      All-append _ (codes "no crontab for ") _ (unfold codes in omega arith)
        (All-append _ P.user (codes "\n") P.user_plain (unfold codes in omega arith)))

  no_crontab_found : contains (codes "no crontab for") (lower H.unicode (no_crontab P.user)) ≡ true
  no_crontab_found =
      rw
        (
          message_start P.user,
          lower-small H.unicode u (codes "no crontab for") _ (unfold codes in omega arith),
        )
        (contains-append (codes "no crontab for") _)

  none_listed :
      (w : H.World)
      → P.crontab w ≡ none
      → (r : CmdResult) × (outcome 120 (H.run (list_call H) w).0 ≡ ok r)
        × (read_result H r ≡ lines (jobs (P.crontab w)))
  unfolding read_result jobs
  none_listed w e = (
    record { is_ok = false; code = pos 1; output = no_crontab P.user },
    rw (P.lists_none (list_call H) w refl e, clean_no_crontab),
    rw (e, no_crontab_found),
  )

  some_listed :
      (w : H.World) (t : Str)
      → P.crontab w ≡ some t
      → (r : CmdResult) × (outcome 120 (H.run (list_call H) w).0 ≡ ok r)
        × (read_result H r ≡ lines (jobs (P.crontab w)))
  unfolding read_result jobs
  some_listed w t e = (
    record { is_ok = true; code = pos 0; output = clean_output (some (universal_newlines t)) },
    rw (P.lists (list_call H) w refl e),
    rw e,
  )

  listed :
      (w : H.World)
      → (r : CmdResult) × (outcome 120 (H.run (list_call H) w).0 ≡ ok r)
        × (read_result H r ≡ lines (jobs (P.crontab w)))
  listed w = elim (Option-cases (P.crontab w)) [
    | inl e ↦ none_listed w e
    | inr (t, e) ↦ some_listed w t e
  ]

  -- In every state `read_crontab_lines` succeeds and returns the jobs of the user's crontab, an
  -- absent one having none; it only lists the crontab.
  pub read_crontab_lines_lem :
      (s : App H) → read_crontab_lines H s ≡ (ok (lines (jobs (P.crontab s.world))), after_list H s)
  unfolding read_crontab_lines
  read_crontab_lines_lem s =
      let (r, e, l) = listed s.world in rw (run_cmd_lem H list_args H.root 120 none s, e, l)

  pub write_crontab_lines_lem :
      (ls : List Str) (s : App H)
      → P.accepts (content_of ls) ≡ true
      → (write_crontab_lines H ls s
          ≡ (ok (record { is_ok = true; code = pos 0; output = [] }), after_install H ls s))
        × (P.crontab (after_install H ls s).world ≡ some (content_of ls))
  unfolding write_crontab_lines
  write_crontab_lines_lem ls s h =
      let (e, w) = P.installs (install_call ls) s.world refl refl h in (rw e, w)

  pub write_crontab_lines_refused :
      (ls : List Str) (s : App H)
      → P.accepts (content_of ls) ≡ false
      → (r : CmdResult) × (write_crontab_lines H ls s ≡ (ok r, after_install H ls s))
        × (r.is_ok ≡ false)
        × (P.crontab (after_install H ls s).world ≡ P.crontab s.world)
  unfolding write_crontab_lines
  write_crontab_lines_refused ls s h =
      let (c, e, z, w) = P.refuses (install_call ls) s.world refl refl h in
      (
        record { is_ok = is_zero c.returncode; code = c.returncode; output = or_empty c.stdout },
        rw e,
        z,
        w,
      )
