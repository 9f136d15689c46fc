-- ===== src/Cron/Undoing.antt =====
-- Adding a job and then deleting the last one.
use project_linux.Base.{◌+◌, ◌≤◌, ◌≡◌, ◌∙◌, true, All, List, length, get_elem?-last, remove_at-last}
use project_linux.Text.{Str, IsUnicode, strip, is_nonempty}
use project_linux.Text.Decimal.{decimal, max_str_digits}
use project_linux.Value.{ok}
use project_linux.Host.{Host, App}
use project_linux.Cron.Crontab.{content_of}
use project_linux.Cron.Actions.{valid_times, job_line, action_cron_add, action_cron_delete}
use project_linux.Cron.Program.{CrontabProgram}
use project_linux.Cron.Jobs.{jobs, IsJob, IsJobChar}
use project_linux.Cron.Adding.{add_request, with_job, with_job-IsJob, action_cron_add-jobs}
use project_linux.Cron.Deleting.{delete_request, action_cron_delete-jobs}

module _ (H : Host) (u : IsUnicode H.unicode) (P : CrontabProgram H) (m h c : Str) (s : App H) where
  abbrev pub old : List Str
  old = jobs (P.crontab s.world)

  -- The state behind the added job.
  abbrev pub then_added : App H
  then_added = (action_cron_add H (add_request m h c) s).1

  -- A job that `cron.add` has added is taken away by `cron.delete` with its number, one more than
  -- the number of jobs before; the jobs are then those from before, in their order. The conditions
  -- are those of the two: a command without line ends and escape characters, valid times,
  -- well-formed jobs before, both crontabs accepted, and a number within Python's limit for `int`.
  pub action_cron_delete-action_cron_add :
      is_nonempty (strip c) ≡ true
      → valid_times H.unicode H.repr (strip m) (strip h) ≡ ok true
      → P.accepts (content_of (with_job H u P m h c s)) ≡ true
      → P.accepts (content_of old) ≡ true
      → All IsJob old
      → All IsJobChar (strip c)
      → length (decimal (length old + 1)) ≤ max_str_digits
      → jobs (
          P.crontab
            (action_cron_delete H (delete_request (decimal (length old + 1))) then_added).1.world)
        ≡ old
  action_cron_delete-action_cron_add given valid accepts_new accepts_old before clean short =
      let (_, now) = action_cron_add-jobs H u P m h c s given valid accepts_new before clean in
      let job = job_line (strip m) (strip h) (strip c) in
      let (_, undone) =
        action_cron_delete-jobs H u P then_added (length old) job (rw now (get_elem?-last old job))
          short (rw (now, remove_at-last old job) accepts_old)
          (rw now (with_job-IsJob H u P m h c s given valid accepts_new before clean)) in
      undone ∙ rw now (remove_at-last old job)
