-- ===== src/Tests/CronRuns.antt =====
-- Runs of the cron actions on a crontab with one job.
use project_linux.Cron.Field.{valid_cron_field}
use project_linux.Ansi.{clean_output}
use project_linux.Text.Lines.{universal_newlines, splitlines}
use project_linux.Base.{
  ◌≤◌, ◌≡◌, refl, true, some, none, [], ◌∷◌, ◌++◌, All, arith, length, remove_at,
}
use project_linux.Text.{isdigit, starts_with, text_eq, Str, codes, strip, is_nonempty}
use project_linux.Text.Decimal.{int, decimal, max_str_digits}
use project_linux.Value.{int_of_text, ok}
use project_linux.Host.{App}
use project_linux.Cron.Crontab.{nonblank, content_of}
use project_linux.Cron.Actions.{valid_times, job_line, action_cron_add, action_cron_delete}
use project_linux.Cron.Jobs.{jobs, IsJob, IsJobChar}
use project_linux.Cron.Adding.{add_request, added, with_job, action_cron_add-jobs}
use project_linux.Cron.Deleting.{delete_request, deleted, action_cron_delete-jobs}
use project_linux.Cron.Undoing.{action_cron_delete-action_cron_add}
use project_linux.Cron.Injection.{action_cron_add_two_jobs}
use project_linux.Tests.Machine.{ascii-IsUnicode, job_chars, job_chars-All, job_chars-IsJob}
use project_linux.Tests.CrontabHost.{host, program}

abbrev pub backup : Str
backup = codes "0 1 * * * backup"

abbrev pub before : App host
before = record { world = some (codes "0 1 * * * backup\n"); socket_demo_process = none }

abbrev pub minute : Str
minute = codes " 5 "

abbrev pub hour : Str
hour = codes "*/2"

abbrev pub command : Str
command = codes "echo hi"

abbrev new_job : Str
new_job = codes "5 */2 * * * echo hi"

jobs_before : jobs before.world ≡ backup ∷ []
unfolding jobs codes nonblank splitlines clean_output universal_newlines
jobs_before = refl

pub backup-IsJob : All IsJob (jobs before.world)
unfolding codes strip is_nonempty job_chars
backup-IsJob = rw jobs_before (job_chars-IsJob backup refl refl, tt)

pub accepts_both :
    program.accepts (content_of (with_job host ascii-IsUnicode program minute hour command before))
    ≡ true
unfolding program content_of jobs codes job_line strip nonblank splitlines clean_output
    universal_newlines
accepts_both = refl

pub valid : valid_times host.unicode host.repr (strip minute) (strip hour) ≡ ok true
unfolding valid_times strip codes valid_cron_field text_eq starts_with isdigit int_of_text int
valid = refl

pub given : is_nonempty (strip command) ≡ true
unfolding is_nonempty strip codes
given = refl

pub command_chars : All IsJobChar (strip command)
unfolding codes strip job_chars
command_chars = job_chars-All (strip command) refl

action_cron_add-jobs_example :
    ((action_cron_add host (add_request minute hour command) before).0
      ≡ ok (added (job_line (strip minute) (strip hour) (strip command)) (backup ∷ new_job ∷ [])))
    × (jobs (action_cron_add host (add_request minute hour command) before).1.world
        ≡ backup ∷ new_job ∷ [])
unfolding program jobs codes job_line strip nonblank splitlines clean_output universal_newlines
action_cron_add-jobs_example =
    action_cron_add-jobs host ascii-IsUnicode program minute hour command before given valid
      accepts_both backup-IsJob command_chars

accepts_old : program.accepts (content_of (jobs before.world)) ≡ true
unfolding program jobs codes content_of nonblank splitlines clean_output universal_newlines
accepts_old = refl

accepts_left : program.accepts (content_of (remove_at 0 (jobs before.world))) ≡ true
unfolding program jobs codes content_of nonblank splitlines clean_output universal_newlines
accepts_left = refl

two_short : length (decimal 2) ≤ max_str_digits
unfolding decimal
two_short = omega arith

one_short : length (decimal 1) ≤ max_str_digits
unfolding decimal
one_short = omega arith

action_cron_delete-jobs_example :
    ((action_cron_delete host (delete_request (decimal 1)) before).0 ≡ ok (deleted backup []))
    × (jobs (action_cron_delete host (delete_request (decimal 1)) before).1.world ≡ [])
unfolding program jobs codes nonblank splitlines clean_output universal_newlines
action_cron_delete-jobs_example =
    action_cron_delete-jobs host ascii-IsUnicode program before 0 backup refl one_short accepts_left
      backup-IsJob

action_cron_delete-action_cron_add_example :
    jobs
      (action_cron_delete host
        (delete_request (decimal 2))
        (action_cron_add host (add_request minute hour command) before).1).1.world
    ≡ backup ∷ []
unfolding program jobs codes nonblank splitlines clean_output universal_newlines
action_cron_delete-action_cron_add_example =
    action_cron_delete-action_cron_add host ascii-IsUnicode program minute hour command before given
      valid accepts_both accepts_old backup-IsJob command_chars two_short

abbrev two_lines : Str
two_lines = codes "true\n* * * * * reboot"

accepts_three :
    program.accepts
      (content_of (with_job host ascii-IsUnicode program minute hour two_lines before))
    ≡ true
unfolding program content_of jobs codes job_line strip nonblank splitlines clean_output
    universal_newlines
accepts_three = refl

given_two : is_nonempty (strip two_lines) ≡ true
unfolding is_nonempty strip codes
given_two = refl

broken : strip two_lines ≡ codes "true" ++ (10 ∷ codes "* * * * * reboot")
unfolding strip codes
broken = refl

first_chars : All IsJobChar (codes "true")
unfolding codes job_chars
first_chars = job_chars-All (codes "true") refl

second-IsJob : IsJob (codes "* * * * * reboot")
unfolding codes strip is_nonempty job_chars
second-IsJob = job_chars-IsJob (codes "* * * * * reboot") refl refl

action_cron_add_two_jobs_example :
    ((action_cron_add host (add_request minute hour two_lines) before).0
      ≡ ok (
          added
            (job_line (strip minute) (strip hour) (strip two_lines))
            (with_job host ascii-IsUnicode program minute hour two_lines before)))
    × (jobs (action_cron_add host (add_request minute hour two_lines) before).1.world
        ≡ backup ∷ codes "5 */2 * * * true" ∷ codes "* * * * * reboot" ∷ [])
unfolding program jobs codes job_line strip nonblank splitlines clean_output universal_newlines
action_cron_add_two_jobs_example =
    action_cron_add_two_jobs host ascii-IsUnicode program minute hour two_lines (codes "true")
      (codes "* * * * * reboot") before given_two valid accepts_three broken first_chars
      second-IsJob backup-IsJob
