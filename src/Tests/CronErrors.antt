-- ===== src/Tests/CronErrors.antt =====
-- Cron actions that fail, and the reading and writing of a crontab.
use project_linux.Ansi.{clean_output}
use project_linux.Text.Lines.{universal_newlines, splitlines}
use project_linux.Base.{◌≡◌, ◌++◌, true, ◌⊎◌, refl, some, none, [], ◌∷◌, All}
use project_linux.Text.{codes, strip, is_nonempty}
use project_linux.Value.{ok}
use project_linux.Host.{App}
use project_linux.Cron.Crontab.{nonblank, content_of, lines, read_crontab_lines}
use project_linux.Cron.Actions.{add_job, action_cron_add, action_cron_delete}
use project_linux.Cron.Jobs.{jobs, IsJob}
use project_linux.Cron.Adding.{added, add_request}
use project_linux.Cron.Deleting.{delete_request}
use project_linux.Cron.Failing.{Succeeds, action_cron_add_safe, action_cron_delete_safe}
use project_linux.Cron.Race.{add_job_lost}
use project_linux.Tests.Machine.{ascii-IsUnicode, job_chars, job_chars-IsJob}
use project_linux.Tests.CrontabHost.{host, program}

abbrev state : App host
state = record { world = some (codes "0 1 * * * backup\n"); socket_demo_process = none }

-- The program `crontab` refuses the command.
action_cron_add_safe_example :
    ((action_cron_add host (add_request (codes "1") (codes "2") (codes "date +%F")) state).1.world
      ≡ state.world)
    ⊎ Succeeds
        (action_cron_add host (add_request (codes "1") (codes "2") (codes "date +%F")) state).0
unfolding program
action_cron_add_safe_example =
    action_cron_add_safe host ascii-IsUnicode program
      (add_request (codes "1") (codes "2") (codes "date +%F")) state

-- There is no job 5.
action_cron_delete_safe_example :
    ((action_cron_delete host (delete_request (codes "5")) state).1.world ≡ state.world)
    ⊎ Succeeds (action_cron_delete host (delete_request (codes "5")) state).0
unfolding program
action_cron_delete_safe_example =
    action_cron_delete_safe host ascii-IsUnicode program (delete_request (codes "5")) state

accepts_clean :
    program.accepts (content_of (jobs state.world ++ (codes "@daily clean" ∷ []))) ≡ true
unfolding program content_of jobs codes nonblank splitlines clean_output universal_newlines
accepts_clean = refl

accepts_sync : program.accepts (content_of (jobs state.world ++ (codes "@daily sync" ∷ []))) ≡ true
unfolding program content_of jobs codes nonblank splitlines clean_output universal_newlines
accepts_sync = refl

state-IsJob : All IsJob (jobs state.world)
unfolding jobs codes job_chars strip is_nonempty nonblank splitlines clean_output universal_newlines
state-IsJob = (job_chars-IsJob (codes "0 1 * * * backup") refl refl, tt)

sync-IsJob : IsJob (codes "@daily sync")
unfolding codes job_chars strip is_nonempty
sync-IsJob = job_chars-IsJob (codes "@daily sync") refl refl

abbrev both : App host
both = (read_crontab_lines host (read_crontab_lines host state).1).1

add_job_lost_example :
    ((read_crontab_lines host state).0 ≡ ok (lines (jobs state.world)))
    × ((read_crontab_lines host (read_crontab_lines host state).1).0
        ≡ ok (lines (jobs state.world)))
    × ((add_job host (codes "@daily clean") (lines (jobs state.world)) both).0
        ≡ ok (added (codes "@daily clean") (jobs state.world ++ (codes "@daily clean" ∷ []))))
    × (jobs
          (add_job host
            (codes "@daily sync")
            (lines (jobs state.world))
            (add_job host (codes "@daily clean") (lines (jobs state.world)) both).1).1.world
        ≡ jobs state.world ++ (codes "@daily sync" ∷ []))
unfolding program
add_job_lost_example =
    add_job_lost host ascii-IsUnicode program state (codes "@daily clean") (codes "@daily sync")
      accepts_clean accepts_sync state-IsJob sync-IsJob
