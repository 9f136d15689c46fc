-- ===== src/Cron/Race.antt =====
-- Two requests for the crontab at the same time: nothing keeps `action_cron_add`'s reading and writing
-- together.
use project_linux.Base.{◌≡◌, refl, true, some, [], ◌∷◌, ◌++◌, All, All-append, List}
use project_linux.Text.{Str, IsUnicode}
use project_linux.Value.{ok}
use project_linux.Host.{Host, App}
use project_linux.Cron.Crontab.{content_of, lines, read_crontab_lines}
use project_linux.Cron.Actions.{add_job}
use project_linux.Cron.Program.{CrontabProgram}
use project_linux.Cron.Jobs.{jobs, IsJob, jobs-content_of}
use project_linux.Cron.Adding.{added}
use project_linux.Cron.Reading.{
  list_call, after_install, read_crontab_lines_lem, write_crontab_lines_lem,
}

module _ (H : Host) (u : IsUnicode H.unicode) (P : CrontabProgram H) where
  add_job_lem :
      (job : Str) (ls : List Str) (s : App H)
      → P.accepts (content_of (ls ++ (job ∷ []))) ≡ true
      → (add_job H job (lines ls) s
          ≡ (ok (added job (ls ++ (job ∷ []))), after_install H (ls ++ (job ∷ [])) s))
        × (P.crontab (after_install H (ls ++ (job ∷ [])) s).world
            ≡ some (content_of (ls ++ (job ∷ []))))
  unfolding add_job
  add_job_lem job ls s accepted =
      let (e, w) = write_crontab_lines_lem H u P (ls ++ (job ∷ [])) s accepted in (rw e refl, w)

  read_keeps : (s : App H) → P.crontab (read_crontab_lines H s).1.world ≡ P.crontab s.world
  read_keeps s = rw (read_crontab_lines_lem H u P s) (P.list_keeps (list_call H) s.world refl)

  read_same :
      (s t : App H)
      → P.crontab t.world ≡ P.crontab s.world
      → (read_crontab_lines H t).0 ≡ ok (lines (jobs (P.crontab s.world)))
  read_same s t e = rw (read_crontab_lines_lem H u P t, e) refl

  module _ (s : App H) (first second : Str) where
    abbrev pub old : List Str
    old = jobs (P.crontab s.world)

    -- Both requests have read the crontab.
    abbrev pub one_read : App H
    one_read = (read_crontab_lines H s).1

    abbrev pub both_read : App H
    both_read = (read_crontab_lines H one_read).1

    -- The first has written it too.
    abbrev pub one_written : App H
    one_written = (add_job H first (lines old) both_read).1

    -- Where two requests both read the crontab before either has written it, both read the same jobs,
    -- and the first to write is told that its job was added. When the second has written, the
    -- crontab holds the jobs from before and the second job only: the first is lost. It is so for
    -- well-formed jobs and texts that the program `crontab` accepts.
    pub add_job_lost :
        P.accepts (content_of (old ++ (first ∷ []))) ≡ true
        → P.accepts (content_of (old ++ (second ∷ []))) ≡ true
        → All IsJob old
        → IsJob second
        → ((read_crontab_lines H s).0 ≡ ok (lines old))
          × ((read_crontab_lines H one_read).0 ≡ ok (lines old))
          × ((add_job H first (lines old) both_read).0 ≡ ok (added first (old ++ (first ∷ []))))
          × (jobs (P.crontab (add_job H second (lines old) one_written).1.world)
              ≡ old ++ (second ∷ []))
    add_job_lost accepts_first accepts_second before job =
        let (e, w) = add_job_lem first old both_read accepts_first in
        let (f, v) = add_job_lem second old one_written accepts_second in
        (
          read_same s s refl,
          read_same s one_read (read_keeps s),
          rw e refl,
          rw (f, v) (jobs-content_of (old ++ (second ∷ [])) (All-append _ old _ before (job, tt))),
        )
