-- ===== src/Cron/Adding.antt =====
-- `action_cron_add` over the program `crontab`.
use project_linux.Base.{
  ℕ, ◌≡◌, refl, true, some, [], ◌∷◌, ◌++◌, All, All-append, Option, arith, List, append_assoc,
}
use project_linux.Text.{Str, codes, Unicode, IsUnicode, strip, is_nonempty}
use project_linux.Text.Strip.{strip-ne, strip_idem}
use project_linux.Value.{Json, text, object, field, end, get, ok, str, as_text}
use project_linux.Table.{table}
use project_linux.Host.{Host, App}
use project_linux.Command.{Reply, reply}
use project_linux.Cron.Field.{valid_cron_field, check_field}
use project_linux.Cron.Field.Clean.{check_field-clean}
use project_linux.Cron.Crontab.{content_of, lines}
use project_linux.Cron.Actions.{valid_times, job_line, action_cron_add, add_job}
use project_linux.Cron.Program.{CrontabProgram}
use project_linux.Cron.Jobs.{jobs, IsJob, IsJobChar, jobs-content_of}
use project_linux.Cron.Reading.{
  after_list, after_install, read_crontab_lines_lem, write_crontab_lines_lem,
}

-- What the page sends for `cron.add`.
abbrev pub add_request : Str → Str → Str → Json
add_request minute hour command = object (
    field (codes "minute") (text minute)
      (field (codes "hour") (text hour) (field (codes "command") (text command) end)))

abbrev pub added : Str → List Str → Reply
added job ls =
    reply true
      (codes "Da them cron job:\n" ++ (job ++ (codes "\n\nCrontab hien tai:\n" ++ table ls)))

valid_times_both :
    (U : Unicode) (repr : Json → Str) (m h : Str)
    → valid_times U repr m h ≡ ok true
    → (valid_cron_field U repr (text m) (some 0) (some 59) ≡ ok true)
      × (valid_cron_field U repr (text h) (some 0) (some 23) ≡ ok true)
unfolding valid_times
valid_times_both U repr m h v = ground arith

pub valid_cron_field-strip :
    (U : Unicode) (repr : Json → Str) (m : Str) (low high : Option ℕ)
    → valid_cron_field U repr (text (strip m)) low high ≡ check_field U (strip m) low high
valid_cron_field-strip U repr m low high = unfold valid_cron_field in rw strip_idem

pub valid_times-clean :
    (U : Unicode) (u : IsUnicode U) (repr : Json → Str) (m h : Str)
    → valid_times U repr (strip m) (strip h) ≡ ok true
    → All IsJobChar (strip m) × All IsJobChar (strip h)
valid_times-clean U u repr m h v =
    let (vm, vh) = valid_times_both U repr (strip m) (strip h) v in
    (
      check_field-clean U u 0 59 (strip m)
          (rw (← valid_cron_field-strip U repr m (some 0) (some 59)) vm),
      check_field-clean U u 0 23 (strip h)
          (rw (← valid_cron_field-strip U repr h (some 0) (some 23)) vh),
    )

job_line_star :
    (m h c : Str)
    → job_line m h c ≡ (m ++ (codes " " ++ (h ++ codes " "))) ++ (b'*' ∷ (codes " * * " ++ c))
unfolding job_line codes
job_line_star m h c = simp append_assoc

job_line-chars :
    (m h c : Str)
    → All IsJobChar m
    → All IsJobChar h
    → All IsJobChar c
    → All IsJobChar (job_line m h c)
unfolding job_line
job_line-chars m h c hm hh hc =
    let blank : IsJobChar b' ' = (refl, omega arith) in
    let star : IsJobChar b'*' = (refl, omega arith) in
    All-append _ m _ hm
      (blank, All-append _ h _ hh (blank, (star, (blank, (star, (blank, (star, (blank, hc))))))))

pub job_line-IsJob :
    (m h c : Str) → All IsJobChar m → All IsJobChar h → All IsJobChar c → IsJob (job_line m h c)
job_line-IsJob m h c hm hh hc = (
  job_line-chars m h c hm hh hc,
  rw (job_line_star m h c) (strip-ne (m ++ (codes " " ++ (h ++ codes " "))) b'*' _ refl),
)

module _ (H : Host) (u : IsUnicode H.unicode) (P : CrontabProgram H) (m h c : Str) where
  abbrev new_job : Str
  new_job = job_line (strip m) (strip h) (strip c)

  add_job_lem :
      (s : App H)
      → is_nonempty (strip c) ≡ true
      → valid_times H.unicode H.repr (strip m) (strip h) ≡ ok true
      → action_cron_add H (add_request m h c) s
        ≡ add_job H new_job (lines (jobs (P.crontab s.world))) (after_list H s)
  unfolding action_cron_add get codes str as_text
  add_job_lem s hc v = rw (hc, v, read_crontab_lines_lem H u P s)

  -- The jobs that are to be installed.
  abbrev pub with_job : App H → List Str
  with_job s = jobs (P.crontab s.world) ++ (new_job ∷ [])

  module _ (s : App H) (command_given : is_nonempty (strip c) ≡ true)
      (times_valid : valid_times H.unicode H.repr (strip m) (strip h) ≡ ok true)
      (accepted : P.accepts (content_of (with_job s)) ≡ true) where
    pub action_cron_add_lem :
        (action_cron_add H (add_request m h c) s
          ≡ (ok (added new_job (with_job s)), after_install H (with_job s) (after_list H s)))
        × (P.crontab (after_install H (with_job s) (after_list H s)).world
            ≡ some (content_of (with_job s)))
    unfolding add_job
    action_cron_add_lem =
        let (e, w) = write_crontab_lines_lem H u P (with_job s) (after_list H s) accepted in
        (rw (add_job_lem s command_given times_valid, e), w)

    pub with_job-IsJob :
        All IsJob (jobs (P.crontab s.world)) → All IsJobChar (strip c) → All IsJob (with_job s)
    with_job-IsJob before clean =
        let (hm, hh) = valid_times-clean H.unicode u H.repr m h times_valid in
        All-append _ (jobs (P.crontab s.world)) _ before
          (job_line-IsJob (strip m) (strip h) (strip c) hm hh clean, tt)

    -- With a command, valid times, and a new crontab that the program `crontab` accepts, on a crontab
    -- of well-formed jobs and for a command without line ends and escape characters: the reply is the
    -- success message, and the crontab afterwards holds the jobs that it held before, in their order,
    -- and behind them the new one.
    pub action_cron_add-jobs :
        All IsJob (jobs (P.crontab s.world))
        → All IsJobChar (strip c)
        → ((action_cron_add H (add_request m h c) s).0 ≡ ok (added new_job (with_job s)))
          × (jobs (P.crontab (action_cron_add H (add_request m h c) s).1.world)
              ≡ jobs (P.crontab s.world) ++ (new_job ∷ []))
    action_cron_add-jobs before clean =
        let (e, w) = action_cron_add_lem in
        rw (e, w) (refl, jobs-content_of (with_job s) (with_job-IsJob before clean))
