-- ===== src/Cron/Injection.antt =====
-- A command with a line break in it becomes two jobs.
use project_linux.Base.{
  ◌≡◌, refl, ap, ◌∙◌, true, some, [], ◌∷◌, ◌++◌, All, All-append, List, append_assoc,
}
use project_linux.Text.{Str, IsUnicode, strip, is_nonempty, codes, join}
use project_linux.Value.{ok}
use project_linux.Host.{Host, App}
use project_linux.Cron.Crontab.{content_of, with_break}
use project_linux.Cron.Actions.{valid_times, job_line, action_cron_add}
use project_linux.Cron.Program.{CrontabProgram}
use project_linux.Cron.Jobs.{jobs, IsJob, IsJobChar, jobs-content_of}
use project_linux.Cron.Adding.{
  add_request, with_job, added, action_cron_add_lem, job_line-IsJob, valid_times-clean,
}

job_line-append : (m h a b : Str) → job_line m h (a ++ (10 ∷ b)) ≡ job_line m h a ++ (10 ∷ b)
unfolding job_line codes
job_line-append m h a b = simp append_assoc

-- A line with a line break is joined like two lines.
join-split :
    (ls : List Str) (x y : Str)
    → join (codes "\n") (ls ++ ((x ++ (10 ∷ y)) ∷ [])) ≡ join (codes "\n") (ls ++ (x ∷ y ∷ []))
unfolding join codes
join-split [] x y = refl
join-split (l ∷ []) x y = refl
join-split (l ∷ k ∷ ls) x y = ap (λ r. l ++ (10 ∷ r)) (join-split (k ∷ ls) x y)

content_of-split :
    (ls : List Str) (x y : Str)
    → content_of (ls ++ ((x ++ (10 ∷ y)) ∷ [])) ≡ content_of (ls ++ (x ∷ y ∷ []))
unfolding content_of
content_of-split ls x y = ap with_break (join-split ls x y)

module _ (H : Host) (u : IsUnicode H.unicode) (P : CrontabProgram H) (m h c first second : Str)
    (s : App H) where
  -- A command that holds a line break, with text on one line before it and any well-formed job behind
  -- it, is added where the times are valid and the program `crontab` accepts the text: the success
  -- message shows it as one job, and on a crontab of well-formed jobs there are then two more, the
  -- first with the times that were checked, the second the line behind the break as it was sent.
  pub action_cron_add_two_jobs :
      is_nonempty (strip c) ≡ true
      → valid_times H.unicode H.repr (strip m) (strip h) ≡ ok true
      → P.accepts (content_of (with_job H u P m h c s)) ≡ true
      → strip c ≡ first ++ (10 ∷ second)
      → All IsJobChar first
      → IsJob second
      → All IsJob (jobs (P.crontab s.world))
      → ((action_cron_add H (add_request m h c) s).0
          ≡ ok (added (job_line (strip m) (strip h) (strip c)) (with_job H u P m h c s)))
        × (jobs (P.crontab (action_cron_add H (add_request m h c) s).1.world)
            ≡ jobs (P.crontab s.world) ++ (job_line (strip m) (strip h) first ∷ second ∷ []))
  action_cron_add_two_jobs given valid accepts broken hf hs before =
      let (e, w) = action_cron_add_lem H u P m h c s given valid accepts in
      let (hm, hh) = valid_times-clean H.unicode u H.repr m h valid in
      let old = jobs (P.crontab s.world) in
      rw (e, w)
        (
          refl,
          ap (λ t. jobs (some (content_of (old ++ (job_line (strip m) (strip h) t ∷ []))))) broken
              ∙ ap (λ t. jobs (some (content_of (old ++ (t ∷ [])))))
                  (job_line-append (strip m) (strip h) first second)
              ∙ ap (λ t. jobs (some t))
                  (content_of-split old (job_line (strip m) (strip h) first) second)
              ∙ jobs-content_of (old ++ (job_line (strip m) (strip h) first ∷ second ∷ [])) (
                  All-append _ old _ before
                    (job_line-IsJob (strip m) (strip h) first hm hh hf, (hs, tt))),
        )
