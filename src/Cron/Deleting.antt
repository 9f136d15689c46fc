-- ===== src/Cron/Deleting.antt =====
-- `action_cron_delete` over the program `crontab`.
use project_linux.Base.{
  ℕ, ◌+◌, ◌-◌, ◌≤◌, ◌<◌, ◌≡◌, ◌||◌, refl, ap, true, false, some, ◌++◌, All, All-remove_at, List,
  arith, length, get_elem?, remove_at, lt-length,
}
use project_linux.Base.Int.{ℤ, pos, ltb_ℤ}
use project_linux.Text.{Str, codes, Unicode, IsUnicode, is_nonempty}
use project_linux.Text.Decimal.{int, decimal, max_str_digits}
use project_linux.Text.Decimal.RoundTrip.{int-decimal, decimal-nonempty}
use project_linux.Value.{
  Json, text, num, object, field, end, get, ok, value_or, int_of, int_of_text,
}
use project_linux.Table.{table}
use project_linux.Host.{Host, App}
use project_linux.Command.{Reply, reply}
use project_linux.Cron.Crontab.{content_of, lines}
use project_linux.Cron.Actions.{parse_index, action_cron_delete, delete_job, remove_job, write_rest}
use project_linux.Cron.Program.{CrontabProgram}
use project_linux.Cron.Jobs.{jobs, IsJob, jobs-content_of}
use project_linux.Cron.Reading.{
  after_list, after_install, read_crontab_lines_lem, write_crontab_lines_lem,
}

-- What the page sends for `cron.delete`.
abbrev pub delete_request : Str → Json
delete_request index = object (field (codes "index") (text index) end)

abbrev pub deleted : Str → List Str → Reply
deleted removed ls =
    reply true (codes "Da xoa: " ++ (removed ++ (codes "\n\nCrontab hien tai:\n" ++ table ls)))

in_range : (i n : ℕ) → i < n → (ltb_ℤ (pos (i + 1)) (pos 1) || ltb_ℤ (pos n) (pos (i + 1))) ≡ false
in_range i n h = ground arith

module _ (U : Unicode) (u : IsUnicode U) where
  index_text :
      (t : Str) (n : ℤ)
      → is_nonempty t ≡ true
      → int U t ≡ some n
      → int_of U (value_or (text t) (num (pos 0))) ≡ ok n
  unfolding int_of int_of_text value_or
  index_text t n h e = ground arith

  -- The number that is written is the number that is read.
  parse_index-decimal :
      (n : ℕ)
      → length (decimal n) ≤ max_str_digits
      → parse_index U (delete_request (decimal n)) ≡ ok (some (pos n))
  unfolding parse_index get codes
  parse_index-decimal n h =
      rw (index_text (decimal n) (pos n) (decimal-nonempty n) (int-decimal U u n h))

module _ (H : Host) (u : IsUnicode H.unicode) (P : CrontabProgram H) where
  remove_job_found :
      (s : App H) (i : ℕ) (removed : Str) (ls : List Str)
      → get_elem? ls i ≡ some removed
      → remove_job H i ls s ≡ write_rest H removed (remove_at i ls) s
  unfolding remove_job
  remove_job_found s i removed ls found = rw (found, remove_job)

  delete_job_in_range :
      (i : ℕ) (ls : List Str)
      → i < length ls
      → delete_job H (pos (i + 1)) (lines ls) ≡ remove_job H i ls
  unfolding delete_job
  delete_job_in_range i ls h =
      let back : i + 1 - 1 ≡ i = omega arith in
      rw (in_range i (length ls) h) (ap (λ k. remove_job H k ls) back)

  write_rest_lem :
      (s : App H) (removed : Str) (ls : List Str)
      → P.accepts (content_of ls) ≡ true
      → write_rest H removed ls s ≡ (ok (deleted removed ls), after_install H ls s)
  unfolding write_rest
  write_rest_lem s removed ls accepted =
      let (e, w) = write_crontab_lines_lem H u P ls s accepted in rw e

  delete_job_at :
      (s : App H) (i : ℕ) (removed : Str) (ls : List Str)
      → get_elem? ls i ≡ some removed
      → P.accepts (content_of (remove_at i ls)) ≡ true
      → delete_job H (pos (i + 1)) (lines ls) s
        ≡ (ok (deleted removed (remove_at i ls)), after_install H (remove_at i ls) s)
  delete_job_at s i removed ls found accepted =
      rw (delete_job_in_range i ls (lt-length ls i found), remove_job_found s i removed ls found)
        (write_rest_lem s removed (remove_at i ls) accepted)

  module _ (s : App H) (i : ℕ) (removed : Str)
      (found : get_elem? (jobs (P.crontab s.world)) i ≡ some removed)
      (short : length (decimal (i + 1)) ≤ max_str_digits)
      (accepted : P.accepts (content_of (remove_at i (jobs (P.crontab s.world)))) ≡ true) where
    pub action_cron_delete_lem :
        (action_cron_delete H (delete_request (decimal (i + 1))) s ≡ (
          ok (deleted removed (remove_at i (jobs (P.crontab s.world)))),
          after_install H (remove_at i (jobs (P.crontab s.world))) (after_list H s),
        ))
    unfolding action_cron_delete
    action_cron_delete_lem =
        rw (parse_index-decimal H.unicode u (i + 1) short, read_crontab_lines_lem H u P s)
          (delete_job_at (after_list H s) i removed (jobs (P.crontab s.world)) found accepted)

    -- The number of a job, counted from 1 and sent as text, deletes that job: on a crontab of
    -- well-formed jobs, where the program `crontab` accepts what is left and the number is not longer
    -- than Python's limit for `int`, the reply names the job, and the crontab afterwards holds the
    -- other jobs, in their order.
    pub action_cron_delete-jobs :
        All IsJob (jobs (P.crontab s.world))
        → ((action_cron_delete H (delete_request (decimal (i + 1))) s).0
            ≡ ok (deleted removed (remove_at i (jobs (P.crontab s.world)))))
          × (jobs (P.crontab (action_cron_delete H (delete_request (decimal (i + 1))) s).1.world)
              ≡ remove_at i (jobs (P.crontab s.world)))
    action_cron_delete-jobs before =
        let left = remove_at i (jobs (P.crontab s.world)) in
        let (e, w) = write_crontab_lines_lem H u P left (after_list H s) accepted in
        rw (action_cron_delete_lem, w)
          (refl, jobs-content_of left (All-remove_at _ i (jobs (P.crontab s.world)) before))
