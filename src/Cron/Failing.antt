-- ===== src/Cron/Failing.antt =====
-- A cron action that does not succeed leaves the crontab as it was.
use project_linux.Base.{
  ◌≡◌, ◌⊎◌, inl, inr, refl, true, false, Bool, Option, none, some, List, get_elem?, remove_at,
  Bool-cases, if◌then◌else◌,
}
use project_linux.Base.Int.{ℤ}
use project_linux.Text.{Str, IsUnicode}
use project_linux.Value.{Json, Exception, Result, ok, raise, index_error}
use project_linux.Value.Exec.{Exec, pure, throw, lift, ◌>>=◌}
use project_linux.Host.{Host, App}
use project_linux.Command.{Reply, CmdResult}
use project_linux.Cron.Crontab.{
  ReadResult, lines, error, content_of, read_crontab_lines, write_crontab_lines,
}
use project_linux.Cron.Actions.{
  add_job, action_cron_add, write_rest, delete_job, action_cron_delete, delete_at,
}
use project_linux.Cron.Program.{CrontabProgram}
use project_linux.Cron.Reading.{
  list_call, after_list, read_crontab_lines_lem, write_crontab_lines_lem,
  write_crontab_lines_refused,
}

-- The action returned a reply with `ok`.
abbrev pub Succeeds : Result Reply → Type 0
Succeeds r = (p : Reply) × (r ≡ ok p) × (p.is_ok ≡ true)

module _ (H : Host) (P : CrontabProgram H) where
  pub record IsSafe (m : Exec (App H) Reply) : Type 0 where
    pub at : (s : App H) → (P.crontab (m s).1.world ≡ P.crontab s.world) ⊎ Succeeds (m s).0

module _ {H : Host} {P : CrontabProgram H} where
  pure-IsSafe : (r : Reply) → IsSafe H P (pure r)
  pure-IsSafe r = record { at = λ s. inl refl }

  throw-IsSafe : (e : Exception) → IsSafe H P (throw e)
  throw-IsSafe e = record { at = λ s. inl refl }

  lift-IsSafe :
      {A : Type 0} (r : Result A) (f : A → Exec (App H) Reply)
      → ((a : A) → IsSafe H P (f a))
      → IsSafe H P (lift r >>= f)
  lift-IsSafe (ok a) f h = record { at = (h a).at }
  lift-IsSafe (raise e) f h = record { at = λ s. inl refl }

  if-IsSafe :
      (b : Bool) (m n : Exec (App H) Reply)
      → IsSafe H P m
      → IsSafe H P n
      → IsSafe H P (if b then m else n)
  if-IsSafe true m n hm hn = hm
  if-IsSafe false m n hm hn = hn

module _ (H : Host) (u : IsUnicode H.unicode) (P : CrontabProgram H) where
  read-IsSafe :
      (f : ReadResult → Exec (App H) Reply)
      → ((r : ReadResult) → IsSafe H P (f r))
      → IsSafe H P (read_crontab_lines H >>= f)
  read-IsSafe f h = record {
    at = λ s.
        rw (read_crontab_lines_lem H u P s, ← P.list_keeps (list_call H) s.world refl)
          ((h _).at (after_list H s));
  }

  -- What follows a write sees its result; a refused write has changed nothing.
  write-IsSafe :
      (ls : List Str) (good bad : CmdResult → Reply)
      → ((r : CmdResult) → (good r).is_ok ≡ true)
      → IsSafe H P (write_crontab_lines H ls >>= λ r. pure (if r.is_ok then good r else bad r))
  write-IsSafe ls good bad h = record {
    at = λ s. elim (Bool-cases (P.accepts (content_of ls))) [
      | inl a ↦ let (e, w) = write_crontab_lines_lem H u P ls s a in rw e (inr (_, refl, h _))
      | inr a ↦ let (r, e, _, w) = write_crontab_lines_refused H u P ls s a in rw e (inl w)
    ];
  }

  add_job-IsSafe : (job : Str) (r : ReadResult) → IsSafe H P (add_job H job r)
  unfolding add_job
  add_job-IsSafe job (error e) = pure-IsSafe _
  add_job-IsSafe job (lines ls) = write-IsSafe _ _ _ (λ r. refl)

  removal-IsSafe :
      (o : Option Str) (ls : List Str)
      → IsSafe H P (elim o [ none ↦ throw index_error | some removed ↦ write_rest H removed ls ])
  unfolding write_rest
  removal-IsSafe none ls = throw-IsSafe index_error
  removal-IsSafe (some removed) ls = write-IsSafe _ _ _ (λ r. refl)

  delete_job-IsSafe : (index : ℤ) (r : ReadResult) → IsSafe H P (delete_job H index r)
  unfolding delete_job
  delete_job-IsSafe index (error e) = pure-IsSafe _
  delete_job-IsSafe index (lines ls) =
      if-IsSafe _ _ _ (pure-IsSafe _) (removal-IsSafe (get_elem? ls _) (remove_at _ ls))

  ruleset safe_rules = (
    pure-IsSafe, throw-IsSafe, lift-IsSafe, if-IsSafe, read-IsSafe, add_job-IsSafe,
    delete_job-IsSafe,
  )

  add-IsSafe : (data' : Json) → IsSafe H P (action_cron_add H data')
  unfolding action_cron_add
  add-IsSafe data' = search safe_rules depth 12

  delete_at-IsSafe : (index : Option ℤ) → IsSafe H P (delete_at H index)
  unfolding delete_at
  delete_at-IsSafe none = pure-IsSafe _
  delete_at-IsSafe (some n) = search safe_rules

  delete-IsSafe : (data' : Json) → IsSafe H P (action_cron_delete H data')
  unfolding action_cron_delete
  delete-IsSafe data' = search (safe_rules, delete_at-IsSafe)

  -- Whatever the request and the state: a `cron.add` that raises, or replies without `ok`, leaves
  -- the user's crontab as it was.
  pub action_cron_add_safe :
      (data' : Json) (s : App H)
      → (P.crontab (action_cron_add H data' s).1.world ≡ P.crontab s.world)
        ⊎ Succeeds (action_cron_add H data' s).0
  action_cron_add_safe data' = (add-IsSafe data').at

  -- Whatever the request and the state: a `cron.delete` that raises, or replies without `ok`, leaves
  -- the user's crontab as it was.
  pub action_cron_delete_safe :
      (data' : Json) (s : App H)
      → (P.crontab (action_cron_delete H data' s).1.world ≡ P.crontab s.world)
        ⊎ Succeeds (action_cron_delete H data' s).0
  action_cron_delete_safe data' = (delete-IsSafe data').at
