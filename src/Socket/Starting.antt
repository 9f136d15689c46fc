-- ===== src/Socket/Starting.antt =====
-- `action_socket_start` keeps every live server tracked.
use project_linux.Base.{
  ◌≡◌, ◌⊎◌, inl, inr, refl, ap, true, false, Option, none, some, [], ◌∷◌, arith,
}
use project_linux.Base.Int.{ℤ}
use project_linux.Value.{text, Exception, Result, ok, raise}
use project_linux.Value.Exec.{continue, ◌>>=◌}
use project_linux.FilePath.{show}
use project_linux.Host.{Host, App}
use project_linux.Command.{Reply}
use project_linux.Socket.{
  binary, demo_dir, is_none, is_running, start_reply, spawned, spawn, start_if_not, start_locked,
}
use project_linux.Socket.Processes.{Processes}
use project_linux.Socket.Tracking.{IsTracked, NoneAlive, not_alive, none_tracked, dead_tracked}

module _ (H : Host) (P : Processes H) where
  -- A reply says `ok` exactly where there is a tracked process.
  abbrev pub Truthful : Result Reply → App H → Type 0
  Truthful (ok x) s =
      ((x.is_ok ≡ true) × ((p : H.Process) × (s.socket_demo_process ≡ some p)))
      ⊎ ((x.is_ok ≡ false) × (s.socket_demo_process ≡ none))
  Truthful (raise e) s = Unit

  -- What is shown of a start.
  abbrev pub StartsWell : Result Reply × App H → Type 0
  StartsWell (r, s) = IsTracked H P s × Truthful r s

  start_reply-StartsWell :
      (p : H.Process) (code : Option ℤ) (s : App H)
      → IsTracked H P s
      → s.socket_demo_process ≡ some p
      → ((c : ℤ) → code ≡ some c → P.alive p s.world ≡ false)
      → StartsWell (start_reply H code s)
  unfolding start_reply
  start_reply-StartsWell p none s t e dead = (t, inl (refl, (p, e)))
  start_reply-StartsWell p (some c) s t e dead =
      (λ q h. absurd (cc (dead_tracked H P p s t e (dead c refl) q, h)), inr (refl, refl))

  spawned-StartsWell :
      (p : H.Process) (s : App H)
      → ((q : H.Process) → P.alive q s.world ≡ true → p ≡ q)
      → StartsWell (spawned H p s)
  unfolding spawned
  spawned-StartsWell p s only =
      start_reply-StartsWell p (H.poll p (H.sleep 200 s.world)).0
        (record { world = (H.poll p (H.sleep 200 s.world)).1; socket_demo_process = some p })
        (λ q h. ap some (only q (P.sleep_keeps q 200 s.world (P.poll_keeps p q _ h)))) refl
        (λ c e. P.poll_dead p _ e)

  popen-StartsWell :
      (r : Result H.Process) (s : App H)
      → ((p : H.Process) → r ≡ ok p → (q : H.Process) → P.alive q s.world ≡ true → p ≡ q)
      → ((e : Exception) → r ≡ raise e → NoneAlive H P s)
      → StartsWell (continue (spawned H) (r, s))
  popen-StartsWell (ok p) s only dead = spawned-StartsWell p s (only p refl)
  popen-StartsWell (raise e) s only dead = (λ q h. absurd (cc (dead e refl q, h)), tt)

  spawn-StartsWell : (s : App H) → NoneAlive H P s → StartsWell (spawn H s)
  unfolding spawn
  spawn-StartsWell s dead =
      let args = text (show (binary H)) ∷ [] in
      let cwd = demo_dir H in
      let opened : App H = record s { world = (H.popen args cwd s.world).1 } in
      popen-StartsWell (H.popen args cwd s.world).0 opened
        (λ p e q h. ground (arith, P.popen_starts args cwd q s.world e h, dead q))
        (λ e r q. not_alive H P q opened (λ h. cc (P.popen_raises args cwd q s.world r h, dead q)))

  start_if_not-StartsWell :
      (code : Option ℤ) (p : H.Process) (s : App H)
      → IsTracked H P s
      → s.socket_demo_process ≡ some p
      → ((c : ℤ) → code ≡ some c → P.alive p s.world ≡ false)
      → StartsWell (start_if_not H (is_none H code) s)
  unfolding is_none
  start_if_not-StartsWell none p s t e dead = (t, inl (refl, (p, e)))
  start_if_not-StartsWell (some c) p s t e dead =
      spawn-StartsWell s (dead_tracked H P p s t e (dead c refl))

  start_tracked-StartsWell :
      (o : Option H.Process) (s : App H)
      → s.socket_demo_process ≡ o
      → IsTracked H P s
      → StartsWell ((is_running H o >>= start_if_not H) s)
  unfolding is_running
  start_tracked-StartsWell none s e t = spawn-StartsWell s (none_tracked H P s t e)
  start_tracked-StartsWell (some p) s e t =
      start_if_not-StartsWell (H.poll p s.world).0 p (record s { world = (H.poll p s.world).1 })
        (λ q h. t q (P.poll_keeps p q s.world h)) e (λ c k. P.poll_dead p s.world k)

  start_locked-StartsWell : (s : App H) → IsTracked H P s → StartsWell (start_locked H s)
  unfolding start_locked
  start_locked-StartsWell s t = start_tracked-StartsWell s.socket_demo_process s refl t

  -- If no server is alive but the tracked one, that is so behind `action_socket_start`'s critical
  -- section too, also where it raises. Where it returns, either its reply is `ok` and a process is
  -- tracked, or its reply is not `ok` and none is.
  pub start_locked-IsTracked :
      (s : App H)
      → IsTracked H P s
      → IsTracked H P (start_locked H s).1 × Truthful (start_locked H s).0 (start_locked H s).1
  start_locked-IsTracked s t = start_locked-StartsWell s t
