-- ===== src/Socket/Stopping.antt =====
-- `action_socket_stop` ends the tracked server before it forgets it.
use project_linux.Base.{◌≡◌, refl, ◌∙◌, true, false, Option, none, some, arith, if◌then◌else◌}
use project_linux.Base.Int.{ℤ}
use project_linux.Text.{Str, codes}
use project_linux.Value.{process_lookup_error, timeout_expired, Result, ok, raise}
use project_linux.Value.Exec.{continue, except, pure}
use project_linux.Host.{Host, App, Signal, sigterm, sigkill}
use project_linux.Command.{Reply}
use project_linux.Socket.{
  is_none, stopped, wait, force, finish, ignore_lookup, on_timeout, lookup_failed, terminate,
  stop_tracked, action_socket_stop,
}
use project_linux.Socket.Processes.{Processes}
use project_linux.Socket.Tracking.{
  IsTracked, NoneAlive, Shrinks, Shrinks-IsTracked, none_tracked, dead_tracked,
}

module _ (H : Host) (P : Processes H) where
  -- A reply is `ok`, and no process is tracked then.
  abbrev pub Ended : Result Reply → App H → Type 0
  Ended (ok x) s = (x.is_ok ≡ true) × (s.socket_demo_process ≡ none)
  Ended (raise e) s = Unit

  abbrev pub StopsWell : Result Reply × App H → Type 0
  StopsWell (r, s) = IsTracked H P s × Ended r s

  stopped-StopsWell :
      (message : Str) (s : App H) → NoneAlive H P s → StopsWell (stopped H message s)
  stopped-StopsWell message s dead = (λ q h. absurd (cc (dead q, h)), (refl, refl))

  returned :
      (x : Reply) (r : Result Reply) (s : App H)
      → r ≡ ok x
      → IsTracked H P s
      → Ended r s
      → (x.is_ok ≡ true) × (s.socket_demo_process ≡ none) × NoneAlive H P s
  returned x (ok y) s h t (good, e) = (ground arith, e, none_tracked H P s t e)
  returned x (raise e) s h t _ = absurd (cc)

  module _ (p : H.Process) where
    -- An effect that forgets no process, and after which `p` is dead unless it raised.
    abbrev Ends : Result (Unit {0}) × App H → App H → Type 0
    Ends (r, t) s = Shrinks H P s t × (r ≡ ok tt → P.alive p t.world ≡ false)

    Ends-trans :
        (s t : App H) (x : Result (Unit {0}) × App H) → Shrinks H P s t → Ends x t → Ends x s
    Ends-trans s t x (e, h) ((e', h'), d) = ((e' ∙ e, λ q a. h q (h' q a)), d)

    waited-Ends :
        (r : Result ℤ) (t s : App H)
        → Shrinks H P s t
        → ((c : ℤ) → r ≡ ok c → P.alive p t.world ≡ false)
        → Ends (continue (λ code. pure tt) (r, t)) s
    waited-Ends (ok c) t s sh dead = (sh, λ _. dead c refl)
    waited-Ends (raise e) t s sh dead = (sh, λ h. absurd (cc))

    wait-Ends : (s : App H) → Ends (wait H p s) s
    wait-Ends s =
        waited-Ends (H.wait p 3 s.world).0 (record s { world = (H.wait p 3 s.world).1 }) s
          (refl, λ q. P.wait_keeps p q 3 s.world) (λ c. P.wait_dead p 3 s.world)

    killed-Ends :
        (r : Result (Unit {0})) (t s : App H)
        → Shrinks H P s t
        → Ends (continue (λ _. wait H p) (except (ignore_lookup H) (r, t))) s
    killed-Ends (ok u) t s sh = Ends-trans s t (wait H p t) sh (wait-Ends t)
    killed-Ends (raise process_lookup_error) t s sh = Ends-trans s t (wait H p t) sh (wait-Ends t)
    killed-Ends (raise _) t s sh = (sh, λ h. absurd (cc))

    -- The state behind a signal.
    abbrev signalled : Signal → App H → App H
    signalled sig s = record s { world = (H.killpg (H.pid p) sig s.world).1 }

    signalled-Shrinks : (sig : Signal) (s : App H) → Shrinks H P s (signalled sig s)
    signalled-Shrinks sig s = (refl, λ q. P.killpg_keeps (H.pid p) sig q s.world)

    force-Ends : (s : App H) → Ends (force H p s) s
    unfolding force
    force-Ends s =
        killed-Ends (H.killpg (H.pid p) sigkill s.world).0 (signalled sigkill s) s
          (signalled-Shrinks sigkill s)

    timed-Ends :
        (x : Result (Unit {0}) × App H) (s : App H) → Ends x s → Ends (except (on_timeout H p) x) s
    timed-Ends (ok u, t) s h = h
    timed-Ends (raise (timeout_expired out), t) s (sh, _) =
        Ends-trans s t (force H p t) sh (force-Ends t)
    timed-Ends (raise _, t) s h = h

    module _ (message : Str) (s : App H) (t : IsTracked H P s)
        (e : s.socket_demo_process ≡ some p) where
      ended-StopsWell :
          (x : Result (Unit {0}) × App H)
          → Ends x s
          → StopsWell (continue (λ _. stopped H message) x)
      ended-StopsWell (ok u, s') ((e', h), dead) =
          stopped-StopsWell message s'
            (dead_tracked H P p s' (Shrinks-IsTracked H P s s' (e', h) t) (e' ∙ e) (dead refl))
      ended-StopsWell (raise x, s') (sh, _) = (Shrinks-IsTracked H P s s' sh t, tt)

    finish-StopsWell :
        (s : App H) → IsTracked H P s → s.socket_demo_process ≡ some p → StopsWell (finish H p s)
    unfolding finish
    finish-StopsWell s t e =
        ended-StopsWell _ s t e (except (on_timeout H p) (wait H p s))
          (timed-Ends (wait H p s) s (wait-Ends s))

    sent-StopsWell :
        (r : Result (Unit {0})) (s : App H) (message : Str)
        → IsTracked H P s
        → s.socket_demo_process ≡ some p
        → (r ≡ raise process_lookup_error → P.alive p s.world ≡ false)
        → StopsWell (
            continue
              (λ sent. if sent then finish H p else stopped H message)
              (except (lookup_failed H) (continue (λ _. pure true) (r, s))))
    sent-StopsWell (ok u) s message t e dead = finish-StopsWell s t e
    sent-StopsWell (raise process_lookup_error) s message t e dead =
        stopped-StopsWell message s (dead_tracked H P p s t e (dead refl))
    sent-StopsWell (raise _) s message t e dead = (t, tt)

    terminate-StopsWell :
        (s : App H) → IsTracked H P s → s.socket_demo_process ≡ some p → StopsWell (terminate H p s)
    unfolding terminate
    terminate-StopsWell s t e =
        sent-StopsWell (H.killpg (H.pid p) sigterm s.world).0 (signalled sigterm s) _
          (Shrinks-IsTracked H P s (signalled sigterm s) (signalled-Shrinks sigterm s) t) e
          (P.killpg_missing p sigterm s.world)

    polled-StopsWell :
        (code : Option ℤ) (s : App H) (message : Str)
        → IsTracked H P s
        → s.socket_demo_process ≡ some p
        → ((c : ℤ) → code ≡ some c → P.alive p s.world ≡ false)
        → StopsWell ((if is_none H code then terminate H p else stopped H message) s)
    unfolding is_none
    polled-StopsWell none s message t e dead = terminate-StopsWell s t e
    polled-StopsWell (some c) s message t e dead =
        stopped-StopsWell message s (dead_tracked H P p s t e (dead c refl))

  stop_tracked-StopsWell :
      (o : Option H.Process) (s : App H)
      → s.socket_demo_process ≡ o
      → IsTracked H P s
      → StopsWell (stop_tracked H o s)
  unfolding stop_tracked
  stop_tracked-StopsWell none s e t =
      stopped-StopsWell (codes "HTTP server hien khong chay.") s (none_tracked H P s t e)
  stop_tracked-StopsWell (some p) s e t =
      polled-StopsWell p (H.poll p s.world).0 (record s { world = (H.poll p s.world).1 })
        (codes "HTTP server hien khong chay.") (λ q h. t q (P.poll_keeps p q s.world h)) e
        (λ c k. P.poll_dead p s.world k)

  -- If no server is alive but the tracked one, that is so behind `action_socket_stop` too, also where
  -- it raises: a server that survives its signals stays tracked.
  pub action_socket_stop-IsTracked :
      (s : App H) → IsTracked H P s → IsTracked H P (action_socket_stop H s).1
  unfolding action_socket_stop
  action_socket_stop-IsTracked s t = (stop_tracked-StopsWell s.socket_demo_process s refl t).0

  -- If no server is alive but the tracked one, and `action_socket_stop` returns, then its reply is
  -- `ok`, no process is tracked, and no server is alive.
  pub action_socket_stop-NoneAlive :
      (s : App H) (x : Reply)
      → IsTracked H P s
      → (action_socket_stop H s).0 ≡ ok x
      → (x.is_ok ≡ true)
        × ((action_socket_stop H s).1.socket_demo_process ≡ none)
        × NoneAlive H P (action_socket_stop H s).1
  unfolding action_socket_stop
  action_socket_stop-NoneAlive s x t h =
      let (tracked, ended) = stop_tracked-StopsWell s.socket_demo_process s refl t in
      returned x _ _ h tracked ended
