-- ===== src/Socket/Steps.antt =====
-- The threads of the server interleave at the lock: a run is a sequence of critical sections, with
-- anything else that happens in the world between them.
use project_linux.Base.{◌≡◌, true, some}
use project_linux.Host.{Host, App}
use project_linux.Socket.{start_locked, action_socket_stop}
use project_linux.Socket.Processes.{Processes}
use project_linux.Socket.Tracking.{IsTracked, NoneAlive}
use project_linux.Socket.Starting.{start_locked-IsTracked}
use project_linux.Socket.Stopping.{action_socket_stop-IsTracked}

module _ (H : Host) (P : Processes H) where
  -- The rest of the program and of the world starts no server; it may see one end.
  pub data Step : App H → App H → Type 0 where
    start : (s : App H) → Step s (start_locked H s).1
    stop : (s : App H) → Step s (action_socket_stop H s).1
    other :
        (s : App H) (w : H.World)
        → ((q : H.Process) → P.alive q w ≡ true → P.alive q s.world ≡ true)
        → Step s (record s { world = w })

  pub data Reach (s : App H) : App H → Type 0 where
    here : Reach s s
    next : {t v : App H} → Reach s t → Step t v → Reach s v

  Step-IsTracked : {s t : App H} → Step s t → IsTracked H P s → IsTracked H P t
  Step-IsTracked (start s) h = (start_locked-IsTracked H P s h).0
  Step-IsTracked (stop s) h = action_socket_stop-IsTracked H P s h
  Step-IsTracked (other s w keeps) h = λ q a. h q (keeps q a)

  pub Reach-IsTracked : {s t : App H} → Reach s t → IsTracked H P s → IsTracked H P t
  Reach-IsTracked here h = h
  Reach-IsTracked (next r step) h = Step-IsTracked step (Reach-IsTracked r h)

  -- From a state in which no server is alive, no interleaving of starts, stops and other events,
  -- however many and whether they succeed or raise, comes to a state with two live servers, or with
  -- a live server other than the tracked one.
  pub at_most_one_server :
      {s t : App H} (p q : H.Process)
      → NoneAlive H P s
      → Reach s t
      → P.alive p t.world ≡ true
      → P.alive q t.world ≡ true
      → (p ≡ q) × (t.socket_demo_process ≡ some p)
  at_most_one_server {s} {t} p q dead r hp hq =
      let tracked = Reach-IsTracked r (λ x a. absurd (cc (dead x, a))) in
      (cc (tracked p hp, tracked q hq), tracked p hp)
