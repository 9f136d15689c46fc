-- ===== src/Startup/Ending.antt =====
-- The end of the program: the demo server is stopped, and then the server of the panel is closed.
use project_linux.Base.{
  ℕ, zero, suc, ◌≡◌, ◌==◌, ◌||◌, not, Bool, if◌then◌else◌, refl, Option, none, some, true, false,
  arith,
}
use project_linux.Base.Int.{ℤ, pos, leb_ℤ, suc_ℤ}
use project_linux.Value.{Exception, Result, ok, raise, keyboard_interrupt, os_error}
use project_linux.Value.Exec.{Exec, pure, try_except, except, continue}
use project_linux.Host.{Host, App}
use project_linux.Command.{Reply}
use project_linux.Socket.{action_socket_stop}
use project_linux.Socket.Processes.{Processes}
use project_linux.Socket.Tracking.{IsTracked, NoneAlive, not_alive}
use project_linux.Socket.Stopping.{action_socket_stop-NoneAlive}
use project_linux.Socket.Steps.{Reach, Reach-IsTracked}
use project_linux.Startup.{
  Network, interrupted, close, serve, serve_found, find_port, first_port, main, again, last_port,
  retries,
}
use project_linux.Startup.Ports.{FoundFrom, find_port-FoundFrom}

-- What `main` assumes of the server: while it serves, and while it is closed, the program's state changes by the
-- actions of its threads and by what happens outside; the other calls start no demo server. What a thread does between
-- the end of serving and the final stop is part of serving; while the final stop has the lock, no thread is in it.
pub record IsServing (H : Host) (P : Processes H) (N : Network H) : Type 0 where
  pub serves : (server : N.Server) (s : App H) → Reach H P s (N.serve_forever server s).1
  pub closes : (server : N.Server) (s : App H) → Reach H P s (N.server_close server s)
  pub bind_keeps :
      (port : ℤ) (q : H.Process) (w : H.World)
      → P.alive q (N.bind port w).1 ≡ true
      → P.alive q w ≡ true
  pub chdir_keeps :
      (q : H.Process) (w : H.World) → P.alive q (N.chdir w).1 ≡ true → P.alive q w ≡ true

module _ (H : Host) (P : Processes H) (N : Network H) (L : IsServing H P N) where
  fewer_dead :
      (s t : App H)
      → ((q : H.Process) → P.alive q t.world ≡ true → P.alive q s.world ≡ true)
      → NoneAlive H P s
      → NoneAlive H P t
  fewer_dead s t keeps dead q = not_alive H P q t (λ h. absurd (cc (keeps q h, dead q)))

  dead-IsTracked : (s : App H) → NoneAlive H P s → IsTracked H P s
  dead-IsTracked s dead q h = absurd (cc (dead q, h))

  -- The state is one that the closing of a server has made of a state in which no demo server was alive or tracked; what
  -- is alive now is tracked.
  abbrev pub IsStopped : App H → Type 0
  IsStopped s =
      IsTracked H P s
      × ((server : N.Server) × (before : App H) × NoneAlive H P before
          × (before.socket_demo_process ≡ none)
          × (s ≡ N.server_close server before))

  -- What the code of `finally` leaves.
  abbrev Ends : Result (Unit {0}) × App H → Type 0
  Ends (ok u, s) = IsStopped s
  Ends (raise e, s) = Unit {0}

  stopped-Ends :
      (server : N.Server) (r : Result (Unit {0})) (y : Result Reply × App H)
      → ((x : Reply) → y.0 ≡ ok x → (y.1.socket_demo_process ≡ none) × NoneAlive H P y.1)
      → Ends (continue (λ u t. (r, t)) (continue (λ stopped. close H N server) y))
  stopped-Ends server (ok u) (ok x, t) dead =
      let (none_tracked, none_alive) = dead x refl in
      (
        Reach-IsTracked H P (L.closes server t) (dead-IsTracked t none_alive),
        (server, t, none_alive, none_tracked, refl),
      )
  stopped-Ends server (raise e) (ok x, t) dead = tt
  stopped-Ends server r (raise e, t) dead = tt

  interrupted_state : (x : Result (Unit {0}) × App H) → (except (interrupted H N) x).1 ≡ x.1
  interrupted_state (ok u, t) = refl
  interrupted_state (raise keyboard_interrupt, t) = refl
  interrupted_state (raise _, t) = refl

  serve-Ends : (server : N.Server) (s : App H) → IsTracked H P s → Ends (serve H N server s)
  unfolding serve
  serve-Ends server s tracked =
      let served = Reach-IsTracked H P (L.serves server s) tracked in
      let (r, t) = try_except (N.serve_forever server) (interrupted H N) s in
      stopped-Ends server r (action_socket_stop H t) (λ x h.
        let (replied, none_tracked, none_alive) =
          action_socket_stop-NoneAlive H P t x
            (rw (interrupted_state (N.serve_forever server s)) served) h in
        (none_tracked, none_alive))

  -- The end of `main`: the search for a port has not run out of fuel, and where `main` returns, the
  -- state is a stopped one.
  abbrev pub MainEnds : Result (Option (Unit {0})) × App H → Type 0
  MainEnds (ok none, s) = true ≡ false
  MainEnds (ok (some u), s) = IsStopped s
  MainEnds (raise e, s) = Unit {0}

  served-MainEnds :
      (x : Result (Unit {0}) × App H) → Ends x → MainEnds (continue (λ u. pure (some tt)) x)
  served-MainEnds (ok u, s) h = h
  served-MainEnds (raise e, s) h = tt

  found-MainEnds :
      (port : ℤ) (x : Result (Option (N.Server × ℤ)) × App H)
      → FoundFrom H N port x.0
      → NoneAlive H P x.1
      → MainEnds (continue (serve_found H N) x)
  unfolding serve_found
  found-MainEnds port (ok none, s) found dead = found
  found-MainEnds port (ok (some (server, q)), s) found dead =
      served-MainEnds (serve H N server s) (serve-Ends server s (dead-IsTracked s dead))
  found-MainEnds port (raise e, s) found dead = tt

  handled_dead :
      (stops : Bool) (rest : Exec (App H) (Option (N.Server × ℤ))) (e : Exception) (s : App H)
      → NoneAlive H P s
      → NoneAlive H P (rest s).1
      → NoneAlive H P (except (λ other. if stops then none else some rest) (raise e, s)).1
  handled_dead true rest e s dead later = dead
  handled_dead false rest e s dead later = later

  again_dead :
      (port : ℤ) (rest : Exec (App H) (Option (N.Server × ℤ))) (s : App H) (r : Result N.Server)
      → NoneAlive H P s
      → NoneAlive H P (rest s).1
      → NoneAlive H P
          (except (again H N port rest) (continue (λ server. pure (some (server, port))) (r, s))).1
  again_dead port rest s (ok server) dead later = dead
  again_dead port rest s (raise (os_error errno m)) dead later =
      handled_dead (not (errno == 98) || leb_ℤ (pos last_port) port) rest (os_error errno m) s dead
        later
  again_dead port rest s (raise _) dead later = dead

  next_dead :
      (fuel : ℕ) (port : ℤ) (s : App H)
      → NoneAlive H P s
      → ((t : App H) → NoneAlive H P t → NoneAlive H P (find_port H N fuel (suc_ℤ port) t).1)
      → NoneAlive H P (find_port H N (suc fuel) port s).1
  unfolding find_port
  next_dead fuel port s dead later =
      let t : App H = record s { world = (N.bind port s.world).1 } in
      let still = fewer_dead s t (λ q h. L.bind_keeps port q s.world h) dead in
      again_dead port (find_port H N fuel (suc_ℤ port)) t (N.bind port s.world).0 still
        (later t still)

  find_port_dead :
      (fuel : ℕ) (port : ℤ) (s : App H)
      → NoneAlive H P s
      → NoneAlive H P (find_port H N fuel port s).1
  find_port_dead zero port s dead = unfold find_port in dead
  find_port_dead (suc fuel) port s dead =
      next_dead fuel port s dead (find_port_dead fuel (suc_ℤ port))

  search-MainEnds :
      (s : App H) (r : Result ℤ)
      → NoneAlive H P s
      → MainEnds (
          continue
            (λ port. (λ t. continue (serve_found H N) (find_port H N (suc (retries port)) port t)))
            (r, s))
  search-MainEnds s (raise e) dead = tt
  search-MainEnds s (ok port) dead =
      found-MainEnds port (find_port H N (suc (retries port)) port s)
        (find_port-FoundFrom H N (suc (retries port)) port s (omega arith))
        (find_port_dead (suc (retries port)) port s dead)

  begun-MainEnds :
      (s : App H) (r : Result (Unit {0}))
      → NoneAlive H P s
      → MainEnds (
          continue
            (λ u. (λ t.
              continue
                (λ port.
                  (λ v. continue (serve_found H N) (find_port H N (suc (retries port)) port v)))
                (first_port H.unicode (N.port_setting t.world), t)))
            (r, s))
  begun-MainEnds s (raise e) dead = tt
  begun-MainEnds s (ok u) dead =
      search-MainEnds s (first_port H.unicode (N.port_setting s.world)) dead

  -- Started where no demo server is alive, `main` never runs out of fuel in its search for a port, however the server's
  -- threads interleaved. Where it returns, its last act, the closing of its server, was in a state in which no demo
  -- server was alive or tracked; a demo server that is alive afterwards is the tracked one, started by a thread that
  -- still ran then.
  pub main-MainEnds : (s : App H) → NoneAlive H P s → MainEnds (main H N s)
  unfolding main
  main-MainEnds s dead =
      let t : App H = record s { world = (N.chdir s.world).1 } in
      begun-MainEnds t (N.chdir s.world).0 (fewer_dead s t (λ q h. L.chdir_keeps q s.world h) dead)
