-- ===== src/SocketDemo/Loop.antt =====
-- `main` of 02_system_prog/src/socket_demo.c: the loop that accepts clients, and the signals SIGINT and SIGTERM that
-- stop it, which may come between any two of its steps.
use project_linux.Base.{
  ℕ, suc, ◌+◌, ◌≤◌, ◌≡◌, refl, ap, sym, ◌∙◌, Bool, true, false, not, if◌then◌else◌, arith,
}

-- `testing`: before `while (running)`. `accepting`: behind the test, but not in `accept` yet. `waiting`: in `accept`.
pub data At : Type 0 where
  testing accepting waiting : At
  ended : ℕ → At

-- `running`, where the server is, whether `server_fd` is open, and for how many clients it has forked a child.
pub record Server : Type 0 where
  pub running : Bool
  pub at : At
  pub listening : Bool
  pub clients : ℕ

-- `close(server_fd)` and the end.
abbrev pub finished : ℕ → Server → Server
finished status s = record s { at = ended status; listening = false }

-- Up to the loop; the arguments say whether the calls succeed.
unfoldable pub start : Bool → Bool → Bool → Server
start socket bind listen =
    let opened : Server = record { running = true; at = testing; listening = true; clients = 0 } in
    if not socket
    then record opened { at = ended 1; listening = false }
    else if not bind
    then finished 1 opened
    else if not listen
    then finished 1 opened
    else opened

-- The test of the loop.
abbrev pub tested : Server → Server
tested s = if s.running then record s { at = accepting } else finished 0 s

-- In `accept` a signal is EINTR, and `continue`.
abbrev pub interrupted_at : At → At
interrupted_at waiting = testing
interrupted_at at = at

-- The handler of the signals.
unfoldable pub stop_server : Server → Server
stop_server s = record s { running = false; at = interrupted_at s.at }

-- A step of the loop, an outcome of `accept`, the second with a `fork` that fails, or a signal.
pub data Step : Server → Server → Type 0 where
  tests : {s : Server} → s.at ≡ testing → Step s (tested s)
  enters : {s : Server} → s.at ≡ accepting → Step s (record s { at = waiting })
  connected :
      {s : Server} → s.at ≡ waiting → Step s (record s { at = testing; clients = suc s.clients })
  unforked : {s : Server} → s.at ≡ waiting → Step s (record s { at = testing })
  accept_failed : {s : Server} → s.at ≡ waiting → Step s (finished 0 s)
  signalled : {s : Server} → Step s (stop_server s)

pub data Reach : Server → Server → Type 0 where
  here : {s : Server} → Reach s s
  next : {s t u : Server} → Reach s t → Step t u → Reach s u

-- The server serves until it has ended.
abbrev pub is_serving : At → Bool
is_serving (ended n) = false
is_serving _ = true

abbrev Serves : Server → Type 0
Serves s = s.listening ≡ is_serving s.at

serving_at :
    {at : At} (s : Server) → Serves s → s.at ≡ at → is_serving at ≡ true → s.listening ≡ true
serving_at {at} s h e k = h ∙ ap is_serving e ∙ k

tested-Serves :
    (b : Bool) (s : Server)
    → s.listening ≡ true
    → Serves (if b then record s { at = accepting } else finished 0 s)
tested-Serves true s h = h
tested-Serves false s h = refl

is_serving-interrupted_at : (at : At) → is_serving (interrupted_at at) ≡ is_serving at
is_serving-interrupted_at testing = refl
is_serving-interrupted_at accepting = refl
is_serving-interrupted_at waiting = refl
is_serving-interrupted_at (ended n) = refl

step-Serves : {s t : Server} → Step s t → Serves s → Serves t
unfolding stop_server
step-Serves {s} (tests e) h = tested-Serves s.running s (serving_at s h e refl)
step-Serves {s} (enters e) h = serving_at s h e refl
step-Serves {s} (connected e) h = serving_at s h e refl
step-Serves {s} (unforked e) h = serving_at s h e refl
step-Serves (accept_failed e) h = refl
step-Serves {s} signalled h = h ∙ sym (is_serving-interrupted_at s.at)

reach-Serves : {s t : Server} → Reach s t → Serves s → Serves t
reach-Serves here h = h
reach-Serves (next r step) h = step-Serves step (reach-Serves r h)

start-Serves : (socket bind listen : Bool) → Serves (start socket bind listen)
unfolding start
start-Serves false bind listen = refl
start-Serves true false listen = refl
start-Serves true true false = refl
start-Serves true true true = refl

-- How many clients a stopped server can still take.
abbrev left : At → ℕ
left accepting = 1
left waiting = 1
left _ = 0

abbrev Stopped : ℕ → Server → Type 0
Stopped n s = (s.running ≡ false) × (s.clients + left s.at ≤ n)

left-interrupted_at : (at : At) → left (interrupted_at at) ≤ left at
left-interrupted_at testing = omega arith
left-interrupted_at accepting = omega arith
left-interrupted_at waiting = omega arith
left-interrupted_at (ended n) = omega arith

left_bound : (at : At) → left (interrupted_at at) ≤ 1
left_bound testing = omega arith
left_bound accepting = omega arith
left_bound waiting = omega arith
left_bound (ended n) = omega arith

step-Stopped : {n : ℕ} {s t : Server} → Step s t → Stopped n s → Stopped n t
unfolding stop_server
step-Stopped {n} {s} (tests e) (off, h) =
    let same : left s.at ≡ 0 = ap left e in rw off (refl, omega (arith, h, same))
step-Stopped {n} {s} (enters e) (off, h) =
    let same : left s.at ≡ 1 = ap left e in (off, omega (arith, h, same))
step-Stopped {n} {s} (connected e) (off, h) =
    let same : left s.at ≡ 1 = ap left e in (off, omega (arith, h, same))
step-Stopped (unforked e) (off, h) = (off, omega (arith, h))
step-Stopped (accept_failed e) (off, h) = (off, omega (arith, h))
step-Stopped {n} {s} signalled (off, h) = (refl, omega (arith, h, left-interrupted_at s.at))

reach-Stopped : {n : ℕ} {s t : Server} → Reach s t → Stopped n s → Stopped n t
reach-Stopped here h = h
reach-Stopped (next r step) h = step-Stopped step (reach-Stopped r h)

-- Whenever the signal comes after the start of the server, and whatever happens then, it takes one more client at
-- most, and its socket is open exactly until it has ended. But where the signal comes behind the test of `running`
-- and before `accept`, the server goes on to wait in `accept`, although it was told to stop.
pub signalled-Stops :
    (socket bind listen : Bool) {s t : Server}
    → Reach (start socket bind listen) s
    → Reach (stop_server s) t
    → (t.clients ≤ suc s.clients)
      × (t.listening ≡ is_serving t.at)
      × Reach
          (stop_server (record s { at = accepting }))
          (record s { running = false; at = waiting })
unfolding stop_server
signalled-Stops socket bind listen {s} {t} r r' =
    let serves = reach-Serves r (start-Serves socket bind listen) in
    let (off, few) = reach-Stopped {n = suc s.clients} r' (refl, omega (arith, left_bound s.at)) in
    (
      omega (arith, few),
      reach-Serves r' (step-Serves {s = s} signalled serves),
      next here (enters refl),
    )
