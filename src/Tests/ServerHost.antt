-- ===== src/Tests/ServerHost.antt =====
-- A machine that runs servers and nothing else: a process lives until it is waited for or killed.
use project_linux.Base.{ℕ, ◌+◌, Bool, true, false, none, some, [], ◌==◌, ◌≡◌, if◌then◌else◌, arith}
use project_linux.Base.Int.{pos}
use project_linux.Value.{ok, raise, file_not_found, timeout_expired, process_lookup_error}
use project_linux.Host.{Host, Signal, sigterm, sigkill}
use project_linux.Socket.Processes.{Processes}
use project_linux.Tests.Machine.{ascii, no_repr, home}

-- Which processes live, and the number of the next one. A server that is `stubborn` does not heed
-- the first signal.
pub record Machine : Type 0 where
  pub is_alive : ℕ → Bool
  pub next : ℕ
  pub stubborn : Bool

abbrev pub without : ℕ → Machine → Machine
without p w = record w { is_alive = λ q. if q == p then false else w.is_alive q }

unfoldable pub signal : ℕ → Signal → Machine → Machine
signal p sigterm w = if w.stubborn then w else without p w
signal p sigkill w = without p w

abbrev pub host : Host
host = record {
  World = Machine;
  unicode = ascii;
  repr = no_repr;
  root = home;
  run = λ c w. (raise (file_not_found []), w);
  exists = λ p w. (ok true, w);
  stat = λ p w. (raise (file_not_found []), w);
  Process = ℕ;
  popen = λ args cwd w. (
    ok w.next,
    record w { is_alive = λ q. if q == w.next then true else w.is_alive q; next = w.next + 1 },
  );
  pid = λ p. p;
  poll = λ p w. (if w.is_alive p then none else some (pos 0), w);
  wait = λ p seconds w. if w.is_alive p then (raise (timeout_expired []), w) else (ok (pos 0), w);
  killpg =
      λ p sig w. if w.is_alive p then (ok tt, signal p sig w) else (raise process_lookup_error, w);
  sleep = λ ms w. w;
}

pub signal-alive :
    (p : ℕ) (sig : Signal) (q : ℕ) (w : Machine)
    → (signal p sig w).is_alive q ≡ true
    → w.is_alive q ≡ true
unfolding signal
signal-alive p sigterm q w h = ground arith
signal-alive p sigkill q w h = ground arith

unfoldable pub processes : Processes host
processes = record {
  alive = λ p w. w.is_alive p;
  poll_keeps = λ p q w h. h;
  poll_dead = λ p w h. ground arith;
  popen_starts = λ args cwd q w e h. ground arith;
  popen_raises = λ args cwd q w e h. ground arith;
  wait_keeps = λ p q seconds w h. ground arith;
  wait_dead = λ p seconds w h. ground arith;
  killpg_keeps = λ p sig q w h. ground (arith, signal-alive p sig q w);
  killpg_missing = λ p sig w h. ground arith;
  sleep_keeps = λ q ms w h. h;
  exists_keeps = λ p q w h. h;
}
