-- ===== src/Tests/DemoRuns.antt =====
-- A client of the demo server that takes its response in pieces of a hundred bytes, while three signals come.
use project_linux.Base.{
  ℕ, zero, suc, ◌≤◌, ◌<◌, ◌≡◌, refl, ap, true, false, some, List, [], ◌++◌, length, take, leb,
  if◌then◌else◌, arith,
}
use project_linux.Text.{codes}
use project_linux.SocketDemo.{Sent, sent, interrupted, failed, Connection, response, handle_client}
use project_linux.SocketDemo.Loop.{
  testing, accepting, waiting, start, finished, stop_server, tests, enters, connected, Reach, here,
  next, signalled-Stops,
}
use project_linux.SocketDemo.Sending.{Documented, Answers, handle_client-Answers}

pub record Line : Type 0 where
  pub received : List ℕ
  pub signals : ℕ

abbrev piece : List ℕ → ℕ
piece data' = if leb (length data') 100 then length data' else 100

unfoldable send_piece : List ℕ → ℕ → List ℕ → Sent × Line
send_piece data' (suc n) before = (interrupted, record { received = before; signals = n })
send_piece data' zero before =
    (sent (piece data'), record { received = before ++ take (piece data') data'; signals = 0 })

abbrev slow : Connection
slow = record {
  State = Line;
  recv = λ n s. (some (codes "GET / HTTP/1.1\r\n\r\n"), s);
  send = λ data' s. send_piece data' s.signals s.received;
}

piece_fits : (data' : List ℕ) → 0 < length data' → (0 < piece data') × (piece data' ≤ length data')
piece_fits data' h = (ground (arith, h), ground (arith, h))

piece_sends :
    (data' : List ℕ) (k : ℕ) (before : List ℕ) {n : ℕ} {t : Line}
    → 0 < length data'
    → send_piece data' k before ≡ (sent n, t)
    → (0 < n) × (n ≤ length data') × (t.received ≡ before ++ take n data') × (t.signals ≤ k)
unfolding send_piece
piece_sends data' (suc k) before h e = absurd (cc)
piece_sends data' zero before {n} {t} h e =
    let size : piece data' ≡ n = cc in
    let after : record { received = before ++ take (piece data') data'; signals = 0 } ≡ t =
      ap (λ p. p.1) e in
    let (some_sent, fits) = piece_fits data' h in
    rw (← after, ← size) (some_sent, fits, refl, omega arith)

piece_interrupts :
    (data' : List ℕ) (k : ℕ) (before : List ℕ) {t : Line}
    → send_piece data' k before ≡ (interrupted, t)
    → (t.received ≡ before) × (t.signals < k)
unfolding send_piece
piece_interrupts data' zero before e = absurd (cc)
piece_interrupts data' (suc k) before {t} e =
    let after : record { received = before; signals = k } ≡ t = ap (λ p. p.1) e in
    rw (← after) (refl, omega arith)

piece_fails :
    (data' : List ℕ) (k : ℕ) (before : List ℕ) {t : Line}
    → send_piece data' k before ≡ (failed, t)
    → (t.received ≡ before) × (false ≡ true)
unfolding send_piece
piece_fails data' zero before e = absurd (cc)
piece_fails data' (suc k) before e = absurd (cc)

unfoldable documented : Documented slow
documented = record {
  wire = λ s. s.received;
  interrupts_left = λ s. s.signals;
  is_broken = λ s. false;
  receives = λ n s. (refl, omega arith, refl);
  sends = λ data' s h e.
      let (some_sent, fits, w, left) = piece_sends data' s.signals s.received h e in
      (some_sent, fits, w, left, refl);
  interrupts =
      λ data' s e. let (w, left) = piece_interrupts data' s.signals s.received e in (w, left, refl);
  fails = λ data' s e. piece_fails data' s.signals s.received e;
}

abbrev client : Line
client = record { received = []; signals = 3 }

handle_client-Answers_example : Answers slow documented client (handle_client slow 2000 client)
unfolding documented response
handle_client-Answers_example =
    handle_client-Answers slow documented 2000 client (codes "GET / HTTP/1.1\r\n\r\n") refl refl
      (omega arith)

-- The server waits, a client comes, and then the signal.
served_one :
    Reach (start true true true) (record (start true true true) { at = testing; clients = 1 })
unfolding start
served_one = next (next (next here (tests refl)) (enters refl)) (connected refl)

told :
    Reach
      (stop_server (record (start true true true) { at = testing; clients = 1 }))
      (finished 0 (record (start true true true) { running = false; clients = 1 }))
unfolding start stop_server
told = next here (tests refl)

signalled-Stops_example :
    (1 ≤ 2)
    × (false ≡ false)
    × Reach
        (stop_server (record (start true true true) { at = accepting; clients = 1 }))
        (record (start true true true) { running = false; at = waiting; clients = 1 })
unfolding start
signalled-Stops_example = signalled-Stops true true true served_one told
