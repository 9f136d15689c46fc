-- ===== src/Tests/SocketRuns.antt =====
-- Runs of the socket actions: a server is started and stopped, and one that does not heed the first
-- signal is stopped and started again.
use project_linux.Base.{ℕ, Bool, ◌≡◌, refl, true, false, some, none, arith}
use project_linux.Text.{codes}
use project_linux.Value.{ok}
use project_linux.Host.{App}
use project_linux.Command.{reply}
use project_linux.Socket.{start_locked, action_socket_stop}
use project_linux.Socket.Tracking.{IsTracked, NoneAlive}
use project_linux.Socket.Starting.{start_locked-IsTracked}
use project_linux.Socket.Stopping.{action_socket_stop-NoneAlive}
use project_linux.Socket.Steps.{Reach, here, next, start, stop, at_most_one_server}
use project_linux.Tests.ServerHost.{signal, host, processes}

-- A machine on which nothing runs yet.
abbrev idle : Bool → App host
idle stubborn = record {
  world = record { is_alive = λ q. false; next = 7; stubborn = stubborn };
  socket_demo_process = none;
}

abbrev started : App host
started = (start_locked host (idle false)).1

idle-IsTracked : (b : Bool) → IsTracked host processes (idle b)
unfolding processes
idle-IsTracked b q h = absurd (ground arith)

started-IsTracked : IsTracked host processes started
started-IsTracked = (start_locked-IsTracked host processes (idle false) (idle-IsTracked false)).0

stop_returns :
    (action_socket_stop host started).0
    ≡ ok (reply true (codes "Da dung HTTP server tren port 9090."))
unfolding start_locked action_socket_stop codes signal
stop_returns = refl

action_socket_stop-NoneAlive_example :
    (true ≡ true)
    × ((action_socket_stop host started).1.socket_demo_process ≡ none)
    × NoneAlive host processes (action_socket_stop host started).1
action_socket_stop-NoneAlive_example =
    action_socket_stop-NoneAlive host processes started _ started-IsTracked stop_returns

-- Started, stopped by the second signal, started again.
abbrev restarted : App host
restarted = (start_locked host (action_socket_stop host (start_locked host (idle true)).1).1).1

abbrev run : Reach host processes (idle true) restarted
run =
    next (next (next here (start (idle true))) (stop (start_locked host (idle true)).1))
      (start (action_socket_stop host (start_locked host (idle true)).1).1)

idle-NoneAlive : NoneAlive host processes (idle true)
unfolding processes
idle-NoneAlive q = refl

eight_alive : processes.alive 8 restarted.world ≡ true
unfolding processes start_locked action_socket_stop signal
eight_alive = refl

at_most_one_server_example : (◌≡◌ {A = ℕ} 8 8) × (restarted.socket_demo_process ≡ some 8)
at_most_one_server_example =
    at_most_one_server host processes 8 8 idle-NoneAlive run eight_alive eight_alive
