-- ===== src/Tests/StartupRuns.antt =====
-- A run of `main` where the first port is busy and a thread has started the demo server.
use project_linux.Base.{◌≡◌, refl, false, some, none, ◌==◌, if◌then◌else◌}
use project_linux.Base.Int.{ℤ, pos}
use project_linux.Text.{codes}
use project_linux.Value.{Result, ok, raise, os_error, keyboard_interrupt}
use project_linux.Host.{App}
use project_linux.Socket.{start_locked}
use project_linux.Socket.Tracking.{NoneAlive}
use project_linux.Socket.Steps.{here, next, start}
use project_linux.Startup.{Network, find_port, main}
use project_linux.Startup.Ending.{IsServing, MainEnds, main-MainEnds}
use project_linux.Tests.ServerHost.{host, processes}

unfoldable pub listen : ℤ → Result ℤ
listen (pos n) = if n == 8088 then raise (os_error 98 (codes "in use")) else ok (pos n)
listen p = ok p

-- Serving is one start of the demo server, and then an interrupt from the keyboard.
abbrev network : Network host
network = record {
  Server = ℤ;
  chdir = λ w. (ok tt, w);
  port_setting = λ w. none;
  bind = λ port w. (listen port, w);
  serve_forever = λ server s. (raise keyboard_interrupt, (start_locked host s).1);
  server_close = λ server s. s;
}

serving : IsServing host processes network
serving = record {
  serves = λ server s. next here (start s);
  closes = λ server s. here;
  bind_keeps = λ port q w h. h;
  chdir_keeps = λ q w h. h;
}

abbrev idle : App host
idle = record {
  world = record { is_alive = λ q. false; next = 1; stubborn = false };
  socket_demo_process = none;
}

idle-NoneAlive : NoneAlive host processes idle
unfolding processes
idle-NoneAlive q = refl

second_port : (find_port host network 21 (pos 8088) idle).0 ≡ ok (some (pos 8089, pos 8089))
unfolding find_port listen
second_port = refl

main-MainEnds_example : MainEnds host processes network serving (main host network idle)
main-MainEnds_example = main-MainEnds host processes network serving idle idle-NoneAlive

-- A thread has waited to start the demo server while the final stop had the lock.
abbrev late_network : Network host
late_network = record network { server_close = λ server s. (start_locked host s).1 }
