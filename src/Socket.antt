-- ===== src/Socket.antt =====
-- `action_socket_start` and `action_socket_stop` of gui_app/app.py. The code that holds
-- `socket_demo_lock` is a function of its own, since no other such code runs between its steps.
pub mod Processes
pub mod Tracking
pub mod Starting
pub mod Stopping
pub mod Steps
use project_linux.Base.{Option, none, some, Bool, true, false, [], ◌∷◌, ◌++◌, if◌then◌else◌}
use project_linux.Base.Int.{ℤ}
use project_linux.Text.{Str, codes}
use project_linux.Text.Decimal.{decimal_ℤ}
use project_linux.Value.{Exception, process_lookup_error, timeout_expired, text, ok}
use project_linux.Value.Exec.{Exec, pure, try_except, ◌>>=◌, ◌>>◌}
use project_linux.FilePath.{FilePath, path_of, ◌/◌, show}
use project_linux.Host.{Host, App, Signal, sigterm, sigkill, system, effect}
use project_linux.Command.{Reply, reply}

abbrev pub socket_demo_url : Str
socket_demo_url = codes "http://127.0.0.1:9090/"

module _ (H : Host) where
  abbrev pub demo_dir : FilePath
  demo_dir = ◌/◌ H.root (path_of (codes "02_system_prog"))

  abbrev pub binary : FilePath
  binary = ◌/◌ (◌/◌ demo_dir (path_of (codes "bin"))) (path_of (codes "socket_demo"))

  -- `socket_demo_process = p`
  abbrev pub set_process : Option H.Process → Exec (App H) (Unit {0})
  set_process p s = (ok tt, record s { socket_demo_process = p })

  abbrev pub poll : H.Process → Exec (App H) (Option ℤ)
  poll p = effect H (H.poll p)

  unfoldable pub is_none : Option ℤ → Bool
  is_none none = true
  is_none (some code) = false

  -- `p and p.poll() is None`
  unfoldable pub is_running : Option H.Process → Exec (App H) Bool
  unfolding is_none
  is_running none = pure false
  is_running (some p) = do code ← poll p; pure (is_none code)

  -- After the pause: has the server stayed up? If not, the code is its exit code.
  unfoldable pub start_reply : Option ℤ → Exec (App H) Reply
  start_reply none = pure (
      reply true (
        codes "HTTP server da khoi dong.\nMo trinh duyet: "
        ++ (socket_demo_url ++ codes "\nSau khi test, bam Stop HTTP.")))
  start_reply (some code) = do
    set_process none
    pure (
        reply false (
          codes "Khong khoi dong duoc HTTP server (exit code "
          ++ (decimal_ℤ code ++ codes ").\nKiem tra port 9090 co dang bi su dung khong.")))

  abbrev pub pause : Exec (App H) (Unit {0})
  pause = effect H (λ w. (tt, H.sleep 200 w))

  unfoldable pub spawned : H.Process → Exec (App H) Reply
  unfolding start_reply
  spawned p = do set_process (some p); pause; code ← poll p; start_reply code

  unfoldable pub spawn : Exec (App H) Reply
  unfolding spawned
  spawn = do p ← system H (H.popen (text (show binary) ∷ []) demo_dir); spawned p

  abbrev pub start_if_not : Bool → Exec (App H) Reply
  start_if_not running =
      if running
      then pure (reply true (codes "HTTP server dang chay.\nMo trinh duyet: " ++ socket_demo_url))
      else spawn

  unfoldable pub start_locked : Exec (App H) Reply
  unfolding is_running spawn
  start_locked s = (do running ← is_running s.socket_demo_process; start_if_not running) s

  unfoldable pub action_socket_start : Exec (App H) Reply
  action_socket_start = do
    found ← system H (H.exists binary)
    if found
        then start_locked
        else pure (reply false (codes "Chua co binary. Hay bam Build truoc."))

  abbrev pub kill : H.Process → Signal → Exec (App H) (Unit {0})
  kill p sig = system H (H.killpg (H.pid p) sig)

  abbrev pub wait : H.Process → Exec (App H) (Unit {0})
  wait p = do code ← system H (H.wait p 3); pure tt

  abbrev pub stopped : Str → Exec (App H) Reply
  stopped message = do set_process none; pure (reply true message)

  -- `except ProcessLookupError: pass`
  abbrev pub ignore_lookup : Exception → Option (Exec (App H) (Unit {0}))
  ignore_lookup process_lookup_error = some (pure tt)
  ignore_lookup _ = none

  -- The second signal, when the first has not ended the server in time.
  unfoldable pub force : H.Process → Exec (App H) (Unit {0})
  force p = do try_except (kill p sigkill) ignore_lookup; wait p

  abbrev pub on_timeout : H.Process → Exception → Option (Exec (App H) (Unit {0}))
  on_timeout p (timeout_expired out) = some (force p)
  on_timeout p _ = none

  unfoldable pub finish : H.Process → Exec (App H) Reply
  unfolding force
  finish p = do
    try_except (wait p) (on_timeout p)
    stopped (codes "Da dung HTTP server tren port 9090.")

  -- The signal was sent, or there was no process to send it to.
  abbrev pub lookup_failed : Exception → Option (Exec (App H) Bool)
  lookup_failed process_lookup_error = some (pure false)
  lookup_failed _ = none

  unfoldable pub terminate : H.Process → Exec (App H) Reply
  unfolding finish
  terminate p = do
    sent ← try_except (do kill p sigterm; pure true) lookup_failed
    if sent then finish p else stopped (codes "HTTP server da dung.")

  unfoldable pub stop_tracked : Option H.Process → Exec (App H) Reply
  unfolding is_running terminate
  stop_tracked none = stopped (codes "HTTP server hien khong chay.")
  stop_tracked (some p) = do
    running ← is_running (some p)
    if running then terminate p else stopped (codes "HTTP server hien khong chay.")

  unfoldable pub action_socket_stop : Exec (App H) Reply
  unfolding stop_tracked
  action_socket_stop s = stop_tracked s.socket_demo_process s
