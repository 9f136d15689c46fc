-- ===== src/Socket/Tracking.antt =====
-- Every server that is alive is the one in `socket_demo_process`.
use project_linux.Base.{◌≡◌, ◌∙◌, true, false, none, some, arith}
use project_linux.Host.{Host, App}
use project_linux.Socket.Processes.{Processes}

module _ (H : Host) (P : Processes H) where
  abbrev pub IsTracked : App H → Type 0
  IsTracked s = (q : H.Process) → P.alive q s.world ≡ true → s.socket_demo_process ≡ some q

  -- No server is alive.
  abbrev pub NoneAlive : App H → Type 0
  NoneAlive s = (q : H.Process) → P.alive q s.world ≡ false

  pub not_alive :
      (q : H.Process) (s : App H) → ¬ (P.alive q s.world ≡ true) → P.alive q s.world ≡ false
  not_alive q s h = ground arith

  -- Without a tracked process no server is alive.
  pub none_tracked : (s : App H) → IsTracked s → s.socket_demo_process ≡ none → NoneAlive s
  none_tracked s t e q = not_alive q s (λ h. cc (t q h, e))

  pub dead_tracked :
      (p : H.Process) (s : App H)
      → IsTracked s
      → s.socket_demo_process ≡ some p
      → P.alive p s.world ≡ false
      → NoneAlive s
  dead_tracked p s t e dead q = not_alive q s (λ h. ground (arith, t q h))

  -- The state `t` has the tracked process of `s`, and no server that was not alive there.
  abbrev pub Shrinks : App H → App H → Type 0
  Shrinks s t =
      (t.socket_demo_process ≡ s.socket_demo_process)
      × ((q : H.Process) → P.alive q t.world ≡ true → P.alive q s.world ≡ true)

  pub Shrinks-IsTracked : (s t : App H) → Shrinks s t → IsTracked s → IsTracked t
  Shrinks-IsTracked s t (e, h) tracked q a = e ∙ tracked q (h q a)
