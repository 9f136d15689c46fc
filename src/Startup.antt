-- ===== src/Startup.antt =====
-- `main` of gui_app/app.py: the search for a free port, and the end of the program.
pub mod Ports
pub mod Ending
pub mod Late
use project_linux.Base.{
  ℕ, zero, suc, ◌+◌, ◌-◌, Bool, true, false, ◌||◌, not, Option, none, some, ◌==◌, if◌then◌else◌,
}
use project_linux.Base.Int.{ℤ, pos, negsuc, leb_ℤ, suc_ℤ}
use project_linux.Text.{Str, Unicode}
use project_linux.Value.{Exception, os_error, keyboard_interrupt, int_of_text, Result, ok, raise}
use project_linux.Value.Exec.{Exec, pure, lift, try_except, continue, ◌>>=◌, ◌>>◌}
use project_linux.Host.{Host, App, system, effect}
use project_linux.Socket.{action_socket_stop}

abbrev pub default_port : ℕ
default_port = 8088

abbrev pub last_port : ℕ
last_port = default_port + 20

-- What `main` calls: the environment, and the server of `http.server`. The threads of a server that
-- serves run the actions, so serving acts on the program's state. The threads are daemons, for which
-- nothing waits: those that still run when serving has ended go on, and closing acts on the state too.
pub record Network (H : Host) : Type 1 where
  pub Server : Type 0
  pub chdir : H.World → Result (Unit {0}) × H.World
  -- os.environ.get("PORT")
  pub port_setting : H.World → Option Str
  -- ThreadingHTTPServer((HOST, port), Handler)
  pub bind : ℤ → H.World → Result Server × H.World
  pub serve_forever : Server → Exec (App H) (Unit {0})
  pub server_close : Server → App H → App H

-- `int(os.environ.get("PORT", PORT))`
unfoldable pub first_port : Unicode → Option Str → Result ℤ
first_port U none = ok (pos default_port)
first_port U (some s) = int_of_text U s

-- How many ports there are up to the last one.
abbrev pub retries : ℤ → ℕ
retries (pos n) = last_port - n
retries (negsuc n) = last_port + suc n

-- `finally:`; an exception of the second code takes the place of the first result.
abbrev pub finally {ℓ} : {S : Type 0} {A : Type ℓ} → Exec S A → Exec S (Unit {0}) → Exec S A
finally m after s = let (r, s') = m s in continue (λ u s''. (r, s'')) (after s')

module _ (H : Host) (N : Network H) where
  -- The `except` clause: only a busy port that is not the last one is passed over.
  abbrev pub again {ℓ} : {A : Type ℓ} → ℤ → Exec (App H) A → Exception → Option (Exec (App H) A)
  again port retry (os_error errno message) =
      if not (errno == 98) || leb_ℤ (pos last_port) port then none else some retry
  again port retry _ = none

  -- The fuel bounds the number of tries; `none` is its end.
  unfoldable pub find_port : ℕ → ℤ → Exec (App H) (Option (N.Server × ℤ))
  find_port zero port = pure none
  find_port (suc fuel) port =
      try_except (do server ← system H (N.bind port); pure (some (server, port)))
        (again port (find_port fuel (suc_ℤ port)))

  abbrev pub interrupted : Exception → Option (Exec (App H) (Unit {0}))
  interrupted keyboard_interrupt = some (pure tt)
  interrupted _ = none

  abbrev pub close : N.Server → Exec (App H) (Unit {0})
  close server s = (ok tt, N.server_close server s)

  unfoldable pub serve : N.Server → Exec (App H) (Unit {0})
  serve server =
      finally (try_except (N.serve_forever server) interrupted)
        (do stopped ← action_socket_stop H; close server)

  unfoldable pub serve_found : Option (N.Server × ℤ) → Exec (App H) (Option (Unit {0}))
  unfolding serve
  serve_found none = pure none
  serve_found (some (server, port)) = do serve server; pure (some tt)

  -- `none` where the fuel of the search has run out.
  unfoldable pub main : Exec (App H) (Option (Unit {0}))
  unfolding find_port serve_found
  main = do
    system H N.chdir
    setting ← effect H (λ w. (N.port_setting w, w))
    port ← lift (first_port H.unicode setting)
    found ← find_port (suc (retries port)) port
    serve_found found
