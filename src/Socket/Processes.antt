-- ===== src/Socket/Processes.antt =====
-- What gui_app/app.py assumes of processes: they come to life only by `Popen`, and `poll`, `wait`
-- and `killpg` tell the truth about the end of one.
use project_linux.Base.{ℕ, ◌≡◌, ◌⊎◌, Bool, true, false, some, List}
use project_linux.Base.Int.{ℤ}
use project_linux.Value.{Json, Exception, process_lookup_error, ok, raise}
use project_linux.FilePath.{FilePath}
use project_linux.Host.{Host, Signal}

pub record Processes (H : Host) : Type 0 where
  pub alive : H.Process → H.World → Bool
  pub poll_keeps :
      (p q : H.Process) (w : H.World) → alive q (H.poll p w).1 ≡ true → alive q w ≡ true
  pub poll_dead :
      (p : H.Process) (w : H.World) {code : ℤ}
      → (H.poll p w).0 ≡ some code
      → alive p (H.poll p w).1 ≡ false
  pub popen_starts :
      (args : List Json) (cwd : FilePath) (q : H.Process) (w : H.World) {p : H.Process}
      → (H.popen args cwd w).0 ≡ ok p
      → alive q (H.popen args cwd w).1 ≡ true
      → (p ≡ q) ⊎ (alive q w ≡ true)
  pub popen_raises :
      (args : List Json) (cwd : FilePath) (q : H.Process) (w : H.World) {e : Exception}
      → (H.popen args cwd w).0 ≡ raise e
      → alive q (H.popen args cwd w).1 ≡ true
      → alive q w ≡ true
  pub wait_keeps :
      (p q : H.Process) (seconds : ℕ) (w : H.World)
      → alive q (H.wait p seconds w).1 ≡ true
      → alive q w ≡ true
  pub wait_dead :
      (p : H.Process) (seconds : ℕ) (w : H.World) {code : ℤ}
      → (H.wait p seconds w).0 ≡ ok code
      → alive p (H.wait p seconds w).1 ≡ false
  pub killpg_keeps :
      (pid : ℕ) (sig : Signal) (q : H.Process) (w : H.World)
      → alive q (H.killpg pid sig w).1 ≡ true
      → alive q w ≡ true
  pub killpg_missing :
      (p : H.Process) (sig : Signal) (w : H.World)
      → (H.killpg (H.pid p) sig w).0 ≡ raise process_lookup_error
      → alive p (H.killpg (H.pid p) sig w).1 ≡ false
  pub sleep_keeps :
      (q : H.Process) (ms : ℕ) (w : H.World) → alive q (H.sleep ms w) ≡ true → alive q w ≡ true
  pub exists_keeps :
      (path : FilePath) (q : H.Process) (w : H.World)
      → alive q (H.exists path w).1 ≡ true
      → alive q w ≡ true
