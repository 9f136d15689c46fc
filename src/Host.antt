-- ===== src/Host.antt =====
-- What gui_app/app.py calls and does not implement: the operating system behind `subprocess`, `os`,
-- `signal` and `pathlib`, as one interface, and the state of the application over it.
use project_linux.Base.{ℕ, Bool, Option, List}
use project_linux.Base.Int.{ℤ}
use project_linux.Text.{Str, Unicode}
use project_linux.Value.{Json, Result, ok}
use project_linux.Value.Exec.{Exec}
use project_linux.FilePath.{FilePath}

-- The arguments of `subprocess.run`; the output is read through a pipe, the errors with it.
pub record Call : Type 0 where
  pub args : List Json
  pub cwd : Option FilePath
  pub input : Option Str
  -- in seconds
  pub timeout : Option ℕ

pub record Completed : Type 0 where
  pub returncode : ℤ
  pub stdout : Option Str

pub data Signal : Type 0 where
  sigterm sigkill : Signal

-- What `stat` tells: is it a character device, and its device numbers.
pub record Stat : Type 0 where
  pub is_chr : Bool
  pub major : ℕ
  pub minor : ℕ

pub record Host : Type 1 where
  -- everything outside the program, the clock included
  pub World : Type 0
  pub unicode : Unicode
  -- `repr` of a list or a dict
  pub repr : Json → Str
  -- ROOT
  pub root : FilePath
  -- subprocess.run
  pub run : Call → World → Result Completed × World
  -- Path.exists, Path.stat
  pub exists : FilePath → World → Result Bool × World
  pub stat : FilePath → World → Result Stat × World
  -- subprocess.Popen in a session of its own, its output thrown away
  pub Process : Type 0
  pub popen : List Json → FilePath → World → Result Process × World
  pub pid : Process → ℕ
  -- p.poll(), which returns p.returncode
  pub poll : Process → World → Option ℤ × World
  -- p.wait(timeout=seconds)
  pub wait : Process → ℕ → World → Result ℤ × World
  pub killpg : ℕ → Signal → World → Result (Unit {0}) × World
  -- time.sleep, in milliseconds
  pub sleep : ℕ → World → World

-- The outside world and the one global variable that the actions write.
pub record App (H : Host) : Type 0 where
  pub world : H.World
  pub socket_demo_process : Option H.Process

-- An effect on the world.
abbrev pub system {ℓ} : {A : Type ℓ} (H : Host) → (H.World → Result A × H.World) → Exec (App H) A
system H f s = let (r, w) = f s.world in (r, record s { world = w })

-- An effect that does not raise.
abbrev pub effect {ℓ} : {A : Type ℓ} (H : Host) → (H.World → A × H.World) → Exec (App H) A
effect H f s = let (a, w) = f s.world in (ok a, record s { world = w })
