-- ===== src/Driver/Calls.antt =====
-- The calls of the driver as steps from a state of the devices and the open files to the next one.
use project_linux.Base.{ℕ, ◌≡◌, false, List, [], ◌∷◌, ◌++◌, replicate, length, Memᴰ}
use project_linux.Driver.{
  buffer_size, Device, Devices, set, returns, Copy, my_open, my_release, my_write, Command,
  my_ioctl,
}

-- The devices, and the minors of the open files.
pub record System : Type 0 where
  pub devs : Devices
  pub files : List ℕ

-- A device as `my_init` leaves it.
abbrev pub fresh : Device
fresh = record { buffer = replicate buffer_size 0; size = 0; access = false; data_ready = false }

abbrev pub loaded : System
loaded = record { devs = λ i. fresh; files = [] }

-- Files are opened and closed, and the others are written to and controlled in any order. Reads and seeks change
-- no device.
pub data Step : System → System → Type 0 where
  opened :
      (s : System) (m : ℕ)
      → (my_open m s.devs).0 ≡ returns 0
      → Step s (record { devs = (my_open m s.devs).1; files = m ∷ s.files })
  released :
      (devs : Devices) (before after : List ℕ) (m : ℕ)
      → Step
          (record { devs = devs; files = before ++ (m ∷ after) })
          (record { devs = (my_release m devs).1; files = before ++ after })
  wrote :
      (s : System) (m : ℕ) (user : ℕ → Copy) (size offset : ℕ)
      → Memᴰ m s.files
      → ((n : ℕ) → length (user n).source ≡ n)
      → Step s (record s { devs = (my_write user m size offset s.devs).1 })
  controlled :
      (s : System) (m : ℕ) (cmd : Command)
      → Memᴰ m s.files
      → Step s (record s { devs = set m (my_ioctl cmd (s.devs m)).1 s.devs })

pub data Reach : System → System → Type 0 where
  here : {s : System} → Reach s s
  next : {s t u : System} → Reach s t → Step t u → Reach s u
