-- ===== src/Tests/DriverRuns.antt =====
-- Runs of the driver: two files are opened, and what is written to one device is read from the other.
use mathlib.Core.List.Memᴰ
use project_linux.Base.{
  ℕ, ◌≡◌, refl, true, false, [], ◌∷◌, replicate, take, length, arith, length-replicate,
}
use project_linux.Text.{codes}
use project_linux.Driver.{
  buffer_size, Copy, returns, bytes, my_open, my_write, my_read, write_length, fails, ebusy,
}
use project_linux.Driver.Calls.{System, loaded, opened, wrote, Reach, here, next}
use project_linux.Driver.Bounds.{AllBounded}
use project_linux.Driver.Exchange.{data_after, my_write-my_read}
use project_linux.Driver.Opening.{IsSafe, reach-IsSafe}

-- Memory that holds the same byte everywhere.
abbrev pub same_byte : ℕ → Copy
same_byte n = record { source = replicate n b'x'; complete = true }

same_byte_exact : (n : ℕ) → length (same_byte n).source ≡ n
same_byte_exact n = length-replicate {A = ℕ} n b'x'

-- The second device is opened, and three bytes are written to it.
abbrev one_open : System
one_open = record { devs = (my_open 1 loaded.devs).1; files = 1 ∷ [] }

open_works : (my_open 1 loaded.devs).0 ≡ returns 0
unfolding my_open
open_works = refl

open_twice : (my_open 1 one_open.devs).0 ≡ fails ebusy
unfolding my_open
open_twice = refl

abbrev one_written : System
one_written = record one_open { devs = (my_write same_byte 1 3 0 one_open.devs).1 }

reached : Reach loaded one_written
reached =
    next (next here (opened loaded 1 open_works))
      (wrote one_open 1 same_byte 3 0 (Memᴰ.head refl) same_byte_exact)

reach-IsSafe_example : IsSafe one_written
reach-IsSafe_example = reach-IsSafe reached

pub loaded-AllBounded : AllBounded loaded.devs
loaded-AllBounded i = (length-replicate {A = ℕ} buffer_size 0, omega arith)

-- A reader of the first device finds them.
my_write-my_read_example :
    ((my_write same_byte 1 3 0 loaded.devs).0 ≡ returns (write_length 3 0))
    × (my_read ((my_write same_byte 1 3 0 loaded.devs).1 0) false false false 255 0
        ≡ bytes (take 255 (data_after (loaded.devs 1) 0 (same_byte (write_length 3 0)).source)))
my_write-my_read_example =
    my_write-my_read same_byte 1 3 0 loaded.devs same_byte_exact (λ n. refl) loaded-AllBounded
      (omega arith) 0 false false 255 (omega arith)

three_read :
    my_read ((my_write same_byte 1 3 0 loaded.devs).1 0) false false false 255 0
    ≡ bytes (codes "xxx")
unfolding my_read my_write codes
three_read = refl
