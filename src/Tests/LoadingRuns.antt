-- ===== src/Tests/LoadingRuns.antt =====
-- The driver is loaded on a kernel that has room for a number of devices; and a read that a write overtakes.
use project_linux.Base.{
  ℕ, ◌≡◌, refl, true, false, Bool, some, ◌==◌, ltb, if◌then◌else◌, Bool-cases, inl, inr, arith,
}
use project_linux.Base.Int.{pos, negsuc}
use project_linux.Driver.{Devices, my_read, my_write}
use project_linux.Driver.Race.{copied_out, read_length, read_length-my_write}
use project_linux.Tests.DriverRuns.{same_byte}
use project_linux.Driver.Calls.{loaded}
use project_linux.Driver.Loading.{Kernel, Registry, Module, Loads, my_init, my_init-Loads}

-- The numbers that are reserved, and the minors with a device.
pub record Numbers : Type 0 where
  pub reserved : Bool
  pub present : ℕ → Bool

abbrev put_minor : ℕ → Bool → Numbers → Numbers
put_minor i b k = record k { present = λ j. if j == i then b else k.present j }

-- There is memory for the devices below `room`.
abbrev kernel : ℕ → Kernel
kernel room = record {
  State = Numbers;
  register_chrdev_region = λ k. (pos 0, record k { reserved = true });
  unregister_chrdev_region = λ k. record k { reserved = false };
  cdev_add = λ i k. if ltb i room then (pos 0, put_minor i true k) else (negsuc 11, k);
  cdev_del = λ i k. put_minor i false k;
}

unfoldable registry : (room : ℕ) → Registry (kernel room)
registry room = record {
  reserved = λ k. k.reserved;
  present = λ k j. k.present j;
  registers = λ k. (refl, λ j. refl);
  unregisters = λ k. (refl, λ j. refl);
  adds = λ i k. elim (Bool-cases (ltb i room)) [
    | inl h ↦ rw h (refl, λ j. refl)
    | inr h ↦ rw h (refl, λ j. refl)
  ];
  deletes = λ i k. (refl, λ j. refl);
}

abbrev before : (room : ℕ) → Module (kernel room)
before room = record {
  kernel = record { reserved = false; present = λ j. false };
  devs = loaded.devs;
}

-- There is room for three of the five.
my_init-Loads_example : Loads (kernel 3) (registry 3) (before 3) (my_init (kernel 3) (before 3))
unfolding registry
my_init-Loads_example = my_init-Loads (kernel 3) (registry 3) (before 3) (refl, λ j. refl)

fails_midway : (my_init (kernel 3) (before 3)).0 ≡ negsuc 11
unfolding my_init
fails_midway = refl

-- Three bytes are in all buffers, and a reader has read two of them.
abbrev read_from : Devices
read_from = (my_write same_byte 1 3 0 loaded.devs).1

ready : (read_from 0).data_ready ≡ true
unfolding my_write
ready = refl

-- Another process writes one byte to the third device.
read_length-my_write_example :
    (copied_out (read_from 0) 2 (read_length (read_from 0) (read_from 0) 8 2)
      ≡ some (my_read (read_from 0) false false false 8 2))
    × (read_length (read_from 0) ((my_write same_byte 2 1 0 read_from).1 0) 8 2 ≡ some (negsuc 0))
unfolding my_write
read_length-my_write_example =
    read_length-my_write same_byte 2 1 0 read_from 0 8 2 false false (omega arith) refl ready
      (omega arith) refl (omega arith) (omega arith)
