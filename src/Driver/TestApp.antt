-- ===== src/Driver/TestApp.antt =====
-- A client of the driver: `main` of 04_char_driver/test_app.c, on the devices, where nothing else uses them while it
-- runs. What it prints is left out.
use project_linux.Base.{
  ℕ, ◌+◌, ◌<◌, ◌≡◌, refl, ap, ◌∙◌, Bool, true, false, Option, none, some, List, length, take, ◌==◌,
  if◌then◌else◌, not, arith,
}
use project_linux.Base.Int.{pos}
use project_linux.Text.{Str, codes, text_eq, is_nonempty}
use project_linux.Driver.{
  max_minors, Devices, set, Returned, returns, answers, fails, Read, waits, refused, bytes, Copy,
  Command, getsize, reset, my_open, my_release, my_write, my_read, my_llseek, my_ioctl, seek_set,
}
use project_linux.Driver.Calls.{fresh}
use project_linux.Driver.Bounds.{AllBounded, set-AllBounded}
use project_linux.Driver.Exchange.{my_write-my_read}

abbrev pub msg : Str
msg = codes "Hello from userspace!"

-- The program ends with a status, or it waits in a read.
pub data Outcome : Type 0 where
  exited : ℕ → Outcome
  blocked : Outcome

-- What a system call returns: nothing for a number below 0.
abbrev pub result : Returned → Option ℕ
result (returns n) = some n
result (answers n) = some 0
result (fails e) = none

-- `close(fd)` and the end.
abbrev pub closed : ℕ → Devices → Outcome × Devices
closed status devs = (exited status, (my_release 0 devs).1)

abbrev pub ioctl : Command → Devices → Returned × Devices
ioctl cmd devs = let (r, dev) = my_ioctl cmd (devs 0) in (r, set 0 dev devs)

-- The last read, with O_NONBLOCK: whatever it returns, the program ends well.
abbrev pub drained : Devices → Read → Outcome × Devices
drained devs waits = (blocked, devs)
drained devs _ = closed 0 devs

abbrev pub size_again : ℕ → Option ℕ → Devices → Outcome × Devices
size_again f_pos none devs = closed 1 devs
size_again f_pos (some n) devs = drained devs (my_read (devs 0) true false false 255 f_pos)

abbrev pub was_reset : ℕ → Option ℕ → Devices → Outcome × Devices
was_reset f_pos none devs = closed 1 devs
was_reset f_pos (some n) devs =
    let (r, devs') = ioctl getsize devs in size_again f_pos (result r) devs'

abbrev pub had_size : ℕ → Option ℕ → Devices → Outcome × Devices
had_size f_pos none devs = closed 1 devs
had_size f_pos (some n) devs = let (r, devs') = ioctl reset devs in was_reset f_pos (result r) devs'

abbrev pub compared : ℕ → List ℕ → Devices → Outcome × Devices
compared f_pos buf devs =
    if not (is_nonempty buf)
    then closed 1 devs
    else if text_eq buf msg
    then (let (r, devs') = ioctl getsize devs in had_size (f_pos + length buf) (result r) devs')
    else closed 1 devs

abbrev pub read_back : ℕ → Devices → Read → Outcome × Devices
read_back f_pos devs waits = (blocked, devs)
read_back f_pos devs (refused e) = closed 1 devs
read_back f_pos devs (bytes buf) = compared f_pos buf devs

abbrev pub sought : Option ℕ → Devices → Outcome × Devices
sought none devs = closed 1 devs
sought (some f_pos) devs = read_back f_pos devs (my_read (devs 0) false false false 255 f_pos)

abbrev pub wrote : Option ℕ → Devices → Outcome × Devices
wrote none devs = closed 1 devs
wrote (some n) devs =
    if n == length msg
    then sought (result (my_llseek (devs 0) n (pos 0) seek_set)) devs
    else closed 1 devs

abbrev pub opened : (ℕ → Copy) → Option ℕ → Devices → Outcome × Devices
opened user none devs = (exited 1, devs)
opened user (some n) devs =
    let (r, devs') = my_write user 0 (length msg) 0 devs in wrote (result r) devs'

-- `user` is the memory where `msg` stands.
unfoldable pub test_app : (ℕ → Copy) → Devices → Outcome × Devices
unfolding my_open my_release my_write my_read my_llseek my_ioctl codes text_eq is_nonempty
test_app user devs = let (r, devs') = my_open 0 devs in opened user (result r) devs'

-- Behind the write and the seek, on devices from which the message can be read.
read_back-exited :
    (devs : Devices)
    → my_read (devs 0) false false false 255 0 ≡ bytes msg
    → ((sought (some 0) devs).0 ≡ exited 0)
      × ((sought (some 0) devs).1 0 ≡ fresh)
      × ((i : ℕ) → (i == 0) ≡ false → (sought (some 0) devs).1 i ≡ devs i)
unfolding my_ioctl my_read my_release text_eq is_nonempty codes
read_back-exited devs e = rw e (refl, refl, λ i h. rw h refl)

-- No file is open on the first device, the buffers are in bounds, and the memory of the program can be read and holds
-- the message. Then the program passes all its tests and ends with status 0; the first device is as it was when the
-- driver was loaded, and the message still stands in every other device for its readers.
pub test_app-Passes :
    (user : ℕ → Copy) (devs : Devices) (i n : ℕ) (nonblock signalled : Bool)
    → ((k : ℕ) → length (user k).source ≡ k)
    → ((k : ℕ) → (user k).complete ≡ true)
    → (user (length msg)).source ≡ msg
    → AllBounded devs
    → (devs 0).access ≡ false
    → i < max_minors
    → (i == 0) ≡ false
    → ((test_app user devs).0 ≡ exited 0)
      × ((test_app user devs).1 0 ≡ fresh)
      × (my_read ((test_app user devs).1 i) nonblock signalled false n 0 ≡ bytes (take n msg))
unfolding test_app my_open my_llseek codes
test_app-Passes user devs i n nonblock signalled exact readable memory bounded free there other =
    let opened_devs = set 0 (record (devs 0) { access = true }) devs in
    let all = set-AllBounded 0 (record (devs 0) { access = true }) devs (bounded 0) bounded in
    let own =
      my_write-my_read user 0 (length msg) 0 opened_devs exact readable all (omega arith) 0 false
        false 255 (omega arith) in
    let others =
      my_write-my_read user 0 (length msg) 0 opened_devs exact readable all (omega arith) i nonblock
        signalled n there in
    let back : my_read ((my_write user 0 (length msg) 0 opened_devs).1 0) false false false 255 0
        ≡ bytes msg =
      own.1 ∙ ap (λ t. bytes (take 255 t)) memory in
    let (status, at_0, kept) =
      read_back-exited (my_write user 0 (length msg) 0 opened_devs).1 back in
    rw (free, own.0)
      (
        status,
        at_0,
        ap (λ d. my_read d nonblock signalled false n 0) (kept i other)
            ∙ others.1
            ∙ ap (λ t. bytes (take n t)) memory,
      )
