-- ===== src/Driver.antt =====
-- The character driver, 04_char_driver/mychardev.c: what its file operations do to the five devices.
-- Each call is one step. The driver has no lock: Race splits a read into two steps.
pub mod Calls
pub mod Bounds
pub mod Access
pub mod Opening
pub mod Exchange
pub mod Loading
pub mod Race
pub mod TestApp
pub mod Blocking
use project_linux.Base.{
  ℕ, zero, suc, ◌+◌, ◌-◌, Bool, true, false, not, ◌&&◌, ◌||◌, List, [], ◌∷◌, ◌++◌, take, drop,
  length, replicate, leb, ltb, ◌==◌, if◌then◌else◌,
}
use project_linux.Base.Int.{ℤ, pos, negsuc}

abbrev pub buffer_size : ℕ
buffer_size = 256

abbrev pub max_minors : ℕ
max_minors = 5

-- `struct my_device_data`; the wait queue is in who waits, see `my_read`.
pub record Device : Type 0 where
  pub buffer : List ℕ
  pub size : ℕ
  pub access : Bool
  pub data_ready : Bool

-- `devs[i]` for i below MY_MAX_MINORS
abbrev pub Devices : Type 0
Devices = ℕ → Device

abbrev pub set : ℕ → Device → Devices → Devices
set i dev devs j = if j == i then dev else devs j

pub data Errno : Type 0 where
  ebusy eagain erestartsys efault enospc einval enotty : Errno

-- A call returns a number, returns 0 after it has written a number where its argument points, or fails.
pub data Returned : Type 0 where
  returns : ℕ → Returned
  answers : ℕ → Returned
  fails : Errno → Returned

unfoldable pub my_open : ℕ → Devices → Returned × Devices
my_open minor devs =
    if (devs minor).access
    then (fails ebusy, devs)
    else (returns 0, set minor (record (devs minor) { access = true }) devs)

unfoldable pub my_release : ℕ → Devices → Returned × Devices
my_release minor devs = (returns 0, set minor (record (devs minor) { access = false }) devs)

-- A read returns bytes and moves the offset behind them; or it waits, to be tried again when the
-- devices have changed.
pub data Read : Type 0 where
  waits : Read
  refused : Errno → Read
  bytes : List ℕ → Read

abbrev pub min : ℕ → ℕ → ℕ
min a b = if leb a b then a else b

-- What a read finds when there is data.
abbrev pub read_ready : Device → Bool → ℕ → ℕ → Read
read_ready dev faulty size offset =
    if leb dev.size offset
    then bytes []
    else if faulty
    then refused efault
    else bytes (take (min (dev.size - offset) size) (drop offset dev.buffer))

-- `nonblock`: O_NONBLOCK is set. `signalled`: a signal comes for one who waits. `faulty`: the bytes cannot
-- be copied to the user.
unfoldable pub my_read : Device → Bool → Bool → Bool → ℕ → ℕ → Read
my_read dev nonblock signalled faulty size offset =
    if dev.data_ready
    then read_ready dev faulty size offset
    else if nonblock
    then refused eagain
    else if signalled
    then refused erestartsys
    else waits

-- `memcpy(buffer + offset, source, length source)`
abbrev pub put : ℕ → List ℕ → List ℕ → List ℕ
put offset source buffer = take offset buffer ++ (source ++ drop (offset + length source) buffer)

-- What one round of the broadcast makes of another device.
abbrev pub copied : Device → Device → Device
copied dev other = record other {
  buffer = put 0 (take dev.size dev.buffer) other.buffer;
  size = dev.size;
  data_ready = true;
}

-- The loop over the devices, for those below `n`.
unfoldable pub broadcast : ℕ → Device → ℕ → Devices → Devices
broadcast minor dev zero devs = devs
broadcast minor dev (suc i) devs =
    let before = broadcast minor dev i devs in
    if i == minor then before else set i (copied dev (before i)) before

-- The device after its own part of a write.
abbrev pub written : Device → ℕ → List ℕ → Device
written dev offset source = record dev {
  buffer = put offset source dev.buffer;
  size = offset + length source;
  data_ready = true;
}

-- `copy_from_user` of `n` bytes: the `n` bytes that stand in the buffer then, and whether all of them
-- could be read.
pub record Copy : Type 0 where
  pub source : List ℕ
  pub complete : Bool

abbrev pub write_length : ℕ → ℕ → ℕ
write_length size offset = min size (buffer_size - offset)

-- The offset of the file is moved by the length that is returned.
unfoldable pub my_write : (ℕ → Copy) → ℕ → ℕ → ℕ → Devices → Returned × Devices
unfolding broadcast
my_write user minor size offset devs =
    let dev = devs minor in
    let copy = user (write_length size offset) in
    let own = written dev offset copy.source in
    if leb buffer_size offset
    then (fails enospc, devs)
    else if copy.complete
    then (returns (length copy.source), broadcast minor own max_minors (set minor own devs))
    else (fails efault, set minor (record dev { buffer = put offset copy.source dev.buffer }) devs)

pub data Whence : Type 0 where
  seek_set seek_cur seek_end other_whence : Whence

-- `base + offset`, where it is no less than 0 and no more than the size of the buffer.
unfoldable pub seek_to : ℕ → ℤ → Returned
seek_to base (pos n) = if ltb buffer_size (base + n) then fails einval else returns (base + n)
seek_to base (negsuc n) =
    if ltb base (suc n)
    then fails einval
    else if ltb buffer_size (base - suc n)
    then fails einval
    else returns (base - suc n)

-- The new offset, which the file keeps.
unfoldable pub my_llseek : Device → ℕ → ℤ → Whence → Returned
unfolding seek_to
my_llseek dev f_pos offset seek_set = seek_to 0 offset
my_llseek dev f_pos offset seek_cur = seek_to f_pos offset
my_llseek dev f_pos offset seek_end = seek_to dev.size offset
my_llseek dev f_pos offset other_whence = fails einval

-- The commands, with what the argument points at: nothing where it cannot be read or written.
pub data Command : Type 0 where
  reset : Command
  setsize : ℤ → Command
  getsize : Command
  bad_pointer : Command
  other_command : Command

abbrev pub with_size : ℤ → Device → Returned × Device
with_size (pos n) dev =
    if ltb buffer_size n
    then (fails einval, dev)
    else (returns 0, record dev { size = n; data_ready = ltb 0 n })
with_size (negsuc n) dev = (fails einval, dev)

unfoldable pub my_ioctl : Command → Device → Returned × Device
my_ioctl reset dev =
    (returns 0, record dev { buffer = replicate buffer_size 0; size = 0; data_ready = false })
my_ioctl (setsize value) dev = with_size value dev
my_ioctl getsize dev = (answers dev.size, dev)
my_ioctl bad_pointer dev = (fails efault, dev)
my_ioctl other_command dev = (fails enotty, dev)
