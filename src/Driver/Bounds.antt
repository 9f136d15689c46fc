-- ===== src/Driver/Bounds.antt =====
-- The buffers keep their bounds.
use project_linux.Base.{
  ℕ, zero, suc, ◌+◌, ◌≤◌, ◌≡◌, refl, ◌∙◌, Bool, true, false, List, ◌++◌, take, drop, length,
  length-append, leb, ltb, ◌==◌, if◌then◌else◌, arith, length-replicate, length-take, length-drop,
}
use project_linux.Base.Int.{pos, negsuc}
use project_linux.Driver.{
  buffer_size, max_minors, Device, Devices, set, Returned, returns, fails, enospc, efault, einval,
  Copy, put, copied, written, write_length, broadcast, my_write, Command, reset, setsize, getsize,
  bad_pointer, other_command, my_ioctl,
}

length-put :
    (offset : ℕ) (source buffer : List ℕ)
    → offset + length source ≤ length buffer
    → length (put offset source buffer) ≡ length buffer
length-put offset source buffer h = omega (
  arith,
  length-append (take offset buffer) (source ++ drop (offset + length source) buffer),
  length-append source (drop (offset + length source) buffer),
  length-take offset buffer (omega arith),
  length-drop (offset + length source) buffer,
)

-- The buffer has its size, and what counts of it lies in it.
abbrev pub IsBounded : Device → Type 0
IsBounded dev = (length dev.buffer ≡ buffer_size) × (dev.size ≤ buffer_size)

abbrev pub AllBounded : Devices → Type 0
AllBounded devs = (i : ℕ) → IsBounded (devs i)

if-IsBounded :
    (b : Bool) (d e : Device) → IsBounded d → IsBounded e → IsBounded (if b then d else e)
if-IsBounded true d e hd he = hd
if-IsBounded false d e hd he = he

if-AllBounded :
    (b : Bool) (d e : Devices) → AllBounded d → AllBounded e → AllBounded (if b then d else e)
if-AllBounded true d e hd he = hd
if-AllBounded false d e hd he = he

-- The same of what an operation returns.
abbrev LeavesBounded : Returned × Devices → Type 0
LeavesBounded r = AllBounded r.1

abbrev LeavesOne : Returned × Device → Type 0
LeavesOne r = IsBounded r.1

pub set-AllBounded :
    (i : ℕ) (dev : Device) (devs : Devices)
    → IsBounded dev
    → AllBounded devs
    → AllBounded (set i dev devs)
set-AllBounded i dev devs h all j = if-IsBounded (j == i) dev (devs j) h (all j)

copied-IsBounded :
    (dev other : Device) → IsBounded dev → IsBounded other → IsBounded (copied dev other)
copied-IsBounded dev other (full, size) (full', size') = (
  length-put 0 (take dev.size dev.buffer) other.buffer
        (omega (arith, length-take dev.size dev.buffer (omega arith)))
      ∙ full',
  size,
)

broadcast-AllBounded :
    (m : ℕ) (dev : Device) (n : ℕ) (devs : Devices)
    → IsBounded dev
    → AllBounded devs
    → AllBounded (broadcast m dev n devs)
unfolding broadcast
broadcast-AllBounded m dev zero devs h all = all
broadcast-AllBounded m dev (suc i) devs h all =
    let before = broadcast-AllBounded m dev i devs h all in
    if-AllBounded (i == m) (broadcast m dev i devs)
      (set i (copied dev (broadcast m dev i devs i)) (broadcast m dev i devs)) before
      (set-AllBounded i (copied dev (broadcast m dev i devs i)) (broadcast m dev i devs)
        (copied-IsBounded dev (broadcast m dev i devs i) h (before i)) before)

-- What `my_write` has for an offset inside the buffer or behind it, and for memory that it can read or not.
write_case-AllBounded :
    (behind complete : Bool) (m offset : ℕ) (source : List ℕ) (devs : Devices)
    → (behind ≡ false → offset + length source ≤ buffer_size)
    → AllBounded devs
    → LeavesBounded (
        if behind
        then (fails enospc, devs)
        else if complete
        then (
          returns (length source),
          broadcast m
              (written (devs m) offset source)
              max_minors
              (set m (written (devs m) offset source) devs),
        )
        else (
          fails efault,
          set m (record (devs m) { buffer = put offset source (devs m).buffer }) devs,
        ))
write_case-AllBounded true complete m offset source devs fits all = all
write_case-AllBounded false true m offset source devs fits all =
    let own : IsBounded (written (devs m) offset source) = (
      length-put offset source (devs m).buffer (omega (arith, fits refl, (all m).0)) ∙ (all m).0,
      fits refl,
    ) in
    broadcast-AllBounded m (written (devs m) offset source) max_minors _ own
      (set-AllBounded m (written (devs m) offset source) devs own all)
write_case-AllBounded false false m offset source devs fits all =
    set-AllBounded m (record (devs m) { buffer = put offset source (devs m).buffer }) devs
      (
        length-put offset source (devs m).buffer (omega (arith, fits refl, (all m).0)) ∙ (all m).0,
        (all m).1,
      )
      all

-- What is written ends in the buffer.
pub write_length_fits :
    (size offset : ℕ)
    → leb buffer_size offset ≡ false
    → offset + write_length size offset ≤ buffer_size
write_length_fits size offset h = ground arith

pub my_write-AllBounded :
    (user : ℕ → Copy) (m size offset : ℕ) (devs : Devices)
    → ((n : ℕ) → length (user n).source ≡ n)
    → AllBounded devs
    → AllBounded (my_write user m size offset devs).1
unfolding my_write
my_write-AllBounded user m size offset devs exact all =
    write_case-AllBounded (leb buffer_size offset) (user (write_length size offset)).complete m
      offset (user (write_length size offset)).source devs
      (λ inside.
        omega (arith, exact (write_length size offset), write_length_fits size offset inside))
      all

sized-IsBounded :
    (b : Bool) (n : ℕ) (dev : Device)
    → ltb buffer_size n ≡ b
    → IsBounded dev
    → LeavesOne (
        if b
        then (fails einval, dev)
        else (returns 0, record dev { size = n; data_ready = ltb 0 n }))
sized-IsBounded true n dev e h = h
sized-IsBounded false n dev e h = (h.0, ground arith)

pub my_ioctl-IsBounded :
    (cmd : Command) (dev : Device) → IsBounded dev → IsBounded (my_ioctl cmd dev).1
unfolding my_ioctl
my_ioctl-IsBounded reset dev h = (length-replicate {A = ℕ} buffer_size 0, omega arith)
my_ioctl-IsBounded (setsize (pos n)) dev h = sized-IsBounded (ltb buffer_size n) n dev refl h
my_ioctl-IsBounded (setsize (negsuc n)) dev h = h
my_ioctl-IsBounded getsize dev h = h
my_ioctl-IsBounded bad_pointer dev h = h
my_ioctl-IsBounded other_command dev h = h
