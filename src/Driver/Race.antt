-- ===== src/Driver/Race.antt =====
-- `my_read` of 04_char_driver/mychardev.c in two parts, between which another process may run: the size of the
-- device is read for the test of the offset, and again for the length. No lock is taken.
use project_linux.Base.{
  ℕ, suc, ◌+◌, ◌-◌, ◌<◌, ◌≡◌, refl, ap, Bool, Bool-cases, inl, inr, true, false, [], Option, none,
  some, length, take, drop, leb, ◌==◌, if◌then◌else◌, arith,
}
use project_linux.Base.Int.{ℤ, pos, negsuc}
use project_linux.Driver.{
  buffer_size, max_minors, Device, Devices, set, Read, bytes, min, Copy, my_read, my_write,
  write_length, written,
}
use project_linux.Driver.Exchange.{broadcast-other}

-- `dev->size - *offset`
abbrev pub difference : ℕ → ℕ → ℤ
difference a b = if leb b a then pos (a - b) else negsuc (b - suc a)

-- `min_t(ssize_t, n, size)`
abbrev pub min_t : ℤ → ℕ → ℤ
min_t (pos n) size = pos (min n size)
min_t (negsuc n) size = negsuc n

-- What a read of a device with data makes of the sizes that it finds: no length where it returns 0 at once.
-- `checked` is the device as the test finds it, `dev` as it is when the length is computed.
unfoldable pub read_length : Device → Device → ℕ → ℕ → Option ℤ
read_length checked dev size offset =
    if leb checked.size offset then none else some (min_t (difference dev.size offset) size)

-- The bytes that are read when `copy_to_user` takes them all; none for a length below 0.
abbrev pub copied_out : Device → ℕ → Option ℤ → Option Read
copied_out dev offset none = some (bytes [])
copied_out dev offset (some (pos n)) = some (bytes (take n (drop offset dev.buffer)))
copied_out dev offset (some (negsuc n)) = none

-- The size of another device behind a write.
my_write-size :
    (user : ℕ → Copy) (n size offset : ℕ) (devs : Devices) (m : ℕ)
    → m < max_minors
    → (m == n) ≡ false
    → offset < buffer_size
    → (user (write_length size offset)).complete ≡ true
    → ((my_write user n size offset devs).1 m).size
      ≡ offset + length (user (write_length size offset)).source
unfolding my_write
my_write-size user n size offset devs m there other inside whole =
    let own = written (devs n) offset (user (write_length size offset)).source in
    let room : leb buffer_size offset ≡ false = ground (arith, inside) in
    rw (room, whole)
      (ap (λ d. d.size) (broadcast-other n own max_minors (set n own devs) m there other))

read_length-my_read :
    (dev : Device) (nonblock signalled : Bool) (size offset : ℕ)
    → dev.data_ready ≡ true
    → copied_out dev offset (read_length dev dev size offset)
      ≡ some (my_read dev nonblock signalled false size offset)
unfolding read_length my_read
read_length-my_read dev nonblock signalled size offset ready =
    elim (Bool-cases (leb dev.size offset)) [
      | inl h ↦ rw (ready, h) refl
      | inr h ↦
          let back : leb offset dev.size ≡ true = ground (arith, h) in rw (ready, h, back) refl
    ]

-- A device has data behind the offset. Where nothing runs between the two parts of the read, it gives the bytes of
-- `my_read`. But where a whole write to another device comes between them, and ends before the offset, the length
-- that the read goes on with is below 0.
pub read_length-my_write :
    (user : ℕ → Copy) (n written_size place : ℕ) (devs : Devices) (m size offset : ℕ)
    (nonblock signalled : Bool)
    → m < max_minors
    → (m == n) ≡ false
    → (devs m).data_ready ≡ true
    → place < buffer_size
    → (user (write_length written_size place)).complete ≡ true
    → offset < (devs m).size
    → place + length (user (write_length written_size place)).source < offset
    → (copied_out (devs m) offset (read_length (devs m) (devs m) size offset)
        ≡ some (my_read (devs m) nonblock signalled false size offset))
      × (read_length (devs m) ((my_write user n written_size place devs).1 m) size offset
          ≡ some (
              negsuc
                (offset - suc (place + length (user (write_length written_size place)).source))))
unfolding read_length
read_length-my_write user n written_size place devs m size offset nonblock signalled there other
      ready inside whole data' before =
    let more : leb (devs m).size offset ≡ false = ground (arith, data') in
    let k = place + length (user (write_length written_size place)).source in
    let short : leb offset k ≡ false = ground (arith, before) in
    (
      read_length-my_read (devs m) nonblock signalled size offset ready,
      rw (more, my_write-size user n written_size place devs m there other inside whole, short)
          refl,
    )
