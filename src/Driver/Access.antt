-- ===== src/Driver/Access.antt =====
-- Writing and controlling open and close nothing.
use project_linux.Base.{
  ℕ, zero, suc, ◌≡◌, refl, ◌∙◌, Bool, true, false, List, length, leb, ltb, ◌==◌, if◌then◌else◌,
  Bool-cases, ==_iff, inl, inr,
}
use project_linux.Base.Int.{pos, negsuc}
use project_linux.Driver.{
  buffer_size, max_minors, Device, Devices, set, Returned, returns, fails, enospc, efault, Copy,
  put, written, write_length, broadcast, my_write, Command, reset, setsize, getsize, bad_pointer,
  other_command, my_ioctl,
}

broadcast-access :
    (m : ℕ) (dev : Device) (n : ℕ) (devs : Devices) (i : ℕ)
    → (broadcast m dev n devs i).access ≡ (devs i).access
unfolding broadcast
broadcast-access m dev zero devs i = refl
broadcast-access m dev (suc n) devs i = elim (Bool-cases (n == m)) [
  | inl h ↦ rw h (broadcast-access m dev n devs i)
  | inr h ↦ rw h (elim (Bool-cases (i == n)) [
    | inl k ↦ let same : i ≡ n = (==_iff i n).0 k in rw (k, same) (broadcast-access m dev n devs n)
    | inr k ↦ rw k (broadcast-access m dev n devs i)
  ])
]

pub set-access :
    (m : ℕ) (dev : Device) (devs : Devices) (i : ℕ)
    → dev.access ≡ (devs m).access
    → (set m dev devs i).access ≡ (devs i).access
set-access m dev devs i h = elim (Bool-cases (i == m)) [
  | inl k ↦ let same : i ≡ m = (==_iff i m).0 k in rw (k, same) h
  | inr k ↦ rw k refl
]

-- An operation that opens and closes nothing.
abbrev pub KeepsAccess : Devices → Returned × Devices → Type 0
KeepsAccess devs r = (i : ℕ) → (r.1 i).access ≡ (devs i).access

write_case-KeepsAccess :
    (behind complete : Bool) (m offset : ℕ) (source : List ℕ) (devs : Devices)
    → KeepsAccess devs (
        if behind
        then (fails enospc, devs)
        else if complete
        then (
          returns (length source),
          broadcast m
              (written (devs m) offset source)
              max_minors
              (set m (written (devs m) offset source) devs),
        )
        else (
          fails efault,
          set m (record (devs m) { buffer = put offset source (devs m).buffer }) devs,
        ))
write_case-KeepsAccess true complete m offset source devs i = refl
write_case-KeepsAccess false true m offset source devs i =
    broadcast-access m (written (devs m) offset source) max_minors _ i
    ∙ set-access m (written (devs m) offset source) devs i refl
write_case-KeepsAccess false false m offset source devs i =
    set-access m (record (devs m) { buffer = put offset source (devs m).buffer }) devs i refl

pub my_write-access :
    (user : ℕ → Copy) (m size offset : ℕ) (devs : Devices)
    → KeepsAccess devs (my_write user m size offset devs)
unfolding my_write
my_write-access user m size offset devs =
    write_case-KeepsAccess (leb buffer_size offset) (user (write_length size offset)).complete m
      offset (user (write_length size offset)).source devs

pub my_ioctl-access : (cmd : Command) (dev : Device) → (my_ioctl cmd dev).1.access ≡ dev.access
unfolding my_ioctl
my_ioctl-access reset dev = refl
my_ioctl-access (setsize (pos n)) dev = elim (Bool-cases (ltb buffer_size n)) [
  | inl h ↦ rw h refl
  | inr h ↦ rw h refl
]
my_ioctl-access (setsize (negsuc n)) dev = refl
my_ioctl-access getsize dev = refl
my_ioctl-access bad_pointer dev = refl
my_ioctl-access other_command dev = refl
