-- ===== src/Driver/Opening.antt =====
-- A device has one open file at most, and its buffer stays in bounds.
use mathlib.Core.Path.{subst}
use project_linux.Base.{
  ℕ, suc, ◌+◌, ◌≡◌, refl, ap, ◌∙◌, Bool, true, false, List, [], ◌∷◌, ◌++◌, ◌==◌, if◌then◌else◌,
  Bool-cases, ==_iff, ==_refl, sym, inl, inr, arith, length-replicate,
}
use project_linux.Driver.{
  buffer_size, Device, Devices, set, Returned, returns, fails, ebusy, my_open, my_release, my_ioctl,
}
use project_linux.Driver.Calls.{
  System, loaded, Step, opened, released, wrote, controlled, Reach, here, next,
}
use project_linux.Driver.Access.{set-access, my_write-access, my_ioctl-access}
use project_linux.Driver.Bounds.{IsBounded, set-AllBounded, my_write-AllBounded, my_ioctl-IsBounded}

-- How many open files a device has.
abbrev pub count : ℕ → List ℕ → ℕ
count i [] = 0
count i (m ∷ files) = if m == i then suc (count i files) else count i files

abbrev one_if : Bool → ℕ
one_if b = if b then 1 else 0

-- Each device is in bounds, and is marked as open exactly where one file is open on it, and never more.
abbrev pub IsSafeAt : System → ℕ → Type 0
IsSafeAt s i = IsBounded (s.devs i) × (count i s.files ≡ one_if (s.devs i).access)

abbrev pub IsSafe : System → Type 0
IsSafe s = (i : ℕ) → IsSafeAt s i

count-append : (i : ℕ) (xs ys : List ℕ) → count i (xs ++ ys) ≡ count i xs + count i ys
count-append i [] ys = omega arith
count-append i (x ∷ xs) ys = ground (arith, count-append i xs ys)

abbrev opened_dev : System → ℕ → Device
opened_dev s m = record (s.devs m) { access = true }

-- Where an open succeeds, the state with its file is safe.
abbrev OpensSafe : System → ℕ → Returned × Devices → Type 0
OpensSafe s m r = r.0 ≡ returns 0 → IsSafe (record { devs = r.1; files = m ∷ s.files })

opened-IsSafe :
    (s : System) (m : ℕ)
    → (s.devs m).access ≡ false
    → IsSafe s
    → IsSafe (record { devs = set m (opened_dev s m) s.devs; files = m ∷ s.files })
opened-IsSafe s m e safe i = elim (Bool-cases (i == m)) [
  | inl h ↦
      let same : i ≡ m = (==_iff i m).0 h in
      let none_open : count m s.files ≡ 0 = rw (safe m).1 (ap one_if e) in
      let after : System = record { devs = set m (opened_dev s m) s.devs; files = m ∷ s.files } in
      subst (IsSafeAt after) (sym same) (rw (==_refl m) ((safe m).0, ap suc none_open))
  | inr h ↦ let other : (m == i) ≡ false = ground (arith, h) in rw (h, other) (safe i)
]

open-IsSafe :
    (b : Bool) (s : System) (m : ℕ)
    → (s.devs m).access ≡ b
    → IsSafe s
    → OpensSafe s m
        (if b then (fails ebusy, s.devs) else (returns 0, set m (opened_dev s m) s.devs))
open-IsSafe true s m e safe done = absurd (cc)
open-IsSafe false s m e safe done = opened-IsSafe s m e safe

count-closed :
    (m : ℕ) (before after : List ℕ)
    → count m (before ++ (m ∷ after)) ≡ suc (count m (before ++ after))
count-closed m [] after = rw (==_refl m) refl
count-closed m (x ∷ before) after = ground (arith, count-closed m before after)

count-other :
    (i m : ℕ) (before after : List ℕ)
    → (m == i) ≡ false
    → count i (before ++ (m ∷ after)) ≡ count i (before ++ after)
count-other i m [] after h = rw h refl
count-other i m (x ∷ before) after h = ground (arith, count-other i m before after h)

last_closed : (n : ℕ) (b : Bool) → suc n ≡ one_if b → n ≡ 0
last_closed n true h = omega arith
last_closed n false h = omega arith

-- A file that is closed was the only one of its device.
released-IsSafe :
    (devs : Devices) (before after : List ℕ) (m : ℕ)
    → IsSafe (record { devs = devs; files = before ++ (m ∷ after) })
    → IsSafe (record { devs = (my_release m devs).1; files = before ++ after })
unfolding my_release
released-IsSafe devs before after m safe i = elim (Bool-cases (i == m)) [
  | inl h ↦
      let same : i ≡ m = (==_iff i m).0 h in
      let state : System = record { devs = (my_release m devs).1; files = before ++ after } in
      subst (IsSafeAt state) (sym same) (
        rw (==_refl m) (
          (safe m).0,
          last_closed (count m (before ++ after)) (devs m).access
              (sym (count-closed m before after) ∙ (safe m).1),
        ))
  | inr h ↦
      let other : (m == i) ≡ false = ground (arith, h) in
      rw (h) ((safe i).0, sym (count-other i m before after other) ∙ (safe i).1)
]

step-IsSafe : {s t : System} → Step s t → IsSafe s → IsSafe t
unfolding my_open
step-IsSafe (opened s m done) safe i = open-IsSafe (s.devs m).access s m refl safe done i
step-IsSafe (released devs before after m) safe i = released-IsSafe devs before after m safe i
step-IsSafe (wrote s m user size offset at exact) safe i = (
  my_write-AllBounded user m size offset s.devs exact (λ j. (safe j).0) i,
  (safe i).1 ∙ ap one_if (sym (my_write-access user m size offset s.devs i)),
)
step-IsSafe (controlled s m cmd at) safe i = (
  set-AllBounded m (my_ioctl cmd (s.devs m)).1 s.devs (my_ioctl-IsBounded cmd (s.devs m) (safe m).0)
      (λ j. (safe j).0) i,
  (safe i).1
      ∙ ap one_if (
          sym (set-access m (my_ioctl cmd (s.devs m)).1 s.devs i (my_ioctl-access cmd (s.devs m)))),
)

fresh-IsSafe : IsSafe loaded
fresh-IsSafe i = ((length-replicate {A = ℕ} buffer_size 0, omega arith), refl)

-- Whatever files are opened, closed, written to and controlled after the driver was loaded, in any order: the
-- buffer of each device has its 256 bytes and the size of its data is no more; a device is marked as open
-- exactly where one file is open on it, and never are two.
pub reach-IsSafe : {s : System} → Reach loaded s → IsSafe s
reach-IsSafe here = fresh-IsSafe
reach-IsSafe (next r step) = step-IsSafe step (reach-IsSafe r)
