-- ===== src/Driver/Loading.antt =====
-- Loading and unloading: `my_init` and `my_exit` of 04_char_driver/mychardev.c.
use project_linux.Base.{
  ℕ, zero, suc, ◌+◌, ◌≡◌, refl, ◌∙◌, Bool, true, false, ◌==◌, ltb, if◌then◌else◌, ◌⊎◌, inl, inr,
  Bool-cases, arith, ◌<◌,
}
use project_linux.Base.Int.{ℤ, pos, negsuc}
use project_linux.Driver.{max_minors, Device, Devices, set}

-- The kernel's calls that the driver makes when it is loaded and unloaded: those on the numbers of MY_MAJOR.
pub record Kernel : Type 1 where
  pub State : Type 0
  pub register_chrdev_region : State → ℤ × State
  pub unregister_chrdev_region : State → State
  pub cdev_add : ℕ → State → ℤ × State
  pub cdev_del : ℕ → State → State

-- `!ret`
abbrev pub succeeded : ℤ → Bool
succeeded (pos n) = n == 0
succeeded (negsuc n) = false

-- What the loop assigns to the fields of a device; the buffer stays.
abbrev pub init_device : Device → Device
init_device dev = record dev { size = 0; access = false; data_ready = false }

module _ (K : Kernel) where
  -- The kernel, and `devs`.
  pub record Module : Type 0 where
    pub kernel : K.State
    pub devs : Devices

  -- `while (--i >= 0) cdev_del(&devs[i].cdev);`
  unfoldable pub cdev_del_below : ℕ → K.State → K.State
  cdev_del_below zero k = k
  cdev_del_below (suc i) k = cdev_del_below i (K.cdev_del i k)

  -- What the label `err` leads to.
  abbrev pub rolled_back : ℕ → Module → Module
  rolled_back i s = record s { kernel = K.unregister_chrdev_region (cdev_del_below i s.kernel) }

  abbrev pub with_device : ℕ → K.State → Devices → Module
  with_device i k devs = record { kernel = k; devs = set i (init_device (devs i)) devs }

  -- The loop from `i` on, with `n` rounds left.
  unfoldable pub add_devices : ℕ → ℕ → Module → ℤ × Module
  unfolding cdev_del_below
  add_devices zero i s = (pos 0, s)
  add_devices (suc n) i s =
      let (ret, k) = K.cdev_add i s.kernel in
      let now = with_device i k s.devs in
      let rest = add_devices n (suc i) now in
      if succeeded ret then rest else (ret, rolled_back i now)

  unfoldable pub my_init : Module → ℤ × Module
  unfolding add_devices
  my_init s =
      let (ret, k) = K.register_chrdev_region s.kernel in
      let now = record s { kernel = k } in
      if succeeded ret then add_devices max_minors 0 now else (ret, now)

  -- The first `n` rounds of the loop of `my_exit`.
  unfoldable pub cdev_del_first : ℕ → K.State → K.State
  cdev_del_first zero k = k
  cdev_del_first (suc i) k = K.cdev_del i (cdev_del_first i k)

  unfoldable pub my_exit : K.State → K.State
  unfolding cdev_del_first
  my_exit k = K.unregister_chrdev_region (cdev_del_first max_minors k)

  -- What the kernel documents of the calls: which numbers are reserved, and which minors have a device.
  pub record Registry : Type 1 where
    pub reserved : K.State → Bool
    pub present : K.State → ℕ → Bool
    pub registers :
        (k : K.State)
        → (reserved (K.register_chrdev_region k).1
            ≡ (if succeeded (K.register_chrdev_region k).0 then true else reserved k))
          × ((j : ℕ) → present (K.register_chrdev_region k).1 j ≡ present k j)
    pub unregisters :
        (k : K.State)
        → (reserved (K.unregister_chrdev_region k) ≡ false)
          × ((j : ℕ) → present (K.unregister_chrdev_region k) j ≡ present k j)
    pub adds :
        (i : ℕ) (k : K.State)
        → (reserved (K.cdev_add i k).1 ≡ reserved k)
          × ((j : ℕ)
              → present (K.cdev_add i k).1 j ≡ (
                  if succeeded (K.cdev_add i k).0
                  then (if j == i then true else present k j)
                  else present k j))
    pub deletes :
        (i : ℕ) (k : K.State)
        → (reserved (K.cdev_del i k) ≡ reserved k)
          × ((j : ℕ) → present (K.cdev_del i k) j ≡ (if j == i then false else present k j))

  module _ (R : Registry) where
    -- The numbers are reserved, and the minors below `i` have a device, no others.
    abbrev pub Holds : ℕ → K.State → Type 0
    Holds i k = (R.reserved k ≡ true) × ((j : ℕ) → R.present k j ≡ ltb j i)

    -- Nothing of the driver is left in the kernel.
    abbrev pub IsClean : K.State → Type 0
    IsClean k = (R.reserved k ≡ false) × ((j : ℕ) → R.present k j ≡ false)

    Holds-add :
        (i : ℕ) (k : K.State)
        → Holds i k
        → succeeded (K.cdev_add i k).0 ≡ true
        → Holds (suc i) (K.cdev_add i k).1
    Holds-add i k (r, p) e =
        let (r', p') = R.adds i k in (r' ∙ r, λ j. p' j ∙ rw (e, p j) (ground arith))

    Holds-refused :
        (i : ℕ) (k : K.State)
        → Holds i k
        → succeeded (K.cdev_add i k).0 ≡ false
        → Holds i (K.cdev_add i k).1
    Holds-refused i k (r, p) e = let (r', p') = R.adds i k in (r' ∙ r, λ j. p' j ∙ rw e (p j))

    Holds-del : (i : ℕ) (k : K.State) → Holds (suc i) k → Holds i (K.cdev_del i k)
    Holds-del i k (r, p) =
        let (r', p') = R.deletes i k in (r' ∙ r, λ j. p' j ∙ rw (p j) (ground arith))

    cdev_del_below-Holds : (i : ℕ) (k : K.State) → Holds i k → Holds 0 (cdev_del_below i k)
    unfolding cdev_del_below
    cdev_del_below-Holds zero k h = h
    cdev_del_below-Holds (suc i) k h = cdev_del_below-Holds i (K.cdev_del i k) (Holds-del i k h)

    cdev_del_first-present :
        (i : ℕ) (k : K.State) (j : ℕ)
        → R.present (cdev_del_first i k) j ≡ (if ltb j i then false else R.present k j)
    unfolding cdev_del_first
    cdev_del_first-present zero k j =
        let none_below : ltb j 0 ≡ false = ground arith in rw none_below refl
    cdev_del_first-present (suc i) k j =
        (R.deletes i (cdev_del_first i k)).1 j ∙ rw (cdev_del_first-present i k j) (ground arith)

    unregister-IsClean :
        (k : K.State) → ((j : ℕ) → R.present k j ≡ false) → IsClean (K.unregister_chrdev_region k)
    unregister-IsClean k p = let (r, p') = R.unregisters k in (r, λ j. p' j ∙ p j)

    rolled_back-IsClean : (i : ℕ) (s : Module) → Holds i s.kernel → IsClean (rolled_back i s).kernel
    rolled_back-IsClean i s h =
        unregister-IsClean (cdev_del_below i s.kernel)
          (λ j. (cdev_del_below-Holds i s.kernel h).1 j ∙ ground arith)

    -- A device below `i` is as the loop makes it, one of the others as it was.
    abbrev pub AreSet : ℕ → Devices → Devices → Type 0
    AreSet i before devs = (j : ℕ) → devs j ≡ (if ltb j i then init_device (before j) else before j)

    AreSet-next :
        (i : ℕ) (before devs : Devices)
        → AreSet i before devs
        → AreSet (suc i) before (set i (init_device (devs i)) devs)
    AreSet-next i before devs h j = elim (Bool-cases (j == i)) [
      | inl e ↦
          let same : j ≡ i = ground (arith, e) in
          let now : ltb j (suc i) ≡ true = ground (arith, e) in
          let old : ltb i i ≡ false = ground arith in rw (e, now, h i, old, same) refl
      | inr e ↦ let now : ltb j (suc i) ≡ ltb j i = ground (arith, e) in rw (e, now) (h j)
    ]

    my_exit-IsClean : (k : K.State) → Holds max_minors k → IsClean (my_exit k)
    unfolding my_exit
    my_exit-IsClean k (r, p) =
        unregister-IsClean (cdev_del_first max_minors k)
          λ j. cdev_del_first-present max_minors k j ∙ rw (p j) (ground arith)

    -- What a call of the kernel returned: the registration, or the addition of one of the five devices.
    abbrev pub IsReturned : K.State → ℤ → Type 0
    IsReturned first ret =
        (ret ≡ (K.register_chrdev_region first).0)
        ⊎ ((i : ℕ) × (i < max_minors) × ((k : K.State) × (ret ≡ (K.cdev_add i k).0)))

    -- What loading comes to: every device is there and as `init_device` makes it, and `my_exit` takes them all away;
    -- or a call of the kernel failed, and nothing is left.
    abbrev pub Loads : Module → ℤ × Module → Type 0
    Loads first (ret, s) =
        ((succeeded ret ≡ true)
          × Holds max_minors s.kernel
          × AreSet max_minors first.devs s.devs
          × IsClean (my_exit s.kernel))
        ⊎ ((succeeded ret ≡ false) × IsReturned first.kernel ret × IsClean s.kernel)

    add_devices-Loads :
        (n i : ℕ) (first s : Module)
        → n + i ≡ max_minors
        → Holds i s.kernel
        → AreSet i first.devs s.devs
        → Loads first (add_devices n i s)
    unfolding add_devices
    add_devices-Loads zero i first s e h d =
        let all : i ≡ max_minors = omega (arith, e) in
        rw (← all) (inl (refl, h, d, my_exit-IsClean s.kernel (rw (← all) h)))
    add_devices-Loads (suc n) i first s e h d =
        elim (Bool-cases (succeeded (K.cdev_add i s.kernel).0)) [
          | inl k ↦ rw k (
              add_devices-Loads n (suc i) first (with_device i (K.cdev_add i s.kernel).1 s.devs)
                (omega (arith, e)) (Holds-add i s.kernel h k) (AreSet-next i first.devs s.devs d))
          | inr k ↦ rw k (
              inr (
                k,
                inr (i, omega (arith, e), (s.kernel, refl)),
                rolled_back-IsClean i (with_device i (K.cdev_add i s.kernel).1 s.devs)
                    (Holds-refused i s.kernel h k),
              ))
        ]

    -- On a kernel without anything of the driver, `my_init` returns 0, with the numbers reserved, a device for each
    -- of the five minors and no other, each of them empty, free and without data, its buffer as it was, and `my_exit`
    -- then leaves nothing in the kernel; or it returns the error of a call of the kernel, and
    -- nothing of the driver is left there.
    pub my_init-Loads : (s : Module) → IsClean s.kernel → Loads s (my_init s)
    unfolding my_init
    my_init-Loads s (r, p) =
        let (r', p') = R.registers s.kernel in
        elim (Bool-cases (succeeded (K.register_chrdev_region s.kernel).0)) [
          | inl k ↦ rw k (
              add_devices-Loads max_minors 0 s
                (record s { kernel = (K.register_chrdev_region s.kernel).1 }) refl
                (r' ∙ rw k refl, λ j. p' j ∙ p j ∙ ground arith)
                (λ j. let none_below : ltb j 0 ≡ false = ground arith in rw none_below refl))
          | inr k ↦ rw k (inr (k, inl refl, (r' ∙ rw k r, λ j. p' j ∙ p j)))
        ]
