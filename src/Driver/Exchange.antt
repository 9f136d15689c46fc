-- ===== src/Driver/Exchange.antt =====
-- What is written to one device is read from every other.
use project_linux.Base.{
  ℕ, zero, suc, ◌+◌, ◌-◌, ◌≤◌, ◌<◌, ◌≡◌, refl, ap, sym, ◌∙◌, Bool, true, false, List, [], ◌∷◌, ◌++◌,
  take, drop, length, length-append, append_assoc, leb, ◌==◌, ==_iff, ==_refl, Bool-cases, inl, inr,
  arith, length-take,
}
use project_linux.Driver.{
  buffer_size, max_minors, Device, Devices, set, returns, Copy, min, copied, written, write_length,
  broadcast, my_write, my_read, bytes,
}
use project_linux.Driver.Bounds.{AllBounded, write_length_fits}

-- The rounds so far have not come to the devices behind.
broadcast-later :
    (m : ℕ) (dev : Device) (n : ℕ) (devs : Devices) (i : ℕ)
    → n ≤ i
    → broadcast m dev n devs i ≡ devs i
unfolding broadcast
broadcast-later m dev zero devs i h = refl
broadcast-later m dev (suc n) devs i h =
    let apart : (i == n) ≡ false = ground (arith, h) in
    let before = broadcast-later m dev n devs i (omega arith) in
    elim (Bool-cases (n == m)) [ inl k ↦ rw k before | inr k ↦ rw (k, apart) before ]

-- What a round has made of another device.
pub broadcast-other :
    (m : ℕ) (dev : Device) (n : ℕ) (devs : Devices) (i : ℕ)
    → i < n
    → (i == m) ≡ false
    → broadcast m dev n devs i ≡ copied dev (devs i)
unfolding broadcast
broadcast-other m dev zero devs i h other = absurd (omega arith)
broadcast-other m dev (suc n) devs i h other = elim (Bool-cases (i == n)) [
  | inl k ↦
      let same : i ≡ n = (==_iff i n).0 k in
      let apart : (n == m) ≡ false = rw (← same) other in
      rw (apart, k)
        (ap (copied dev) (broadcast-later m dev n devs n (omega arith) ∙ ap devs (sym same)))
  | inr k ↦
      let before = broadcast-other m dev n devs i (ground (arith, h, k)) other in
      elim (Bool-cases (n == m)) [ inl l ↦ rw l before | inr l ↦ rw (l, k) before ]
]

-- No round comes to the device itself.
broadcast-own : (m : ℕ) (dev : Device) (n : ℕ) (devs : Devices) → broadcast m dev n devs m ≡ devs m
unfolding broadcast
broadcast-own m dev zero devs = refl
broadcast-own m dev (suc n) devs = elim (Bool-cases (n == m)) [
  | inl k ↦ rw k (broadcast-own m dev n devs)
  | inr k ↦
      let apart : (m == n) ≡ false = ground (arith, k) in rw (k, apart) (broadcast-own m dev n devs)
]

abbrev no_bytes : List ℕ
no_bytes = []

take-nil : (n : ℕ) → take n no_bytes ≡ no_bytes
take-nil zero = refl
take-nil (suc n) = refl

length-zero : (xs : List ℕ) → length xs ≡ 0 → xs ≡ []
length-zero [] h = refl
length-zero (x ∷ xs) h = absurd (omega arith)

take-shorter : (a n : ℕ) (xs : List ℕ) → a ≤ n → take n (take a xs) ≡ take a xs
take-shorter zero n xs h = take-nil n
take-shorter (suc a) zero xs h = absurd (omega arith)
take-shorter (suc a) (suc n) [] h = refl
take-shorter (suc a) (suc n) (x ∷ xs) h = ap (λ r. x ∷ r) (take-shorter a n xs (omega arith))

take-longer : (a n : ℕ) (xs : List ℕ) → n ≤ a → take n (take a xs) ≡ take n xs
take-longer a zero xs h = refl
take-longer zero (suc n) xs h = absurd (omega arith)
take-longer (suc a) (suc n) [] h = refl
take-longer (suc a) (suc n) (x ∷ xs) h = ap (λ r. x ∷ r) (take-longer a n xs (omega arith))

take-min : (a n : ℕ) (xs : List ℕ) → take (min a n) xs ≡ take n (take a xs)
take-min a n xs = elim (Bool-cases (leb a n)) [
  | inl k ↦ rw k (sym (take-shorter a n xs (ground (arith, k))))
  | inr k ↦ rw k (sym (take-longer a n xs (ground (arith, k))))
]

take-all : {A : Type 0} (n : ℕ) (xs ys : List A) → length xs ≡ n → take n (xs ++ ys) ≡ xs
take-all zero [] ys h = refl
take-all zero (x ∷ xs) ys h = absurd (omega arith)
take-all (suc n) [] ys h = absurd (omega arith)
take-all (suc n) (x ∷ xs) ys h = ap (λ r. x ∷ r) (take-all n xs ys (omega arith))

-- The data of the device that was written to: what stood before the offset, and then what was written.
abbrev pub data_after : Device → ℕ → List ℕ → List ℕ
data_after dev offset source = take offset dev.buffer ++ source

module _ (user : ℕ → Copy) (m size offset : ℕ) (devs : Devices)
    (exact : (n : ℕ) → length (user n).source ≡ n) (readable : (n : ℕ) → (user n).complete ≡ true)
    (bounded : AllBounded devs) (inside : offset < buffer_size) where
  abbrev source : List ℕ
  source = (user (write_length size offset)).source

  abbrev expected : List ℕ
  expected = data_after (devs m) offset source

  -- A device holds what was written, for readers at once.
  abbrev Holds : Device → Type 0
  Holds dev =
      (take dev.size dev.buffer ≡ expected) × (dev.size ≡ length expected) × (dev.data_ready ≡ true)

  abbrev own : Device
  own = written (devs m) offset source

  fits : offset + length source ≤ buffer_size
  fits = omega (
    arith,
    exact (write_length size offset),
    write_length_fits size offset (ground (arith, inside)),
  )

  data_length : length expected ≡ offset + length source
  data_length = omega (
    arith,
    length-append (take offset (devs m).buffer) source,
    length-take offset (devs m).buffer (omega (arith, (bounded m).0, inside)),
  )

  own-Holds : Holds own
  own-Holds = (
    ap (take (offset + length source)) (
          sym (
            append_assoc (take offset (devs m).buffer) source
              (drop (offset + length source) (devs m).buffer)))
        ∙ take-all (offset + length source) expected (drop (offset + length source) (devs m).buffer)
            data_length,
    sym data_length,
    refl,
  )

  copied-Holds : (other : Device) → Holds (copied own other)
  copied-Holds other =
      let whole : length (take own.size own.buffer) ≡ own.size =
        ap length own-Holds.0 ∙ data_length in
      (
        take-all own.size (take own.size own.buffer)
              (drop (0 + length (take own.size own.buffer)) other.buffer) whole
            ∙ own-Holds.0,
        sym data_length,
        refl,
      )

  -- The devices after the write.
  abbrev after : Devices
  after = broadcast m own max_minors (set m own devs)

  after-Holds : (i : ℕ) → i < max_minors → Holds (after i)
  after-Holds i h = elim (Bool-cases (i == m)) [
    | inl k ↦
        let same : i ≡ m = (==_iff i m).0 k in
        rw (same, broadcast-own m own max_minors (set m own devs), ==_refl m) own-Holds
    | inr k ↦
        rw (broadcast-other m own max_minors (set m own devs) i h k)
          (copied-Holds (set m own devs i))
  ]

  write_done : my_write user m size offset devs ≡ (returns (length source), after)
  unfolding my_write
  write_done =
      let within : leb buffer_size offset ≡ false = ground (arith, inside) in
      rw (within, readable (write_length size offset)) refl

  ready-read :
      (dev : Device) (nonblock signalled : Bool) (n : ℕ)
      → Holds dev
      → my_read dev nonblock signalled false n 0 ≡ bytes (take n expected)
  unfolding my_read
  ready-read dev nonblock signalled n (data', size', ready) =
      rw ready (elim (Bool-cases (leb dev.size 0)) [
        | inl k ↦
            let empty : length expected ≡ 0 = ground (arith, k, size') in
            rw k (ap bytes (sym (ap (take n) (length-zero expected empty) ∙ take-nil n)))
        | inr k ↦
            let whole : dev.size - 0 ≡ dev.size = omega arith in
            rw (k, whole) (ap bytes (take-min dev.size n dev.buffer ∙ ap (take n) data'))
      ])

  -- A write inside the buffer, of memory that can be read, returns the number of bytes that fit. Then a
  -- read from the start of any of the five devices does not wait, whatever its flags: it returns as much as was
  -- asked for of what stood in the written device before the offset and of the bytes that were written.
  pub my_write-my_read :
      (i : ℕ) (nonblock signalled : Bool) (n : ℕ)
      → i < max_minors
      → ((my_write user m size offset devs).0 ≡ returns (write_length size offset))
        × (my_read ((my_write user m size offset devs).1 i) nonblock signalled false n 0
            ≡ bytes (take n (data_after (devs m) offset (user (write_length size offset)).source)))
  my_write-my_read i nonblock signalled n h = rw write_done (
    ap returns (exact (write_length size offset)),
    ready-read (after i) nonblock signalled n (after-Holds i h),
  )
