-- ===== src/Base/Lists.antt =====
-- Lists measured and cut by native numbers, under the library's names, and two predicates.
use Prim.Native.Nat.{ℕ, zero, suc, ◌+◌, ◌-◌, ◌≤◌, ◌<◌}
use mathlib.Core.Path.{◌≡◌, refl, ap}
use mathlib.Core.Bool.{Bool, true, false}
use mathlib.Core.List.{List, [], ◌∷◌, ◌++◌, Memᴰ}
use project_linux.Base.Tests.{if◌then◌else◌}
use mathlib.Core.Option.{Option, none, some}
use native.Mathlib.Omega.{arith}

module _ {ℓ} {A : Type ℓ} where
  abbrev pub length : List A → ℕ
  length [] = 0
  length (x ∷ xs) = suc (length xs)

  abbrev pub get_elem? : List A → ℕ → Option A
  get_elem? [] i = none
  get_elem? (x ∷ xs) zero = some x
  get_elem? (x ∷ xs) (suc i) = get_elem? xs i

  abbrev pub take : ℕ → List A → List A
  take zero xs = []
  take (suc n) [] = []
  take (suc n) (x ∷ xs) = x ∷ take n xs

  abbrev pub drop : ℕ → List A → List A
  drop zero xs = xs
  drop (suc n) [] = []
  drop (suc n) (x ∷ xs) = drop n xs

  abbrev pub replicate : ℕ → A → List A
  replicate zero a = []
  replicate (suc n) a = a ∷ replicate n a

  -- `del xs[i]`
  abbrev pub remove_at : ℕ → List A → List A
  remove_at i [] = []
  remove_at zero (x ∷ xs) = xs
  remove_at (suc i) (x ∷ xs) = x ∷ remove_at i xs

  pub length-append : (xs ys : List A) → length (xs ++ ys) ≡ length xs + length ys
  length-append [] ys = omega arith
  length-append (x ∷ xs) ys = omega (arith, length-append xs ys)

  pub length-take : (n : ℕ) (xs : List A) → n ≤ length xs → length (take n xs) ≡ n
  length-take zero xs h = refl
  length-take (suc n) [] h = omega arith
  length-take (suc n) (x ∷ xs) h = omega (arith, length-take n xs (omega arith))

  pub length-drop : (n : ℕ) (xs : List A) → length (drop n xs) ≡ length xs - n
  length-drop zero xs = omega arith
  length-drop (suc n) [] = omega arith
  length-drop (suc n) (x ∷ xs) = omega (arith, length-drop n xs)

  pub length-replicate : (n : ℕ) (a : A) → length (replicate n a) ≡ n
  length-replicate zero a = refl
  length-replicate (suc n) a = ap suc (length-replicate n a)

  abbrev nothing : List A
  nothing = []

  take-none : (n : ℕ) → take n nothing ≡ nothing
  take-none zero = refl
  take-none (suc n) = refl

  -- Two cuts, one behind the other.
  pub take-take : (m n : ℕ) (xs : List A) → take m xs ++ take n (drop m xs) ≡ take (m + n) xs
  take-take zero n xs = let same : 0 + n ≡ n = omega arith in rw same refl
  take-take (suc m) n [] = let same : suc m + n ≡ suc (m + n) = omega arith in rw same (take-none n)
  take-take (suc m) n (x ∷ xs) =
      let same : suc m + n ≡ suc (m + n) = omega arith in
      rw same (ap (λ r. x ∷ r) (take-take m n xs))

  pub take-whole : (n : ℕ) (xs : List A) → length xs ≤ n → take n xs ≡ xs
  take-whole zero [] h = refl
  take-whole zero (x ∷ xs) h = absurd (omega arith)
  take-whole (suc n) [] h = refl
  take-whole (suc n) (x ∷ xs) h = ap (λ r. x ∷ r) (take-whole n xs (omega arith))

module _ {ℓ κ} {A : Type ℓ} (P : A → Type κ) where
  abbrev pub All : List A → Type κ
  All [] = Unit
  All (x ∷ xs) = P x × All xs

  pub All-append : (xs ys : List A) → All xs → All ys → All (xs ++ ys)
  All-append [] ys _ hy = hy
  All-append (x ∷ xs) ys (px, hx) hy = (px, All-append xs ys hx hy)

  pub All-take : (n : ℕ) (xs : List A) → All xs → All (take n xs)
  All-take zero xs h = tt
  All-take (suc n) [] h = tt
  All-take (suc n) (x ∷ xs) (px, h) = (px, All-take n xs h)

  pub All-drop : (n : ℕ) (xs : List A) → All xs → All (drop n xs)
  All-drop zero xs h = h
  All-drop (suc n) [] h = tt
  All-drop (suc n) (x ∷ xs) (px, h) = All-drop n xs h

  pub All-remove_at : (i : ℕ) (xs : List A) → All xs → All (remove_at i xs)
  All-remove_at i [] h = tt
  All-remove_at zero (x ∷ xs) (px, h) = h
  All-remove_at (suc i) (x ∷ xs) (px, h) = (px, All-remove_at i xs h)

module _ {ℓ κ μ} {A : Type ℓ} {P : A → Type κ} {Q : A → Type μ} (weaken : (x : A) → P x → Q x) where
  pub All-mono : (xs : List A) → All P xs → All Q xs
  All-mono [] h = tt
  All-mono (x ∷ xs) (px, h) = (weaken x px, All-mono xs h)

module _ {ℓ} {A : Type ℓ} where
  pub lt-length : (xs : List A) (i : ℕ) {x : A} → get_elem? xs i ≡ some x → i < length xs
  lt-length [] i h = absurd (cc)
  lt-length (y ∷ xs) zero h = omega arith
  lt-length (y ∷ xs) (suc i) h = omega (arith, lt-length xs i h)

  pub get_elem?-last : (xs : List A) (x : A) → get_elem? (xs ++ (x ∷ [])) (length xs) ≡ some x
  get_elem?-last [] x = refl
  get_elem?-last (y ∷ xs) x = get_elem?-last xs x

  pub remove_at-last : (xs : List A) (x : A) → remove_at (length xs) (xs ++ (x ∷ [])) ≡ xs
  remove_at-last [] x = refl
  remove_at-last (y ∷ xs) x = ap (λ r. y ∷ r) (remove_at-last xs x)

module _ {ℓ} {A : Type ℓ} (test : A → Bool) where
  -- The elements that pass a test.
  abbrev pub keep : List A → List A
  keep [] = []
  keep (x ∷ xs) = if test x then x ∷ keep xs else keep xs

  kept_head :
      (b : Bool) (x : A) (xs : List A) {a : A}
      → test x ≡ b
      → Memᴰ a (if b then x ∷ keep xs else keep xs)
      → (Memᴰ a (keep xs) → Memᴰ a xs × (test a ≡ true))
      → Memᴰ a (x ∷ xs) × (test a ≡ true)
  kept_head true x xs h (Memᴰ.head e) k = (Memᴰ.head e, rw e h)
  kept_head true x xs h (Memᴰ.tail m) k = (Memᴰ.tail (k m).0, (k m).1)
  kept_head false x xs h m k = (Memᴰ.tail (k m).0, (k m).1)

  kept_first :
      (b : Bool) (x : A) (ys : List A) {a : A}
      → b ≡ true
      → a ≡ x
      → Memᴰ a (if b then x ∷ ys else ys)
  kept_first true x ys h e = Memᴰ.head e
  kept_first false x ys h e = absurd (cc (h))

  kept_tail :
      (b : Bool) (x : A) (ys : List A) {a : A} → Memᴰ a ys → Memᴰ a (if b then x ∷ ys else ys)
  kept_tail true x ys m = Memᴰ.tail m
  kept_tail false x ys m = m

  pub keep_sound : (xs : List A) {a : A} → Memᴰ a (keep xs) → Memᴰ a xs × (test a ≡ true)
  keep_sound [] m = elim m [ ]
  keep_sound (x ∷ xs) m = kept_head (test x) x xs refl m (keep_sound xs)

  pub keep_complete : (xs : List A) {a : A} → Memᴰ a xs → test a ≡ true → Memᴰ a (keep xs)
  keep_complete [] m h = elim m [ ]
  keep_complete (x ∷ xs) (Memᴰ.head e) h = kept_first (test x) x (keep xs) (rw (← e) h) e
  keep_complete (x ∷ xs) (Memᴰ.tail m) h = kept_tail (test x) x (keep xs) (keep_complete xs m h)
