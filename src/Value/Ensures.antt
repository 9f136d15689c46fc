-- ===== src/Value/Ensures.antt =====
-- What holds of an action that returns, and rules for the parts of a block.
use mathlib.Core.Path.{subst}
use project_linux.Base.{◌≡◌, refl, ap, ◌⊎◌, inl, inr}
use project_linux.Value.{Exception, Result, ok, raise}
use project_linux.Value.Exec.{Exec, continue}

module _ {ℓ κ} {S : Type 0} {A : Type ℓ} where
  abbrev pub Ensures : (A → S → Type κ) → Result A × S → Type κ
  Ensures Q (ok a, s) = Q a s
  Ensures Q (raise e, s) = Unit

  pub Ensures-ok :
      (Q : A → S → Type κ) (x : Result A × S) {a : A} → Ensures Q x → x.0 ≡ ok a → Q a x.1
  Ensures-ok Q (ok b, s) q e = subst (λ (r : Result A). Ensures Q (r, s)) e q
  Ensures-ok Q (raise b, s) q e = cc

  pub Ensures-of_ok :
      (Q : A → S → Type κ) (x : Result A × S) → ((a : A) → x.0 ≡ ok a → Q a x.1) → Ensures Q x
  Ensures-of_ok Q (ok a, s) h = h a refl
  Ensures-of_ok Q (raise e, s) h = tt

module _ {ℓ κ μ} {S : Type 0} {A : Type ℓ} (P : A → S → Type κ) (Q : A → S → Type μ) where
  pub Ensures-map :
      (x : Result A × S) → Ensures P x → ((a : A) (s : S) → P a s → Q a s) → Ensures Q x
  Ensures-map (ok a, s) p h = h a s p
  Ensures-map (raise e, s) p h = tt

module _ {ℓ κ μ} {S : Type 0} {A : Type ℓ} {B : Type κ} where
  -- The rest of a block sees the value that the first part returned.
  pub continue-Ensures :
      (Q : B → S → Type μ) (x : Result A × S) (f : A → Exec S B)
      → ((a : A) → x.0 ≡ ok a → Ensures Q (f a x.1))
      → Ensures Q (continue f x)
  continue-Ensures Q (ok a, s) f h = h a refl
  continue-Ensures Q (raise e, s) f h = tt

  -- The same from what holds of the first part.
  pub then-Ensures {ν} :
      (P : A → S → Type ν) (Q : B → S → Type μ) (x : Result A × S) (f : A → Exec S B)
      → Ensures P x
      → ((a : A) (s : S) → P a s → Ensures Q (f a s))
      → Ensures Q (continue f x)
  then-Ensures P Q (ok a, s) f p h = h a s p
  then-Ensures P Q (raise e, s) f p h = tt

module _ {ℓ κ} {S : Type 0} {A : Type ℓ} {B : Type κ} where
  pub continue-ok :
      (x : Result A × S) (f : A → Exec S B) {a : A} → x.0 ≡ ok a → continue f x ≡ f a x.1
  continue-ok (ok b, s) f {a} e = let same : b ≡ a = cc (e) in ap (λ c. f c s) same
  continue-ok (raise b, s) f e = cc

module _ {ℓ κ μ} {S : Type 0} {A : Type ℓ} {B : Type κ} {V : Type μ} where
  -- A part of the state that no part of a block changes.
  pub continue_keeps :
      (view : S → V) (v : V) (x : Result A × S) (f : A → Exec S B)
      → view x.1 ≡ v
      → ((a : A) (s : S) → view s ≡ v → view (f a s).1 ≡ v)
      → view (continue f x).1 ≡ v
  continue_keeps view v (ok a, s) f h k = k a s h
  continue_keeps view v (raise e, s) f h k = h

-- What holds of the state where an action raises.
module _ {ℓ κ} {S : Type 0} {A : Type ℓ} where
  abbrev pub Raises : (S → Type κ) → Result A × S → Type κ
  Raises R (ok a, s) = Unit
  Raises R (raise e, s) = R s

  pub Raises-cases :
      (R : S → Type κ) (x : Result A × S)
      → Raises R x
      → ((a : A) × (x.0 ≡ ok a)) ⊎ ((e : Exception) × (x.0 ≡ raise e) × R x.1)
  Raises-cases R (ok a, s) h = inl (a, refl)
  Raises-cases R (raise e, s) h = inr (e, refl, h)

module _ {ℓ κ μ} {S : Type 0} {A : Type ℓ} {B : Type κ} (R : S → Type μ) where
  -- The first part changes nothing of the state that counts.
  pub in-Raises :
      (r : Result A) (s : S) (f : A → Exec S B)
      → R s
      → ((a : A) → Raises R (f a s))
      → Raises R (continue f (r, s))
  in-Raises (ok a) s f h k = k a
  in-Raises (raise e) s f h k = h

module _ {ℓ κ μ ν} {S : Type 0} {A : Type ℓ} {B : Type κ} (P : A → S → Type ν)
    (R : S → Type μ) where
  pub then-Raises :
      (x : Result A × S) (f : A → Exec S B)
      → Ensures P x
      → Raises R x
      → ((a : A) (s : S) → P a s → Raises R (f a s))
      → Raises R (continue f x)
  then-Raises (ok a, s) f p h k = k a s p
  then-Raises (raise e, s) f p h k = h
