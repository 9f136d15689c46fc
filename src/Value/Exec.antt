-- ===== src/Value/Exec.antt =====
-- Code that has effects and may raise: what was done before a raise stays done, so the state comes
-- back beside the exception too.
use project_linux.Base.{Option, none, some}
use project_linux.Value.{Exception, Result, ok, raise}

abbrev pub Exec {ℓ} : Type 0 → Type ℓ → Type ℓ
Exec S A = S → Result A × S

module _ {ℓ} {S : Type 0} {A : Type ℓ} where
  abbrev pub pure : A → Exec S A
  pure a s = (ok a, s)

  abbrev pub throw : Exception → Exec S A
  throw e s = (raise e, s)

  abbrev pub lift : Result A → Exec S A
  lift r s = (r, s)

module _ {ℓ κ} {S : Type 0} {A : Type ℓ} {B : Type κ} where
  abbrev pub continue : (A → Exec S B) → Result A × S → Result B × S
  continue f (ok a, s) = f a s
  continue f (raise e, s) = (raise e, s)

  infixl 5 ◌>>=◌ ◌>>◌
  abbrev pub ◌>>=◌ : Exec S A → (A → Exec S B) → Exec S B
  ◌>>=◌ m f s = continue f (m s)

  abbrev pub ◌>>◌ : Exec S A → Exec S B → Exec S B
  m >> n = m >>= λ _. n

module _ {ℓ} {S : Type 0} {A : Type ℓ} where
  -- `handler` gives the body of the `except` clause that takes an exception, if one does.
  abbrev pub except : (Exception → Option (Exec S A)) → Result A × S → Result A × S
  except handler (ok a, s) = (ok a, s)
  except handler (raise e, s) = elim (handler e) [ some k ↦ k s | none ↦ (raise e, s) ]

  -- try: body / except: handler
  abbrev pub try_except : Exec S A → (Exception → Option (Exec S A)) → Exec S A
  try_except body handler s = except handler (body s)
