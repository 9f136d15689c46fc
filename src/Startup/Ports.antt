-- ===== src/Startup/Ports.antt =====
-- The search for a port.
use project_linux.Base.{
  ℕ, zero, suc, ◌<◌, ◌≡◌, ◌⊎◌, inl, inr, refl, Bool, true, false, ◌||◌, not, Option, none, some,
  ◌==◌, arith, if◌then◌else◌,
}
use project_linux.Base.Int.{ℤ, pos, negsuc, leb_ℤ, suc_ℤ}
use project_linux.Value.{Exception, os_error, Result, ok, raise}
use project_linux.Value.Exec.{Exec, pure, except, continue}
use project_linux.Host.{Host, App}
use project_linux.Startup.{Network, last_port, retries, again, find_port}

retries-suc :
    (p : ℤ) (f : ℕ) → leb_ℤ (pos last_port) p ≡ false → retries p < suc f → retries (suc_ℤ p) < f
retries-suc (pos n) f h k = ground arith
retries-suc (negsuc zero) f h k = ground arith
retries-suc (negsuc (suc n)) f h k = ground arith

suc-below : (p q : ℤ) → leb_ℤ (suc_ℤ p) q ≡ true → leb_ℤ p q ≡ true
suc-below (pos n) q h = ground arith
suc-below (negsuc zero) q h = ground arith
suc-below (negsuc (suc n)) q h = ground arith

suc-last : (p : ℤ) → leb_ℤ (pos last_port) p ≡ false → leb_ℤ (suc_ℤ p) (pos last_port) ≡ true
suc-last (pos n) h = ground arith
suc-last (negsuc zero) h = ground arith
suc-last (negsuc (suc n)) h = ground arith

leb_ℤ_refl : (p : ℤ) → leb_ℤ p p ≡ true
leb_ℤ_refl (pos n) = ground arith
leb_ℤ_refl (negsuc n) = ground arith

module _ (H : Host) (N : Network H) where
  -- The search came to an end: a server on a port between the first and the last one, or on the
  -- first, or an exception.
  abbrev pub FoundFrom : ℤ → Result (Option (N.Server × ℤ)) → Type 0
  FoundFrom port (ok none) = true ≡ false
  FoundFrom port (ok (some (server, q))) =
      (leb_ℤ port q ≡ true) × ((q ≡ port) ⊎ (leb_ℤ q (pos last_port) ≡ true))
  FoundFrom port (raise e) = Unit

  FoundFrom-suc :
      (p : ℤ) (r : Result (Option (N.Server × ℤ)))
      → leb_ℤ (pos last_port) p ≡ false
      → FoundFrom (suc_ℤ p) r
      → FoundFrom p r
  FoundFrom-suc p (ok none) h found = found
  FoundFrom-suc p (ok (some (server, q))) h (lo, inl e) =
      (suc-below p q lo, inr (rw e (suc-last p h)))
  FoundFrom-suc p (ok (some (server, q))) h (lo, inr hi) = (suc-below p q lo, inr hi)
  FoundFrom-suc p (raise e) h found = tt

  handled-FoundFrom :
      (stops : Bool) (port : ℤ) (rest : Exec (App H) (Option (N.Server × ℤ))) (e : Exception)
      (s : App H)
      → (stops ≡ false → FoundFrom port (rest s).0)
      → FoundFrom port (except (λ other. if stops then none else some rest) (raise e, s)).0
  handled-FoundFrom true port rest e s h = tt
  handled-FoundFrom false port rest e s h = h refl

  -- One try, whatever it came to.
  tried-FoundFrom :
      (port : ℤ) (rest : Exec (App H) (Option (N.Server × ℤ))) (s : App H) (r : Result N.Server)
      → (leb_ℤ (pos last_port) port ≡ false → FoundFrom port (rest s).0)
      → FoundFrom port
          (except (again H N port rest) (continue (λ server. pure (some (server, port))) (r, s))).0
  tried-FoundFrom port rest s (ok server) h = (leb_ℤ_refl port, inl refl)
  tried-FoundFrom port rest s (raise (os_error errno m)) h =
      handled-FoundFrom (not (errno == 98) || leb_ℤ (pos last_port) port) port rest
        (os_error errno m) s (λ e. h (ground arith))
  tried-FoundFrom port rest s (raise _) h = tt

  next-FoundFrom :
      (fuel : ℕ) (port : ℤ) (s : App H)
      → retries port < suc fuel
      → ((t : App H)
          → retries (suc_ℤ port) < fuel
          → FoundFrom (suc_ℤ port) (find_port H N fuel (suc_ℤ port) t).0)
      → FoundFrom port (find_port H N (suc fuel) port s).0
  unfolding find_port
  next-FoundFrom fuel port s h next =
      tried-FoundFrom port (find_port H N fuel (suc_ℤ port))
        (record s { world = (N.bind port s.world).1 }) (N.bind port s.world).0
        (λ e. FoundFrom-suc port _ e (next _ (retries-suc port fuel e h)))

  -- With fuel for the ports up to the last one the search for a port ends, in a server or an
  -- exception; a server listens on the first port, or on one between it and the last port, 8108.
  pub find_port-FoundFrom :
      (fuel : ℕ) (port : ℤ) (s : App H)
      → retries port < fuel
      → FoundFrom port (find_port H N fuel port s).0
  find_port-FoundFrom zero port s h = absurd (omega arith)
  find_port-FoundFrom (suc fuel) port s h =
      next-FoundFrom fuel port s h (find_port-FoundFrom fuel (suc_ℤ port))
