-- ===== src/Text/Laws.antt =====
-- Equality of texts, prefixes and substrings.
use project_linux.Base.{ℕ, ◌≡◌, ◌≤◌, ◌⊎◌, refl, true, [], ◌∷◌, ◌++◌, All, arith, drop}
use project_linux.Text.{Str, text_eq, starts_with, contains, Unicode, IsUnicode, lower}

pub text_eq→eq : (s t : Str) → text_eq s t ≡ true → s ≡ t
unfolding text_eq
text_eq→eq [] [] h = refl
text_eq→eq [] (d ∷ t) h = cc
text_eq→eq (c ∷ s) [] h = cc
text_eq→eq (c ∷ s) (d ∷ t) h = ground (arith, text_eq→eq s t)

pub text_eq_refl : (s : Str) → text_eq s s ≡ true
unfolding text_eq
text_eq_refl [] = refl
text_eq_refl (c ∷ s) = ground (arith, text_eq_refl s)

-- A text that starts with two characters is those two before what the slice `[2:]` leaves.
pub starts_with_two : (c d : ℕ) (s : Str) → starts_with s (c ∷ d ∷ []) ≡ true → s ≡ c ∷ d ∷ drop 2 s
unfolding starts_with
starts_with_two c d [] h = cc
starts_with_two c d (a ∷ []) h = ground arith
starts_with_two c d (a ∷ b ∷ s) h = ground arith

pub starts_with-append : (p s : Str) → starts_with (p ++ s) p ≡ true
unfolding starts_with
starts_with-append [] [] = refl
starts_with-append [] (c ∷ s) = refl
starts_with-append (c ∷ p) s = ground (arith, starts_with-append p s)

contains_prefix : (p s : Str) → starts_with s p ≡ true → contains p s ≡ true
unfolding contains
contains_prefix p [] h = h
contains_prefix p (c ∷ s) h = rw h

pub contains-append : (p s : Str) → contains p (p ++ s) ≡ true
contains-append p s = contains_prefix p (p ++ s) (starts_with-append p s)

-- ASCII characters other than capitals.
abbrev pub IsSmall : ℕ → Type 0
IsSmall c = (c ≤ 64) ⊎ ((91 ≤ c) × (c ≤ 127))

module _ (U : Unicode) (u : IsUnicode U) where
  lower_one : (c : ℕ) → IsSmall c → U.lower c ≡ c ∷ []
  lower_one c h = ground (arith, u.lowers c)

  -- A text of such characters is its own lower case, whatever stands behind it.
  pub lower-small : (s t : Str) → All IsSmall s → lower U (s ++ t) ≡ s ++ lower U t
  unfolding lower
  lower-small [] t h = refl
  lower-small (c ∷ s) t (hc, h) = rw (lower_one c hc, lower-small s t h)
