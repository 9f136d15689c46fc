-- ===== src/Text/Distinct.antt =====
-- Lists in which no text stands twice.
use project_linux.Base.{
  ◌≡◌, Bool, true, false, ◌&&◌, not, List, [], ◌∷◌, Memᴰ, Bool-cases, inl, inr, arith,
}
use project_linux.Text.{Str, text_eq}
use project_linux.Text.Laws.{text_eq→eq, text_eq_refl}

pub differs_sym : (s t : Str) → text_eq s t ≡ false → text_eq t s ≡ false
differs_sym s t h = elim (Bool-cases (text_eq t s)) [
  | inl k ↦ absurd (
      let e : t ≡ s = text_eq→eq t s k in
      let same : text_eq s t ≡ true = rw e (text_eq_refl s) in cc)
  | inr k ↦ k
]

abbrev pub absent : Str → List Str → Bool
absent s [] = true
absent s (t ∷ ts) = not (text_eq s t) && absent s ts

unfoldable pub distinct : List Str → Bool
unfolding text_eq
distinct [] = true
distinct (s ∷ ss) = absent s ss && distinct ss

pub absent-differs :
    (s : Str) {t : Str} (ts : List Str) → absent s ts ≡ true → Memᴰ t ts → text_eq s t ≡ false
absent-differs s [] h m = elim m [ ]
absent-differs s (u ∷ ts) h (Memᴰ.head e) = rw e (ground (arith, h))
absent-differs s (u ∷ ts) h (Memᴰ.tail m) = absent-differs s ts (ground (arith, h)) m
