-- ===== src/Cron/Field/Clean.antt =====
-- An accepted time field holds no line end and no escape character.
use project_linux.Base.{ℕ, ◌≡◌, inl, inr, refl, true, some, [], ◌∷◌, All, All-append, arith}
use project_linux.Text.{Str, codes, Unicode, IsUnicode, isdigit, is_digit, all_digits}
use project_linux.Value.{ok}
use project_linux.Cron.Jobs.{IsJobChar}
use project_linux.Cron.Field.{check_field}
use project_linux.Cron.Field.Meaning.{IsField, check_field_iff}

module _ (U : Unicode) (u : IsUnicode U) where
  digit_clean : (c : ℕ) → is_digit U c ≡ true → IsJobChar c
  unfolding is_digit
  digit_clean c h = ground (arith, u.below c, u.others c, u.wide_ends c)

  all_digits-clean : (s : Str) → all_digits U s ≡ true → All IsJobChar s
  unfolding all_digits
  all_digits-clean [] h = tt
  all_digits-clean (c ∷ s) h = (digit_clean c (ground arith), all_digits-clean s (ground arith))

  isdigit-clean : (s : Str) → isdigit U s ≡ true → All IsJobChar s
  unfolding isdigit
  isdigit-clean s h = all_digits-clean s (ground arith)

  field_clean : (low high : ℕ) (v : Str) → IsField U low high v → All IsJobChar v
  field_clean low high v (inl e) = rw e (unfold codes in ((refl, omega arith), tt))
  field_clean low high v (inr (inl (t, n, e, (d, i), lo, hi))) = rw e (
      All-append _ (codes "*/") t (unfold codes in ((refl, omega arith), ((refl, omega arith), tt)))
        (isdigit-clean t d))
  field_clean low high v (inr (inr (n, (d, i), lo, hi))) = isdigit-clean v d

  pub check_field-clean :
      (low high : ℕ) (v : Str) → check_field U v (some low) (some high) ≡ ok true → All IsJobChar v
  check_field-clean low high v h = field_clean low high v ((check_field_iff U low high u v).0 h)
