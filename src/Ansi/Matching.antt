-- ===== src/Ansi/Matching.antt =====
-- The matcher of `ANSI_ESCAPE` and the regular expression that it stands for.
use project_linux.Base.{
  ℕ, suc, ◌+◌, ◌≡◌, refl, ap, false, true, some, [], ◌∷◌, ◌++◌, All, length, length-append,
  append_assoc, arith, Option-cases, Bool-cases, inl, inr, ◌∙◌, ◌↔◌,
}
use project_linux.Text.{Str}
use project_linux.Ansi.{
  is_param, is_intermediate, is_final, longer, match_intermediates, match_params, match_sequence,
}

-- `\[[0-?]*[ -/]*[@-~]`, as the regular expression reads it.
pub record Sequence : Type 0 where
  pub params : Str
  pub intermediates : Str
  pub final : ℕ
  pub params_fit : All (λ c. is_param c ≡ true) params
  pub intermediates_fit : All (λ c. is_intermediate c ≡ true) intermediates
  pub final_fits : is_final final ≡ true

-- Its text behind the escape character.
unfoldable pub body : Sequence → Str
body q = b'[' ∷ (q.params ++ (q.intermediates ++ (q.final ∷ [])))

match_intermediates-append :
    (s : Str) (f : ℕ) (rest : Str)
    → All (λ c. is_intermediate c ≡ true) s
    → is_final f ≡ true
    → match_intermediates (s ++ (f ∷ rest)) ≡ some (length s + 1)
unfolding match_intermediates
match_intermediates-append [] f rest h hf = ground arith
match_intermediates-append (c ∷ s) f rest (hc, h) hf =
    rw (hc, match_intermediates-append s f rest h hf) (ground arith)

match_params-intermediates :
    (s : Str) (f : ℕ) (rest : Str)
    → All (λ c. is_intermediate c ≡ true) s
    → is_final f ≡ true
    → match_params (s ++ (f ∷ rest)) ≡ match_intermediates (s ++ (f ∷ rest))
unfolding match_params
match_params-intermediates [] f rest h hf = ground arith
match_params-intermediates (c ∷ s) f rest (hc, h) hf = ground arith

match_params-param :
    (c : ℕ) (s : Str) → is_param c ≡ true → match_params (c ∷ s) ≡ longer (match_params s)
unfolding match_params
match_params-param c s h = ground arith

no_param :
    (c : ℕ) (s : Str) → is_param c ≡ false → match_intermediates (c ∷ s) ≡ match_params (c ∷ s)
unfolding match_params
no_param c s h = ground arith

match_params-append :
    (p s : Str) (f : ℕ) (rest : Str)
    → All (λ c. is_param c ≡ true) p
    → All (λ c. is_intermediate c ≡ true) s
    → is_final f ≡ true
    → match_params (p ++ (s ++ (f ∷ rest))) ≡ some (length p + (length s + 1))
match_params-append [] s f rest hp h hf =
    rw (match_params-intermediates s f rest h hf, match_intermediates-append s f rest h hf)
      (ground arith)
match_params-append (c ∷ p) s f rest (hc, hp) h hf =
    rw (match_params-param c _ hc, match_params-append p s f rest hp h hf) (ground arith)

-- The regular expression matches a sequence to its last character, whatever follows.
pub match_sequence-body :
    (q : Sequence) (rest : Str) → match_sequence (body q ++ rest) ≡ some (length (body q))
unfolding body match_sequence
match_sequence-body q rest = simp append_assoc (
    rw
      (
        match_params-append q.params q.intermediates q.final rest q.params_fit q.intermediates_fit
            q.final_fits,
        length-append q.params,
        length-append q.intermediates,
      )
      (ground arith))

-- Where the regular expression matches, it has found a sequence.
MatchedFrom : Str → ℕ → Type 0
MatchedFrom s n =
    (i : Str) × (f : ℕ) × (rest : Str) × (s ≡ i ++ (f ∷ rest))
    × All (λ c. is_intermediate c ≡ true) i
    × (is_final f ≡ true)
    × (n ≡ length i + 1)

intermediate_step :
    (c : ℕ) (s : Str) (n : ℕ)
    → ((m : ℕ) → match_intermediates s ≡ some m → MatchedFrom s m)
    → match_intermediates (c ∷ s) ≡ some n
    → MatchedFrom (c ∷ s) n
unfolding match_intermediates MatchedFrom
intermediate_step c s n ih h = elim (Bool-cases (is_intermediate c)) [
  | inl p ↦ elim (Option-cases (match_intermediates s)) [
    | inl e ↦ absurd (ground arith)
    | inr (m, e) ↦
        let (i, f, rest, es, hi, hf, hm) = ih m e in
        (c ∷ i, f, rest, ap (λ r. c ∷ r) es, (p, hi), hf, ground arith)
  ]
  | inr p ↦ ([], c, s, refl, tt, ground arith, ground arith)
]

match_intermediates_sound : (s : Str) (n : ℕ) → match_intermediates s ≡ some n → MatchedFrom s n
match_intermediates_sound [] n h = absurd (unfold match_intermediates in (cc))
match_intermediates_sound (c ∷ s) n h = intermediate_step c s n (match_intermediates_sound s) h

-- The same behind the parameters.
ParamsMatched : Str → ℕ → Type 0
ParamsMatched s n =
    (p : Str) × (t : Str) × (m : ℕ) × (s ≡ p ++ t)
    × All (λ c. is_param c ≡ true) p
    × MatchedFrom t m
    × (n ≡ length p + m)

params_step :
    (c : ℕ) (s : Str) (n : ℕ)
    → ((m : ℕ) → match_params s ≡ some m → ParamsMatched s m)
    → match_params (c ∷ s) ≡ some n
    → ParamsMatched (c ∷ s) n
unfolding ParamsMatched
params_step c s n ih h = elim (Bool-cases (is_param c)) [
  | inl p ↦ elim (Option-cases (match_params s)) [
    | inl e ↦ absurd (cc (match_params-param c s p, h, e))
    | inr (m, e) ↦
        let (ps, t, k, es, hp, ht, hm) = ih m e in
        (c ∷ ps, t, k, ap (λ r. c ∷ r) es, (p, hp), ht, ground (arith, match_params-param c s p))
  ]
  | inr p ↦ (
    [],
    c ∷ s,
    n,
    refl,
    tt,
    match_intermediates_sound (c ∷ s) n (no_param c s p ∙ h),
    ground arith,
  )
]

match_params_sound : (s : Str) (n : ℕ) → match_params s ≡ some n → ParamsMatched s n
match_params_sound [] n h = absurd (unfold match_params in (cc))
match_params_sound (c ∷ s) n h = params_step c s n (match_params_sound s) h

bracket :
    (c : ℕ) (s : Str) (n : ℕ)
    → match_sequence (c ∷ s) ≡ some n
    → (m : ℕ) × (c ≡ b'[') × (match_params s ≡ some m) × (n ≡ suc m)
unfolding match_sequence
bracket c s n h = elim (Option-cases (match_params s)) [
  | inl e ↦ absurd (ground arith)
  | inr (m, e) ↦ (m, ground arith, e, ground arith)
]

found_sequence :
    (s : Str) (n : ℕ)
    → ParamsMatched s n
    → (q : Sequence) × (rest : Str) × (b'[' ∷ s ≡ body q ++ rest) × (suc n ≡ length (body q))
unfolding ParamsMatched MatchedFrom body
found_sequence s n (p, t, m, es, hp, (i, f, rest, et, hi, hf, hm), hn) = (
  record {
    params = p;
    intermediates = i;
    final = f;
    params_fit = hp;
    intermediates_fit = hi;
    final_fits = hf;
  },
  rest,
  rw (es, et) (simp append_assoc),
  omega (arith, length-append p (i ++ (f ∷ [])), length-append i (f ∷ [])),
)

match_sequence_sound :
    (s : Str) (n : ℕ)
    → match_sequence s ≡ some n
    → (q : Sequence) × (rest : Str) × (s ≡ body q ++ rest) × (n ≡ length (body q))
match_sequence_sound [] n h = absurd (unfold match_sequence in (cc))
match_sequence_sound (c ∷ s) n h =
    let (m, hc, hm, hn) = bracket c s n h in
    rw (hc, hn) (found_sequence s m (match_params_sound s m hm))

-- The matcher of `ANSI_ESCAPE` finds a match of length n behind an escape character exactly where
-- the text there begins with a control sequence of n characters: `[`, any parameter characters, any
-- intermediate characters and a final one.
pub match_sequence_iff :
    (s : Str) (n : ℕ)
    → (match_sequence s ≡ some n)
      ↔ ((q : Sequence) × (rest : Str) × (s ≡ body q ++ rest) × (n ≡ length (body q)))
match_sequence_iff s n =
    (match_sequence_sound s n, λ (q, rest, es, hn). rw (es, hn) (match_sequence-body q rest))
