-- ===== src/Ansi/Cleaning.antt =====
-- What `clean_output` removes and what it keeps.
use project_linux.Base.{
  ℕ, ◌≡◌, ◌≢◌, refl, none, some, true, [], ◌∷◌, ◌++◌, List, All, All-append, All-mono, length,
  arith,
}
use project_linux.Text.{Str}
use project_linux.Ansi.{
  escape, is_param, is_intermediate, is_final, match_sequence, sub, clean_output,
}
use project_linux.Ansi.Matching.{Sequence, body, match_sequence-body}

final_plain : (c : ℕ) → is_final c ≡ true → c ≢ escape
final_plain c h = ground arith

pub data Piece : Type 0 where
  plain : ℕ → Piece
  control : Sequence → Piece

-- A plain character is not the escape character.
abbrev pub Fits : Piece → Type 0
Fits (plain c) = c ≢ escape
Fits (control q) = Unit

pub written : List Piece → Str
unfolding body
written [] = []
written (plain c ∷ ps) = c ∷ written ps
written (control q ∷ ps) = escape ∷ (body q ++ written ps)

unfoldable pub visible : List Piece → Str
visible [] = []
visible (plain c ∷ ps) = c ∷ visible ps
visible (control q ∷ ps) = visible ps

sub-skipped : (s rest : Str) → sub (length s) (s ++ rest) ≡ sub 0 rest
unfolding sub
sub-skipped [] rest = refl
sub-skipped (c ∷ s) rest = sub-skipped s rest

sub-plain : (c : ℕ) (s : Str) → c ≢ escape → sub 0 (c ∷ s) ≡ c ∷ sub 0 s
unfolding sub
sub-plain c s h = ground arith

sub-match : (s : Str) (n : ℕ) → match_sequence s ≡ some n → sub 0 (escape ∷ s) ≡ sub n s
unfolding sub
sub-match s n h = ground arith

sub-written : (ps : List Piece) → All Fits ps → sub 0 (written ps) ≡ visible ps
unfolding written visible
sub-written [] h = unfold sub in refl
sub-written (plain c ∷ ps) (hc, h) = rw (sub-plain c _ hc, sub-written ps h)
sub-written (control q ∷ ps) (_, h) =
    rw (sub-match _ _ (match_sequence-body q (written ps)), sub-skipped (body q) (written ps))
      (sub-written ps h)

-- Of a text made of characters other than the escape character and of control sequences, in any
-- order, `clean_output` keeps exactly the characters, in their order.
pub clean_output-written :
    (ps : List Piece) → All Fits ps → clean_output (some (written ps)) ≡ visible ps
unfolding clean_output
clean_output-written ps h = sub-written ps h

plain_text : (s : Str) → All (λ c. c ≢ escape) s → sub 0 s ≡ s
plain_text [] h = unfold sub in refl
plain_text (c ∷ s) (hc, h) = rw (sub-plain c s hc, plain_text s h)

pub clean_output-eq : (s : Str) → All (λ c. c ≢ escape) s → clean_output (some s) ≡ s
unfolding clean_output
clean_output-eq s h = plain_text s h

body-plain : (q : Sequence) → All (λ c. c ≢ escape) (body q)
unfolding body
body-plain q = (
  omega arith,
  All-append _ q.params _
      (All-mono (λ c (h : is_param c ≡ true). ground arith) q.params q.params_fit)
      (All-append _ q.intermediates _
        (All-mono (λ c (h : is_intermediate c ≡ true). ground arith) q.intermediates
          q.intermediates_fit)
        (final_plain q.final q.final_fits, tt)),
)

lone_escape : (s : Str) → match_sequence s ≡ none → sub 0 (escape ∷ s) ≡ escape ∷ sub 0 s
unfolding sub
lone_escape s h = ground arith

-- One pass is not enough: an escape character before a control sequence is kept, and with the text
-- behind that sequence it can be a control sequence again.
pub clean_output_exposes :
    (p q : Sequence) → clean_output (some (escape ∷ escape ∷ (body p ++ body q))) ≡ escape ∷ body q
unfolding clean_output
clean_output_exposes p q = rw (
  lone_escape (escape ∷ (body p ++ body q)) (unfold match_sequence in refl),
  sub-match _ _ (match_sequence-body p (body q)),
  sub-skipped (body p) (body q),
  plain_text (body q) (body-plain q),
)
