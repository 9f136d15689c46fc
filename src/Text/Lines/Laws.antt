-- ===== src/Text/Lines/Laws.antt =====
-- Lines that hold no line end are read back from a text in which each ends with "\n".
use project_linux.Base.{
  ℕ, ◌≡◌, ◌≢◌, refl, true, false, [], ◌∷◌, ◌++◌, List, All, ap, append_assoc, append-nil, arith,
}
use project_linux.Text.{Str, codes, join, is_nonempty}
use project_linux.Text.Lines.{
  is_line_end, lines_onto, last_line, splitlines, translate, universal_newlines,
}

abbrev pub IsOneLine : Str → Type 0
IsOneLine = All (λ c. is_line_end c ≡ false)

-- Each line with its "\n".
unfoldable pub terminated : List Str → Str
terminated [] = []
terminated (l ∷ ls) = l ++ (10 ∷ terminated ls)

lines_onto-inside :
    (c : ℕ) (s cur : Str)
    → is_line_end c ≡ false
    → lines_onto false cur (c ∷ s) ≡ lines_onto false (cur ++ (c ∷ [])) s
unfolding lines_onto
lines_onto-inside c s cur h = ground arith

lines_onto-line :
    (l rest cur : Str)
    → IsOneLine l
    → lines_onto false cur (l ++ (10 ∷ rest)) ≡ (cur ++ l) ∷ lines_onto false [] rest
lines_onto-line [] rest cur h = unfold lines_onto in rw append-nil
lines_onto-line (c ∷ l) rest cur (hc, hl) =
    rw (lines_onto-inside c _ cur hc, lines_onto-line l rest (cur ++ (c ∷ [])) hl, append_assoc)

pub splitlines-terminated : (ls : List Str) → All IsOneLine ls → splitlines (terminated ls) ≡ ls
unfolding splitlines terminated
splitlines-terminated [] h = refl
splitlines-terminated (l ∷ ls) (hl, h) =
    rw (lines_onto-line l (terminated ls) [] hl) (ap (λ r. l ∷ r) (splitlines-terminated ls h))

lines_onto-end : (l cur : Str) → IsOneLine l → lines_onto false cur l ≡ last_line (cur ++ l)
lines_onto-end [] cur h = unfold lines_onto in rw append-nil refl
lines_onto-end (c ∷ l) cur (hc, hl) =
    rw (lines_onto-inside c l cur hc, lines_onto-end l (cur ++ (c ∷ [])) hl, append_assoc) refl

last_line-nonempty : (l : Str) → is_nonempty l ≡ true → last_line l ≡ l ∷ []
unfolding last_line is_nonempty
last_line-nonempty [] h = absurd (ground arith)
last_line-nonempty (c ∷ l) h = refl

-- The last line of a joined text has no "\n" behind it, so an empty one would be lost.
pub splitlines-join :
    (l : Str) (ls : List Str)
    → All IsOneLine (l ∷ ls)
    → All (λ k. is_nonempty k ≡ true) (l ∷ ls)
    → splitlines (join (codes "\n") (l ∷ ls)) ≡ l ∷ ls
unfolding splitlines join codes
splitlines-join l [] (hl, _) (nl, _) = rw (lines_onto-end l [] hl) (last_line-nonempty l nl)
splitlines-join l (k ∷ ls) (hl, h) (nl, n) =
    rw (lines_onto-line l _ [] hl) (ap (λ r. l ∷ r) (splitlines-join k ls h n))

translate-eq : (s : Str) → All (λ c. c ≢ 13) s → translate false s ≡ s
unfolding translate
translate-eq [] h = refl
translate-eq (c ∷ s) (hc, h) = ground (arith, translate-eq s h)

pub universal_newlines-eq : (s : Str) → All (λ c. c ≢ 13) s → universal_newlines s ≡ s
unfolding universal_newlines
universal_newlines-eq s h = translate-eq s h
