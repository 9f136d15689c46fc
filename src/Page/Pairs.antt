-- ===== src/Page/Pairs.antt =====
-- The fields that `payload` collects: each key has the value of its element.
use mathlib.Core.List.Memᴰ
use project_linux.Base.{
  ◌≡◌, refl, ap, ◌∙◌, true, false, Option, some, List, [], ◌∷◌, map, Memᴰ, if◌then◌else◌,
  Bool-cases, inl, inr, arith,
}
use project_linux.Text.{Str, text_eq}
use project_linux.Text.Distinct.{absent, distinct, differs_sym}
use project_linux.Text.Laws.{text_eq→eq, text_eq_refl}
use project_linux.Value.{Json, text, Fields, end, field, find_field}
use project_linux.Page.{Input}
use project_linux.Page.Script.{value_of, set_field, add_pairs}

set_field-same : (key : Str) (v : Json) (fs : Fields) → find_field key (set_field key v fs) ≡ some v
unfolding find_field set_field
set_field-same key v end = rw (text_eq_refl key) refl
set_field-same key v (field k w fs) = elim (Bool-cases (text_eq k key)) [
  | inl h ↦ rw (h, h) refl
  | inr h ↦ rw (h, h) (set_field-same key v fs)
]

set_field-other :
    (key other : Str) (v : Json) (fs : Fields)
    → text_eq other key ≡ false
    → find_field key (set_field other v fs) ≡ find_field key fs
unfolding find_field set_field
set_field-other key other v end h = rw h refl
set_field-other key other v (field k w fs) h = elim (Bool-cases (text_eq k other)) [
  | inl same ↦
      let differs : text_eq k key ≡ false = rw (text_eq→eq k other same) h in
      rw (same, differs) refl
  | inr m ↦ rw m (ap (λ o. if text_eq k key then some w else o) (set_field-other key other v fs h))
]

abbrev pub keys : List (Str × Str) → List Str
keys ps = map (λ p. p.0) ps

module _ (page : List Input) where
  -- The value of an element, if the script finds it.
  abbrev pub Holds : Fields → Str × Str → Type 0
  Holds fs p = (v : Str) × (value_of page p.1 ≡ some v) × (find_field p.0 fs ≡ some (text v))

  abbrev pub Collects : List (Str × Str) → Fields → Option Fields → Type 0
  Collects ps data' result =
      (fs : Fields) × (result ≡ some fs)
      × ((key : Str) → absent key (keys ps) ≡ true → find_field key fs ≡ find_field key data')
      × ((p : Str × Str) → Memᴰ p ps → Holds fs p)

  -- Every element that the pairs name is on the page.
  abbrev pub AllFound : List (Str × Str) → Type 0
  AllFound [] = Unit
  AllFound (p ∷ ps) = ((v : Str) × (value_of page p.1 ≡ some v)) × AllFound ps

  Collects-more :
      (k id : Str) (ps : List (Str × Str)) (data' : Fields) (v : Str) (result : Option Fields)
      → value_of page id ≡ some v
      → absent k (keys ps) ≡ true
      → Collects ps (set_field k (text v) data') result
      → Collects ((k, id) ∷ ps) data' result
  Collects-more k id ps data' v result there once (fs, e, keeps, finds) = (
    fs,
    e,
    (λ key fresh.
        keeps key (ground (arith, fresh))
        ∙ set_field-other key k (text v) data' (differs_sym key k (ground (arith, fresh)))),
    λ p m. elim (Memᴰ.cases_cons m) [
      | inl same ↦ rw same (v, there, keeps k once ∙ set_field-same k (text v) data')
      | inr later ↦ finds p later
    ],
  )

  pub add_pairs-Collects :
      (ps : List (Str × Str)) (data' : Fields)
      → distinct (keys ps) ≡ true
      → AllFound ps
      → Collects ps data' (add_pairs page ps data')
  unfolding add_pairs distinct
  add_pairs-Collects [] data' h found = (data', refl, (λ key k. refl), λ p m. elim m [ ])
  add_pairs-Collects ((k, id) ∷ ps) data' h ((v, there), found) =
      Collects-more k id ps data' v (add_pairs page ((k, id) ∷ ps) data') there (ground (arith, h))
        (rw (there, add_pairs)
          (add_pairs-Collects ps (set_field k (text v) data') (ground (arith, h)) found))
