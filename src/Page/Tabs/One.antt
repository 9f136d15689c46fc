-- ===== src/Page/Tabs/One.antt =====
-- One section shows at a time, and it is that of the marked button and of the title.
use mathlib.Core.List.Memᴰ
use project_linux.Base.{
  ◌≡◌, refl, ap, sym, ◌∙◌, Bool, true, false, Option, some, List, [], ◌∷◌, map, Memᴰ, if◌then◌else◌,
  Bool-cases, inl, inr,
}
use project_linux.Text.{Str, codes, text_eq}
use project_linux.Text.Laws.{text_eq→eq, text_eq_refl}
use project_linux.Page.Tabs.{
  Part, Tabs, first_tabs, titles, title_of, all_passive, activate, open_tab,
}

abbrev part_names : List Part → List Str
part_names ps = map (λ p. p.name) ps

-- The names of the parts that are active.
abbrev pub shown : List Part → List Str
shown [] = []
shown (p ∷ ps) = if p.active then p.name ∷ shown ps else shown ps

-- The page as its user can bring it about by clicks on the buttons in `nav`.
pub data Clicked : Tabs → Type 0 where
  here : Clicked first_tabs
  click :
      {t : Tabs} (tab : Str) → Memᴰ tab (part_names t.nav) → Clicked t → Clicked (open_tab tab t)

-- One button is marked, its section shows and no other, and the title is that of the tab.
abbrev pub ShowsOne : Tabs → Type 0
ShowsOne t =
    (tab : Str) × (shown t.nav ≡ tab ∷ [])
    × (shown t.sections ≡ tab ∷ [])
    × (t.title ≡ title_of tab titles)

shown-all_passive : (ps : List Part) → shown (all_passive ps) ≡ []
shown-all_passive [] = refl
shown-all_passive (p ∷ ps) = shown-all_passive ps

names-all_passive : (ps : List Part) → part_names (all_passive ps) ≡ part_names ps
names-all_passive [] = refl
names-all_passive (p ∷ ps) = ap (λ r. p.name ∷ r) (names-all_passive ps)

-- A name that is there is what shows alone, and no name changes.
abbrev Activates : Str → List Part → Option (List Part) → Type 0
Activates tab ps result =
    (changed : List Part) × (result ≡ some changed)
    × (shown changed ≡ tab ∷ [])
    × (part_names changed ≡ part_names ps)

shown-empty :
    (b : Bool) (name : Str) (rest : List Str)
    → (if b then name ∷ rest else rest) ≡ []
    → (b ≡ false) × (rest ≡ [])
shown-empty true name rest h = absurd (cc)
shown-empty false name rest h = (refl, h)

activate-Activates :
    (tab : Str) (ps : List Part)
    → Memᴰ tab (part_names ps)
    → shown ps ≡ []
    → Activates tab ps (activate tab ps)
unfolding activate
activate-Activates tab [] m h = elim m [ ]
activate-Activates tab (p ∷ ps) m h =
    let (off, none_shown) = shown-empty p.active p.name (shown ps) h in
    elim (Bool-cases (text_eq p.name tab)) [
      | inl k ↦
          let same : p.name ≡ tab = text_eq→eq p.name tab k in
          (record p { active = true } ∷ ps, rw k refl, rw (none_shown, same) refl, refl)
      | inr k ↦
          let later : Memᴰ tab (part_names ps) = elim (Memᴰ.cases_cons m) [
            | inl e ↦
                absurd (let same : text_eq p.name tab ≡ true = rw e (text_eq_refl p.name) in cc)
            | inr n ↦ n
          ] in
          let (changed, e, one, kept) = activate-Activates tab ps later none_shown in
          (p ∷ changed, rw (k, e) refl, rw (off, one) refl, ap (λ r. p.name ∷ r) kept)
    ]

-- What every click keeps: the buttons and the sections are those of the page as it came.
abbrev Known : Tabs → Type 0
Known t =
    (part_names t.nav ≡ part_names first_tabs.nav) × (part_names t.sections ≡ part_names t.nav)

first-Known : Known first_tabs
unfolding first_tabs
first-Known = (refl, refl)

passive-Activates :
    (tab : Str) (ps : List Part)
    → Memᴰ tab (part_names ps)
    → (changed : List Part) × (activate tab (all_passive ps) ≡ some changed)
      × (shown changed ≡ tab ∷ [])
      × (part_names changed ≡ part_names ps)
passive-Activates tab ps m =
    let (changed, e, one, kept) =
      activate-Activates tab (all_passive ps) (rw (names-all_passive ps) m)
        (shown-all_passive ps) in
    (changed, e, one, kept ∙ names-all_passive ps)

open_tab-ShowsOne :
    (tab : Str) (t : Tabs)
    → Known t
    → Memᴰ tab (part_names t.nav)
    → Known (open_tab tab t) × ShowsOne (open_tab tab t)
unfolding open_tab
open_tab-ShowsOne tab t (known, same) m =
    let (nav, en, one_nav, names_nav) = passive-Activates tab t.nav m in
    let (sections, es, one_section, names_sections) =
      passive-Activates tab t.sections (rw same m) in
    let after : Tabs = record { nav = nav; sections = sections; title = title_of tab titles } in
    let opened : open_tab tab t ≡ after = rw (en, es) refl in
    rw opened (
      (names_nav ∙ known, names_sections ∙ (same ∙ sym names_nav)),
      (tab, one_nav, one_section, refl),
    )

Clicked-Known : {t : Tabs} → Clicked t → Known t
Clicked-Known here = first-Known
Clicked-Known (click {t} tab m c) = (open_tab-ShowsOne tab t (Clicked-Known c) m).0

first-ShowsOne : ShowsOne first_tabs
unfolding first_tabs title_of titles text_eq codes
first-ShowsOne = (codes "files", refl, refl, refl)

-- After any clicks on the buttons of the side bar one of them is marked, its section shows and no other,
-- and the title is the one that the script has for it.
pub Clicked-ShowsOne : {t : Tabs} → Clicked t → ShowsOne t
Clicked-ShowsOne here = first-ShowsOne
Clicked-ShowsOne (click {t} tab m c) = (open_tab-ShowsOne tab t (Clicked-Known c) m).1
