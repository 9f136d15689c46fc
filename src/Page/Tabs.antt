-- ===== src/Page/Tabs.antt =====
-- The tabs of the page: which section shows. The class "active" of the buttons in `nav` and of the
-- sections, and the title, as the script of INDEX_HTML, gui_app/app.py, changes them.
pub mod One
use project_linux.Base.{
  Bool, true, false, Option, none, some, List, [], ◌∷◌, String, map, if◌then◌else◌,
}
use project_linux.Text.{Str, codes, text_eq}

-- A button in `nav` with its data-tab, or a section with its id.
pub record Part : Type 0 where
  pub name : Str
  pub active : Bool

pub record Tabs : Type 0 where
  pub nav : List Part
  pub sections : List Part
  pub title : Str

abbrev pub passive : String → Part
passive name = record { name = codes name; active = false }

unfoldable pub first_tabs : Tabs
first_tabs = record {
  nav =
      record { name = codes "files"; active = true }
      ∷ passive "cron"
      ∷ passive "time"
      ∷ passive "pkg"
      ∷ passive "system"
      ∷ passive "kernel"
      ∷ passive "driver"
      ∷ [];
  sections =
      record { name = codes "files"; active = true }
      ∷ passive "cron"
      ∷ passive "time"
      ∷ passive "pkg"
      ∷ passive "system"
      ∷ passive "kernel"
      ∷ passive "driver"
      ∷ [];
  title = codes "File Manager";
}

-- `titles`
unfoldable pub titles : List (Str × Str)
titles =
    (codes "files", codes "File Manager")
    ∷ (codes "cron", codes "Cron Scheduler")
    ∷ (codes "time", codes "Time Manager")
    ∷ (codes "pkg", codes "Package Manager")
    ∷ (codes "system", codes "System C Demos")
    ∷ (codes "kernel", codes "Kernel Module")
    ∷ (codes "driver", codes "Character Driver")
    ∷ []

-- `titles[key]`, written out as a text.
unfoldable pub title_of : Str → List (Str × Str) → Str
unfolding text_eq
title_of key [] = codes "undefined"
title_of key ((k, t) ∷ ts) = if text_eq k key then t else title_of key ts

-- `parts.forEach(p => p.classList.remove('active'))`
abbrev pub all_passive : List Part → List Part
all_passive parts = map (λ (p : Part). record p { active = false }) parts

-- `.classList.add('active')` of the first part with this name, if there is one.
unfoldable pub activate : Str → List Part → Option (List Part)
unfolding text_eq
activate name [] = none
activate name (p ∷ ps) =
    if text_eq p.name name
    then some (record p { active = true } ∷ ps)
    else elim (activate name ps) [ none ↦ none | some rest ↦ some (p ∷ rest) ]

abbrev pub or_same : List Part → Option (List Part) → List Part
or_same parts none = parts
or_same parts (some changed) = changed

-- The rest of a click, from the section that was found. Without one the script throws before it sets the
-- title.
abbrev pub with_section : Str → List Part → Tabs → Option (List Part) → Tabs
with_section tab nav t none = record t { nav = nav; sections = all_passive t.sections }
with_section tab nav t (some shown) = record {
  nav = nav;
  sections = shown;
  title = title_of tab titles;
}

-- A click on the button in `nav` with this data-tab.
unfoldable pub open_tab : Str → Tabs → Tabs
unfolding activate title_of titles
open_tab tab t =
    with_section tab (or_same (all_passive t.nav) (activate tab (all_passive t.nav))) t
      (activate tab (all_passive t.sections))
