-- ===== src/FilePath.antt =====
-- `pathlib.Path` as far as gui_app/app.py computes with it: a root and the parts below it.
use project_linux.Base.{Bool, true, false, ◌&&◌, not, List, [], ◌∷◌, ◌++◌, ◌==◌, if◌then◌else◌}
use project_linux.Text.{Str, codes, text_eq, is_nonempty, join}

pub data Root : Type 0 where
  relative slash double_slash : Root

pub record FilePath : Type 0 where
  pub root : Root
  pub parts : List Str

-- `Path(s)` drops empty parts and the part ".".
unfoldable pub add_part : Str → List Str → List Str
unfolding is_nonempty text_eq codes
add_part p ps = if is_nonempty p && not (text_eq p (codes ".")) then p ∷ ps else ps

unfoldable pub parts_onto : Str → Str → List Str
unfolding add_part
parts_onto cur [] = add_part cur []
parts_onto cur (c ∷ s) = elim (c == b'/') [
  | true ↦ add_part cur (parts_onto [] s)
  | false ↦ parts_onto (cur ++ (c ∷ [])) s
]

-- Two slashes at the front are a root of their own, three or more are one slash.
unfoldable pub root_of : Str → Root
root_of [] = relative
root_of (c ∷ []) = if c == b'/' then slash else relative
root_of (c ∷ d ∷ []) = if c == b'/' then (if d == b'/' then double_slash else slash) else relative
root_of (c ∷ d ∷ e ∷ s) =
    if c == b'/'
    then (if d == b'/' then (if e == b'/' then slash else double_slash) else slash)
    else relative

-- `Path(s)`
unfoldable pub path_of : Str → FilePath
unfolding root_of parts_onto
path_of s = record { root = root_of s; parts = parts_onto [] s }

abbrev pub anchor : Root → Str
anchor relative = []
anchor slash = b'/' ∷ []
anchor double_slash = b'/' ∷ b'/' ∷ []

-- `str(p)`
unfoldable pub to_text : Root → List Str → Str
unfolding join codes
to_text relative [] = codes "."
to_text r ps = anchor r ++ join (codes "/") ps

abbrev pub show : FilePath → Str
show p = to_text p.root p.parts

unfoldable pub is_absolute : FilePath → Bool
is_absolute p = elim p.root [ relative ↦ false | _ ↦ true ]

-- `p / q`: an absolute `q` replaces `p`.
unfoldable pub ◌/◌ : FilePath → FilePath → FilePath
◌/◌ p q = elim q.root [ relative ↦ record p { parts = p.parts ++ q.parts } | _ ↦ q ]

unfoldable pub but_last : List Str → List Str
but_last [] = []
but_last (x ∷ []) = []
but_last (x ∷ y ∷ xs) = x ∷ but_last (y ∷ xs)

-- `p.parent`
unfoldable pub parent : FilePath → FilePath
unfolding but_last
parent p = record p { parts = but_last p.parts }

unfoldable pub last_part : List Str → Str
last_part [] = []
last_part (x ∷ []) = x
last_part (x ∷ y ∷ xs) = last_part (y ∷ xs)

-- `p.name`
unfoldable pub name : FilePath → Str
name p = last_part p.parts

abbrev pub plain_parts : List Str → Bool
plain_parts [] = true
plain_parts (p ∷ ps) = not (text_eq p (codes "..")) && plain_parts ps

-- No part of the path is "..", so what is under it is what begins with it.
unfoldable pub is_plain : FilePath → Bool
unfolding text_eq codes
is_plain p = plain_parts p.parts

abbrev pub same_root : Root → Root → Bool
same_root relative relative = true
same_root slash slash = true
same_root double_slash double_slash = true
same_root _ _ = false

unfoldable pub prefix_of : List Str → List Str → Bool
unfolding text_eq
prefix_of [] qs = true
prefix_of (p ∷ ps) [] = false
prefix_of (p ∷ ps) (q ∷ qs) = text_eq p q && prefix_of ps qs

-- Is `q` the path `p`, or a path below it?
unfoldable pub is_under : FilePath → FilePath → Bool
unfolding prefix_of
is_under p q = same_root p.root q.root && prefix_of p.parts q.parts
