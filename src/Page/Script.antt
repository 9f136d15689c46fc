-- ===== src/Page/Script.antt =====
-- What a button of the page sends: `payload` and `run` in the script of INDEX_HTML, gui_app/app.py.
use project_linux.Base.{
  ℕ, Bool, true, false, Option, none, some, List, [], ◌∷◌, ◌++◌, map, ◌==◌, if◌then◌else◌,
}
use project_linux.Text.{Str, codes, text_eq, is_nonempty}
use project_linux.Value.{Json, text, object, Fields, end, field}
use project_linux.Page.{Input, Button}

-- `s.split(c)`: the piece `cur` is the one being read.
unfoldable pub split_onto : ℕ → Str → Str → List Str
split_onto c cur [] = cur ∷ []
split_onto c cur (d ∷ s) = elim (d == c) [
  | true ↦ cur ∷ split_onto c [] s
  | false ↦ split_onto c (cur ++ (d ∷ [])) s
]

abbrev pub split : ℕ → Str → List Str
split c s = split_onto c [] s

-- `.filter(Boolean)`
abbrev pub nonempty : List Str → List Str
nonempty [] = []
nonempty (s ∷ ss) = if is_nonempty s then s ∷ nonempty ss else nonempty ss

-- `const [key, id] = pair.split(':')`; an id that is missing is `undefined`.
abbrev pub key_and_id : List Str → Str × Str
key_and_id [] = ([], codes "undefined")
key_and_id (key ∷ []) = (key, codes "undefined")
key_and_id (key ∷ id ∷ rest) = (key, id)

-- The value of the first element with an id; without one there is no element, and `.value` of it throws.
unfoldable pub value_of : List Input → Str → Option Str
unfolding text_eq
value_of [] id = none
value_of (i ∷ is) id = if text_eq i.id id then some i.value else value_of is id

-- `data[key] = value`: a key that is there keeps its place.
unfoldable pub set_field : Str → Json → Fields → Fields
unfolding text_eq
set_field key v end = field key v end
set_field key v (field k w fs) =
    if text_eq k key then field k v fs else field k w (set_field key v fs)

unfoldable pub add_pairs : List Input → List (Str × Str) → Fields → Option Fields
unfolding value_of set_field
add_pairs page [] data' = some data'
add_pairs page (pair ∷ pairs) data' = elim (value_of page pair.1) [
  | none ↦ none
  | some v ↦ add_pairs page pairs (set_field pair.0 (text v) data')
]

-- `btn.dataset.fields || ''`
abbrev pub fields_or_empty : Option Str → Str
fields_or_empty none = []
fields_or_empty (some s) = s

-- The keys that a button sends, each with the id of its element.
unfoldable pub pairs_of : Button → List (Str × Str)
unfolding split_onto is_nonempty codes
pairs_of b = map (λ s. key_and_id (split b':' s)) (nonempty (split b',' (fields_or_empty b.fields)))

-- `payload(btn)` on a page with these elements; `none` where it throws.
unfoldable pub payload : List Input → Button → Option Fields
unfolding add_pairs pairs_of
payload page b = add_pairs page (pairs_of b) end

-- What `run(btn)` comes to: the user says no, the script throws, or a body is posted to "/api/action".
pub data Sending : Type 0 where
  cancelled failed : Sending
  sends : Json → Sending

abbrev pub confirmed : (Str → Bool) → Option Str → Bool
confirmed ask none = true
confirmed ask (some question) = if is_nonempty question then ask question else true

-- `{action: btn.dataset.action, data: payload(btn)}`
abbrev pub request_json : Button → Fields → Json
request_json b data' =
    object (field (codes "action") (text b.action) (field (codes "data") (object data') end))

-- `ask` is what the user answers to `confirm`.
unfoldable pub run : (Str → Bool) → List Input → Button → Sending
unfolding payload
run ask page b =
    if confirmed ask b.confirm
    then elim (payload page b) [ none ↦ failed | some data' ↦ sends (request_json b data') ]
    else cancelled
