-- ===== src/Page/View.antt =====
-- What the page shows of a button's run: `run` in the script of INDEX_HTML, gui_app/app.py, from the first
-- change of the page to the `finally`.
pub mod Busy
pub mod Shows
pub mod Unanswered
use project_linux.Base.{
  ℕ, Bool, true, false, not, Option, none, some, List, [], ◌∷◌, ◌++◌, ◌||◌, ◌&&◌, ◌==◌, leb,
  if◌then◌else◌,
}
use project_linux.Base.Int.{ℤ, pos}
use project_linux.Text.{Str, codes, is_nonempty, text_or, trim}
use project_linux.Value.{
  Json, null, bool, num, float, Float, finite, infinite, nan, text, array, object, find_field,
}
use project_linux.Page.{Input, Button}
use project_linux.Page.Script.{payload, confirmed, request_json}

-- The element `status`, the element `out`, whether the buttons are disabled, and the requests of which
-- the script awaits the response.
pub record View : Type 0 where
  pub status : Str
  pub out : Str
  pub disabled : Bool
  pub awaited : List Json

abbrev pub first_view : View
first_view = record {
  status = codes "Ready";
  out = codes "Chon mot thao tac de bat dau.";
  disabled = false;
  awaited = [];
}

-- What comes of `fetch` and `res.json()`: a value, or an error with its `String(err)`.
pub data Arrival : Type 0 where
  answered : Json → Arrival
  broken : Str → Arrival

-- The white space of JavaScript.
unfoldable pub is_js_space : ℕ → Bool
is_js_space c =
    (leb 9 c && leb c 13)
    || c == 32
    || c == 160
    || c == 0x1680
    || (leb 0x2000 c && leb c 0x200a)
    || c == 0x2028
    || c == 0x2029
    || c == 0x202f
    || c == 0x205f
    || c == 0x3000
    || c == 0xfeff

-- `Boolean(v)`; `none` is `undefined`.
unfoldable pub js_truthy : Option Json → Bool
js_truthy none = false
js_truthy (some null) = false
js_truthy (some (bool b)) = b
js_truthy (some (num (pos n))) = not (n == 0)
js_truthy (some (num _)) = true
js_truthy (some (float (finite b _ _))) = b
js_truthy (some (float (infinite _))) = true
js_truthy (some (float nan)) = false
js_truthy (some (text s)) = is_nonempty s
js_truthy (some (array _)) = true
js_truthy (some (object _)) = true

-- `v.key`, which throws for null; the first `none` is that.
unfoldable pub member : Json → Str → Option (Option Json)
member null key = none
member (object fs) key = some (find_field key fs)
member _ key = some none

-- `(v || '').trim()`, which throws for a true value that is no text.
unfoldable pub trimmed : Option Json → Option Str
unfolding js_truthy trim is_js_space
trimmed (some (text s)) = some (trim is_js_space s)
trimmed v = if js_truthy v then none else some []

abbrev pub placeholder : Str
placeholder = codes "(khong co output)"

abbrev pub add_out : View → Str → View
add_out v s = record v { out = v.out ++ s }

-- The `catch`; `err` is what String makes of the error.
abbrev pub caught : Str → View → View
caught err v = add_out (record v { status = codes "Error" }) err

abbrev pub status_text : Option Json → Str
status_text is_ok = if js_truthy is_ok then codes "OK" else codes "Error"

-- The last line of the `try`.
abbrev pub show_output : Str → Option Str → View → View
show_output thrown none v = caught thrown v
show_output thrown (some s) v = add_out v (text_or s placeholder)

abbrev pub output_of : Option (Option Json) → Option Str
output_of none = none
output_of (some output) = trimmed output

-- `thrown` is the text of the errors that the script itself throws.
abbrev pub show_members : Str → Json → Option (Option Json) → View → View
show_members thrown json none v = caught thrown v
show_members thrown json (some is_ok) v =
    show_output thrown (output_of (member json (codes "output")))
      (record v { status = status_text is_ok })

unfoldable pub show_arrival : Str → Arrival → View → View
unfolding member trimmed js_truthy codes
show_arrival thrown (broken err) v = caught err v
show_arrival thrown (answered json) v = show_members thrown json (member json (codes "ok")) v

-- The `finally`
abbrev pub enabled : View → View
enabled v = record v { disabled = false }

-- The first lines of `run`, for a button that is confirmed.
unfoldable pub started : Button → View → View
unfolding codes
started b v = record v {
  disabled = true;
  status = codes "Running";
  out = codes "$ " ++ (b.action ++ codes "\n");
}

-- `fetch` of a request, or the error that `payload` throws.
abbrev pub fetched : Str → Option Json → View → View
fetched thrown none v = enabled (caught thrown v)
fetched thrown (some request) v = record v { awaited = request ∷ v.awaited }

-- A click on a button of class "action": a button that is disabled takes none.
unfoldable pub press : Str → (Str → Bool) → List Input → Button → View → View
unfolding payload started
press thrown ask page b v =
    if v.disabled
    then v
    else if confirmed ask b.confirm
    then fetched thrown
        (elim (payload page b) [ none ↦ none | some data' ↦ some (request_json b data') ])
        (started b v)
    else v

-- The rest of `run` for one of the awaited requests.
unfoldable pub arrive : Str → Arrival → List Json → View → View
unfolding show_arrival
arrive thrown arrival rest v = enabled (show_arrival thrown arrival (record v { awaited = rest }))
