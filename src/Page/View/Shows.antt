-- ===== src/Page/View/Shows.antt =====
-- The page, the server and an action together: what the page shows is what the action replied.
use project_linux.Base.{
  ◌≡◌, refl, ap, sym, ◌∙◌, Bool, true, false, Option, none, some, List, [], ◌∷◌, ◌++◌, Memᴰ,
  if◌then◌else◌,
}
use project_linux.Base.Int.{ℤ}
use project_linux.Text.{Str, codes, text_or, trim, text_eq}
use project_linux.Value.{Json, text, bool, object, Fields, end, field, find_field, get, ok}
use project_linux.Host.{Host, App}
use project_linux.Command.{Reply}
use project_linux.Files.System.{FileSystem}
use project_linux.Actions.{NamedAction, actions}
use project_linux.Handler.{
  Bytes, Sent, Request, Http, Exchange, in_app, as_json, code_field, body_or_empty,
  content_length_of, send_json, do_post,
}
use project_linux.Handler.Reading.{Response, read_response}
use project_linux.Handler.Answers.{json_response}
use project_linux.Handler.Outcome.{tell_all_lem}
use project_linux.Handler.Dispatching.{after_read, send_result, do_post-runs}
use project_linux.Page.{Input, Button}
use project_linux.Page.Script.{payload, confirmed, request_json}
use project_linux.Page.Served.{data_given}
use project_linux.Page.View.{
  View, Arrival, answered, broken, press, arrive, started, enabled, show_arrival, show_output,
  show_members, member, output_of, trimmed, js_truthy, is_js_space, placeholder, status_text,
}

-- The body of a response, where the calls that sent it are one.
abbrev content_of : Option Response → Option Bytes
content_of none = none
content_of (some r) = some r.content

abbrev pub received : List Sent → Option Bytes
received calls = content_of (read_response calls)

abbrev pub parsed : Str → Option Json → Arrival
parsed err none = broken err
parsed err (some json) = answered json

-- `JSON.parse` of the body.
abbrev pub arrival_of : (Bytes → Option Json) → Str → List Sent → Arrival
arrival_of parse err calls =
    parsed err (elim (received calls) [ none ↦ none | some bytes ↦ parse bytes ])

-- The page with the reply of the button `b` on it.
abbrev pub with_reply : Button → Reply → View → View
with_reply b r v = record v {
  status = if r.is_ok then codes "OK" else codes "Error";
  out = (codes "$ " ++ (b.action ++ codes "\n")) ++ text_or (trim is_js_space r.output) placeholder;
  disabled = false;
  awaited = [];
}

member-ok : (r : Reply) → member (as_json r) (codes "ok") ≡ some (some (bool r.is_ok))
unfolding member find_field text_eq codes
member-ok r = refl

output_found :
    (n : Option ℤ) (s : Str)
    → find_field (codes "output") (code_field n (field (codes "output") (text s) end))
      ≡ some (text s)
unfolding find_field text_eq codes
output_found none s = refl
output_found (some n) s = refl

member-output : (r : Reply) → member (as_json r) (codes "output") ≡ some (some (text r.output))
unfolding member find_field text_eq codes
member-output r = ap some (output_found r.code r.output)

-- The last lines of `run`, where the response is the JSON of a reply.
show_reply :
    (thrown : Str) (r : Reply) (b : Button) (v : View)
    → arrive thrown (answered (as_json r)) [] v ≡ record v {
      status = status_text (some (bool r.is_ok));
      out = v.out ++ text_or (trim is_js_space r.output) placeholder;
      disabled = false;
      awaited = [];
    }
unfolding arrive show_arrival
show_reply thrown r b v =
    let waiting = record v { awaited = [] } in
    ap (λ o. enabled (show_members thrown (as_json r) o waiting)) (member-ok r)
    ∙ ap
        (λ o. enabled (
          show_output thrown (output_of o)
            (record waiting { status = status_text (some (bool r.is_ok)) })))
        (member-output r)
    ∙ unfold trimmed in refl

-- A connection on which nothing was answered yet.
abbrev pub unanswered : {H : Host} → App H → Exchange H
unanswered s = record { app = s; sent = [] }

module _ (H : Host) (W : Http H)
    (wire_takes : (cs : List Sent) (c : Sent) → W.wire cs c ≡ ok tt) where
  module _ (F : FileSystem H) where
    -- The request of a button, answered, in the state that the action leaves.
    pub button_answered :
        (b : Button) (fs : Fields) (request : Request) (s : App H) (size : ℤ) (bytes : Bytes)
        (w : H.World) (a : NamedAction H) (r : Reply)
        → Memᴰ a (actions H F)
        → a.name ≡ b.action
        → W.url_path request.path ≡ ok (codes "/api/action")
        → content_length_of H.unicode request.content_length ≡ ok size
        → W.read size s.world ≡ (ok bytes, w)
        → W.loads (body_or_empty bytes) ≡ ok (request_json b fs)
        → (a.function (object fs) (record s { world = w })).0 ≡ ok r
        → do_post H W F request (unanswered s) ≡ (
          ok tt,
          record {
            app = (a.function (object fs) (record s { world = w })).1;
            sent = json_response H W 200 r;
          },
        )
    unfolding get find_field text_eq codes send_json
    button_answered b fs request s size bytes w a r at named to sized came loaded done =
        do_post-runs H W F request (unanswered s) size bytes w to sized came (request_json b fs)
          loaded a (object fs) at (ap (λ n. ok (text n)) (sym named)) refl
        ∙ ap (λ d. send_result H W F (in_app (a.function d) (after_read H W F (unanswered s) w)))
            (data_given H F fs)
        ∙ rw done (tell_all_lem H W wire_takes (json_response H W 200 r) _)

-- A button that is confirmed is pressed on the page, as it came or with other values in its inputs, while no
-- response is awaited; its request comes to the server, the action of that name returns a reply, and the
-- response goes back whole. Then the page says "OK" exactly where the reply is `ok`, shows the name of the
-- action and the reply's output without white space around it, and its buttons can be pressed again.
pub press-Shows :
    (H : Host) (W : Http H) (F : FileSystem H) (parse : Bytes → Option Json) (thrown err : Str)
    (ask : Str → Bool) (page : List Input) (b : Button) (fs : Fields) (v : View) (request : Request)
    (s : App H) (size : ℤ) (bytes : Bytes) (w : H.World) (a : NamedAction H) (r : Reply)
    → confirmed ask b.confirm ≡ true
    → payload page b ≡ some fs
    → v.disabled ≡ false
    → v.awaited ≡ []
    → Memᴰ a (actions H F)
    → a.name ≡ b.action
    → W.url_path request.path ≡ ok (codes "/api/action")
    → content_length_of H.unicode request.content_length ≡ ok size
    → W.read size s.world ≡ (ok bytes, w)
    → W.loads (body_or_empty bytes) ≡ ok (request_json b fs)
    → (a.function (object fs) (record s { world = w })).0 ≡ ok r
    → ((cs : List Sent) (c : Sent) → W.wire cs c ≡ ok tt)
    → parse (W.dumps (as_json r)) ≡ some (as_json r)
    → ((press thrown ask page b v).awaited ≡ request_json b fs ∷ [])
      × (arrive thrown
            (arrival_of parse err (do_post H W F request (unanswered s)).1.sent)
            []
            (press thrown ask page b v)
          ≡ with_reply b r v)
unfolding press started
press-Shows H W F parse thrown err ask page b fs v request s size bytes w a r agreed sends ready
      idle at named to sized came loaded done wire back =
    let sent =
      button_answered H W wire F b fs request s size bytes w a r at named to sized came loaded
        done in
    rw (ready, agreed, sends, idle, sent, back)
      (refl, show_reply thrown r b _ ∙ unfold js_truthy codes in refl)
