-- ===== src/Page/View/Unanswered.antt =====
-- The page where an action raises.
use project_linux.Base.{
  ◌≡◌, refl, ap, sym, ◌∙◌, Bool, true, false, Option, some, List, [], ◌++◌, Memᴰ,
}
use project_linux.Base.Int.{ℤ}
use project_linux.Text.{Str, codes, text_eq}
use project_linux.Value.{Json, text, object, Fields, find_field, get, Exception, ok, raise}
use project_linux.Host.{Host, App}
use project_linux.Files.System.{FileSystem}
use project_linux.Actions.{NamedAction, actions}
use project_linux.Handler.{Bytes, Request, Http, body_or_empty, content_length_of, do_post}
use project_linux.Handler.Dispatching.{do_post-unanswered}
use project_linux.Page.{Input, Button}
use project_linux.Page.Script.{payload, confirmed, request_json}
use project_linux.Page.Served.{data_given}
use project_linux.Page.View.{View, press, arrive, started, show_arrival}
use project_linux.Page.View.Shows.{arrival_of, unanswered}

-- The page with nothing but the text of the error on it.
abbrev pub with_error : Button → Str → View → View
with_error b err v = record v {
  status = codes "Error";
  out = (codes "$ " ++ (b.action ++ codes "\n")) ++ err;
  disabled = false;
  awaited = [];
}

module _ (H : Host) (W : Http H) (F : FileSystem H) where
  button_unanswered :
      (b : Button) (fs : Fields) (request : Request) (s : App H) (size : ℤ) (bytes : Bytes)
      (w : H.World) (a : NamedAction H) (x : Exception)
      → Memᴰ a (actions H F)
      → a.name ≡ b.action
      → W.url_path request.path ≡ ok (codes "/api/action")
      → content_length_of H.unicode request.content_length ≡ ok size
      → W.read size s.world ≡ (ok bytes, w)
      → W.loads (body_or_empty bytes) ≡ ok (request_json b fs)
      → (a.function (object fs) (record s { world = w })).0 ≡ raise x
      → ((do_post H W F request (unanswered s)).0 ≡ raise x)
        × ((do_post H W F request (unanswered s)).1.sent ≡ [])
  unfolding get find_field text_eq codes
  button_unanswered b fs request s size bytes w a x at named to sized came loaded raised =
      do_post-unanswered H W F request (unanswered s) size bytes w to sized came (request_json b fs)
        loaded a (object fs) x at (ap (λ n. ok (text n)) (sym named)) refl
        (ap (λ d. (a.function d (record s { world = w })).0) (data_given H F fs) ∙ raised)

-- A button that is confirmed is pressed on the page while no response is awaited; its request comes to the server,
-- and the action of that name raises. Then the handler raises and sends nothing, and what the page shows is the same
-- for every exception: "Error", the name of the action and what the browser says of the lost response.
pub press-Unanswered :
    (H : Host) (W : Http H) (F : FileSystem H) (parse : Bytes → Option Json) (thrown err : Str)
    (ask : Str → Bool) (page : List Input) (b : Button) (fs : Fields) (v : View) (request : Request)
    (s : App H) (size : ℤ) (bytes : Bytes) (w : H.World) (a : NamedAction H) (x : Exception)
    → confirmed ask b.confirm ≡ true
    → payload page b ≡ some fs
    → v.disabled ≡ false
    → v.awaited ≡ []
    → Memᴰ a (actions H F)
    → a.name ≡ b.action
    → W.url_path request.path ≡ ok (codes "/api/action")
    → content_length_of H.unicode request.content_length ≡ ok size
    → W.read size s.world ≡ (ok bytes, w)
    → W.loads (body_or_empty bytes) ≡ ok (request_json b fs)
    → (a.function (object fs) (record s { world = w })).0 ≡ raise x
    → ((do_post H W F request (unanswered s)).0 ≡ raise x)
      × (arrive thrown
            (arrival_of parse err (do_post H W F request (unanswered s)).1.sent)
            []
            (press thrown ask page b v)
          ≡ with_error b err v)
unfolding press arrive started show_arrival
press-Unanswered H W F parse thrown err ask page b fs v request s size bytes w a x agreed sends
      ready idle at named to sized came loaded raised =
    let (failed, silent) =
      button_unanswered H W F b fs request s size bytes w a x at named to sized came loaded
        raised in
    (failed, rw (silent, ready, agreed, sends) refl)
