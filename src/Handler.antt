-- ===== src/Handler.antt =====
-- `Handler` of gui_app/app.py: how a request is answered.
pub mod Reading
pub mod Answers
pub mod Outcome
pub mod Dispatching
use project_linux.Base.{
  ℕ, Bool, true, false, not, Option, none, some, List, [], ◌∷◌, ◌++◌, if◌then◌else◌, length,
}
use project_linux.Base.Int.{ℤ, pos}
use project_linux.Text.{Str, Unicode, codes, text_eq}
use project_linux.Text.Decimal.{decimal}
use project_linux.Value.{
  Json, null, bool, num, text, object, Fields, end, field, Exception, json_decode_error, Result, ok,
  raise, get, value_or, str, int_of_text,
}
use project_linux.Value.Exec.{Exec, pure, lift, try_except, ◌>>=◌, ◌>>◌}
use project_linux.Host.{Host, App}
use project_linux.Command.{Reply, reply}
use project_linux.Actions.{Action, NamedAction, get_action, actions}
use project_linux.Files.System.{FileSystem}

abbrev pub Bytes : Type 0
Bytes = List ℕ

-- The calls by which a handler answers.
pub data Sent : Type 0 where
  -- send_error(status), a whole response
  error_page : ℕ → Sent
  -- send_response(status)
  status_line : ℕ → Sent
  -- send_header(name, value)
  header : Str → Str → Sent
  end_headers : Sent
  -- wfile.write(body)
  body : Bytes → Sent

pub record Request : Type 0 where
  pub path : Str
  -- self.headers.get("Content-Length")
  pub content_length : Option Str

-- What the handler calls of `http.server`, `urllib` and `json`.
pub record Http (H : Host) : Type 0 where
  -- urllib.parse.urlparse(path).path
  pub url_path : Str → Result Str
  -- self.rfile.read(length)
  pub read : ℤ → H.World → Result Bytes × H.World
  pub loads : Bytes → Result Json
  -- json.dumps(payload).encode()
  pub dumps : Json → Bytes
  -- INDEX_HTML.encode()
  pub index_html : Bytes
  -- Whether a call by which the handler answers raises, after the calls before it.
  pub wire : List Sent → Sent → Result (Unit {0})

-- The application, and the calls by which a request was answered so far.
pub record Exchange (H : Host) : Type 0 where
  pub app : App H
  pub sent : List Sent

abbrev pub in_app {ℓ} : {A : Type ℓ} {H : Host} → Exec (App H) A → Exec (Exchange H) A
in_app m e = let (r, s) = m e.app in (r, record e { app = s })

-- The dict of a reply; only `run_cmd` puts a code in.
abbrev pub code_field : Option ℤ → Fields → Fields
code_field none rest = rest
code_field (some n) rest = field (codes "code") (num n) rest

abbrev pub as_json : Reply → Json
as_json r = object (
    field (codes "ok") (bool r.is_ok)
      (code_field r.code (field (codes "output") (text r.output) end)))

-- `self.rfile.read(length) or b"{}"`
abbrev pub body_or_empty : Bytes → Bytes
body_or_empty [] = codes "{}"
body_or_empty (b ∷ bs) = b ∷ bs

-- `int(self.headers.get("Content-Length", "0"))`
abbrev pub content_length_of : Unicode → Option Str → Result ℤ
content_length_of U none = int_of_text U (codes "0")
content_length_of U (some s) = int_of_text U s

module _ (H : Host) (W : Http H) where
  abbrev pub tell : Sent → Exec (Exchange H) (Unit {0})
  tell call e = (W.wire e.sent call, record e { sent = e.sent ++ (call ∷ []) })

  abbrev pub tell_all : List Sent → Exec (Exchange H) (Unit {0})
  tell_all [] = pure tt
  tell_all (call ∷ calls) = do tell call; tell_all calls

  -- A response: the status, the two headers and the body.
  abbrev pub response : ℕ → Str → Bytes → List Sent
  response status content_type bytes =
      status_line status
      ∷ header (codes "Content-Type") content_type
      ∷ header (codes "Content-Length") (decimal (length bytes))
      ∷ end_headers
      ∷ body bytes
      ∷ []

  unfoldable pub send_json : Json → ℕ → Exec (Exchange H) (Unit {0})
  send_json payload status =
      tell_all (response status (codes "application/json; charset=utf-8") (W.dumps payload))

  unfoldable pub do_get : Request → Exec (Exchange H) (Unit {0})
  do_get request = do
    path ← lift (W.url_path request.path)
    if text_eq path (codes "/")
        then tell_all (response 200 (codes "text/html; charset=utf-8") W.index_html)
        else tell (error_page 404)

  -- The replies of the handler itself.
  abbrev pub invalid_json : Reply
  invalid_json = reply false (codes "JSON khong hop le")

  abbrev pub unsupported : Json → Reply
  unsupported action = reply false (codes "Action khong duoc ho tro: " ++ str H.repr action)

  abbrev pub send_reply : Reply → ℕ → Exec (Exchange H) (Unit {0})
  send_reply r status = send_json (as_json r) status

  -- `self.send_json(fn(payload.get("data") or {}))`
  abbrev pub call_action : Json → Action H → Exec (Exchange H) (Unit {0})
  call_action payload fn = do
    v ← lift (get payload (codes "data") null)
    r ← in_app (fn (value_or v (object end)))
    send_reply r 200

  abbrev pub call_found : Json → Json → Option (Action H) → Exec (Exchange H) (Unit {0})
  call_found payload action none = send_reply (unsupported action) 400
  call_found payload action (some fn) = call_action payload fn

  module _ (F : FileSystem H) where
    unfoldable pub dispatch : Json → Exec (Exchange H) (Unit {0})
    unfolding send_json
    dispatch payload = do
      action ← lift (get payload (codes "action") null)
      found ← lift (get_action action (actions H F))
      call_found payload action found

    -- `none` for JSON that does not parse.
    abbrev pub undecodable : Exception → Option (Exec (Exchange H) (Option Json))
    undecodable json_decode_error = some (pure none)
    undecodable _ = none

    abbrev pub read_payload : ℤ → Exec (Exchange H) (Option Json)
    read_payload size =
        try_except
          (do
            bytes ← in_app (λ s. let (r, w) = W.read size s.world in (r, record s { world = w }))
            payload ← lift (W.loads (body_or_empty bytes))
            pure (some payload))
          undecodable

    abbrev pub dispatch_read : Option Json → Exec (Exchange H) (Unit {0})
    dispatch_read none = send_reply invalid_json 400
    dispatch_read (some payload) = dispatch payload

    abbrev pub post_action : Request → Exec (Exchange H) (Unit {0})
    post_action request = do
      size ← lift (content_length_of H.unicode request.content_length)
      payload ← read_payload size
      dispatch_read payload

    unfoldable pub do_post : Request → Exec (Exchange H) (Unit {0})
    unfolding dispatch
    do_post request = do
      path ← lift (W.url_path request.path)
      if text_eq path (codes "/api/action") then post_action request else tell (error_page 404)
