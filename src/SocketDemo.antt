-- ===== src/SocketDemo.antt =====
-- The server that the panel starts and stops, 02_system_prog/src/socket_demo.c: how it answers one client.
pub mod Sending
pub mod Loop
use project_linux.Base.{
  ℕ, zero, suc, ◌+◌, Bool, true, false, Option, none, some, List, [], ◌∷◌, ◌++◌, length, drop, ltb,
  not, if◌then◌else◌,
}
use project_linux.Text.{Str, codes, is_nonempty}
use project_linux.Text.Decimal.{decimal}

-- What `send` returns: a number of bytes; or a number below 0, with errno EINTR or another.
pub data Sent : Type 0 where
  sent : ℕ → Sent
  interrupted : Sent
  failed : Sent

-- A connection with a client. `recv` yields nothing where it returns no more than 0.
pub record Connection : Type 1 where
  pub State : Type 0
  pub recv : ℕ → State → Option (List ℕ) × State
  pub send : List ℕ → State → Sent × State

abbrev concat : List Str → Str
concat [] = []
concat (s ∷ ss) = s ++ concat ss

unfoldable pub body : Str
unfolding codes
body = concat (
    codes "<!doctype html>"
    ∷ codes "<html lang=\"vi\">"
    ∷ codes "<head>"
    ∷ codes "<meta charset=\"utf-8\">"
    ∷ codes "<meta name=\"viewport\" content=\"width=device-width,initial-scale=1\">"
    ∷ codes "<title>Linux Socket Demo</title>"
    ∷ codes "<style>"
    ∷ codes "body{margin:0;min-height:100vh;display:grid;place-items:center;"
    ∷ codes "background:#f4f7fb;color:#172033;font:16px/1.6 system-ui,sans-serif}"
    ∷ codes "main{width:min(680px,calc(100% - 40px));border:1px solid #d9e1ec;"
    ∷ codes "background:white;padding:32px;border-radius:8px;box-shadow:0 16px 40px #17203318}"
    ∷ codes "h1{margin:0 0 12px;font-size:30px}code{background:#edf2f7;padding:3px 6px;"
    ∷ codes "border-radius:4px}.ok{color:#087a4b;font-weight:700}"
    ∷ codes "</style>"
    ∷ codes "</head>"
    ∷ codes "<body><main>"
    ∷ codes "<p class=\"ok\">HTTP request received successfully</p>"
    ∷ codes "<h1>Linux System Programming Socket Demo</h1>"
    ∷ codes "<p>Trang nay duoc tra ve boi chuong trinh C <code>socket_demo</code>.</p>"
    ∷ codes "<p>Server dang lang nghe tai <code>127.0.0.1:9090</code> va dung cac ham "
    ∷ codes "<code>socket</code>, <code>bind</code>, <code>listen</code>, "
    ∷ codes "<code>accept</code>, <code>recv</code> va <code>send</code>.</p>"
    ∷ codes "</main></body></html>"
    ∷ [])

-- What `snprintf` writes, if there is room.
unfoldable pub response : Str
unfolding body decimal codes
response =
    codes "HTTP/1.1 200 OK\r\nContent-Type: text/html; charset=utf-8\r\nContent-Length: "
    ++ (decimal (length body)
        ++ (codes "\r\nConnection: close\r\nCache-Control: no-store\r\n\r\n" ++ body))

-- `sizeof(request) - 1`, `sizeof(response)`
abbrev pub request_size : ℕ
request_size = 4095

abbrev pub response_size : ℕ
response_size = 8192

module _ (C : Connection) where
  -- `send_all(fd, data, length)` from `sent` on: whether it returns 0. The fuel bounds the calls of `send`.
  unfoldable pub send_all : ℕ → ℕ → List ℕ → C.State → Option Bool × C.State
  send_all zero done data' s = if ltb done (length data') then (none, s) else (some true, s)
  send_all (suc fuel) done data' s = elim (ltb done (length data')) [
    | true ↦
        let (n, t) = C.send (drop done data') s in
        elim n [
          | sent k ↦ send_all fuel (done + k) data' t
          | interrupted ↦ send_all fuel done data' t
          | failed ↦ (some false, t)
        ]
    | false ↦ (some true, s)
  ]

  -- Behind the call of `recv`.
  abbrev pub answer : ℕ → Option (List ℕ) → C.State → Option (Unit {0}) × C.State
  answer fuel none s = (some tt, s)
  answer fuel (some request) s =
      if ltb 0 (length response)
      then (if ltb (length response) response_size
          then (let (r, t) = send_all fuel 0 response s in
              (elim r [ none ↦ none | some b ↦ some tt ], t))
          else (some tt, s))
      else (some tt, s)

  unfoldable pub handle_client : ℕ → C.State → Option (Unit {0}) × C.State
  unfolding send_all response
  handle_client fuel s = let (received, t) = C.recv request_size s in answer fuel received t
