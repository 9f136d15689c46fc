-- ===== src/Tests/RequestHost.antt =====
-- A server whose requests have one of a few bodies, on the machine of files.
use project_linux.Base.{[], ◌==◌, none, some, if◌then◌else◌, String}
use project_linux.Base.Int.{ℤ, pos}
use project_linux.Text.{codes, text_eq}
use project_linux.Value.{Json, text, num, object, end, field, Result, ok, raise, json_decode_error}
use project_linux.Handler.{Bytes, Request, Http, Exchange}
use project_linux.Page.Script.{request_json}
use project_linux.Page.{asking, button, Button}
use project_linux.Tests.FileHost.{host, project}

abbrev pub delete_button : Button
delete_button = asking "Xoa path nay?" (button "file.delete" "path:file-path")

abbrev pub sent_by_button : Json
sent_by_button = request_json delete_button (field (codes "path") (text (codes "tmp/demo.txt")) end)

-- A path that is no text.
abbrev pub bad_path : Json
bad_path = object (field (codes "path") (num (pos 5)) end)

abbrev pub bad_delete : Json
bad_delete =
    object (field (codes "action") (text (codes "file.delete")) (field (codes "data") bad_path end))

unfoldable pub parse : Bytes → Result Json
parse body =
    if text_eq body (codes "button")
    then ok sent_by_button
    else if text_eq body (codes "bad")
    then ok bad_delete
    else raise json_decode_error

unfoldable pub body_of : ℤ → Bytes
body_of (pos n) = if n == 6 then codes "button" else if n == 3 then codes "bad" else codes "?"
body_of _ = []

abbrev pub http : Http host
http = record {
  url_path = λ s. ok s;
  read = λ size w. (ok (body_of size), w);
  loads = parse;
  dumps = λ payload. codes "{reply}";
  index_html = codes "<!doctype html>";
  wire = λ sent call. ok tt;
}

abbrev pub post : String → Request
post size = record { path = codes "/api/action"; content_length = some (codes size) }

abbrev pub idle : Exchange host
idle = record { app = record { world = project; socket_demo_process = none }; sent = [] }
