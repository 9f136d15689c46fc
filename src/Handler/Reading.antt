-- ===== src/Handler/Reading.antt =====
-- How a client reads a response from the calls that sent it, whatever code made them: the status line, the headers, the
-- end of the headers and one body, as RFC 9112 has it. What a client takes of the body is what "Content-Length" says.
use project_linux.Base.{ℕ, ◌≡◌, Option, none, some, List, [], ◌∷◌, length, if◌then◌else◌}
use project_linux.Text.{Str, codes, text_eq}
use project_linux.Text.Decimal.{decimal}
use project_linux.Handler.{Bytes, Sent, status_line, header, end_headers, body}

pub record Response : Type 0 where
  pub status : ℕ
  pub headers : List (Str × Str)
  pub content : Bytes

abbrev with_header :
    Str × Str → Option (List (Str × Str) × Bytes) → Option (List (Str × Str) × Bytes)
with_header h none = none
with_header h (some (hs, bytes)) = some (h ∷ hs, bytes)

-- Behind the status line.
abbrev pub read_rest : List Sent → Option (List (Str × Str) × Bytes)
read_rest (header k v ∷ calls) = with_header (k, v) (read_rest calls)
read_rest (end_headers ∷ body bytes ∷ []) = some ([], bytes)
read_rest _ = none

abbrev with_status : ℕ → Option (List (Str × Str) × Bytes) → Option Response
with_status n none = none
with_status n (some (hs, bytes)) = some (record { status = n; headers = hs; content = bytes })

abbrev pub read_response : List Sent → Option Response
read_response (status_line n ∷ calls) = with_status n (read_rest calls)
read_response _ = none

-- The value of a header.
unfoldable pub header_value : Str → List (Str × Str) → Option Str
unfolding text_eq
header_value key [] = none
header_value key ((k, v) ∷ hs) = if text_eq k key then some v else header_value key hs

-- The calls are one whole response with this status and this JSON text: the client finds its end where the body ends.
abbrev pub IsWhole : ℕ → Bytes → List Sent → Type 0
IsWhole status json calls =
    (r : Response) × (read_response calls ≡ some r)
    × (r.status ≡ status)
    × (r.content ≡ json)
    × (header_value (codes "Content-Length") r.headers ≡ some (decimal (length json)))
    × (header_value (codes "Content-Type") r.headers
        ≡ some (codes "application/json; charset=utf-8"))
