-- ===== src/Tests/PageHost.antt =====
-- A server on the machine with one crontab, to which the page sends a new job; and an encoding of replies that
-- can be read back.
use project_linux.Base.{
  ℕ, ◌≡◌, refl, true, false, Bool, Option, none, some, List, [], ◌∷◌, ◌++◌, ap, length, take, drop,
  ◌==◌, if◌then◌else◌,
}
use project_linux.Base.Int.{ℤ, pos, negsuc}
use project_linux.Text.{Str, codes}
use project_linux.Value.{
  Json, text, bool, num, object, end, field, Result, ok, raise, file_not_found, json_decode_error,
}
use project_linux.Command.{Reply}
use project_linux.Files.System.{FileSystem}
use project_linux.Handler.{Bytes, Http, as_json, body_or_empty}
use project_linux.Page.{Input}
use project_linux.Page.Script.{request_json}
use project_linux.Page.Adding.{add_button, add_fields}
use project_linux.Tests.CrontabHost.{host}
use project_linux.Tests.CronRuns.{minute, hour, command}

-- There are no files.
abbrev no_file : {A : Type 0} → Option Str → Result A × Option Str
no_file w = (raise (file_not_found []), w)

abbrev pub no_files : FileSystem host
no_files = record {
  expand_home = λ t w. (t, w);
  resolve = λ p w. (ok p, w);
  is_dir = λ p w. (ok false, w);
  is_file = λ p w. (ok false, w);
  mkdir = λ p w. no_file w;
  touch = λ p w. no_file w;
  rmtree = λ p w. no_file w;
  unlink = λ p w. no_file w;
  copytree = λ p q w. no_file w;
  copy2 = λ p q w. no_file w;
  move = λ p q w. no_file w;
  walk = λ p w. ([], w);
  listdir = λ p w. no_file w;
  rglob = λ p w. (ok [], w);
  read_text = λ p w. no_file w;
}

abbrev flag : Bool → ℕ
flag b = if b then 1 else 0

-- The dict of a reply as numbers: `ok`, the kind of the code, the code, the output.
unfoldable pub encode : Json → Bytes
encode (object (field _ (bool b) (field _ (text s) end))) = flag b ∷ 0 ∷ s
encode (object (field _ (bool b) (field _ (num (pos n)) (field _ (text s) end)))) =
    flag b ∷ 1 ∷ n ∷ s
encode (object (field _ (bool b) (field _ (num (negsuc n)) (field _ (text s) end)))) =
    flag b ∷ 2 ∷ n ∷ s
encode _ = []

abbrev with_code : Bool → Option ℤ → Str → Option Json
with_code b code s = some (as_json (record { is_ok = b; code = code; output = s }))

abbrev decode_code : Bool → ℕ → Str → Option Json
decode_code b kind [] = if kind == 0 then with_code b none [] else none
decode_code b kind (n ∷ s) =
    if kind == 0
    then with_code b none (n ∷ s)
    else if kind == 1
    then with_code b (some (pos n)) s
    else with_code b (some (negsuc n)) s

unfoldable pub decode : Bytes → Option Json
decode (b ∷ kind ∷ s) = decode_code (b == 1) kind s
decode _ = none

code-decode :
    (b : Bool) (n : Option ℤ) (s : Str)
    → decode (encode (as_json (record { is_ok = b; code = n; output = s }))) ≡ with_code b n s
unfolding decode encode
code-decode true none [] = refl
code-decode true none (c ∷ s) = refl
code-decode true (some (pos n)) s = refl
code-decode true (some (negsuc n)) s = refl
code-decode false none [] = refl
code-decode false none (c ∷ s) = refl
code-decode false (some (pos n)) s = refl
code-decode false (some (negsuc n)) s = refl

pub decode-encode : (r : Reply) → decode (encode (as_json r)) ≡ some (as_json r)
decode-encode r = code-decode r.is_ok r.code r.output

-- The page with a new job in its inputs.
abbrev pub filled : List Input
filled =
    record { id = codes "cron-minute"; value = minute }
    ∷ record { id = codes "cron-hour"; value = hour }
    ∷ record { id = codes "cron-command"; value = command }
    ∷ []

-- The texts of a new job as numbers: the lengths of two of them, and then the three one behind the other.
abbrev encode_texts : Str → Str → Str → Bytes
encode_texts m h c = length m ∷ length h ∷ m ++ (h ++ c)

unfoldable pub encode_request : Json → Bytes
encode_request
      (object (
        field _ _
          (field _ (object (field _ (text m) (field _ (text h) (field _ (text c) _)))) _))) =
    encode_texts m h c
encode_request _ = []

unfoldable pub decode_request : Bytes → Result Json
decode_request (n ∷ k ∷ s) =
    ok (request_json add_button (add_fields (take n s) (take k (drop n s)) (drop k (drop n s))))
decode_request _ = raise json_decode_error

take-append : (s t : Str) → take (length s) (s ++ t) ≡ s
take-append [] t = refl
take-append (c ∷ s) t = ap (λ r. c ∷ r) (take-append s t)

drop-append : (s t : Str) → drop (length s) (s ++ t) ≡ t
drop-append [] t = refl
drop-append (c ∷ s) t = drop-append s t

pub decode_request-encode_request :
    (m h c : Str)
    → decode_request (body_or_empty (encode_request (request_json add_button (add_fields m h c))))
      ≡ ok (request_json add_button (add_fields m h c))
unfolding decode_request encode_request
decode_request-encode_request m h c =
    rw (take-append m (h ++ c), drop-append m (h ++ c), take-append h c, drop-append h c) refl

abbrev pub http : Http host
http = record {
  url_path = λ s. ok s;
  read =
      λ size w. (ok (encode_request (request_json add_button (add_fields minute hour command))), w);
  loads = decode_request;
  dumps = encode;
  index_html = codes "<!doctype html>";
  wire = λ sent call. ok tt;
}
