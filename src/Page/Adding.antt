-- ===== src/Page/Adding.antt =====
-- From the button "Them job" of the page to the user's crontab and back.
use mathlib.Core.List.Memᴰ
use project_linux.Base.{
  ◌≡◌, refl, ap, ◌∙◌, Bool, true, false, Option, some, List, [], ◌∷◌, ◌++◌, All, Memᴰ,
}
use project_linux.Base.Int.{ℤ}
use project_linux.Text.{Str, codes, strip, is_nonempty, IsUnicode, text_eq}
use project_linux.Value.{Json, text, Fields, end, field, ok}
use project_linux.Host.{Host, App}
use project_linux.Command.{Reply}
use project_linux.Cron.Program.{CrontabProgram}
use project_linux.Cron.Crontab.{content_of}
use project_linux.Cron.Actions.{valid_times, job_line, action_cron_add}
use project_linux.Cron.Jobs.{jobs, IsJob, IsJobChar}
use project_linux.Cron.Adding.{added, with_job, action_cron_add-jobs}
use project_linux.Files.System.{FileSystem}
use project_linux.Actions.{NamedAction, entry, actions, file_actions, cron_actions}
use project_linux.Handler.{
  Bytes, Sent, Request, Http, as_json, body_or_empty, content_length_of, do_post,
}
use project_linux.Page.{Input, Button, button, asking}
use project_linux.Page.Script.{
  confirmed, value_of, set_field, add_pairs, pairs_of, split_onto, payload, request_json,
}
use project_linux.Page.{buttons, files_buttons, cron_buttons}
use project_linux.Page.View.{started, View, press, arrive}
use project_linux.Page.View.Shows.{arrival_of, with_reply, unanswered, button_answered, press-Shows}

abbrev pub add_button : Button
add_button =
    asking "Them cron job nay?"
      (button "cron.add" "minute:cron-minute,hour:cron-hour,command:cron-command")

abbrev pub add_fields : Str → Str → Str → Fields
add_fields m h c =
    field (codes "minute") (text m)
      (field (codes "hour") (text h) (field (codes "command") (text c) end))

add_pairs_of :
    pairs_of add_button
    ≡ (codes "minute", codes "cron-minute")
      ∷ (codes "hour", codes "cron-hour")
      ∷ (codes "command", codes "cron-command")
      ∷ []
unfolding pairs_of split_onto is_nonempty codes
add_pairs_of = refl

add_pairs-found :
    (page : List Input) (k id v : Str) (ps : List (Str × Str)) (data' : Fields)
    → value_of page id ≡ some v
    → add_pairs page ((k, id) ∷ ps) data' ≡ add_pairs page ps (set_field k (text v) data')
unfolding add_pairs
add_pairs-found page k id v ps data' there = rw (add_pairs, there) refl

add_payload :
    (page : List Input) (m h c : Str)
    → value_of page (codes "cron-minute") ≡ some m
    → value_of page (codes "cron-hour") ≡ some h
    → value_of page (codes "cron-command") ≡ some c
    → payload page add_button ≡ some (add_fields m h c)
unfolding payload set_field text_eq codes add_pairs
add_payload page m h c em eh ec = rw add_pairs_of (
    add_pairs-found page (codes "minute") (codes "cron-minute") m
      ((codes "hour", codes "cron-hour") ∷ (codes "command", codes "cron-command") ∷ []) end em
    ∙ add_pairs-found page (codes "hour") (codes "cron-hour") h
        ((codes "command", codes "cron-command") ∷ []) (field (codes "minute") (text m) end) eh
    ∙ add_pairs-found page (codes "command") (codes "cron-command") c []
        (field (codes "minute") (text m) (field (codes "hour") (text h) end)) ec)

module _ (H : Host) (F : FileSystem H) where
  abbrev pub add_entry : NamedAction H
  add_entry = entry "cron.add" (action_cron_add H)

  pub add_entry_there : Memᴰ add_entry (actions H F)
  unfolding actions file_actions cron_actions
  add_entry_there = Memᴰ.append_right (file_actions H F) (Memᴰ.tail (Memᴰ.head refl))

-- The body that `fetch` sends: the text of the request that the script awaits.
abbrev pub first_body : (Json → Bytes) → List Json → Bytes
first_body stringify [] = []
first_body stringify (request ∷ rest) = stringify request

abbrev pub sent_body : (Json → Bytes) → View → Bytes
sent_body stringify v = first_body stringify v.awaited

press_awaited :
    (thrown : Str) (ask : Str → Bool) (page : List Input) (b : Button) (fs : Fields) (v : View)
    → confirmed ask b.confirm ≡ true
    → payload page b ≡ some fs
    → v.disabled ≡ false
    → v.awaited ≡ []
    → (press thrown ask page b v).awaited ≡ request_json b fs ∷ []
unfolding press started
press_awaited thrown ask page b fs v agreed sends ready idle = rw (ready, agreed, sends, idle) refl

-- The page has the button.
add_button_there : Memᴰ add_button buttons
unfolding buttons files_buttons cron_buttons
add_button_there = Memᴰ.append_right files_buttons (Memᴰ.tail (Memᴰ.head refl))

-- The page has the button "Them job". With `cron-minute`, `cron-hour` and `cron-command` holding m, h and c, it is
-- pressed and confirmed while no response is awaited. The times are valid, there is a command, the crontab that the
-- server finds when it has read the request has well-formed jobs, and the program `crontab` accepts the new one; the
-- command has no line end and no escape character. The body that the press sends comes to the server as it is,
-- `json.loads` reads what `JSON.stringify` writes of a request of this button, and the response goes back whole. Then
-- the jobs of the user's crontab are the ones before, in their order, and behind them the job of m, h and c, and the
-- page says "OK" and shows the success message.
pub press_add-jobs :
    (H : Host) (u : IsUnicode H.unicode) (P : CrontabProgram H) (W : Http H) (F : FileSystem H)
    (parse : Bytes → Option Json) (thrown err : Str) (ask : Str → Bool) (page : List Input)
    (stringify : Json → Bytes) (m h c : Str) (v : View) (request : Request) (s : App H) (size : ℤ)
    (w : H.World)
    → value_of page (codes "cron-minute") ≡ some m
    → value_of page (codes "cron-hour") ≡ some h
    → value_of page (codes "cron-command") ≡ some c
    → ask (codes "Them cron job nay?") ≡ true
    → v.disabled ≡ false
    → v.awaited ≡ []
    → is_nonempty (strip c) ≡ true
    → valid_times H.unicode H.repr (strip m) (strip h) ≡ ok true
    → All IsJob (jobs (P.crontab w))
    → All IsJobChar (strip c)
    → P.accepts (content_of (with_job H u P m h c (record s { world = w }))) ≡ true
    → W.url_path request.path ≡ ok (codes "/api/action")
    → content_length_of H.unicode request.content_length ≡ ok size
    → W.read size s.world ≡ (ok (sent_body stringify (press thrown ask page add_button v)), w)
    → ((m' h' c' : Str)
        → W.loads (body_or_empty (stringify (request_json add_button (add_fields m' h' c'))))
          ≡ ok (request_json add_button (add_fields m' h' c')))
    → ((cs : List Sent) (call : Sent) → W.wire cs call ≡ ok tt)
    → ((r : Reply) → parse (W.dumps (as_json r)) ≡ some (as_json r))
    → Memᴰ add_button buttons
      × (jobs (P.crontab (do_post H W F request (unanswered s)).1.app.world)
          ≡ jobs (P.crontab w) ++ (job_line (strip m) (strip h) (strip c) ∷ []))
      × (arrive thrown
            (arrival_of parse err (do_post H W F request (unanswered s)).1.sent)
            []
            (press thrown ask page add_button v)
          ≡ with_reply add_button
              (added
                (job_line (strip m) (strip h) (strip c))
                (with_job H u P m h c (record s { world = w })))
              v)
unfolding is_nonempty codes
press_add-jobs H u P W F parse thrown err ask page stringify m h c v request s size w em eh ec
      agreed ready idle given times before clean accepted to sized sent read_back wire back =
    let sends = add_payload page m h c em eh ec in
    let awaited =
      press_awaited thrown ask page add_button (add_fields m h c) v agreed sends ready idle in
    let bytes = stringify (request_json add_button (add_fields m h c)) in
    let came : W.read size s.world ≡ (ok bytes, w) =
      sent ∙ ap (λ a. (ok (first_body stringify a), w)) awaited in
    let loaded = read_back m h c in
    let s' : App H = record s { world = w } in
    let r = added (job_line (strip m) (strip h) (strip c)) (with_job H u P m h c s') in
    let (done, kept) = action_cron_add-jobs H u P m h c s' given times accepted before clean in
    let answer =
      button_answered H W wire F add_button (add_fields m h c) request s size bytes w
        (add_entry H F) r (add_entry_there H F) refl to sized came loaded done in
    let shown =
      press-Shows H W F parse thrown err ask page add_button (add_fields m h c) v request s size
        bytes w (add_entry H F) r agreed sends ready idle (add_entry_there H F) refl to sized came
        loaded done wire (back r) in
    (add_button_there, rw answer kept, shown.1)
