-- ===== src/Handler/Answers.antt =====
-- What a request is answered with.
use project_linux.Base.{
  ℕ, ◌≡◌, refl, sym, ap, ◌∙◌, ◌⊎◌, inl, inr, false, Option, none, some, List, [], ◌∷◌, ◌++◌,
  append_assoc, append-nil,
}
use project_linux.Text.{codes, text_eq}
use project_linux.Value.{
  Json, null, object, end, Exception, json_decode_error, Result, ok, raise, get, value_or,
}
use project_linux.Value.Exec.{pure, lift, except, continue, ◌>>=◌}
use project_linux.Value.Ensures.{Ensures, Ensures-ok, continue-Ensures, then-Ensures, Ensures-map}
use project_linux.Host.{Host}
use project_linux.Command.{Reply}
use project_linux.Files.System.{FileSystem}
use project_linux.Actions.{Action, actions, get_action}
use project_linux.Handler.Reading.{IsWhole, header_value}
use project_linux.Handler.{
  Bytes, Sent, Request, Http, Exchange, in_app, as_json, body_or_empty, content_length_of, tell,
  tell_all, response, send_json, undecodable, unsupported, invalid_json, send_reply, call_found,
  dispatch, read_payload, dispatch_read, do_post,
}

module _ (H : Host) (W : Http H) where
  abbrev Adds : List Sent → List Sent → Unit {0} → Exchange H → Type 0
  Adds before calls u e = e.sent ≡ before ++ calls

  tell_all-Adds :
      (calls before : List Sent) (e : Exchange H)
      → e.sent ≡ before
      → Ensures (Adds before calls) (tell_all H W calls e)
  tell_all-Adds [] before e same = same ∙ sym (append-nil before)
  tell_all-Adds (call ∷ calls) before e same =
      continue-Ensures (Adds before (call ∷ calls)) (tell H W call e) (λ u. tell_all H W calls)
        (λ u eu.
          Ensures-map (Adds (before ++ (call ∷ [])) calls) (Adds before (call ∷ calls)) _
            (tell_all-Adds calls (before ++ (call ∷ [])) _ (ap (λ s. s ++ (call ∷ [])) same))
            (λ v x h. h ∙ append_assoc before (call ∷ []) calls))

  -- The calls that send a reply.
  abbrev pub json_response : ℕ → Reply → List Sent
  json_response status r =
      response H W status (codes "application/json; charset=utf-8") (W.dumps (as_json r))

  -- One full response came: of status 200, or of status 400 with a reply that is not ok.
  abbrev pub Answered : List Sent → List Sent → Type 0
  Answered before after =
      (status : ℕ) × (r : Reply) × (calls : List Sent) × (after ≡ before ++ calls)
      × IsWhole status (W.dumps (as_json r)) calls
      × ((status ≡ 200) ⊎ ((status ≡ 400) × (r.is_ok ≡ false)))

  json_response-IsWhole :
      (status : ℕ) (r : Reply) → IsWhole status (W.dumps (as_json r)) (json_response status r)
  unfolding header_value text_eq codes
  json_response-IsWhole status r = (_, refl, refl, refl, refl, refl)

  abbrev Done : List Sent → Unit {0} → Exchange H → Type 0
  Done before u e = Answered before e.sent

  send_reply-Done :
      (r : Reply) (status : ℕ) (before : List Sent) (e : Exchange H)
      → e.sent ≡ before
      → (status ≡ 200) ⊎ ((status ≡ 400) × (r.is_ok ≡ false))
      → Ensures (Done before) (send_reply H W r status e)
  unfolding send_json
  send_reply-Done r status before e same kind =
      Ensures-map (Adds before (json_response status r)) (Done before)
        (tell_all H W (json_response status r) e)
        (tell_all-Adds (json_response status r) before e same)
        (λ u x h. (status, r, json_response status r, h, json_response-IsWhole status r, kind))

  module _ (F : FileSystem H) where
    -- Reading the body sends nothing.
    abbrev pub Quiet : List Sent → Option Json → Exchange H → Type 0
    Quiet before payload e = e.sent ≡ before

    raised-Quiet :
        (x : Exception) (before : List Sent) (e : Exchange H)
        → e.sent ≡ before
        → Ensures (Quiet before) (except (undecodable H W F) (raise x, e))
    raised-Quiet json_decode_error before e same = same
    raised-Quiet _ before e same = tt

    parsed-Quiet :
        (r : Result Json) (before : List Sent) (e : Exchange H)
        → e.sent ≡ before
        → Ensures
            (Quiet before)
            (except (undecodable H W F) (continue (λ payload. pure (some payload)) (r, e)))
    parsed-Quiet (ok payload) before e same = same
    parsed-Quiet (raise x) before e same = raised-Quiet x before e same

    pub received-Quiet :
        (r : Result Bytes) (before : List Sent) (e : Exchange H)
        → e.sent ≡ before
        → Ensures (Quiet before) (
            except (undecodable H W F) (
              continue
                (λ bytes. (do payload ← lift (W.loads (body_or_empty bytes)); pure (some payload)))
                (r, e)))
    received-Quiet (ok bytes) before e same =
        parsed-Quiet (W.loads (body_or_empty bytes)) before e same
    received-Quiet (raise x) before e same = raised-Quiet x before e same

    call_found-Done :
        (payload action : Json) (found : Option (Action H)) (before : List Sent) (e : Exchange H)
        → e.sent ≡ before
        → Ensures (Done before) (call_found H W payload action found e)
    unfolding send_json
    call_found-Done payload action none before e same =
        send_reply-Done (unsupported H W action) 400 before e same (inr (refl, refl))
    call_found-Done payload action (some fn) before e same =
        continue-Ensures (Done before) (get payload (codes "data") null, e) _
          (λ v ev.
            continue-Ensures (Done before) (in_app (fn (value_or v (object end))) e) _
              (λ r er. send_reply-Done r 200 before _ same (inl refl)))

    dispatch-Done :
        (payload : Json) (before : List Sent) (e : Exchange H)
        → e.sent ≡ before
        → Ensures (Done before) (dispatch H W F payload e)
    unfolding dispatch
    dispatch-Done payload before e same =
        continue-Ensures (Done before) (get payload (codes "action") null, e) _
          (λ action ea.
            continue-Ensures (Done before) (get_action action (actions H F), e) _
              (λ found ef. call_found-Done payload action found before e same))

    dispatch_read-Done :
        (payload : Option Json) (before : List Sent) (e : Exchange H)
        → e.sent ≡ before
        → Ensures (Done before) (dispatch_read H W F payload e)
    dispatch_read-Done none before e same =
        send_reply-Done (invalid_json H W) 400 before e same (inr (refl, refl))
    dispatch_read-Done (some payload) before e same = dispatch-Done payload before e same

    -- A POST to "/api/action" that returns has sent one full response, and nothing besides: of status
    -- 200, or of status 400 with a reply that is not `ok`.
    pub do_post-Answered :
        (request : Request) (e : Exchange H)
        → W.url_path request.path ≡ ok (codes "/api/action")
        → (do_post H W F request e).0 ≡ ok tt
        → Answered e.sent (do_post H W F request e).1.sent
    unfolding do_post text_eq codes
    do_post-Answered request e to = Ensures-ok (Done e.sent) (do_post H W F request e) (
        rw to (
          continue-Ensures (Done e.sent) (content_length_of H.unicode request.content_length, e) _
            (λ size es.
              then-Ensures (Quiet e.sent) (Done e.sent) (read_payload H W F size e)
                (dispatch_read H W F) (received-Quiet (W.read size e.app.world).0 e.sent _ refl)
                (λ payload x same. dispatch_read-Done payload e.sent x same))))
