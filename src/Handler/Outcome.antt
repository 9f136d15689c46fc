-- ===== src/Handler/Outcome.antt =====
-- Every request for an action is answered once, or its action has raised and nothing was sent.
use project_linux.Base.{
  ℕ, ◌≡◌, refl, sym, ap, ◌∙◌, ◌⊎◌, inl, inr, Option, none, some, List, [], ◌∷◌, ◌++◌, append_assoc,
  append-nil,
}
use project_linux.Text.{codes, text_eq}
use project_linux.Value.{
  Json, null, object, end, Exception, json_decode_error, Result, ok, raise, get, value_or,
}
use project_linux.Value.Exec.{pure, lift, except, continue, ◌>>=◌}
use project_linux.Value.Ensures.{Raises, in-Raises, then-Raises, Raises-cases}
use project_linux.Host.{Host}
use project_linux.Command.{Reply}
use project_linux.Files.System.{FileSystem}
use project_linux.Actions.{Action, actions, get_action}
use project_linux.Handler.{
  Bytes, Sent, Request, Http, Exchange, body_or_empty, content_length_of, tell_all, send_json,
  undecodable, unsupported, invalid_json, send_reply, call_found, dispatch, read_payload,
  dispatch_read, do_post,
}
use project_linux.Handler.Answers.{json_response, Answered, Quiet, received-Quiet, do_post-Answered}

module _ (H : Host) (W : Http H)
    (wire_takes : (cs : List Sent) (c : Sent) → W.wire cs c ≡ ok tt) where
  pub tell_all_lem :
      (calls : List Sent) (e : Exchange H)
      → tell_all H W calls e ≡ (ok tt, record e { sent = e.sent ++ calls })
  tell_all_lem [] e = ap (λ cs. (ok tt, record e { sent = cs })) (sym (append-nil e.sent))
  tell_all_lem (call ∷ calls) e = rw (wire_takes e.sent call) (
      tell_all_lem calls (record e { sent = e.sent ++ (call ∷ []) })
      ∙ ap (λ cs. (ok tt, record e { sent = cs })) (append_assoc e.sent (call ∷ []) calls))

  -- Nothing more was sent.
  abbrev Silent : List Sent → Exchange H → Type 0
  Silent before e = e.sent ≡ before

  send_reply-Raises :
      (r : Reply) (status : ℕ) (before : List Sent) (e : Exchange H)
      → Raises (Silent before) (send_reply H W r status e)
  unfolding send_json
  send_reply-Raises r status before e = rw (tell_all_lem (json_response H W status r) e) tt

  module _ (F : FileSystem H) where
    raised-Raises :
        (x : Exception) (before : List Sent) (e : Exchange H)
        → Silent before e
        → Raises (Silent before) (except (undecodable H W F) (raise x, e))
    raised-Raises json_decode_error before e same = tt
    raised-Raises _ before e same = same

    parsed-Raises :
        (r : Result Json) (before : List Sent) (e : Exchange H)
        → Silent before e
        → Raises
            (Silent before)
            (except (undecodable H W F) (continue (λ payload. pure (some payload)) (r, e)))
    parsed-Raises (ok payload) before e same = tt
    parsed-Raises (raise x) before e same = raised-Raises x before e same

    received-Raises :
        (r : Result Bytes) (before : List Sent) (e : Exchange H)
        → Silent before e
        → Raises (Silent before) (
            except (undecodable H W F) (
              continue
                (λ bytes. (do payload ← lift (W.loads (body_or_empty bytes)); pure (some payload)))
                (r, e)))
    received-Raises (ok bytes) before e same =
        parsed-Raises (W.loads (body_or_empty bytes)) before e same
    received-Raises (raise x) before e same = raised-Raises x before e same

    call_found-Raises :
        (payload action : Json) (found : Option (Action H)) (before : List Sent) (e : Exchange H)
        → Silent before e
        → Raises (Silent before) (call_found H W payload action found e)
    call_found-Raises payload action none before e same =
        send_reply-Raises (unsupported H W action) 400 before e
    call_found-Raises payload action (some fn) before e same =
        in-Raises (Silent before) (get payload (codes "data") null) e _ same (λ v.
          in-Raises (Silent before) (fn (value_or v (object end)) e.app).0
            (record e { app = (fn (value_or v (object end)) e.app).1 }) _ same
            (λ r. send_reply-Raises r 200 before _))

    dispatch-Raises :
        (payload : Json) (before : List Sent) (e : Exchange H)
        → Silent before e
        → Raises (Silent before) (dispatch H W F payload e)
    unfolding dispatch
    dispatch-Raises payload before e same =
        in-Raises (Silent before) (get payload (codes "action") null) e _ same (λ action.
          in-Raises (Silent before) (get_action action (actions H F)) e _ same
            (λ found. call_found-Raises payload action found before e same))

    dispatch_read-Raises :
        (payload : Option Json) (before : List Sent) (e : Exchange H)
        → Silent before e
        → Raises (Silent before) (dispatch_read H W F payload e)
    dispatch_read-Raises none before e same = send_reply-Raises (invalid_json H W) 400 before e
    dispatch_read-Raises (some payload) before e same = dispatch-Raises payload before e same

    do_post-Raises :
        (request : Request) (e : Exchange H)
        → W.url_path request.path ≡ ok (codes "/api/action")
        → Raises (Silent e.sent) (do_post H W F request e)
    unfolding do_post text_eq codes
    do_post-Raises request e to = rw to (
        in-Raises (Silent e.sent) (content_length_of H.unicode request.content_length) e _ refl
          (λ size.
            then-Raises (Quiet H W F e.sent) (Silent e.sent) (read_payload H W F size e)
              (dispatch_read H W F) (received-Quiet H W F (W.read size e.app.world).0 e.sent _ refl)
              (received-Raises (W.read size e.app.world).0 e.sent _ refl)
              (λ payload x same. dispatch_read-Raises payload e.sent x same)))

    -- On a connection that takes every call, a POST to "/api/action" with whatever body comes to one of two ends.
    -- The handler returns, and a client reads what it has sent as one response and nothing besides: a status line, the
    -- headers with the JSON type and with the length of the body, their end, and the body, which is the JSON of a
    -- reply; its status is 200, or it is 400 and the reply is not `ok`. Or the handler raises, and nothing was sent.
    pub do_post-Outcome :
        (request : Request) (e : Exchange H)
        → W.url_path request.path ≡ ok (codes "/api/action")
        → (((do_post H W F request e).0 ≡ ok tt)
            × Answered H W e.sent (do_post H W F request e).1.sent)
          ⊎ ((x : Exception) × ((do_post H W F request e).0 ≡ raise x)
              × ((do_post H W F request e).1.sent ≡ e.sent))
    do_post-Outcome request e to =
        elim (Raises-cases (Silent e.sent) (do_post H W F request e)
          (do_post-Raises request e to)) [
            | inl (u, done) ↦ inl (done, do_post-Answered H W F request e to done)
            | inr (x, failed, same) ↦ inr (x, failed, same)
          ]
