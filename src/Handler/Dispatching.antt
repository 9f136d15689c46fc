-- ===== src/Handler/Dispatching.antt =====
-- Which action a request runs, and what becomes of the other requests.
use project_linux.Base.{◌≡◌, refl, ◌∙◌, Memᴰ}
use project_linux.Base.Int.{ℤ}
use project_linux.Text.{Str, codes, text_eq}
use project_linux.Value.{
  Json, null, text, object, end, Exception, json_decode_error, Result, ok, raise, get, value_or,
}
use project_linux.Value.Exec.{continue}
use project_linux.Host.{Host}
use project_linux.Command.{Reply}
use project_linux.Files.System.{FileSystem}
use project_linux.Actions.{NamedAction, actions, get_action}
use project_linux.Actions.Table.{names, actions-find, find_action_missing}
use project_linux.Handler.{
  Bytes, Request, Http, Exchange, in_app, body_or_empty, content_length_of, unsupported,
  invalid_json, send_reply, dispatch, do_post,
}

module _ (H : Host) (W : Http H) (F : FileSystem H) where
  -- What is left of a request when its body was read.
  abbrev pub after_read : Exchange H → H.World → Exchange H
  after_read e w = record e { app = record e.app { world = w } }

  -- Where the action returned, its reply is sent.
  abbrev pub send_result : Result Reply × Exchange H → Result (Unit {0}) × Exchange H
  send_result x = continue (λ r. send_reply H W r 200) x

  module _ (request : Request) (e : Exchange H) (size : ℤ) (bytes : Bytes) (w : H.World)
      (to : W.url_path request.path ≡ ok (codes "/api/action"))
      (sized : content_length_of H.unicode request.content_length ≡ ok size)
      (came : W.read size e.app.world ≡ (ok bytes, w)) where
    -- A POST to "/api/action" whose body is read and does not parse is answered with status 400, and
    -- nothing else is done.
    pub do_post-invalid :
        W.loads (body_or_empty bytes) ≡ raise json_decode_error
        → do_post H W F request e ≡ send_reply H W (invalid_json H W) 400 (after_read e w)
    unfolding do_post text_eq codes
    do_post-invalid garbled = rw (to, sized, came, garbled) refl

    module _ (payload : Json) (parsed : W.loads (body_or_empty bytes) ≡ ok payload) where
      dispatched : do_post H W F request e ≡ dispatch H W F payload (after_read e w)
      unfolding do_post text_eq codes
      dispatched = rw (to, sized, came, parsed) refl

      -- A POST to "/api/action" whose body is a dict with the name of an entry of `ACTIONS` runs
      -- just the function of this entry on the data of the body, and sends its reply with status 200.
      pub do_post-runs :
          (a : NamedAction H) (v : Json)
          → Memᴰ a (actions H F)
          → get payload (codes "action") null ≡ ok (text a.name)
          → get payload (codes "data") null ≡ ok v
          → do_post H W F request e
            ≡ send_result (in_app (a.function (value_or v (object end))) (after_read e w))
      unfolding dispatch get_action codes
      do_post-runs a v m named given = dispatched ∙ rw (named, actions-find H F a m, given) refl

      -- A POST to "/api/action" whose body names no entry of `ACTIONS` is answered with status 400, and no
      -- action runs.
      pub do_post-refuses :
          (name : Str)
          → get payload (codes "action") null ≡ ok (text name)
          → ¬ Memᴰ name (names (actions H F))
          → do_post H W F request e
            ≡ send_reply H W (unsupported H W (text name)) 400 (after_read e w)
      unfolding dispatch get_action codes
      do_post-refuses name named missing =
          dispatched ∙ rw (named, find_action_missing name (actions H F) missing) refl

      -- An action that raises leaves a POST without any response: the exception goes on to the server.
      pub do_post-unanswered :
          (a : NamedAction H) (v : Json) (x : Exception)
          → Memᴰ a (actions H F)
          → get payload (codes "action") null ≡ ok (text a.name)
          → get payload (codes "data") null ≡ ok v
          → (a.function (value_or v (object end)) (after_read e w).app).0 ≡ raise x
          → ((do_post H W F request e).0 ≡ raise x) × ((do_post H W F request e).1.sent ≡ e.sent)
      do_post-unanswered a v x m named given raised =
          rw (do_post-runs a v m named given) (rw raised (refl, refl))
