-- ===== src/Page/Served.antt =====
-- The page and the handler together: each button's request reaches its action.
use mathlib.Core.List.Memᴰ
use project_linux.Base.{
  ◌≡◌, ◌↔◌, refl, sym, ap, ◌∙◌, Bool, true, false, ◌&&◌, not, some, List, [], ◌∷◌, map, Memᴰ,
  Bool-cases, inl, inr, arith,
}
use project_linux.Base.Int.{ℤ}
use project_linux.Text.{Str, codes, text_eq, is_nonempty}
use project_linux.Text.Distinct.{absent, distinct, differs_sym}
use project_linux.Text.Laws.{text_eq→eq}
use project_linux.Value.{
  text, object, Fields, end, field, find_field, get, truthy, value_or, Result, ok,
}
use project_linux.Host.{Host}
use project_linux.Files.System.{FileSystem}
use project_linux.Actions.{
  NamedAction, actions, file_actions, cron_actions, time_actions, pkg_actions, system_actions,
  kernel_actions, driver_actions,
}
use project_linux.Actions.Table.{names}
use project_linux.Handler.{
  Bytes, Request, Http, Exchange, in_app, body_or_empty, content_length_of, do_post,
}
use project_linux.Handler.Dispatching.{after_read, send_result, do_post-runs}
use project_linux.Page.{
  Input, Button, inputs, buttons, files_inputs, cron_inputs, time_inputs, pkg_inputs, driver_inputs,
  files_buttons, cron_buttons, time_buttons, pkg_buttons, system_buttons, kernel_buttons,
  driver_buttons,
}
use project_linux.Page.Script.{
  split_onto, value_of, pairs_of, payload, Sending, sends, confirmed, request_json, run,
}
use project_linux.Page.Pairs.{keys, Holds, AllFound, add_pairs-Collects}

module _ {ℓ} {A : Type ℓ} (test : A → Bool) where
  abbrev every : List A → Bool
  every [] = true
  every (x ∷ xs) = test x && every xs

  every-test : (xs : List A) {x : A} → every xs ≡ true → Memᴰ x xs → test x ≡ true
  every-test [] h m = elim m [ ]
  every-test (y ∷ xs) h (Memᴰ.head e) = rw e (ground (arith, h))
  every-test (y ∷ xs) h (Memᴰ.tail m) = every-test xs (ground (arith, h)) m

present-Memᴰ : (s : Str) (ts : List Str) → absent s ts ≡ false → Memᴰ s ts
present-Memᴰ s [] h = absurd (cc)
present-Memᴰ s (t ∷ ts) h = elim (Bool-cases (text_eq s t)) [
  | inl k ↦ Memᴰ.head (text_eq→eq s t k)
  | inr k ↦ Memᴰ.tail (present-Memᴰ s ts (ground (arith, h, k)))
]

abbrev pub ids : List Input → List Str
ids page = map (λ i. i.id) page

present-value :
    (page : List Input) (id : Str)
    → absent id (ids page) ≡ false
    → (v : Str) × (value_of page id ≡ some v)
unfolding value_of
present-value [] id h = absurd (cc)
present-value (i ∷ is) id h = elim (Bool-cases (text_eq i.id id)) [
  | inl k ↦ (i.value, rw k refl)
  | inr k ↦
      let rest : absent id (ids is) ≡ false = ground (arith, h, differs_sym i.id id k) in
      let (v, e) = present-value is id rest in (v, rw k e)
]

abbrev all_ids : List Str → List (Str × Str) → Bool
all_ids known ps = every (λ p. not (absent p.1 known)) ps

found_all :
    (page : List Input) (ps : List (Str × Str)) → all_ids (ids page) ps ≡ true → AllFound page ps
found_all page [] h = tt
found_all page (p ∷ ps) h =
    (present-value page p.1 (ground (arith, h)), found_all page ps (ground (arith, h)))

-- What is to be checked of a button's fields.
abbrev sound : List Str → Button → Bool
sound known b = distinct (keys (pairs_of b)) && all_ids known (pairs_of b)

buttons_checked : every (sound (ids inputs)) buttons ≡ true
unfolding distinct text_eq codes is_nonempty pairs_of split_onto inputs files_inputs cron_inputs
    time_inputs pkg_inputs driver_inputs buttons files_buttons cron_buttons time_buttons pkg_buttons
    system_buttons kernel_buttons driver_buttons
buttons_checked = refl

-- A dict goes out in which each key of the button's fields has the value of its input.
abbrev pub SendsFields : List Input → Button → Sending → Type 0
SendsFields page b sending =
    (fs : Fields) × (sending ≡ sends (request_json b fs))
    × ((p : Str × Str) → Memᴰ p (pairs_of b) → Holds page fs p)

-- On the page as it came or with other values in its inputs, a button that is confirmed sends its name
-- and a dict in which each key of its fields has the value of its input.
pub run-Sends :
    (page : List Input) (b : Button) (ask : Str → Bool)
    → ids page ≡ ids inputs
    → Memᴰ b buttons
    → confirmed ask b.confirm ≡ true
    → SendsFields page b (run ask page b)
unfolding run payload
run-Sends page b ask same m agreed =
    let checked : sound (ids inputs) b ≡ true =
      every-test (sound (ids inputs)) buttons buttons_checked m in
    let once : distinct (keys (pairs_of b)) ≡ true = ground (arith, checked) in
    let known : all_ids (ids inputs) (pairs_of b) ≡ true = ground (arith, checked) in
    let (fs, e, keeps, finds) =
      add_pairs-Collects page (pairs_of b) end once (found_all page (pairs_of b) (rw same known)) in
    (fs, rw (agreed, e) refl, finds)

module _ (H : Host) (F : FileSystem H) where
  names_checked : every (λ b. not (absent b.action (names (actions H F)))) buttons ≡ true
  unfolding text_eq codes actions file_actions cron_actions time_actions pkg_actions system_actions
      kernel_actions driver_actions buttons files_buttons cron_buttons time_buttons pkg_buttons
      system_buttons kernel_buttons driver_buttons
  names_checked = refl

  actions_checked :
      every (λ a. not (absent a (map (λ b. b.action) buttons))) (names (actions H F)) ≡ true
  unfolding text_eq codes actions file_actions cron_actions time_actions pkg_actions system_actions
      kernel_actions driver_actions buttons files_buttons cron_buttons time_buttons pkg_buttons
      system_buttons kernel_buttons driver_buttons
  actions_checked = refl

  -- Every button of the page sends the name of an entry of `ACTIONS`, and every entry has a button.
  pub buttons-actions :
      (name : Str) → Memᴰ name (map (λ b. b.action) buttons) ↔ Memᴰ name (names (actions H F))
  buttons-actions name = (
    (λ m.
        let (b, at, e) = Memᴰ.of_map (λ (b : Button). b.action) buttons m in
        let checked =
          every-test (λ b. not (absent b.action (names (actions H F)))) buttons names_checked at in
        Memᴰ.cast (sym e) (present-Memᴰ b.action (names (actions H F)) (ground (arith, checked)))),
    λ m.
        let there =
          every-test (λ a. not (absent a (map (λ b. b.action) buttons))) _ actions_checked m in
        present-Memᴰ name _ (ground (arith, there)),
  )

  pub data_given : (fs : Fields) → value_or (object fs) (object end) ≡ object fs
  unfolding value_or truthy
  data_given end = refl
  data_given (field k v fs) = refl

  -- The entry with the button's name runs on the button's data, and its reply is sent.
  abbrev pub RunsNamed :
      Http H → Button → Fields → Exchange H → Result (Unit {0}) × Exchange H → Type 0
  RunsNamed W b fs e outcome =
      (a : NamedAction H) × Memᴰ a (actions H F)
      × (a.name ≡ b.action)
      × (outcome ≡ send_result H W F (in_app (a.function (object fs)) e))

  -- A POST to "/api/action" with the body that a button of the page sends runs the function that `ACTIONS`
  -- has under the button's name, on the data of the button, and sends its reply.
  pub button-Runs :
      (W : Http H) (b : Button) (fs : Fields) (request : Request) (e : Exchange H) (size : ℤ)
      (bytes : Bytes) (w : H.World)
      → Memᴰ b buttons
      → W.url_path request.path ≡ ok (codes "/api/action")
      → content_length_of H.unicode request.content_length ≡ ok size
      → W.read size e.app.world ≡ (ok bytes, w)
      → W.loads (body_or_empty bytes) ≡ ok (request_json b fs)
      → RunsNamed W b fs (after_read H W F e w) (do_post H W F request e)
  unfolding get find_field text_eq codes
  button-Runs W b fs request e size bytes w m to sized came parsed =
      let (a, at, named) =
        Memᴰ.of_map (λ (a : NamedAction H). a.name) (actions H F)
          ((buttons-actions b.action).0 (Memᴰ.map (λ b. b.action) m)) in
      (
        a,
        at,
        named,
        do_post-runs H W F request e size bytes w to sized came (request_json b fs) parsed a
              (object fs) at (ap (λ n. ok (text n)) (sym named)) refl
            ∙ ap (λ d. send_result H W F (in_app (a.function d) (after_read H W F e w)))
                (data_given fs),
      )
