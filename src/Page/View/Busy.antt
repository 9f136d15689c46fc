-- ===== src/Page/View/Busy.antt =====
-- One request at a time.
use project_linux.Base.{
  ◌≤◌, ◌≡◌, refl, ap, ◌∙◌, ◌⊎◌, Bool, true, false, Option, none, some, List, [], ◌∷◌, ◌++◌, length,
  length-append, if◌then◌else◌, inl, inr, arith,
}
use project_linux.Text.{Str, codes}
use project_linux.Value.{Json}
use project_linux.Page.{Input, Button}
use project_linux.Page.Script.{confirmed}
use project_linux.Page.View.{
  View, first_view, Arrival, answered, broken, member, press, arrive, fetched, started,
  show_arrival, show_output, show_members,
}

-- The page, however its user presses buttons with whatever stands in the inputs, and whenever the responses
-- come.
pub data Used (thrown : Str) : View → Type 0 where
  here : Used thrown first_view
  pressed :
      {v : View} (ask : Str → Bool) (page : List Input) (b : Button)
      → Used thrown v
      → Used thrown (press thrown ask page b v)
  arrived :
      {v : View} (before after : List Json) (request : Json) (arrival : Arrival)
      → v.awaited ≡ before ++ (request ∷ after)
      → Used thrown v
      → Used thrown (arrive thrown arrival (before ++ after) v)

-- The buttons are disabled exactly while a response is awaited, and no more than one is.
abbrev pub OneAwaited : View → Type 0
OneAwaited v =
    ((v.disabled ≡ true) × (length v.awaited ≡ 1)) ⊎ ((v.disabled ≡ false) × (v.awaited ≡ []))

show_output-awaited :
    (thrown : Str) (o : Option Str) (v : View) → (show_output thrown o v).awaited ≡ v.awaited
show_output-awaited thrown none v = refl
show_output-awaited thrown (some s) v = refl

show_members-awaited :
    (thrown : Str) (json : Json) (o : Option (Option Json)) (v : View)
    → (show_members thrown json o v).awaited ≡ v.awaited
show_members-awaited thrown json none v = refl
show_members-awaited thrown json (some is_ok) v = show_output-awaited thrown _ _

show_arrival-awaited :
    (thrown : Str) (a : Arrival) (v : View) → (show_arrival thrown a v).awaited ≡ v.awaited
unfolding show_arrival
show_arrival-awaited thrown (broken err) v = refl
show_arrival-awaited thrown (answered json) v =
    show_members-awaited thrown json (member json (codes "ok")) v

fetched-OneAwaited :
    (thrown : Str) (request : Option Json) (b : Button) (v : View)
    → v.awaited ≡ []
    → OneAwaited (fetched thrown request (started b v))
unfolding started
fetched-OneAwaited thrown none b v h = inr (refl, h)
fetched-OneAwaited thrown (some request) b v h = inl (refl, ap (λ ls. length (request ∷ ls)) h)

press_case :
    (off agreed : Bool) (thrown : Str) (request : Option Json) (b : Button) (v : View)
    → v.disabled ≡ off
    → OneAwaited v
    → OneAwaited (if off then v else if agreed then fetched thrown request (started b v) else v)
press_case true agreed thrown request b v e one = one
press_case false false thrown request b v e one = one
press_case false true thrown request b v e (inl (h, k)) = absurd (cc)
press_case false true thrown request b v e (inr (h, k)) = fetched-OneAwaited thrown request b v k

-- What is left when the only response has come.
nothing_left :
    (before after : List Json) (request : Json) (ls : List Json)
    → ls ≡ before ++ (request ∷ after)
    → length ls ≤ 1
    → before ++ after ≡ []
nothing_left [] [] request ls e h = refl
nothing_left [] (x ∷ after) request ls e h = absurd (omega (arith, ap length e))
nothing_left (x ∷ before) after request ls e h =
    absurd (omega (arith, ap length e, length-append before (request ∷ after)))

at_most_one : (v : View) → OneAwaited v → length v.awaited ≤ 1
at_most_one v (inl (h, k)) = omega (arith, k)
at_most_one v (inr (h, k)) = omega (arith, ap length k)

-- However the page is used: the buttons are disabled exactly while a response is awaited, there is never more
-- than one request under way, and when its response has come, or has failed, the buttons are enabled again.
pub Used-OneAwaited : {thrown : Str} {v : View} → Used thrown v → OneAwaited v
unfolding press arrive
Used-OneAwaited here = inr (refl, refl)
Used-OneAwaited {thrown} (pressed {v} ask page b u) =
    press_case v.disabled (confirmed ask b.confirm) thrown _ b v refl (Used-OneAwaited u)
Used-OneAwaited {thrown} (arrived {v} before after request arrival e u) = inr (
  refl,
  show_arrival-awaited thrown arrival _
      ∙ nothing_left before after request v.awaited e (at_most_one v (Used-OneAwaited u)),
)
