-- ===== src/Actions/Table.antt =====
-- The table of actions as a map: no name stands in it twice.
use mathlib.Core.List.Memᴰ
use project_linux.Base.{
  ◌≡◌, refl, sym, true, false, none, some, List, [], ◌∷◌, map, Memᴰ, Bool-cases, inl, inr, arith,
}
use project_linux.Text.{Str, codes, text_eq}
use project_linux.Text.Distinct.{distinct, absent-differs}
use project_linux.Text.Laws.{text_eq→eq, text_eq_refl}
use project_linux.Host.{Host}
use project_linux.Files.System.{FileSystem}
use project_linux.Actions.{
  NamedAction, find_action, actions, file_actions, cron_actions, time_actions, pkg_actions,
  system_actions, kernel_actions, driver_actions,
}

module _ {H : Host} where
  abbrev pub names : List (NamedAction H) → List Str
  names es = map (λ e. e.name) es

  find_action_complete :
      (es : List (NamedAction H)) (e : NamedAction H)
      → distinct (names es) ≡ true
      → Memᴰ e es
      → find_action e.name es ≡ some e.function
  unfolding find_action distinct
  find_action_complete [] e h m = elim m [ ]
  find_action_complete (f ∷ fs) e h (Memᴰ.head k) =
      let same : text_eq f.name e.name ≡ true = rw k (text_eq_refl f.name) in rw (same, k) refl
  find_action_complete (f ∷ fs) e h (Memᴰ.tail m) =
      let differs : text_eq f.name e.name ≡ false =
        absent-differs f.name (names fs) (ground (arith, h)) (Memᴰ.map (λ x. x.name) m) in
      rw differs (find_action_complete fs e (ground (arith, h)) m)

module _ (H : Host) (F : FileSystem H) where
  actions-distinct : distinct (names (actions H F)) ≡ true
  unfolding distinct text_eq codes actions file_actions cron_actions time_actions pkg_actions
      system_actions kernel_actions driver_actions
  actions-distinct = refl

  -- Every entry of the table is what its name finds.
  pub actions-find :
      (e : NamedAction H)
      → Memᴰ e (actions H F)
      → find_action e.name (actions H F) ≡ some e.function
  actions-find e m = find_action_complete (actions H F) e actions-distinct m

module _ {H : Host} where
  pub find_action_missing :
      (name : Str) (es : List (NamedAction H)) → ¬ Memᴰ name (names es) → find_action name es ≡ none
  unfolding find_action
  find_action_missing name [] h = refl
  find_action_missing name (e ∷ es) h = elim (Bool-cases (text_eq e.name name)) [
    | inl k ↦ absurd (h (Memᴰ.head (sym (text_eq→eq e.name name k))))
    | inr k ↦ rw k (find_action_missing name es (λ m. h (Memᴰ.tail m)))
  ]
