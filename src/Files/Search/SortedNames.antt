-- ===== src/Files/Search/SortedNames.antt =====
-- `sorted(set(names))` holds the names that it was given.
use mathlib.Core.List.Memᴰ
use project_linux.Base.{
  ◌≡◌, refl, ◌∙◌, ◌⊎◌, inl, inr, Bool, true, false, List, [], ◌∷◌, if◌then◌else◌, Memᴰ,
}
use project_linux.Text.{Str, text_eq}
use project_linux.Text.Laws.{text_eq→eq}
use project_linux.Files.Rows.{text_lt, insert_name, sorted_set}

-- The three places where a name can come to stand.
module _ {a n m : Str} {ms inserted : List Str} where
  inserted_sound :
      (same less : Bool)
      → Memᴰ a (if same then m ∷ ms else if less then n ∷ m ∷ ms else m ∷ inserted)
      → (Memᴰ a inserted → (a ≡ n) ⊎ Memᴰ a ms)
      → (a ≡ n) ⊎ Memᴰ a (m ∷ ms)
  inserted_sound true less h k = inr h
  inserted_sound false true (Memᴰ.head e) k = inl e
  inserted_sound false true (Memᴰ.tail h) k = inr h
  inserted_sound false false (Memᴰ.head e) k = inr (Memᴰ.head e)
  inserted_sound false false (Memᴰ.tail h) k = elim (k h) [
    | inl e ↦ inl e
    | inr h' ↦ inr (Memᴰ.tail h')
  ]

  inserted_complete :
      (same less : Bool)
      → (same ≡ true → n ≡ m)
      → (a ≡ n) ⊎ Memᴰ a (m ∷ ms)
      → ((a ≡ n) ⊎ Memᴰ a ms → Memᴰ a inserted)
      → Memᴰ a (if same then m ∷ ms else if less then n ∷ m ∷ ms else m ∷ inserted)
  inserted_complete true less eq (inl e) k = Memᴰ.head (e ∙ eq refl)
  inserted_complete true less eq (inr h) k = h
  inserted_complete false true eq (inl e) k = Memᴰ.head e
  inserted_complete false true eq (inr h) k = Memᴰ.tail h
  inserted_complete false false eq (inl e) k = Memᴰ.tail (k (inl e))
  inserted_complete false false eq (inr (Memᴰ.head e)) k = Memᴰ.head e
  inserted_complete false false eq (inr (Memᴰ.tail h)) k = Memᴰ.tail (k (inr h))

insert_name_sound :
    (n : Str) (ms : List Str) {a : Str} → Memᴰ a (insert_name n ms) → (a ≡ n) ⊎ Memᴰ a ms
unfolding insert_name
insert_name_sound n [] h = Memᴰ.cases_cons h
insert_name_sound n (m ∷ ms) h =
    inserted_sound (text_eq n m) (text_lt n m) h (insert_name_sound n ms)

insert_name_complete :
    (n : Str) (ms : List Str) {a : Str} → (a ≡ n) ⊎ Memᴰ a ms → Memᴰ a (insert_name n ms)
unfolding insert_name
insert_name_complete n [] (inl e) = Memᴰ.head e
insert_name_complete n [] (inr h) = elim h [ ]
insert_name_complete n (m ∷ ms) h =
    inserted_complete (text_eq n m) (text_lt n m) (text_eq→eq n m) h (insert_name_complete n ms)

pub sorted_set_sound : (ns : List Str) {a : Str} → Memᴰ a (sorted_set ns) → Memᴰ a ns
unfolding sorted_set
sorted_set_sound [] h = h
sorted_set_sound (n ∷ ns) h = elim (insert_name_sound n (sorted_set ns) h) [
  | inl e ↦ Memᴰ.head e
  | inr k ↦ Memᴰ.tail (sorted_set_sound ns k)
]

pub sorted_set_complete : (ns : List Str) {a : Str} → Memᴰ a ns → Memᴰ a (sorted_set ns)
unfolding sorted_set
sorted_set_complete [] h = h
sorted_set_complete (n ∷ ns) (Memᴰ.head e) = insert_name_complete n (sorted_set ns) (inl e)
sorted_set_complete (n ∷ ns) (Memᴰ.tail h) =
    insert_name_complete n (sorted_set ns) (inr (sorted_set_complete ns h))
