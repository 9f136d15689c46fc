-- ===== src/Value.antt =====
-- The values that a request's JSON body holds, the exceptions that the code of gui_app/app.py can
-- meet, and Python's conversions between them.
pub mod Exec
pub mod Ensures
use project_linux.Base.{
  ℕ, Bool, true, false, not, Option, none, some, [], ◌∷◌, String, ◌==◌, if◌then◌else◌, ◌≡◌, ◌⊎◌,
  refl, inl, inr,
}
use project_linux.Base.Int.{ℤ, pos}
use project_linux.Text.{Str, codes, is_nonempty, text_eq, Unicode}
use project_linux.Text.Decimal.{decimal_ℤ, int}

-- What the program can see of a float: `bool(x)`, its integral part and `str(x)`; the infinities
-- and the other values have no integral part.
pub data Float : Type 0 where
  finite : Bool → ℤ → Str → Float
  infinite : Str → Float
  nan : Float

mutual
  pub data Json : Type 0 where
    null : Json
    bool : Bool → Json
    num : ℤ → Json
    float : Float → Json
    text : Str → Json
    array : Items → Json
    object : Fields → Json

  pub data Items : Type 0 where
    nil : Items
    item : Json → Items → Items

  pub data Fields : Type 0 where
    end : Fields
    field : Str → Json → Fields → Fields

pub data Exception : Type 0 where
  type_error value_error overflow_error attribute_error index_error : Exception
  json_decode_error process_lookup_error keyboard_interrupt runtime_error : Exception
  file_not_found : Str → Exception
  -- `timeout` and `str(exc.stdout or '')`
  timeout_expired : Str → Exception
  -- `errno` and `str(exc)`
  os_error : ℕ → Str → Exception

pub data Result {ℓ} (A : Type ℓ) : Type ℓ where
  ok : A → Result A
  raise : Exception → Result A

infixl 5 ◌>>=◌
abbrev pub ◌>>=◌ {ℓ κ} : {A : Type ℓ} {B : Type κ} → Result A → (A → Result B) → Result B
ok a >>= f = f a
raise e >>= f = raise e

-- `d[key]` over the fields as they were read
unfoldable pub find_field : Str → Fields → Option Json
unfolding text_eq
find_field key end = none
find_field key (field k v fs) = if text_eq k key then some v else find_field key fs

-- `d.get(key, default)`; only a dict has the method.
unfoldable pub get : Json → Str → Json → Result Json
unfolding find_field
get (object fs) key default = ok (elim (find_field key fs) [ some v ↦ v | none ↦ default ])
get _ key default = raise attribute_error

-- `bool(v)`
unfoldable pub truthy : Json → Bool
unfolding is_nonempty
truthy null = false
truthy (bool b) = b
truthy (num (pos n)) = not (n == 0)
truthy (num _) = true
truthy (float (finite b _ _)) = b
truthy (float _) = true
truthy (text s) = is_nonempty s
truthy (array nil) = false
truthy (array _) = true
truthy (object end) = false
truthy (object _) = true

-- `v or w`
unfoldable pub value_or : Json → Json → Json
unfolding truthy
value_or v w = if truthy v then v else w

unfoldable pub str_float : Float → Str
str_float (finite _ _ s) = s
str_float (infinite s) = s
str_float nan = codes "nan"

-- `str(v)`; `repr` writes the lists and the dicts.
unfoldable pub str : (Json → Str) → Json → Str
unfolding decimal_ℤ str_float
str repr null = codes "None"
str repr (bool true) = codes "True"
str repr (bool false) = codes "False"
str repr (num n) = decimal_ℤ n
str repr (float x) = str_float x
str repr (text s) = s
str repr v = repr v

-- `v.strip()` and `v + "\n"` want a text.
unfoldable pub as_text : Exception → Json → Result Str
as_text e (text s) = ok s
as_text e _ = raise e

unfoldable pub int_of_text : Unicode → Str → Result ℤ
int_of_text U s = elim (int U s) [ some n ↦ ok n | none ↦ raise value_error ]

-- `int(v)`
unfoldable pub int_of : Unicode → Json → Result ℤ
unfolding int_of_text
int_of U (bool true) = ok (pos 1)
int_of U (bool false) = ok (pos 0)
int_of U (num n) = ok n
int_of U (float (finite _ n _)) = ok n
int_of U (float (infinite _)) = raise overflow_error
int_of U (float nan) = raise value_error
int_of U (text s) = int_of_text U s
int_of U _ = raise type_error

pub Result-cases {ℓ} :
    {A : Type ℓ} (r : Result A) → ((a : A) × (r ≡ ok a)) ⊎ ((e : Exception) × (r ≡ raise e))
Result-cases (ok a) = inl (a, refl)
Result-cases (raise e) = inr (e, refl)
