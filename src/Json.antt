-- ===== src/Json.antt =====
-- Parsed JSON, as Python's `json.loads` gives it: a float is kept as its text.
pub mod Access
use cortex_cloud_api.Prelude.{
  String, str_eq, Bool, Option, none, some, List, [], ◌∷◌, if◌then◌else◌, ◌||◌,
}
use cortex_cloud_api.Prelude.Int.{ℤ, is_nonzero}
use cortex_cloud_api.Prelude.Text.{is_empty}

mutual
  pub data Json : Type 0 where
    null : Json
    boolean : Bool → Json
    int : ℤ → Json
    float : String → Json
    str : String → Json
    arr : Elems → Json
    obj : Fields → Json

  pub data Elems : Type 0 where
    nil : Elems
    cons : Json → Elems → Elems

  pub data Fields : Type 0 where
    end : Fields
    field : String → Json → Fields → Fields

abbrev pub elems : Elems → List Json
elems nil = []
elems (cons j js) = j ∷ elems js

abbrev pub lookup_field : String → Fields → Option Json
lookup_field key end = none
lookup_field key (field k v fs) = if str_eq k key then some v else lookup_field key fs

-- An object and an array from lists of Python's.
abbrev pub fields_of : List (String × Json) → Fields
fields_of [] = end
fields_of ((k, v) ∷ entries) = field k v (fields_of entries)

abbrev pub elems_of : List Json → Elems
elems_of [] = nil
elems_of (j ∷ js) = cons j (elems_of js)

abbrev pub object_of : List (String × Json) → Json
object_of entries = obj (fields_of entries)

-- Python's truth value of a value. A float is kept as its text, and nought is written `0.0`.
abbrev pub is_true : Json → Bool
is_true null = Bool.false
is_true (boolean b) = b
is_true (int n) = is_nonzero n
is_true (float text) = if str_eq text "0.0" || str_eq text "-0.0" then Bool.false else Bool.true
is_true (str text) = if is_empty text then Bool.false else Bool.true
is_true (arr nil) = Bool.false
is_true (arr (cons j js)) = Bool.true
is_true (obj end) = Bool.false
is_true (obj (field k v fs)) = Bool.true
