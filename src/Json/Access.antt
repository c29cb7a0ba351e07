-- ===== src/Json/Access.antt =====
-- How the translations of app/providers read a parsed value: `get`, iteration, `+` on texts, and
-- the types that pydantic checks. What Python refuses is an exception.
use cortex_cloud_api.Prelude.{
  String, str_eq, Bool, true, false, ◌&&◌, Option, none, some, List, [], ◌∷◌, any, if◌then◌else◌,
  ◌==◌,
}
use cortex_cloud_api.Prelude.Int.{ℤ, pos, pos_part, neg_part}
use cortex_cloud_api.Prelude.Text.{codes, concat, contains}
use cortex_cloud_api.Effects.{Exn, other, message, Result, ok, raised}
use cortex_cloud_api.Json.{
  Json, null, boolean, int, float, str, arr, obj, nil, cons, Fields, end, field, elems,
  lookup_field, is_true,
}

abbrev pub type_error : Exn
type_error = other (message "TypeError")

abbrev pub attribute_error : Exn
attribute_error = other (message "AttributeError")

abbrev pub validation_error : Exn
validation_error = other (message "ValidationError")

abbrev pub default_to : Json → Option Json → Json
default_to fallback none = fallback
default_to fallback (some value) = value

-- `value.get(key, fallback)`: only an object has `get`.
abbrev pub get_or : Json → String → Json → Result Json
get_or (obj fields) key fallback = ok (default_to fallback (lookup_field key fields))
get_or _ key fallback = raised attribute_error

abbrev pub get : Json → String → Result Json
get value key = get_or value key null

abbrev keys : Fields → List Json
keys end = []
keys (field k v fs) = str k ∷ keys fs

abbrev characters : String → List Json
characters String.[] = []
characters (String.◌∷◌ c s) = str (String.◌∷◌ c "") ∷ characters s

-- `for item in value`
abbrev pub items_of : Json → Result (List Json)
items_of (arr es) = ok (elems es)
items_of (obj fs) = ok (keys fs)
items_of (str s) = ok (characters s)
items_of _ = raised type_error

-- `value == "..."`
abbrev pub is_str : String → Json → Bool
is_str s (str t) = str_eq t s
is_str s _ = false

abbrev pub is_dict : Json → Bool
is_dict (obj fs) = true
is_dict _ = false

-- `text += value`
abbrev pub add_text : String → Json → Result String
add_text s (str t) = ok (concat s t)
add_text s _ = raised type_error

-- A field of type `str`, and of type `Optional[str]`.
abbrev pub as_text : Json → Result String
as_text (str s) = ok s
as_text _ = raised validation_error

abbrev pub as_optional_text : Json → Result (Option String)
as_optional_text null = ok none
as_optional_text (str s) = ok (some s)
as_optional_text _ = raised validation_error

abbrev bool_number : Bool → ℤ
bool_number true = pos 1
bool_number false = pos 0

-- A count of tokens. A text or a float is refused here, also where pydantic would read a number in
-- it.
abbrev pub as_int : Json → Result ℤ
as_int (int n) = ok n
as_int (boolean b) = ok (bool_number b)
as_int _ = raised validation_error

-- A key of a dict: `True` is the key 1, and a list or a dict cannot be one.
abbrev pub as_key : Json → Result Json
as_key (boolean b) = ok (int (bool_number b))
as_key (arr es) = raised type_error
as_key (obj fs) = raised type_error
as_key value = ok value

abbrev pub eq_ℤ : ℤ → ℤ → Bool
eq_ℤ m n = (pos_part m == pos_part n) && (neg_part m == neg_part n)

abbrev pub same_key : Json → Json → Bool
same_key null null = true
same_key (int m) (int n) = eq_ℤ m n
same_key (float s) (float t) = str_eq s t
same_key (str s) (str t) = str_eq s t
same_key _ _ = false

abbrev has_field : Option Json → Bool
has_field none = false
has_field (some value) = true

-- `key in value`: a key of a dict, a part of a text, or an item of a list.
abbrev pub has_key : String → Json → Result Bool
has_key key (obj fs) = ok (has_field (lookup_field key fs))
has_key key (str s) = ok (contains (codes s) (codes key))
has_key key (arr es) = ok (any (is_str key) (elems es))
has_key key _ = raised type_error

abbrev found : Option Json → Result Json
found none = raised (other (message "KeyError"))
found (some value) = ok value

-- `value[key]`
abbrev pub item_at : String → Json → Result Json
item_at key (obj fs) = found (lookup_field key fs)
item_at key _ = raised type_error

-- `value[0]`, if the value is true.
abbrev pub first_of : Json → Result (Option Json)
first_of (arr nil) = ok none
first_of (arr (cons j js)) = ok (some j)
first_of (str String.[]) = ok none
first_of (str (String.◌∷◌ c s)) = ok (some (str (String.◌∷◌ c "")))
first_of (obj end) = ok none
first_of (obj (field k v fs)) = raised (other (message "KeyError"))
first_of value = if is_true value then raised type_error else ok none

abbrev pub set_field : String → Json → Fields → Fields
set_field key value end = field key value end
set_field key value (field k v fs) =
    let later = set_field key value fs in if str_eq k key then field k value fs else field k v later

-- `value[key] = item`: of what is not a dict, a TypeError.
abbrev pub set_item : String → Json → Json → Result Json
set_item key item (obj fs) = ok (obj (set_field key item fs))
set_item key item _ = raised type_error
