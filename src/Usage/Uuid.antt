-- ===== src/Usage/Uuid.antt =====
-- `uuid.UUID(text)` of Python's library: "urn:", "uuid:", braces at the ends and hyphens are taken
-- out, and the 32 characters that are left go through `int(…, 16)`. The text is that of a header, which
-- is latin-1: of the digits of Unicode it has the ASCII ones only.
use cortex_cloud_api.Prelude.{
  ℕ, zero, suc, ◌+◌, ◌-◌, ◌*◌, String, Bool, true, false, ◌&&◌, ◌||◌, Option, none, some, List, [],
  ◌∷◌, leb, ◌==◌, length, select, not, if◌then◌else◌,
}
use cortex_cloud_api.Prelude.Text.{codes, starts_with, is_int_blank}

-- `s.replace(old, "")`: `skip` characters are still to be dropped.
abbrev pub remove_from : List ℕ → ℕ → List ℕ → List ℕ
remove_from old skip [] = []
remove_from old zero (c ∷ s) =
    let dropped = remove_from old (length old - 1) s in
    let kept = c ∷ remove_from old zero s in if starts_with (c ∷ s) old then dropped else kept
remove_from old (suc skip) (c ∷ s) = remove_from old skip s

abbrev is_brace : ℕ → Bool
is_brace c = (c == b'{') || (c == b'}')

abbrev strip_left : List ℕ → List ℕ
strip_left [] = []
strip_left (c ∷ s) = if is_brace c then strip_left s else c ∷ s

abbrev strip_right : List ℕ → List ℕ
strip_right [] = []
strip_right (c ∷ s) =
    let rest = strip_right s in if is_brace c && (length rest == 0) then [] else c ∷ rest

abbrev hex_digit : ℕ → Option ℕ
hex_digit c =
    if leb b'0' c && leb c b'9'
    then some (c - 48)
    else if leb b'a' c && leb c b'f'
    then some (c - 87)
    else if leb b'A' c && leb c b'F'
    then some (c - 55)
    else none

abbrev push_digit : ℕ → Option ℕ → Option ℕ
push_digit acc none = none
push_digit acc (some d) = some (16 * acc + d)

-- The number of some digits alone.
abbrev pub hex_value : Option ℕ → List ℕ → Option ℕ
hex_value acc [] = acc
hex_value none (c ∷ s) = none
hex_value (some n) (c ∷ s) = hex_value (push_digit n (hex_digit c)) s

abbrev drop_blanks : List ℕ → List ℕ
drop_blanks [] = []
drop_blanks (c ∷ s) = let rest = drop_blanks s in if is_int_blank c then rest else c ∷ s

abbrev drop_last_blanks : List ℕ → List ℕ
drop_last_blanks [] = []
drop_last_blanks (c ∷ s) =
    let rest = drop_last_blanks s in if is_int_blank c && (length rest == 0) then [] else c ∷ rest

-- The hyphens are gone, so there is no minus.
abbrev after_sign : List ℕ → List ℕ
after_sign [] = []
after_sign (c ∷ s) = if c == b'+' then s else c ∷ s

abbrev after_underscore : List ℕ → List ℕ
after_underscore [] = []
after_underscore (c ∷ s) = if c == b'_' then s else c ∷ s

-- `0x`, and one underscore behind it.
abbrev after_prefix : List ℕ → List ℕ
after_prefix [] = []
after_prefix (c ∷ []) = c ∷ []
after_prefix (c ∷ x ∷ s) =
    if (c == b'0') && ((x == b'x') || (x == b'X')) then after_underscore s else c ∷ x ∷ s

-- The number so far, and whether a digit has to follow: it does at the beginning and behind an
-- underscore.
abbrev next_digit : Option (ℕ × Bool) → ℕ → Option (ℕ × Bool)
next_digit none c = none
next_digit (some (acc, needed)) c =
    if c == b'_'
    then if needed then none else some (acc, true)
    else elim (hex_digit c) [ none ↦ none | some d ↦ some (16 * acc + d, false) ]

abbrev digits_from : Option (ℕ × Bool) → List ℕ → Option ℕ
digits_from none [] = none
digits_from (some (acc, needed)) [] = if needed then none else some acc
digits_from o (c ∷ s) = digits_from (next_digit o c) s

-- `int(s, 16)`
abbrev int_16 : List ℕ → Option ℕ
int_16 s =
    digits_from (some (0, true)) (after_prefix (after_sign (drop_last_blanks (drop_blanks s))))

unfoldable pub uuid_of : String → Option ℕ
uuid_of text =
    let bare = remove_from (codes "uuid:") 0 (remove_from (codes "urn:") 0 (codes text)) in
    let hex = select (λ c. not (c == b'-')) (strip_right (strip_left bare)) in
    if length hex == 32 then int_16 hex else none
