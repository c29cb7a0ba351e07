-- ===== src/Prelude/Text.antt =====
-- Python's text operations that the gateway uses, over the code points of a text.
use Prim.Native.Char.{Char, code}
use Prim.Native.Nat.{ℕ, ◌+◌}
use Prim.Native.String
use Prim.Native.String.{String}
use mathlib.Core.Bool.{Bool, true, false, ◌&&◌, ◌||◌}
use mathlib.Core.Option.{Option, none, some}
use mathlib.Core.List.{List, [], ◌∷◌, map}
use cortex_cloud_api.Prelude.Tests.{leb, ◌==◌, if◌then◌else◌}

-- The code points of a text. `String` has its own `[]` and `∷`.
abbrev pub codes : String → List ℕ
codes String.[] = []
codes (String.◌∷◌ c s) = code c ∷ codes s

abbrev pub push : String → Char → String
push s c = String.◌++◌ s (String.◌∷◌ c "")

abbrev pub concat : String → String → String
concat s t = String.◌++◌ s t

abbrev pub eq_codes : List ℕ → List ℕ → Bool
eq_codes [] [] = true
eq_codes (a ∷ s) (b ∷ t) = (a == b) && eq_codes s t
eq_codes _ _ = false

abbrev pub starts_with : List ℕ → List ℕ → Bool
starts_with s [] = true
starts_with [] (b ∷ t) = false
starts_with (a ∷ s) (b ∷ t) = (a == b) && starts_with s t

-- `t in s`
abbrev pub contains : List ℕ → List ℕ → Bool
contains [] t = starts_with [] t
contains (c ∷ s) t = starts_with (c ∷ s) t || contains s t

-- `c.lower()`, on ASCII.
abbrev pub lower_code : ℕ → ℕ
lower_code c = if leb b'A' c && leb c b'Z' then c + 32 else c

abbrev pub lower : String → List ℕ
lower s = map lower_code (codes s)

-- The blanks beyond ASCII.
abbrev pub is_wide_blank : ℕ → Bool
is_wide_blank c =
    (c == 133)
    || (c == 160)
    || (c == 5760)
    || (leb 8192 c && leb c 8202)
    || (c == 8232)
    || (c == 8233)
    || (c == 8239)
    || (c == 8287)
    || (c == 12288)

-- The blanks at which `split()` cuts and which `strip()` drops.
abbrev pub is_blank : ℕ → Bool
is_blank c = (c == 32) || (leb 9 c && leb c 13) || (leb 28 c && leb c 31) || is_wide_blank c

-- The blanks that `int` drops at the ends.
abbrev pub is_int_blank : ℕ → Bool
is_int_blank c = (c == 32) || (leb 9 c && leb c 13) || is_wide_blank c

abbrev pub is_empty : String → Bool
is_empty String.[] = true
is_empty (String.◌∷◌ c s) = false

abbrev pub close_word : String → List String → List String
close_word word rest = if is_empty word then rest else word ∷ rest

-- `s.split()`: the words between blanks, none of them empty.
split_from : String → String → List String
split_from word String.[] = close_word word []
split_from word (String.◌∷◌ c s) =
    let cut = close_word word (split_from "" s) in
    let longer = split_from (push word c) s in if is_blank (code c) then cut else longer

unfoldable pub split : String → List String
unfolding split_from
split s = split_from "" s

after_space : String → Option String
after_space String.[] = none
after_space (String.◌∷◌ c s) = if code c == 32 then some s else after_space s

-- `k.split(" ", 1)[1] if " " in k else k`
unfoldable pub path_after_space : String → String
unfolding after_space
path_after_space k = elim (after_space k) [ none ↦ k | some path ↦ path ]
