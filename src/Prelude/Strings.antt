-- ===== src/Prelude/Strings.antt =====
-- Python's methods of a text that give texts: `strip`, `s[n:]` and `split` at a separator.
use Prim.Native.Char.{Char, code}
use mathlib.Core.Path.{◌≡◌, refl}
use mathlib.Core.Logic.{inl, inr}
use mathlib.Core.Bool.{false}
use cortex_cloud_api.Prelude.Tests.{Bool-cases}
use cortex_cloud_api.Prelude.Text.{is_blank}
use Prim.Native.Nat.{ℕ, zero, suc, ◌-◌}
use Prim.Native.String.{String}
use mathlib.Core.Bool.{Bool, ◌&&◌}
use mathlib.Core.List.{List, [], ◌∷◌}
pub use text.Mathlib.TextLemmas.{
  append_assoc as concat_assoc, append-nil as concat-empty, nil-append as empty-concat,
  append_cancel_left as concat_cancel,
}
use cortex_cloud_api.Prelude.Lists.{length}
use cortex_cloud_api.Prelude.Tests.{if◌then◌else◌}
use cortex_cloud_api.Prelude.Text.{codes, starts_with, is_empty, push}

-- `s.lstrip(...)` and `s.rstrip(...)`, for the characters that satisfy `p`.
abbrev pub lstrip_by : (ℕ → Bool) → String → String
lstrip_by p String.[] = ""
lstrip_by p (String.◌∷◌ c s) =
    let rest = lstrip_by p s in if p (code c) then rest else String.◌∷◌ c s

abbrev pub rstrip_by : (ℕ → Bool) → String → String
rstrip_by p String.[] = ""
rstrip_by p (String.◌∷◌ c s) =
    let rest = rstrip_by p s in if is_empty rest && p (code c) then "" else String.◌∷◌ c rest

abbrev pub strip_by : (ℕ → Bool) → String → String
strip_by p s = rstrip_by p (lstrip_by p s)

-- `s[n:]`
abbrev pub drop_chars : ℕ → String → String
drop_chars zero s = s
drop_chars (suc n) String.[] = ""
drop_chars (suc n) (String.◌∷◌ c s) = drop_chars n s

-- `s[:n]`
abbrev pub take_chars : ℕ → String → String
take_chars zero s = ""
take_chars (suc n) String.[] = ""
take_chars (suc n) (String.◌∷◌ c s) = String.◌∷◌ c (take_chars n s)

-- `s.split(separator)`: `skip` characters of a separator are still to be passed over.
abbrev pub split_from : List ℕ → ℕ → String → String → List String
split_from separator skip piece String.[] = piece ∷ []
split_from separator (suc skip) piece (String.◌∷◌ c s) = split_from separator skip piece s
split_from separator zero piece (String.◌∷◌ c s) =
    let cut = piece ∷ split_from separator (length separator - 1) "" s in
    let longer = split_from separator 0 (push piece c) s in
    if starts_with (codes (String.◌∷◌ c s)) separator then cut else longer

abbrev pub split_on : String → String → List String
split_on separator s = split_from (codes separator) 0 "" s

-- A text whose first character is no blank is not empty.
pub strip-nonblank :
    (c : Char) (s : String)
    → is_blank (code c) ≡ false
    → is_empty (strip_by is_blank (String.◌∷◌ c s)) ≡ false
strip-nonblank c s h = rw h (elim (Bool-cases (is_empty (rstrip_by is_blank s))) [
  | inl e ↦ rw (e, h) refl
  | inr e ↦ rw e refl
])
