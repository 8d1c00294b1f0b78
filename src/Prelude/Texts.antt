-- ===== src/Prelude/Texts.antt =====
-- The functions of Go's package strings that the code calls, on native texts.
use Prim.Native.Nat.{ℕ, ◌+◌, ◌-◌}
use Prim.Native.Char.{Char, code}
use Prim.Native.String.{String, ◌++◌, len, slice}
use mathlib.Core.Path.{◌≡◌, refl}
use mathlib.Core.Bool.{Bool, true, false, ◌&&◌, ◌||◌}
use mathlib.Core.Option.{Option, none, some}
use mathlib.Core.List.{List, [], ◌∷◌}
use native.Mathlib.Omega.{arith}
use text.Mathlib.Text.{◌==◌, find?}
use text.Mathlib.TextPositions.{len-append, slice-append_left, slice-append_right, eq_refl}
use atlasic.Prelude.Tests.{leb, nat_eq, if◌then◌else◌}

abbrev pub concat : String → String → String
concat s t = s ++ t

-- `len` of a text or of its bytes.
abbrev pub byte_count : String → ℕ
byte_count s = len s

-- What `fmt.Sprintf` and a `strings.Builder` make: the pieces, one behind the other.
abbrev pub joined : List String → String
joined [] = ""
joined (s ∷ pieces) = s ++ joined pieces

-- `strings.HasSuffix`
abbrev pub has_suffix : String → String → Bool
has_suffix s t = leb (len t) (len s) && (slice s (len s - len t) (len s) == t)

-- `strings.TrimSuffix`
abbrev pub trim_suffix : String → String → String
trim_suffix s t = if has_suffix s t then slice s 0 (len s - len t) else s

abbrev pub is_some {ℓ} : {A : Type ℓ} → Option A → Bool
is_some none = false
is_some (some a) = true

-- `strings.Contains`
abbrev pub contains : String → String → Bool
contains s t = is_some (find? s t)

-- The part before the first separator, `strings.Cut`; the separator is a character's number.
abbrev pub before : ℕ → String → String
before at String.[] = ""
before at (String.◌∷◌ c s) =
    let rest = before at s in if nat_eq (code c) at then "" else String.◌∷◌ c rest

abbrev pub onto_first : Char → List String → List String
onto_first c [] = String.◌∷◌ c "" ∷ []
onto_first c (w ∷ ws) = String.◌∷◌ c w ∷ ws

-- `strings.Split`
abbrev pub split : ℕ → String → List String
split at String.[] = "" ∷ []
split at (String.◌∷◌ c s) =
    let rest = split at s in if nat_eq (code c) at then "" ∷ rest else onto_first c rest

-- What `unicode.IsSpace` takes for white space.
abbrev pub is_unicode_space : ℕ → Bool
is_unicode_space c =
    (leb 9 c && leb c 13)
    || nat_eq c 32
    || nat_eq c 133
    || nat_eq c 160
    || nat_eq c 5760
    || (leb 8192 c && leb c 8202)
    || nat_eq c 8232
    || nat_eq c 8233
    || nat_eq c 8239
    || nat_eq c 8287
    || nat_eq c 12288

abbrev pub trim_left_of : (ℕ → Bool) → String → String
trim_left_of space String.[] = ""
trim_left_of space (String.◌∷◌ c s) =
    let rest = trim_left_of space s in if space (code c) then rest else String.◌∷◌ c s

abbrev pub trim_right_of : (ℕ → Bool) → String → String
trim_right_of space String.[] = ""
trim_right_of space (String.◌∷◌ c s) =
    let rest = trim_right_of space s in
    if space (code c) && (rest == "") then "" else String.◌∷◌ c rest

-- `strings.TrimSpace` of any text.
abbrev pub trim_unicode_space : String → String
trim_unicode_space s = trim_left_of is_unicode_space (trim_right_of is_unicode_space s)

-- `slices.Contains`
abbrev pub is_in : String → List String → Bool
is_in mode [] = false
is_in mode (m ∷ modes) = (m == mode) || is_in mode modes

leb-add : (a b : ℕ) → leb b (a + b) ≡ true
leb-add a b = ground arith

add-sub : (a b : ℕ) → (a + b) - b ≡ a
add-sub a b = omega arith

pub has_suffix-concat : (s t : String) → has_suffix (s ++ t) t ≡ true
has_suffix-concat s t =
    rw
      (
        len-append s t,
        leb-add (len s) (len t),
        add-sub (len s) (len t),
        slice-append_right s t,
        eq_refl t,
      )
      refl

pub trim_suffix-concat : (s t : String) → trim_suffix (s ++ t) t ≡ s
trim_suffix-concat s t =
    rw (has_suffix-concat s t, len-append s t, add-sub (len s) (len t), slice-append_left s t) refl
