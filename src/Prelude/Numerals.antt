-- ===== src/Prelude/Numerals.antt =====
-- Go's `%d` and `%03d` of package fmt, for numbers that are not negative.
use Prim.Native.Nat.{ℕ, zero, suc, ◌+◌, ◌-◌, ◌*◌, ◌/◌, ◌%◌, ◌<◌}
use Prim.Native.Char.{Char, code}
use Prim.Native.String.{String, ◌++◌, len}
use mathlib.Core.Path.{◌≡◌, refl, sym, ap, ◌∙◌}
use mathlib.Core.Bool.{true}
use mathlib.Core.Logic.{inl, inr}
use native.Mathlib.Omega.{arith}
use text.Mathlib.TextLemmas.{nil-append, cons-append}
use atlasic.Prelude.Tests.{ltb, if◌then◌else◌, Bool-cases}

abbrev pub digit : ℕ → Char
digit zero = "0"
digit (suc zero) = "1"
digit (suc (suc zero)) = "2"
digit (suc (suc (suc zero))) = "3"
digit (suc (suc (suc (suc zero)))) = "4"
digit (suc (suc (suc (suc (suc zero))))) = "5"
digit (suc (suc (suc (suc (suc (suc zero)))))) = "6"
digit (suc (suc (suc (suc (suc (suc (suc zero))))))) = "7"
digit (suc (suc (suc (suc (suc (suc (suc (suc zero)))))))) = "8"
digit _ = "9"

-- The fuel bounds the number of digits.
abbrev digits_of : ℕ → ℕ → String
digits_of zero n = ""
digits_of (suc fuel) n =
    let more = digits_of fuel (n / 10) in
    if ltb n 10 then String.◌∷◌ (digit n) "" else more ++ String.◌∷◌ (digit (n % 10)) ""

ltb→lt : (a b : ℕ) → ltb a b ≡ true → a < b
ltb→lt a b h = ground arith

zero-add : (n : ℕ) → 0 + n ≡ n
zero-add n = omega arith

-- A number has at most as many digits as it counts, or one.
unfoldable pub decimal : ℕ → String
decimal n = digits_of (suc n) n

abbrev zeros : ℕ → String → String
zeros zero s = s
zeros (suc n) s = String.◌∷◌ "0" (zeros n s)

unfoldable pub pad_zeros : ℕ → String → String
pad_zeros width s = zeros (width - len s) s

-- The number that a row of digits stands for, after one that is read already.
value_from : ℕ → String → ℕ
value_from acc String.[] = acc
value_from acc (String.◌∷◌ c s) = value_from (acc * 10 + (code c - 48)) s

digit_lem : (d : ℕ) → d < 10 → code (digit d) - 48 ≡ d
digit_lem zero h = refl
digit_lem (suc zero) h = refl
digit_lem (suc (suc zero)) h = refl
digit_lem (suc (suc (suc zero))) h = refl
digit_lem (suc (suc (suc (suc zero)))) h = refl
digit_lem (suc (suc (suc (suc (suc zero))))) h = refl
digit_lem (suc (suc (suc (suc (suc (suc zero)))))) h = refl
digit_lem (suc (suc (suc (suc (suc (suc (suc zero))))))) h = refl
digit_lem (suc (suc (suc (suc (suc (suc (suc (suc zero)))))))) h = refl
digit_lem (suc (suc (suc (suc (suc (suc (suc (suc (suc zero))))))))) h = refl
digit_lem (suc (suc (suc (suc (suc (suc (suc (suc (suc (suc d)))))))))) h = absurd (omega arith)

value_from-append :
    (acc : ℕ) (s : String) (c : Char)
    → value_from acc (s ++ String.◌∷◌ c "") ≡ value_from acc s * 10 + (code c - 48)
unfolding value_from
value_from-append acc String.[] c = rw (nil-append (String.◌∷◌ c "")) refl
value_from-append acc (String.◌∷◌ d s) c =
    rw (cons-append d s (String.◌∷◌ c "")) (value_from-append (acc * 10 + (code d - 48)) s c)

value_from-digits_of : (fuel n : ℕ) → n < fuel → value_from 0 (digits_of fuel n) ≡ n
unfolding value_from
value_from-digits_of zero n h = absurd (omega arith)
value_from-digits_of (suc fuel) n h = elim (Bool-cases (ltb n 10)) [
  | inl small ↦ rw small (zero-add (code (digit n) - 48) ∙ digit_lem n (ltb→lt n 10 small))
  | inr large ↦
      rw
        (
          large,
          value_from-append 0 (digits_of fuel (n / 10)) (digit (n % 10)),
          digit_lem (n % 10) (omega arith),
          value_from-digits_of fuel (n / 10) (ground arith),
        )
        (omega arith)
]

value_from-zeros : (n : ℕ) (s : String) → value_from 0 (zeros n s) ≡ value_from 0 s
unfolding value_from
value_from-zeros zero s = refl
value_from-zeros (suc n) s = value_from-zeros n s

value_from-padded : (width n : ℕ) → value_from 0 (pad_zeros width (decimal n)) ≡ n
unfolding pad_zeros decimal
value_from-padded width n =
    value_from-zeros (width - len (decimal n)) (decimal n)
    ∙ value_from-digits_of (suc n) n (omega arith)

-- Two numbers that print alike are the same.
pub pad_zeros-decimal_inj :
    (width m n : ℕ) → pad_zeros width (decimal m) ≡ pad_zeros width (decimal n) → m ≡ n
pad_zeros-decimal_inj width m n h =
    sym (value_from-padded width m) ∙ ap (value_from 0) h ∙ value_from-padded width n
