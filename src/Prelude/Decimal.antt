-- ===== src/Prelude/Decimal.antt =====
-- Decimal numbers in text, as `format!("{}", n)` writes them and `str::parse` reads them.
use Prim.Native.Nat.{ℕ, zero, suc, ◌+◌, ◌-◌, ◌*◌, ◌/◌, ◌%◌, ◌^◌, ◌<◌, ◌≤◌}
use mathlib.Core.Path.{◌≡◌, refl}
use mathlib.Core.Logic.{inl, inr}
use mathlib.Core.Bool.{Bool, true, false, ◌&&◌}
use mathlib.Core.Option.{Option, none, some}
use mathlib.Core.List.{[], ◌∷◌, ◌++◌}
use native.Mathlib.Omega.{arith}
use skin_get_be_rust.Prelude.Tests.{ltb, leb, ◌==◌, if◌then◌else◌, Bool-cases}
use skin_get_be_rust.Prelude.Text.{Chars}

abbrev pub digit : ℕ → ℕ
digit d = b'0' + d

unfoldable pub decimal_onto : ℕ → ℕ → Chars → Chars
decimal_onto zero n tail = tail
decimal_onto (suc fuel) n tail =
    let more = decimal_onto fuel (n / 10) (digit (n % 10) ∷ tail) in
    if ltb n 10 then digit n ∷ tail else more

-- `n.to_string()`; a number has fewer digits than its successor counts.
abbrev pub decimal : ℕ → Chars
decimal n = decimal_onto (suc n) n []

abbrev pub is_digit : ℕ → Bool
is_digit c = leb b'0' c && leb c b'9'

-- The number that the digits at the front of a text continue.
unfoldable pub digits_value : ℕ → Chars → ℕ
digits_value n [] = n
digits_value n (c ∷ s) =
    let more = digits_value (n * 10 + (c - b'0')) s in if is_digit c then more else n

-- The integers, for the signed reader.
pub data ℤ : Type 0 where
  pos negsuc : ℕ → ℤ

-- A text of digits only; the empty text is refused by the callers.
abbrev pub all_digits : ℕ → Chars → Option ℕ
all_digits n [] = some n
all_digits n (c ∷ s) =
    let more = all_digits (n * 10 + (c - b'0')) s in if is_digit c then more else none

abbrev pub magnitude : Chars → Option ℕ
magnitude [] = none
magnitude (c ∷ s) = all_digits 0 (c ∷ s)

abbrev pub below : ℕ → Option ℕ → Option ℕ
below bound none = none
below bound (some n) = if ltb n bound then some n else none

-- `s.parse::<u32>().ok()`
unfoldable pub parse_u32 : Chars → Option ℕ
parse_u32 [] = none
parse_u32 (c ∷ s) = below (2 ^ 32) (if c == b'+' then magnitude s else magnitude (c ∷ s))

abbrev pub positive : Option ℕ → Option ℤ
positive none = none
positive (some n) = some (pos n)

abbrev pub negative : Option ℕ → Option ℤ
negative none = none
negative (some zero) = some (pos 0)
negative (some (suc n)) = some (negsuc n)

-- `s.parse::<i32>().ok()`
unfoldable pub parse_i32 : Chars → Option ℤ
parse_i32 [] = none
parse_i32 (c ∷ s) =
    if c == b'-'
    then negative (below (2 ^ 31 + 1) (magnitude s))
    else if c == b'+'
    then positive (below (2 ^ 31) (magnitude s))
    else positive (below (2 ^ 31) (magnitude (c ∷ s)))

digits_value-decimal_onto :
    (fuel n : ℕ) (tail : Chars)
    → n < fuel
    → digits_value 0 (decimal_onto fuel n tail) ≡ digits_value n tail
unfolding decimal_onto digits_value
digits_value-decimal_onto zero n tail h = absurd (omega arith)
digits_value-decimal_onto (suc fuel) n tail h = elim (Bool-cases (ltb n 10)) [
  | inl small ↦
      let low : leb b'0' (digit n) ≡ true = ground arith in
      let high : leb (digit n) b'9' ≡ true = ground arith in
      let same : 0 * 10 + (digit n - b'0') ≡ n = omega arith in rw (small, low, high, same)
  | inr large ↦
      let ten : 10 ≤ n = ground arith in
      let below : n / 10 < fuel = omega arith in
      let low : leb b'0' (digit (n % 10)) ≡ true = ground arith in
      let high : leb (digit (n % 10)) b'9' ≡ true = ground arith in
      let same : n / 10 * 10 + (digit (n % 10) - b'0') ≡ n = omega arith in
      rw (
        large,
        digits_value-decimal_onto fuel (n / 10) (digit (n % 10) ∷ tail) below,
        low,
        high,
        same,
      )
]

decimal_onto-append :
    (fuel n : ℕ) (tail s : Chars) → decimal_onto fuel n tail ++ s ≡ decimal_onto fuel n (tail ++ s)
unfolding decimal_onto
decimal_onto-append zero n tail s = refl
decimal_onto-append (suc fuel) n tail s = elim (Bool-cases (ltb n 10)) [
  | inl small ↦ rw small
  | inr large ↦ rw (large, decimal_onto-append fuel (n / 10) (digit (n % 10) ∷ tail) s)
]

-- A number in front of something that is no digit is read back.
pub digits_value-decimal :
    (n c : ℕ) (s : Chars) → is_digit c ≡ false → digits_value 0 (decimal n ++ c ∷ s) ≡ n
unfolding digits_value
digits_value-decimal n c s h = rw (
  decimal_onto-append (suc n) n [] (c ∷ s),
  digits_value-decimal_onto (suc n) n (c ∷ s) (omega arith),
  h,
)
