-- ===== src/Prelude/Bits.antt =====
-- `|`, `&` and shifts of machine words as arithmetic. The native operations mean a recursion
-- on binary digits with fuel; `or_low_digit` and `and_low_digit` state one digit without the fuel.
use Prim.Native.Nat.{
  ℕ, zero, suc, ◌+◌, ◌-◌, ◌*◌, ◌/◌, ◌%◌, ◌^◌, ◌≤◌, ◌<◌, min, max, bit_and, bit_or, digits,
  bit_and-bitwise, bit_or-bitwise,
}
use mathlib.Core.Path.{◌≡◌, refl, ap, ◌∙◌}
use mathlib.Core.Bool.{Bool, true, ◌&&◌}
use native.Mathlib.Omega.{arith}
use native.Mathlib.Nat.{pow-suc, div-add-mod, mod-lt, mod-eq_of_lt, add-mul-mod_self_left}
use skin_get_be_rust.Prelude.Tests.{◌==◌, ==_iff, Bool-cases}
use mathlib.Core.Logic.{inl, inr}

-- The recursion does not depend on the fuel, once there is enough of it.
enough_fuel :
    (base : ℕ → ℕ) (op : ℕ → ℕ → ℕ) (more less x y : ℕ)
    → less ≤ more
    → x ≤ less
    → digits base op more x y ≡ digits base op less x y
enough_fuel base op zero zero zero y le h = refl
enough_fuel base op (suc more) zero zero y le h = refl
enough_fuel base op more zero (suc x) y le h = absurd (omega arith)
enough_fuel base op zero (suc less) x y le h = absurd (omega arith)
enough_fuel base op (suc more) (suc less) zero y le h = refl
enough_fuel base op (suc more) (suc less) (suc x) y le h =
    ap (λ t. t * 2 + op (suc x % 2) (y % 2))
      (enough_fuel base op more less (suc x / 2) (y / 2) (omega arith) (omega arith))

or_low_digit : (x y : ℕ) → bit_or x y ≡ bit_or (x / 2) (y / 2) * 2 + max (x % 2) (y % 2)
or_low_digit zero y = simp bit_or-bitwise (omega arith)
or_low_digit (suc x) y = simp bit_or-bitwise (
    omega (
      arith,
      enough_fuel (λ b. b) max x (suc x / 2) (suc x / 2) (y / 2) (omega arith) (omega arith),
    ))

and_low_digit : (x y : ℕ) → bit_and x y ≡ bit_and (x / 2) (y / 2) * 2 + min (x % 2) (y % 2)
and_low_digit zero y = simp bit_and-bitwise (omega arith)
and_low_digit (suc x) y = simp bit_and-bitwise (
    omega (
      arith,
      enough_fuel (λ b. 0) min x (suc x / 2) (suc x / 2) (y / 2) (omega arith) (omega arith),
    ))

-- Shifts. A shift to the left drops what leaves the word of `w` bits.
abbrev pub shl : ℕ → ℕ → ℕ → ℕ
shl w x k = x * 2 ^ k % 2 ^ w

abbrev pub shr : ℕ → ℕ → ℕ
shr x k = x / 2 ^ k

or_zero_fuel : (fuel x : ℕ) → x ≤ fuel → bit_or x 0 ≡ x
or_zero_fuel zero zero h = refl
or_zero_fuel zero (suc x) h = absurd (omega arith)
or_zero_fuel (suc fuel) zero h = refl
or_zero_fuel (suc fuel) (suc x) h =
    omega (arith, or_low_digit (suc x) 0, or_zero_fuel fuel (suc x / 2) (omega arith))

pub or_zero : (x : ℕ) → bit_or x 0 ≡ x
or_zero x = or_zero_fuel x x (omega arith)

pub zero_or : (x : ℕ) → bit_or 0 x ≡ x
zero_or x = simp bit_or-bitwise

and_zero_fuel : (fuel x : ℕ) → x ≤ fuel → bit_and x 0 ≡ 0
and_zero_fuel zero zero h = refl
and_zero_fuel zero (suc x) h = absurd (omega arith)
and_zero_fuel (suc fuel) zero h = refl
and_zero_fuel (suc fuel) (suc x) h =
    omega (arith, and_low_digit (suc x) 0, and_zero_fuel fuel (suc x / 2) (omega arith))

and_zero : (x : ℕ) → bit_and x 0 ≡ 0
and_zero x = and_zero_fuel x x (omega arith)

double_power : (x k : ℕ) → x * 2 ^ suc k ≡ 2 * (x * 2 ^ k)
double_power x k = omega (arith, ap (λ (t : ℕ). x * t) (pow-suc 2 k))

-- Fields that do not overlap are joined by `|` as by `+`, the high one first or last.
pub or_fields : (k hi lo : ℕ) → lo < 2 ^ k → bit_or (hi * 2 ^ k) lo ≡ hi * 2 ^ k + lo
or_fields zero hi lo h = let e : lo ≡ 0 = omega arith in rw e (omega (arith, or_zero (hi * 2 ^ 0)))
or_fields (suc k) hi lo h = omega (
  arith,
  or_low_digit (hi * 2 ^ suc k) lo,
  ap (λ (t : ℕ). bit_or t (lo / 2)) (half hi k),
  double_power hi k,
  pow-suc 2 k,
  or_fields k hi (lo / 2) (omega (arith, pow-suc 2 k)),
)
  where
    half : (x j : ℕ) → x * 2 ^ suc j / 2 ≡ x * 2 ^ j
    half x j = omega (arith, double_power x j)

or_comm_fuel : (fuel x y : ℕ) → x ≤ fuel → y ≤ fuel → bit_or x y ≡ bit_or y x
or_comm_fuel zero zero zero h g = refl
or_comm_fuel zero zero (suc y) h g = absurd (omega arith)
or_comm_fuel zero (suc x) y h g = absurd (omega arith)
or_comm_fuel (suc fuel) x y h g = omega (
  arith,
  or_low_digit x y,
  or_low_digit y x,
  or_comm_fuel fuel (x / 2) (y / 2) (omega arith) (omega arith),
)

pub or_comm : (x y : ℕ) → bit_or x y ≡ bit_or y x
or_comm x y = or_comm_fuel (x + y) x y (omega arith) (omega arith)

two_pow_pos : (k : ℕ) → 0 < 2 ^ k
two_pow_pos zero = omega arith
two_pow_pos (suc k) = omega (arith, two_pow_pos k, pow-suc 2 k)

half_mask : (k : ℕ) → (2 ^ suc k - 1) / 2 ≡ 2 ^ k - 1
half_mask k = omega (arith, pow-suc 2 k, two_pow_pos k)

mod_unique : (m q r x : ℕ) → r < m → x ≡ r + m * q → x % m ≡ r
mod_unique m q r x small e = rw e (add-mul-mod_self_left r m q ∙ mod-eq_of_lt small)

-- The remainder by `2 ^ (k + 1)`, from the remainder of the half.
mod_two_pow_suc : (k x : ℕ) → x % 2 ^ suc k ≡ x / 2 % 2 ^ k * 2 + x % 2
mod_two_pow_suc k x =
    mod_unique (2 ^ suc k) (x / 2 / 2 ^ k) _ x
      (omega (arith, pow-suc 2 k, mod-lt (x / 2) (two_pow_pos k)))
      (omega
        (arith, div-add-mod (x / 2) (2 ^ k), ap (λ (t : ℕ). t * (x / 2 / 2 ^ k)) (pow-suc 2 k)))

-- A mask of `k` ones is the remainder by `2 ^ k`.
pub and_mask : (k x : ℕ) → bit_and x (2 ^ k - 1) ≡ x % 2 ^ k
and_mask zero x = omega (arith, and_zero x)
and_mask (suc k) x = omega (
  arith,
  and_low_digit x (2 ^ suc k - 1),
  ap (λ (t : ℕ). bit_and (x / 2) t) (half_mask k),
  pow-suc 2 k,
  two_pow_pos k,
  and_mask k (x / 2),
  mod_two_pow_suc k x,
)

-- A law of one byte is tried at each value in turn, from `start` on.
tried : (ℕ → Bool) → (start rounds : ℕ) → Bool
tried law start zero = true
tried law start (suc rounds) = law start && tried law (start + 1) rounds

tried_lem :
    (law : ℕ → Bool) (rounds start x : ℕ)
    → start ≤ x
    → x < start + rounds
    → tried law start rounds ≡ true
    → law x ≡ true
unfolding tried
tried_lem law zero start x low high h = absurd (omega arith)
tried_lem law (suc rounds) start x low high h = elim (Bool-cases (start == x)) [
  | inl here ↦ ground (arith, ap law ((==_iff start x).0 here))
  | inr later ↦ ground (arith, tried_lem law rounds (start + 1) x)
]

top_bit_table : tried (λ x. bit_and x 0x80 == x / 128 * 128) 0 256 ≡ true
unfolding tried
top_bit_table = refl

pub and_top_bit : (x : ℕ) → x < 256 → bit_and x 0x80 ≡ x / 128 * 128
and_top_bit x h = (==_iff _ _).0 (tried_lem _ 256 0 x (omega arith) h top_bit_table)

split_bit_table : tried (λ x. bit_and x 0x10 == x / 16 % 2 * 16) 0 256 ≡ true
unfolding tried
split_bit_table = refl

pub and_split_bit : (x : ℕ) → x < 256 → bit_and x 0x10 ≡ x / 16 % 2 * 16
and_split_bit x h = (==_iff _ _).0 (tried_lem _ 256 0 x (omega arith) h split_bit_table)

-- The masks that the code writes.
pub and_0xff : (x : ℕ) → bit_and x 0xff ≡ x % 256
and_0xff x = and_mask 8 x

pub and_0x7f : (x : ℕ) → bit_and x 0x7f ≡ x % 128
and_0x7f x = and_mask 7 x

pub and_0x07 : (x : ℕ) → bit_and x 0x07 ≡ x % 8
and_0x07 x = and_mask 3 x

-- `lo | hi << k`, for fields that do not overlap.
pub fields_or : (k hi lo : ℕ) → lo < 2 ^ k → bit_or lo (hi * 2 ^ k) ≡ lo + hi * 2 ^ k
fields_or k hi lo h = or_comm lo (hi * 2 ^ k) ∙ omega (arith, or_fields k hi lo h)

pub set_top_bit : (x : ℕ) → x < 128 → bit_or x 0x80 ≡ x + 128
set_top_bit x h = fields_or 7 1 x h

pub or_0x10 : (x : ℕ) → bit_or (x * 32) 0x10 ≡ x * 32 + 16
or_0x10 x = or_fields 5 x 16 (omega arith)

-- A shifted field beside one that lies below it, in a word of `w` bits that holds both.
module _ (w k hi lo : ℕ) (below : lo < 2 ^ k) (fits : hi * 2 ^ k < 2 ^ w) where
  pub or_shl : bit_or lo (shl w hi k) ≡ lo + hi * 2 ^ k
  or_shl = rw (mod-eq_of_lt fits) (fields_or k hi lo below)

  pub shl_or : bit_or (shl w hi k) lo ≡ hi * 2 ^ k + lo
  shl_or = rw (mod-eq_of_lt fits) (or_fields k hi lo below)

-- `|` stays inside the word of its operands.
pub or_lt : (k x y : ℕ) → x < 2 ^ k → y < 2 ^ k → bit_or x y < 2 ^ k
or_lt zero x y hx hy =
    let ex : x ≡ 0 = omega arith in let ey : y ≡ 0 = omega arith in rw (ex, ey) (omega arith)
or_lt (suc k) x y hx hy = omega (
  arith,
  or_low_digit x y,
  pow-suc 2 k,
  or_lt k (x / 2) (y / 2) (omega (arith, pow-suc 2 k)) (omega (arith, pow-suc 2 k)),
)
