-- ===== src/Util/Stun.antt =====
-- src/util/stun.rs: the binding request and the reading of its response. The random bytes of the request are
-- arguments; asking the servers is left out. A place in the packet is what is left behind it.
pub mod Mapped
use skin_get_be_rust.Prelude.{
  ℕ, zero, suc, ◌+◌, ◌*◌, ◌/◌, ◌%◌, ◌^◌, Bool, ◌&&◌, List, [], ◌∷◌, ◌++◌, Option, none, some,
  length, take, drop, get_or, ltb, leb, ◌==◌, if◌then◌else◌, bit_xor,
}
use skin_get_be_rust.Prelude.Text.{Chars, chars_beq}
use skin_get_be_rust.Prelude.Decimal.{decimal}

abbrev pub cookie : List ℕ
cookie = 0x21 ∷ 0x12 ∷ 0xa4 ∷ 0x42 ∷ []

abbrev pub build_stun_request : (random : List ℕ) → List ℕ
build_stun_request random = 0 ∷ 1 ∷ 0 ∷ 0 ∷ cookie ++ random

-- `format!("{}.{}.{}.{}", ..)`
abbrev pub dotted : ℕ → ℕ → ℕ → ℕ → Chars
dotted a b c d = decimal a ++ b'.' ∷ decimal b ++ b'.' ∷ decimal c ++ b'.' ∷ decimal d

abbrev pub unmasked : List ℕ → ℕ
unmasked s =
    bit_xor (get_or s 4 0 * 2 ^ 24 + get_or s 5 0 * 2 ^ 16 + get_or s 6 0 * 2 ^ 8 + get_or s 7 0)
      0x2112_a442

abbrev pub dotted_word : ℕ → Chars
dotted_word ip = dotted (ip / 2 ^ 24 % 256) (ip / 2 ^ 16 % 256) (ip / 2 ^ 8 % 256) (ip % 256)

-- The address in an attribute whose value is at the front.
abbrev pub address_in : ℕ → ℕ → List ℕ → Option Chars
address_in attr_type attr_length s =
    if attr_type == 0x20 && leb 8 attr_length && get_or s 1 0 == 1
    then some (dotted_word (unmasked s))
    else if attr_type == 1 && leb 8 attr_length && get_or s 1 0 == 1
    then some (dotted (get_or s 4 0) (get_or s 5 0) (get_or s 6 0) (get_or s 7 0))
    else none

-- `(attr_length + 3) & !3`
abbrev pub padded_length : ℕ → ℕ
padded_length n = (n + 3) / 4 * 4

abbrev pub or_later : Option Chars → Option Chars → Option Chars
or_later none later = later
or_later (some ip) later = some ip

-- Each round takes four bytes at least. An attribute that is longer than the packet ends the search.
unfoldable pub attributes : (fuel : ℕ) → List ℕ → Option Chars
attributes zero s = none
attributes (suc fuel) (t ∷ u ∷ l ∷ m ∷ s) =
    let later = attributes fuel (drop (padded_length (l * 2 ^ 8 + m)) s) in
    if ltb (length s) (l * 2 ^ 8 + m)
    then none
    else or_later (address_in (t * 2 ^ 8 + u) (l * 2 ^ 8 + m) s) later
attributes (suc fuel) _ = none

unfoldable pub parse_stun_response : List ℕ → Option Chars
parse_stun_response packet =
    if ltb (length packet) 20
    then none
    else if chars_beq (take 4 (drop 4 packet)) cookie
    then attributes (length packet) (drop 20 packet)
    else none
