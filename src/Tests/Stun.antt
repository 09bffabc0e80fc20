-- ===== src/Tests/Stun.antt =====
-- A binding response with an unknown attribute in front of the address.
use skin_get_be_rust.Prelude.{ℕ, ◌≡◌, refl, arith, List, [], ◌∷◌, ◌++◌, some}
use skin_get_be_rust.Prelude.Text.{codes}
use skin_get_be_rust.Prelude.Decimal.{decimal_onto}
use skin_get_be_rust.Util.Stun.{dotted, parse_stun_response}
use skin_get_be_rust.Util.Stun.Mapped.{
  attributes_bytes, AllOther, mapped_address, parse_stun_response-mapped_address,
}

abbrev header : List ℕ
header =
    1 ∷ 1 ∷ 0 ∷ 20 ∷ 0x21 ∷ 0x12 ∷ 0xa4 ∷ 0x42 ∷ 1 ∷ 2 ∷ 3 ∷ 4 ∷ 5 ∷ 6 ∷ 7 ∷ 8 ∷ 9 ∷ 10 ∷ 11 ∷ 12
    ∷ []

abbrev others : List (ℕ × List ℕ)
others = (0x8022, 65 ∷ 66 ∷ 67 ∷ []) ∷ []

others-AllOther : AllOther others
others-AllOther = ((omega arith, omega arith, (λ e. omega arith), λ e. omega arith), tt)

parse_stun_response-mapped_address_example :
    parse_stun_response (header ++ (attributes_bytes others ++ (mapped_address 9 192 0 2 1 ++ [])))
    ≡ some (dotted 192 0 2 1)
parse_stun_response-mapped_address_example =
    parse_stun_response-mapped_address header others 9 192 0 2 1 [] refl refl others-AllOther

address_text : dotted 192 0 2 1 ≡ codes "192.0.2.1"
unfolding decimal_onto
address_text = refl
