-- ===== src/Util/Stun/Mapped.antt =====
-- The address that src/util/stun.rs finds behind attributes it does not know.
use skin_get_be_rust.Prelude.{
  ℕ, zero, suc, ◌+◌, ◌*◌, ◌/◌, ◌%◌, ◌^◌, ◌<◌, ◌≤◌, ◌≡◌, ◌≢◌, refl, sym, ap, ◌∙◌, false, List, [],
  ◌∷◌, ◌++◌, append_assoc, some, length, length-append, length-drop, take, drop, drop_prefix, ltb,
  ◌==◌, arith,
}
use skin_get_be_rust.Prelude.Bytes.{u16_bytes}
use skin_get_be_rust.Util.Stun.{cookie, dotted, padded_length, attributes, parse_stun_response}

-- The bytes behind a value of `n` bytes, up to the next multiple of four.
abbrev pub filler : (n : ℕ) → List ℕ
filler zero = []
filler (suc zero) = 0 ∷ 0 ∷ 0 ∷ []
filler (suc (suc zero)) = 0 ∷ 0 ∷ []
filler (suc (suc (suc zero))) = 0 ∷ []
filler (suc (suc (suc (suc n)))) = filler n

padded_length-filler : (n : ℕ) → padded_length n ≡ n + length (filler n)
padded_length-filler zero = omega arith
padded_length-filler (suc zero) = omega arith
padded_length-filler (suc (suc zero)) = omega arith
padded_length-filler (suc (suc (suc zero))) = omega arith
padded_length-filler (suc (suc (suc (suc n)))) = omega (arith, padded_length-filler n)

-- An attribute with its value, filled up to a multiple of four bytes.
abbrev pub attribute : ℕ × List ℕ → List ℕ
attribute (kind, value) =
    u16_bytes kind ++ (u16_bytes (length value) ++ (value ++ filler (length value)))

abbrev pub attributes_bytes : List (ℕ × List ℕ) → List ℕ
attributes_bytes [] = []
attributes_bytes (a ∷ as_) = attribute a ++ attributes_bytes as_

-- An attribute that holds no address.
abbrev pub IsOther : ℕ × List ℕ → Type 0
IsOther (kind, value) = (kind < 2 ^ 16) × (length value < 2 ^ 16) × (kind ≢ 0x20) × (kind ≢ 1)

abbrev pub AllOther : List (ℕ × List ℕ) → Type 0
AllOther [] = Unit
AllOther (a ∷ as_) = IsOther a × AllOther as_

abbrev pub mapped_address : ℕ → ℕ → ℕ → ℕ → ℕ → List ℕ
mapped_address port a b c d = attribute (1, 0 ∷ 1 ∷ u16_bytes port ++ (a ∷ b ∷ c ∷ d ∷ []))

skip_other :
    (fuel kind : ℕ) (value s : List ℕ)
    → IsOther (kind, value)
    → attributes (suc fuel) (attribute (kind, value) ++ s) ≡ attributes fuel s
unfolding attributes
skip_other fuel kind value s (small, short, no_xor, no_map) =
    let kind_ : kind / 2 ^ 8 % 256 * 2 ^ 8 + kind % 256 ≡ kind = omega arith in
    let size : length value / 2 ^ 8 % 256 * 2 ^ 8 + length value % 256 ≡ length value =
      omega arith in
    let first : (kind == 0x20) ≡ false = ground arith in
    let second : (kind == 1) ≡ false = ground arith in
    let pad : List ℕ = filler (length value) in
    let full : padded_length (length value) ≡ length (value ++ pad) =
      omega (arith, length-append value pad, padded_length-filler (length value)) in
    let there : ltb (length ((value ++ pad) ++ s)) (length value) ≡ false =
      (let long : length value ≤ length ((value ++ pad) ++ s) =
          omega (arith, length-append (value ++ pad) s, length-append value pad) in
        ground arith) in
    rw
      (
        kind_,
        size,
        there,
        first,
        second,
        drop_prefix (value ++ pad) s (padded_length (length value)) full,
      )
      refl

skip_all :
    (others : List (ℕ × List ℕ)) (fuel : ℕ) (s : List ℕ)
    → AllOther others
    → length (attributes_bytes others) + 1 ≤ fuel
    → (left : ℕ) × (attributes fuel (attributes_bytes others ++ s) ≡ attributes (suc left) s)
skip_all [] (suc fuel) s h enough = (fuel, refl)
skip_all [] zero s h enough = absurd (omega arith)
skip_all (a ∷ others) zero s h enough = absurd (omega arith)
skip_all (a ∷ others) (suc fuel) s (h, hs) enough =
    let (left, e) =
      skip_all others fuel s hs
        (omega (arith, length-append (attribute a) (attributes_bytes others))) in
    (
      left,
      rw (append_assoc (attribute a) (attributes_bytes others) s)
          (skip_other fuel a.0 a.1 (attributes_bytes others ++ s) h ∙ e),
    )

drop-append : (n : ℕ) (xs ys : List ℕ) → n ≤ length xs → drop n (xs ++ ys) ≡ drop n xs ++ ys
drop-append zero xs ys h = refl
drop-append (suc n) [] ys h = absurd (omega arith)
drop-append (suc n) (x ∷ xs) ys h = drop-append n xs ys (omega arith)

take-append : (n : ℕ) (xs ys : List ℕ) → n ≤ length xs → take n (xs ++ ys) ≡ take n xs
take-append zero xs ys h = refl
take-append (suc n) [] ys h = absurd (omega arith)
take-append (suc n) (x ∷ xs) ys h = ap (◌∷◌ x) (take-append n xs ys (omega arith))

window :
    (xs ys : List ℕ) (n m : ℕ) → n + m ≤ length xs → take n (drop m (xs ++ ys)) ≡ take n (drop m xs)
window xs ys n m h =
    rw (drop-append m xs ys (omega arith))
      (take-append n (drop m xs) ys (omega (arith, length-drop m xs)))

-- A response with the cookie in its header of twenty bytes gives the IPv4 address of a MAPPED-ADDRESS
-- attribute, whatever attributes of other kinds are in front of it, each filled up to a multiple of four
-- bytes, and whatever follows.
pub parse_stun_response-mapped_address :
    (header : List ℕ) (others : List (ℕ × List ℕ)) (port a b c d : ℕ) (rest : List ℕ)
    → length header ≡ 20
    → take 4 (drop 4 header) ≡ cookie
    → AllOther others
    → parse_stun_response
        (header ++ (attributes_bytes others ++ (mapped_address port a b c d ++ rest)))
      ≡ some (dotted a b c d)
unfolding parse_stun_response attributes
parse_stun_response-mapped_address header others port a b c d rest size marked others_ =
    let s : List ℕ = mapped_address port a b c d ++ rest in
    let tail : List ℕ = attributes_bytes others ++ s in
    let whole : length (header ++ tail) ≡ 20 + length tail =
      omega (arith, size, length-append header tail) in
    let long : ltb (length (header ++ tail)) 20 ≡ false = ground arith in
    let mark : take 4 (drop 4 (header ++ tail)) ≡ cookie =
      window header tail 4 4 (omega arith) ∙ marked in
    let kept : drop 20 (header ++ tail) ≡ tail = drop_prefix header tail 20 (sym size) in
    let (left, e) =
      skip_all others (length (header ++ tail)) s others_
        (omega (arith, whole, length-append (attributes_bytes others) s)) in
    rw (long, mark, kept, e) (found left)
  where
    found :
        (left : ℕ)
        → attributes (suc left) (mapped_address port a b c d ++ rest) ≡ some (dotted a b c d)
    found left =
        let room : ltb (length (0 ∷ 1 ∷ u16_bytes port ++ (a ∷ b ∷ c ∷ d ∷ rest))) 8 ≡ false =
          ground arith in
        rw room refl
