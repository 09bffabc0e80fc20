-- ===== src/Bedrock/Login/Probe.antt =====
-- The order in which src/bedrock/login.rs tries the layouts.
use skin_get_be_rust.Prelude.{
  ℕ, ◌+◌, ◌*◌, ◌/◌, ◌%◌, ◌^◌, ◌<◌, ◌≡◌, ◌≢◌, refl, sym, ap, Bool, false, not, ◌||◌, [], ◌∷◌, ◌++◌,
  none, some, ltb, ◌==◌, arith,
}
use skin_get_be_rust.Prelude.Bytes.{u32_bytes, u32_le_bytes}
use skin_get_be_rust.Buffer.{of_bytes}
use skin_get_be_rust.Buffer.RoundTrip.{read_u32_le-bytes}
use skin_get_be_rust.Crypto.Jwt.{Encodings}
use skin_get_be_rust.Bedrock.Login.{
  u32_le, u32_be, LoginFields, read_protocol, login_fields, try_parse_login, probe,
}
use skin_get_be_rust.Bedrock.Skin.{Bytes}
use skin_get_be_rust.Bedrock.Login.Written.{text_field, length_field, written}
use skin_get_be_rust.Bedrock.Login.Layouts.{Texts, try_parse_login-written}

-- The number that the bytes of a big-endian word are read to as a little-endian one.
abbrev swapped : ℕ → ℕ
swapped p =
    p / 2 ^ 24 % 256 + p / 2 ^ 16 % 256 * 2 ^ 8 + p / 2 ^ 8 % 256 * 2 ^ 16 + p % 256 * 2 ^ 24

le_bytes :
    (a b c d : ℕ)
    → a < 256
    → b < 256
    → c < 256
    → d < 256
    → u32_le_bytes (a + b * 2 ^ 8 + c * 2 ^ 16 + d * 2 ^ 24) ≡ a ∷ b ∷ c ∷ d ∷ []
le_bytes a b c d ha hb hc hd =
    let word : ℕ = a + b * 2 ^ 8 + c * 2 ^ 16 + d * 2 ^ 24 in
    let first : (a + b * 2 ^ 8 + c * 2 ^ 16 + d * 2 ^ 24) % 256 ≡ a = omega arith in
    let second : (a + b * 2 ^ 8 + c * 2 ^ 16 + d * 2 ^ 24) / 2 ^ 8 % 256 ≡ b = omega arith in
    let third : (a + b * 2 ^ 8 + c * 2 ^ 16 + d * 2 ^ 24) / 2 ^ 16 % 256 ≡ c = omega arith in
    let fourth : (a + b * 2 ^ 8 + c * 2 ^ 16 + d * 2 ^ 24) / 2 ^ 24 % 256 ≡ d = omega arith in
    rw (first, second, third, fourth) refl

-- A big-endian protocol is no little-endian one, unless its last byte is 0.
big_endian_refused :
    (e : Encodings) (has_payload_length : Bool) (p : ℕ) (rest : Bytes)
    → p % 256 ≢ 0
    → try_parse_login e (u32_bytes p ++ rest) u32_le has_payload_length ≡ none
unfolding try_parse_login login_fields read_protocol
big_endian_refused e has_payload_length p rest h =
    let bytes : u32_le_bytes (swapped p) ≡ u32_bytes p =
      le_bytes (p / 2 ^ 24 % 256) (p / 2 ^ 16 % 256) (p / 2 ^ 8 % 256) (p % 256) (omega arith)
        (omega arith) (omega arith) (omega arith) in
    let word =
      read_u32_le-bytes (swapped p) (of_bytes (u32_bytes p ++ rest)) rest (omega arith)
        (ap (λ (x : Bytes). x ++ rest) (sym bytes)) in
    let large : 100_000 < swapped p = omega arith in
    let refused : not (swapped p == 0 || ltb 100_000 (swapped p)) ≡ false = ground arith in
    rw (word, refused) refl

-- Probing finds a login in the little-endian layout without a payload length, and in the big-endian one when
-- its protocol is not a multiple of 256.
pub probe-written :
    (e : Encodings) (chain skin : Bytes) (fields : LoginFields)
    → Texts e chain skin fields
    → (probe e (written u32_le false fields.protocol chain skin) ≡ some fields)
      × (fields.protocol % 256 ≢ 0
          → probe e (written u32_be false fields.protocol chain skin) ≡ some fields)
unfolding probe
probe-written e chain skin fields t = (
  rw (try_parse_login-written e u32_le false chain skin fields t) refl,
  λ h.
      rw
        (
          big_endian_refused e false fields.protocol
              (length_field false (text_field chain ++ text_field skin)
                ++ (text_field chain ++ text_field skin))
              h,
          try_parse_login-written e u32_be false chain skin fields t,
        )
        refl,
)
