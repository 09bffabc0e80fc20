-- ===== src/Bedrock/Login.antt =====
-- src/bedrock/login.rs: the login packet in its six layouts, and the skin in it. The base64 engines and the
-- UTF-8 decoder are parameters; log output, and the fields that only it reads, are left out.
pub mod Metadata
pub mod Skin
pub mod Written
pub mod Reading
pub mod Layouts
pub mod Probe
pub mod Legacy
use skin_get_be_rust.Prelude.{
  ℕ, zero, suc, ◌+◌, ◌*◌, ◌/◌, ◌%◌, ◌^◌, Bool, true, false, not, ◌&&◌, ◌||◌, List, [], ◌∷◌, ◌++◌,
  Option, none, some, length, ltb, leb, ◌==◌, if◌then◌else◌,
}
use skin_get_be_rust.Prelude.Text.{Chars, codes, is_empty, contains, count}
use skin_get_be_rust.Prelude.Decimal.{parse_u32}
use skin_get_be_rust.Error.{Result, ok, err, invalid_data}
use skin_get_be_rust.Buffer.{Buffer, M, ◌>>=◌, ◌>>◌, return, of_bytes, remaining, read_bytes}
use skin_get_be_rust.Buffer.Reads.{read_u32, read_u32_le}
use skin_get_be_rust.Buffer.VarInt.{read_var_int}
use skin_get_be_rust.Crypto.Jwt.{
  Encodings, dot, padded, get_payload, get_json_value, parse_auth_chain,
}
use skin_get_be_rust.Bedrock.Skin.{Bytes, dimensions, sanitize_component}
use skin_get_be_rust.Bedrock.Login.Metadata.{
  LoginMetadata, or_next, collect_metadata, extract_player_name,
}

-- `ParsedLoginPacket`
pub record ParsedLoginPacket : Type 0 where
  pub protocol : ℕ
  pub player_name : Chars
  pub skin_id : Chars
  pub chain_json : Chars
  pub skin_jwt : Chars
  pub skin_json : Chars
  pub skin_data : Bytes
  pub skin_width : ℕ
  pub skin_height : ℕ
  pub metadata : LoginMetadata

pub data ProtocolEncoding : Type 0 where
  u32_le u32_be var_int : ProtocolEncoding

-- `LoginFields`
pub record LoginFields : Type 0 where
  pub protocol : ℕ
  pub chain_json : Chars
  pub skin_jwt : Chars

-- A `return None` unless the test holds.
abbrev pub ensure : Bool → M (Unit {0})
ensure true b = (ok tt, b)
ensure false b = (err invalid_data, b)

abbrev pub lift : {A : Type 0} → Result A → M A
lift r b = (r, b)

unfoldable pub read_protocol : ProtocolEncoding → M ℕ
read_protocol u32_le = read_u32_le
read_protocol u32_be = read_u32
read_protocol var_int = read_var_int

unfoldable pub read_payload_length : Bool → M (Unit {0})
read_payload_length false b = (ok tt, b)
read_payload_length true b =
    (read_var_int >>= λ payload_len c.
    ensure (not (payload_len == 0 || ltb (remaining c) payload_len)) c)
      b

module _ (e : Encodings) where
  -- A length and the text of that many bytes behind it.
  unfoldable pub read_text : M Chars
  read_text = read_u32_le >>= λ len.
      (λ c. ensure (not (len == 0 || ltb (remaining c) len)) c)
      >> (read_bytes len >>= λ bytes. lift (e.from_utf8 bytes))

  unfoldable pub login_fields : ProtocolEncoding → Bool → M LoginFields
  login_fields protocol_encoding has_payload_length =
      read_protocol protocol_encoding >>= λ protocol.
      ensure (not (protocol == 0 || ltb 100_000 protocol))
      >> (read_payload_length has_payload_length
          >> (read_text >>= λ chain_json. read_text >>= λ skin_jwt.
              ensure (contains b'{' chain_json)
              >> (ensure (count dot skin_jwt == 2)
                  >> return (record {
                    protocol = protocol;
                    chain_json = chain_json;
                    skin_jwt = skin_jwt;
                  }))))

  abbrev pub ok_fields : Result LoginFields → Option LoginFields
  ok_fields (ok fields) = some fields
  ok_fields (err x) = none

  unfoldable pub try_parse_login : Bytes → ProtocolEncoding → Bool → Option LoginFields
  try_parse_login source protocol_encoding has_payload_length =
      ok_fields (login_fields protocol_encoding has_payload_length (of_bytes source)).0

  -- The layouts in the order they are tried.
  unfoldable pub probe : Bytes → Option LoginFields
  probe source = or_next (try_parse_login source u32_le false) (
      or_next (try_parse_login source u32_be false) (
        or_next (try_parse_login source var_int false) (
          or_next (try_parse_login source u32_le true)
            (or_next (try_parse_login source u32_be true) (try_parse_login source var_int true)))))

-- `c.is_ascii_alphanumeric() || matches!(c, '+' | '/' | '=')`
abbrev pub is_base64 : ℕ → Bool
is_base64 c =
    leb b'0' c && leb c b'9'
    || leb b'A' c && leb c b'Z'
    || leb b'a' c && leb c b'z'
    || c == b'+'
    || c == b'/'
    || c == b'='

abbrev pub cleaned : Chars → Chars
cleaned [] = []
cleaned (c ∷ s) = if is_base64 c then c ∷ cleaned s else cleaned s

abbrev pub ok_bytes : Result Bytes → Option Bytes
ok_bytes (ok bytes) = some bytes
ok_bytes (err x) = none

-- A number read from a field, 0 when it is missing or is none.
abbrev pub number_or_zero : Option Chars → ℕ
number_or_zero none = 0
number_or_zero (some v) = elim (parse_u32 v) [ none ↦ 0 | some n ↦ n ]

-- The declared dimensions when they are those of the pixels, and else the usual ones.
abbrev pub skin_dimensions : ℕ → ℕ → ℕ → ℕ × ℕ
skin_dimensions img_w img_h pixels =
    if img_w == 0 || img_h == 0 || not (img_w * img_h == pixels)
    then dimensions pixels
    else (img_w, img_h)

abbrev pub text_or_empty : Option Chars → Chars
text_or_empty none = []
text_or_empty (some v) = sanitize_component v

abbrev pub payloads_or_empty : Result (List Chars) → List Chars
payloads_or_empty (ok payloads) = payloads
payloads_or_empty (err x) = []

module _ (e : Encodings) where
  unfoldable pub decode_loose_base64 : Chars → Option Bytes
  decode_loose_base64 input =
      if is_empty (cleaned input) then none else ok_bytes (e.standard (padded (cleaned input)))

  abbrev pub packet_of : LoginFields → Chars → Bytes → ParsedLoginPacket
  packet_of fields skin_json skin_data =
      let size : ℕ × ℕ =
        skin_dimensions (number_or_zero (get_json_value skin_json (codes "SkinImageWidth")))
          (number_or_zero (get_json_value skin_json (codes "SkinImageHeight")))
          (length skin_data / 4) in
      record {
        protocol = fields.protocol;
        player_name = extract_player_name e fields.chain_json;
        skin_id = text_or_empty (get_json_value skin_json (codes "SkinId"));
        chain_json = fields.chain_json;
        skin_jwt = fields.skin_jwt;
        skin_json = skin_json;
        skin_data = skin_data;
        skin_width = size.0;
        skin_height = size.1;
        metadata =
            collect_metadata
              (payloads_or_empty (parse_auth_chain e fields.chain_json) ++ skin_json ∷ []);
      }

  abbrev pub with_data : LoginFields → Chars → Option Bytes → Option ParsedLoginPacket
  with_data fields skin_json none = none
  with_data fields skin_json (some bytes) =
      if not (length bytes == 0) && length bytes % 4 == 0
      then some (packet_of fields skin_json bytes)
      else none

  abbrev pub with_image : LoginFields → Chars → Option Chars → Option ParsedLoginPacket
  with_image fields skin_json none = none
  with_image fields skin_json (some v) =
      if not (is_empty v) then with_data fields skin_json (decode_loose_base64 v) else none

  abbrev pub with_skin : LoginFields → Result Chars → Option ParsedLoginPacket
  with_skin fields (err x) = none
  with_skin fields (ok skin_json) =
      with_image fields skin_json (get_json_value skin_json (codes "SkinData"))

  abbrev pub with_fields : Option LoginFields → Option ParsedLoginPacket
  with_fields none = none
  with_fields (some fields) = with_skin fields (get_payload e fields.skin_jwt)

  -- No branch returns an error.
  unfoldable pub parse_login_packet : Bytes → Result (Option ParsedLoginPacket)
  parse_login_packet source = ok (with_fields (probe e source))
