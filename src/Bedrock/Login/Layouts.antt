-- ===== src/Bedrock/Login/Layouts.antt =====
-- A login packet in any of the six layouts of src/bedrock/login.rs is read.
use skin_get_be_rust.Prelude.{
  ◌+◌, ◌^◌, ◌<◌, ◌≤◌, ◌≡◌, refl, sym, ap, ◌∙◌, Bool, true, not, ◌||◌, [], ◌++◌, append-nil, some,
  length, length-append, ltb, ◌==◌, arith,
}
use skin_get_be_rust.Prelude.Text.{Chars, contains, count}
use skin_get_be_rust.Error.{ok}
use skin_get_be_rust.Buffer.{Buffer, M, ◌>>=◌, ◌>>◌, return, of_bytes, unread}
use skin_get_be_rust.Crypto.Jwt.{Encodings, dot}
use skin_get_be_rust.Bedrock.Login.{
  ProtocolEncoding, LoginFields, ensure, read_protocol, read_payload_length, read_text,
  login_fields, try_parse_login,
}
use skin_get_be_rust.Bedrock.Skin.{Bytes}
use skin_get_be_rust.Bedrock.Login.Written.{text_field, protocol_field, length_field, written}
use skin_get_be_rust.Bedrock.Login.Reading.{
  Gives, bind-Gives, ensure-Gives, read_protocol-Gives, read_payload_length-Gives, read_text-Gives,
}

module _ (e : Encodings) where
  -- The texts of a login: what their bytes decode to, and what is asked of them.
  pub record Texts (chain skin : Bytes) (fields : LoginFields) : Type 0 where
    pub protocol : (0 < fields.protocol) × (fields.protocol ≤ 100_000)
    pub chain_some : 0 < length chain
    pub skin_some : 0 < length skin
    pub small : length chain + length skin + 8 < 2 ^ 32
    pub chain_text : e.from_utf8 chain ≡ ok fields.chain_json
    pub skin_text : e.from_utf8 skin ≡ ok fields.skin_jwt
    pub is_object : contains b'{' fields.chain_json ≡ true
    pub is_jwt : (count dot fields.skin_jwt == 2) ≡ true

  module _ (chain skin : Bytes) (fields : LoginFields) (t : Texts chain skin fields)
      (rest : Bytes) where
    -- What is done with the second text.
    checked : Chars → Chars → M LoginFields
    checked chain_json skin_jwt =
        ensure (contains b'{' chain_json)
        >> (ensure (count dot skin_jwt == 2)
            >> return (record {
              protocol = fields.protocol;
              chain_json = chain_json;
              skin_jwt = skin_jwt;
            }))

    checked-Gives :
        (b : Buffer)
        → unread b ≡ rest
        → Gives (checked fields.chain_json fields.skin_jwt) b fields rest
    unfolding checked
    checked-Gives b h =
        bind-Gives (ensure (contains b'{' fields.chain_json))
          (λ _. ensure (count dot fields.skin_jwt == 2) >> return fields) b tt rest fields rest
          (ensure-Gives (contains b'{' fields.chain_json) b rest t.is_object h)
          (λ c k.
            bind-Gives (ensure (count dot fields.skin_jwt == 2)) (λ _. return fields) c tt rest
              fields rest (ensure-Gives (count dot fields.skin_jwt == 2) c rest t.is_jwt k)
              (λ d l. (d, refl, l)))

    texts-Gives :
        (b : Buffer)
        → unread b ≡ text_field chain ++ (text_field skin ++ rest)
        → Gives
            (read_text e >>= λ chain_json. read_text e >>= λ skin_jwt. checked chain_json skin_jwt)
            b
            fields
            rest
    texts-Gives b h =
        bind-Gives (read_text e)
          (λ chain_json. read_text e >>= λ skin_jwt. checked chain_json skin_jwt) b
          fields.chain_json (text_field skin ++ rest) fields rest
          (read_text-Gives e chain fields.chain_json (text_field skin ++ rest) b t.chain_some
            (let s = t.small in omega arith) t.chain_text h)
          (λ c k.
            bind-Gives (read_text e) (λ skin_jwt. checked fields.chain_json skin_jwt) c
              fields.skin_jwt rest fields rest
              (read_text-Gives e skin fields.skin_jwt rest c t.skin_some
                (let s = t.small in omega arith) t.skin_text k)
              checked-Gives)

    login_fields-Gives :
        (protocol_encoding : ProtocolEncoding) (has_payload_length : Bool) (b : Buffer)
        → rest ≡ []
        → unread b
          ≡ protocol_field protocol_encoding fields.protocol
            ++ (length_field has_payload_length (text_field chain ++ text_field skin)
                ++ (text_field chain ++ text_field skin))
        → Gives (login_fields e protocol_encoding has_payload_length) b fields rest
    unfolding login_fields checked
    login_fields-Gives protocol_encoding has_payload_length b end h =
        bind-Gives (read_protocol protocol_encoding)
          (λ protocol.
            ensure (not (protocol == 0 || ltb 100_000 protocol))
            >> (read_payload_length has_payload_length
                >> (read_text e >>= λ chain_json. read_text e >>= λ skin_jwt.
                    ensure (contains b'{' chain_json)
                    >> (ensure (count dot skin_jwt == 2)
                        >> return (record {
                          protocol = protocol;
                          chain_json = chain_json;
                          skin_jwt = skin_jwt;
                        })))))
          b fields.protocol (length_field has_payload_length body ++ body) fields rest
          (read_protocol-Gives protocol_encoding fields.protocol
            (length_field has_payload_length body ++ body) b (omega (arith, t.protocol.1)) h)
          (λ c k.
            bind-Gives (ensure (not (fields.protocol == 0 || ltb 100_000 fields.protocol)))
              (λ _.
                read_payload_length has_payload_length
                >> (read_text e >>= λ chain_json.
                    read_text e >>= λ skin_jwt. checked chain_json skin_jwt))
              c tt (length_field has_payload_length body ++ body) fields rest
              (ensure-Gives (not (fields.protocol == 0 || ltb 100_000 fields.protocol)) c
                (length_field has_payload_length body ++ body)
                (let (low, high) = t.protocol in ground arith) k)
              (λ d l.
                bind-Gives (read_payload_length has_payload_length)
                  (λ _. read_text e >>= λ chain_json.
                    read_text e >>= λ skin_jwt. checked chain_json skin_jwt)
                  d tt body fields rest
                  (read_payload_length-Gives has_payload_length body d (omega (arith, length-body))
                    (let s = t.small in omega (arith, length-body)) l)
                  (λ f m. texts-Gives f (m ∙ ap (λ (x : Bytes). text_field chain ++ x) closed))))
      where
        body : Bytes
        body = text_field chain ++ text_field skin

        length-body : length body ≡ length chain + length skin + 8
        length-body = omega (arith, length-append (text_field chain) (text_field skin))

        closed : text_field skin ≡ text_field skin ++ rest
        closed = sym (ap (λ (x : Bytes). text_field skin ++ x) end ∙ append-nil (text_field skin))

  -- A login written in any of the six layouts is read in that layout to its protocol and its two texts.
  pub try_parse_login-written :
      (protocol_encoding : ProtocolEncoding) (has_payload_length : Bool) (chain skin : Bytes)
      (fields : LoginFields)
      → Texts chain skin fields
      → try_parse_login e
          (written protocol_encoding has_payload_length fields.protocol chain skin)
          protocol_encoding
          has_payload_length
        ≡ some fields
  unfolding try_parse_login
  try_parse_login-written protocol_encoding has_payload_length chain skin fields t =
      let (c, e, left) =
        login_fields-Gives chain skin fields t [] protocol_encoding has_payload_length
          (of_bytes (written protocol_encoding has_payload_length fields.protocol chain skin)) refl
          refl in
      rw e refl
