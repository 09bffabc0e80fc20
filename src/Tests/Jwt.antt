-- ===== src/Tests/Jwt.antt =====
-- Runs of the token decoding, with codecs that take a text for its own bytes.
use skin_get_be_rust.Prelude.{◌≡◌, ◌↔◌, refl, [], ◌∷◌, ◌++◌, false, some, ◌==◌, if◌then◌else◌}
use skin_get_be_rust.Prelude.Text.{
  Chars, count, codes, split_char, split_text, strip_prefix, trim_start,
}
use skin_get_be_rust.Error.{ok, err, crypto_error}
use skin_get_be_rust.Crypto.Jwt.{
  Encodings, quote, search_key, get_json_value, take_value, value_of, parse_auth_chain, chain_loop,
  next_token, payload_of, get_payload, decode_base64, parse, ◌>>=◌, decode_payload, dot,
}
use skin_get_be_rust.Crypto.Jwt.Equivalence.{parse-decode_payload}
use skin_get_be_rust.Crypto.Jwt.JsonValue.{
  IsPlain, Stands, get_json_value_finds, get_json_value-written,
}
use skin_get_be_rust.Crypto.Jwt.Chain.{quoted, payloads, parse_auth_chain-quoted}

abbrev pub plain : Encodings
plain = record { url_safe_no_pad = λ s. ok s; standard = λ s. ok s; from_utf8 = λ s. ok s }

abbrev json : Chars
json = codes "{\"SkinId\": 64}"

json_value : get_json_value json (codes "SkinId") ≡ some (codes "64")
unfolding get_json_value split_text strip_prefix trim_start value_of take_value
json_value = refl

get_json_value_finds_example :
    (get_json_value json (codes "SkinId") ≡ some (codes "64"))
    ↔ Stands json (codes "SkinId") (codes "64")
get_json_value_finds_example = get_json_value_finds json (codes "SkinId") (codes "64")

json-Stands : Stands json (codes "SkinId") (codes "64")
json-Stands = (get_json_value_finds json (codes "SkinId") (codes "64")).0 json_value

steve-IsPlain : IsPlain (codes "Steve")
steve-IsPlain = (refl, refl, (refl, refl, (refl, refl, (refl, refl, (refl, refl, tt)))))

get_json_value-written_example :
    get_json_value
      (b'{' ∷ (search_key (codes "xname") ++ (quote ∷ codes "Steve" ++ (quote ∷ codes "}"))))
      (codes "xname")
    ≡ some (codes "Steve")
get_json_value-written_example =
    get_json_value-written (codes "xname") (codes "Steve") (codes "}") steve-IsPlain

abbrev chain : Chars
chain = codes "{\"chain\":[\"h.one.s\",\"h.two.s\"]}"

chain_payloads : parse_auth_chain plain chain ≡ ok (codes "one" ∷ codes "two" ∷ [])
unfolding parse_auth_chain chain_loop next_token payload_of get_payload decode_base64 split_char
chain_payloads = refl

parse_auth_chain-quoted_example :
    parse_auth_chain plain chain ≡ ok (payloads plain (quoted false [] chain))
parse_auth_chain-quoted_example = parse_auth_chain-quoted plain chain

parse-decode_payload_example : (parse (codes "h.one.s") >>= decode_payload plain) ≡ (
    if count dot (codes "h.one.s") == 2
    then get_payload plain (codes "h.one.s")
    else err crypto_error)
parse-decode_payload_example = parse-decode_payload plain (codes "h.one.s")
