-- ===== src/Tests/Login.antt =====
-- Runs of the login parser, with codecs that take a text for its own bytes.
use skin_get_be_rust.Prelude.{◌%◌, ◌≡◌, ◌≢◌, ◌⊎◌, refl, arith, true, false, none, some}
use skin_get_be_rust.Prelude.Text.{Chars, codes}
use skin_get_be_rust.Error.{ok}
use skin_get_be_rust.Bedrock.Login.{
  ParsedLoginPacket, LoginFields, u32_le, u32_be, var_int, try_parse_login, probe,
  parse_login_packet,
}
use skin_get_be_rust.Bedrock.Login.Skin.{IsSized, parse_login_packet-IsSized}
use skin_get_be_rust.Bedrock.Login.Written.{written}
use skin_get_be_rust.Bedrock.Login.Layouts.{Texts, try_parse_login-written}
use skin_get_be_rust.Bedrock.Login.Probe.{probe-written}
use skin_get_be_rust.Tests.Jwt.{plain}

abbrev pub chain : Chars
chain = codes "{\"chain\":[\"h.one.s\"]}"

abbrev pub skin : Chars
skin = codes "h.{\"SkinId\":\"S\",\"SkinData\":\"AbCd\"}.s"

abbrev fields : LoginFields
fields = record { protocol = 975; chain_json = chain; skin_jwt = skin }

fields-Texts : Texts plain chain skin fields
fields-Texts = record {
  protocol = (omega arith, omega arith);
  chain_some = omega arith;
  skin_some = omega arith;
  small = omega arith;
  chain_text = refl;
  skin_text = refl;
  is_object = refl;
  is_jwt = refl;
}

try_parse_login-written_example :
    try_parse_login plain (written var_int true 975 chain skin) var_int true ≡ some fields
try_parse_login-written_example =
    try_parse_login-written plain var_int true chain skin fields fields-Texts

probe-written_example :
    (probe plain (written u32_le false 975 chain skin) ≡ some fields)
    × (975 % 256 ≢ 0 → probe plain (written u32_be false 975 chain skin) ≡ some fields)
probe-written_example = probe-written plain chain skin fields fields-Texts

parse_login_packet-IsSized_example :
    (parse_login_packet plain (written u32_be false 975 chain skin) ≡ ok none)
    ⊎ ((packet : ParsedLoginPacket) × (parse_login_packet plain
            (written u32_be false 975 chain skin)
          ≡ ok (some packet))
        × IsSized packet)
parse_login_packet-IsSized_example =
    parse_login_packet-IsSized plain (written u32_be false 975 chain skin)
