-- ===== src/Bedrock/Login/Written.antt =====
-- The six layouts of the login packet of src/bedrock/login.rs, as they are written.
use skin_get_be_rust.Prelude.{ℕ, Bool, true, false, [], ◌++◌, length}
use skin_get_be_rust.Prelude.Bytes.{u32_bytes, u32_le_bytes}
use skin_get_be_rust.Buffer.VarInt.Encode.{var_int32}
use skin_get_be_rust.Bedrock.Login.{ProtocolEncoding, u32_le, u32_be, var_int}
use skin_get_be_rust.Bedrock.Skin.{Bytes}

abbrev pub text_field : Bytes → Bytes
text_field bytes = u32_le_bytes (length bytes) ++ bytes

abbrev pub protocol_field : ProtocolEncoding → ℕ → Bytes
protocol_field u32_le protocol = u32_le_bytes protocol
protocol_field u32_be protocol = u32_bytes protocol
protocol_field var_int protocol = var_int32 protocol

abbrev pub length_field : Bool → Bytes → Bytes
length_field false body = []
length_field true body = var_int32 (length body)

-- A login packet in a layout, for the bytes of its two texts.
abbrev pub written : ProtocolEncoding → Bool → ℕ → Bytes → Bytes → Bytes
written protocol_encoding has_payload_length protocol chain skin =
    protocol_field protocol_encoding protocol
    ++ (length_field has_payload_length (text_field chain ++ text_field skin)
        ++ (text_field chain ++ text_field skin))
