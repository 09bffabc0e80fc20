-- ===== src/Bedrock/Responses.antt =====
-- src/bedrock/responses.rs: the packets that the server sends. A message is the bytes of its UTF-8 text, and
-- an i32 reason is given as the u32 it is cast to. The result of a write is dropped, as the code does.
use skin_get_be_rust.Prelude.{ℕ, false, List}
use skin_get_be_rust.Buffer.{Buffer, M, empty}
use skin_get_be_rust.Buffer.Writes.{write_u8, write_u16_le, write_u32_le, write_bool}
use skin_get_be_rust.Buffer.VarInt.{write_var_int, write_var_string}

abbrev pub wrote : M (Unit {0}) → Buffer → Buffer
wrote m b = (m b).1

unfoldable pub build_play_status : ℕ → List ℕ
build_play_status status = (wrote (write_u32_le status) (wrote (write_var_int 2) empty)).bytes

unfoldable pub build_disconnect : ℕ → List ℕ → List ℕ
build_disconnect reason message =
    (wrote (write_var_string message) (
      wrote (write_var_string message) (
        wrote (write_bool false)
          (wrote (write_var_int reason) (wrote (write_var_int 5) empty))))).bytes

-- `write_f32_le(0.0)` writes the four zero bytes of that float.
unfoldable pub build_network_settings : List ℕ
build_network_settings =
    (wrote (write_u32_le 0) (
      wrote (write_u8 0) (
        wrote (write_bool false) (
          wrote (write_u16_le 0)
            (wrote (write_u16_le 1) (wrote (write_var_int 0x8f) empty)))))).bytes
