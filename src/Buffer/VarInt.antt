-- ===== src/Buffer/VarInt.antt =====
-- The variable-length integers of src/util/buffer.rs: seven bits a byte, lowest group first,
-- the top bit set on every byte but the last; at most five bytes for a `u32`.
pub mod Encode
pub mod RoundTrip
pub mod Bounds
use mathlib.Core.Logic.{dite}
use mathlib.Core.WellFounded.{Acc}
use native.Mathlib.Decide.{dec_lt}
use skin_get_be_rust.Prelude.{
  ℕ, zero, suc, ◌+◌, ◌*◌, ◌/◌, ◌%◌, ◌^◌, ◌<◌, List, [], arith, length, bit_and, bit_or, ◌==◌,
  if◌then◌else◌, lt_wf,
}
use skin_get_be_rust.Prelude.Bits.{shl, shr}
use skin_get_be_rust.Error.{ok, err, invalid_data}
use skin_get_be_rust.Buffer.{M, ◌>>=◌, ◌>>◌, return}
use skin_get_be_rust.Buffer.Reads.{read_u8}
use skin_get_be_rust.Buffer.Writes.{write_u8, write_bytes}

-- `for i in 0..5`, with `n` rounds left.
unfoldable pub read_var_int_loop : ℕ → ℕ → ℕ → M ℕ
read_var_int_loop zero i result b = (err invalid_data, b)
read_var_int_loop (suc n) i result b =
    (do
      byte ← read_u8
      let result' = bit_or result (shl 32 (bit_and byte 0x7f) (7 * i))
      let more = read_var_int_loop n (i + 1) result'
      if bit_and byte 0x80 == 0 then return result' else more)
      b

unfoldable pub read_var_int : M ℕ
unfolding read_var_int_loop read_u8
read_var_int = read_var_int_loop 5 0 0

-- `while value > 0x7F`; the shift makes the value smaller, so the loop ends on every value.
unfoldable pub write_var_int_loop : (value : ℕ) → Acc ◌<◌ value → M (Unit {0})
write_var_int_loop value (Acc.intro _ smaller) b =
    dite (dec_lt 0x7f value)
      (λ more.
        (write_u8 (bit_or (bit_and value 0x7f) 0x80)
            >> write_var_int_loop (shr value 7) (smaller _ (omega arith)))
          b)
      (λ _. write_u8 (bit_and value 0x7f) b)

unfoldable pub write_var_int : ℕ → M (Unit {0})
unfolding write_var_int_loop write_u8 lt_wf dec_lt
write_var_int value = write_var_int_loop value (lt_wf.apply value)

-- `bytes.len() as u32` keeps the low 32 bits of the length.
unfoldable pub write_var_string : List ℕ → M (Unit {0})
unfolding write_bytes
write_var_string bytes = do write_var_int (length bytes % 2 ^ 32); write_bytes bytes
