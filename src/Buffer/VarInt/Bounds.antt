-- ===== src/Buffer/VarInt/Bounds.antt =====
-- What `read_var_int` does on any input, well formed or not.
use skin_get_be_rust.Prelude.{
  ℕ, zero, suc, ◌+◌, ◌*◌, ◌^◌, ◌<◌, ◌≤◌, ◌≡◌, arith, length, bit_and, bit_or,
}
use skin_get_be_rust.Prelude.Bits.{or_lt, shl}
use skin_get_be_rust.Error.{ok}
use skin_get_be_rust.Buffer.{Buffer, advance, byte_at}
use skin_get_be_rust.Buffer.Reads.{read_u8}
use skin_get_be_rust.Buffer.VarInt.{read_var_int_loop, read_var_int}

-- What a read leaves of a buffer: the bytes, and the cursor further on, still inside.
pub record Moves (most : ℕ) (b b' : Buffer) : Type 0 where
  pub same_bytes : b'.bytes ≡ b.bytes
  pub forward : b.position < b'.position
  pub bounded : b'.position ≤ b.position + most
  pub inside : b'.position ≤ length b.bytes

abbrev group : ℕ → ℕ → ℕ → ℕ
group result byte i = bit_or result (shl 32 (bit_and byte 0x7f) (7 * i))

read_var_int_loop_takes :
    (n i result : ℕ) (b : Buffer) (v : ℕ) (b' : Buffer)
    → result < 2 ^ 32
    → read_var_int_loop n i result b ≡ (ok v, b')
    → (v < 2 ^ 32) × Moves n b b'
unfolding read_var_int_loop read_u8
read_var_int_loop_takes zero i result b v b' h e = ground arith
read_var_int_loop_takes (suc n) i result b v b' h e = ground (
  arith,
  or_lt 32 result (shl 32 (bit_and (byte_at b 0) 0x7f) (7 * i)) h (omega arith),
  read_var_int_loop_takes n (i + 1) (group result (byte_at b 0) i) (advance 1 b) v b',
)

-- A read that succeeds returns a `u32`, keeps the bytes, and moves the cursor forward by one to
-- five bytes, never past the end.
pub read_var_int_takes :
    (b : Buffer) (v : ℕ) (b' : Buffer) → read_var_int b ≡ (ok v, b') → (v < 2 ^ 32) × Moves 5 b b'
unfolding read_var_int
read_var_int_takes b v b' e = read_var_int_loop_takes 5 0 0 b v b' (omega arith) e
