-- ===== src/Buffer/Reads.antt =====
-- The fixed-width reads of src/util/buffer.rs: shifts and `|` as the code writes them.
use skin_get_be_rust.Prelude.{ℕ, zero, suc, ◌+◌, ◌*◌, bit_or}
use skin_get_be_rust.Prelude.Bits.{shl}
use skin_get_be_rust.Buffer.{Buffer, M, guarded, byte_at}

-- What each read computes from the bytes at the cursor.
abbrev pub u8_at : Buffer → ℕ
u8_at b = byte_at b 0

abbrev pub u16_at : Buffer → ℕ
u16_at b = bit_or (shl 16 (byte_at b 0) 8) (byte_at b 1)

abbrev pub u16_le_at : Buffer → ℕ
u16_le_at b = bit_or (byte_at b 0) (shl 16 (byte_at b 1) 8)

abbrev pub u32_at : Buffer → ℕ
u32_at b =
    bit_or
      (bit_or (bit_or (shl 32 (byte_at b 0) 24) (shl 32 (byte_at b 1) 16)) (shl 32 (byte_at b 2) 8))
      (byte_at b 3)

abbrev pub u24_le_at : Buffer → ℕ
u24_le_at b = bit_or (bit_or (byte_at b 0) (shl 32 (byte_at b 1) 8)) (shl 32 (byte_at b 2) 16)

abbrev pub u32_le_at : Buffer → ℕ
u32_le_at b = bit_or (u24_le_at b) (shl 32 (byte_at b 3) 24)

unfoldable pub read_u8 : M ℕ
read_u8 = guarded 1 u8_at

unfoldable pub read_u16 : M ℕ
read_u16 = guarded 2 u16_at

unfoldable pub read_u16_le : M ℕ
read_u16_le = guarded 2 u16_le_at

unfoldable pub read_u32 : M ℕ
read_u32 = guarded 4 u32_at

unfoldable pub read_u32_le : M ℕ
read_u32_le = guarded 4 u32_le_at

unfoldable pub read_u24_le : M ℕ
read_u24_le = guarded 3 u24_le_at

-- `for i in 0..8 { val = (val << 8) | data[position + i] }`, from index `i` for `n` rounds.
unfoldable pub be_loop : ℕ → ℕ → ℕ → Buffer → ℕ
be_loop zero i val b = val
be_loop (suc n) i val b = be_loop n (i + 1) (bit_or (shl 64 val 8) (byte_at b i)) b

unfoldable pub read_u64 : M ℕ
unfolding be_loop
read_u64 = guarded 8 (be_loop 8 0 0)

-- `for i in 0..8 { val |= data[position + i] << (i * 8) }`
unfoldable pub le_loop : ℕ → ℕ → ℕ → Buffer → ℕ
le_loop zero i val b = val
le_loop (suc n) i val b = le_loop n (i + 1) (bit_or val (shl 64 (byte_at b i) (i * 8))) b

unfoldable pub read_u64_le : M ℕ
unfolding le_loop
read_u64_le = guarded 8 (le_loop 8 0 0)
