-- ===== src/Buffer/Writes.antt =====
-- The writes of src/util/buffer.rs. Every write appends and returns `Ok(())`.
use skin_get_be_rust.Prelude.{
  ℕ, zero, suc, ◌+◌, ◌*◌, Bool, List, [], ◌∷◌, ◌++◌, if◌then◌else◌, bit_and,
}
use skin_get_be_rust.Prelude.Bits.{shr}
use skin_get_be_rust.Error.{ok}
use skin_get_be_rust.Buffer.{M, ◌>>◌}

unfoldable pub write_bytes : List ℕ → M (Unit {0})
write_bytes xs b = (ok tt, record b { bytes = b.bytes ++ xs })

-- `self.data.push(..)`
unfoldable pub write_u8 : ℕ → M (Unit {0})
write_u8 value b = (ok tt, record b { bytes = b.bytes ++ (value ∷ []) })

-- `((value >> k) & 0xFF) as u8`
abbrev pub octet : ℕ → ℕ → ℕ
octet value k = bit_and (shr value k) 0xff

unfoldable pub write_u16 : ℕ → M (Unit {0})
unfolding write_u8
write_u16 value = do write_u8 (octet value 8); write_u8 (octet value 0)

unfoldable pub write_u16_le : ℕ → M (Unit {0})
unfolding write_u8
write_u16_le value = do write_u8 (octet value 0); write_u8 (octet value 8)

unfoldable pub write_u32 : ℕ → M (Unit {0})
unfolding write_u8
write_u32 value = do
  write_u8 (octet value 24)
  write_u8 (octet value 16)
  write_u8 (octet value 8)
  write_u8 (octet value 0)

unfoldable pub write_u32_le : ℕ → M (Unit {0})
unfolding write_u8
write_u32_le value = do
  write_u8 (octet value 0)
  write_u8 (octet value 8)
  write_u8 (octet value 16)
  write_u8 (octet value 24)

unfoldable pub write_u24_le : ℕ → M (Unit {0})
unfolding write_u8
write_u24_le value = do
  write_u8 (octet value 0)
  write_u8 (octet value 8)
  write_u8 (octet value 16)

-- `for i in (0..n).rev()`
unfoldable pub write_be_loop : ℕ → ℕ → M (Unit {0})
unfolding write_u8
write_be_loop zero value b = (ok tt, b)
write_be_loop (suc i) value b = (write_u8 (octet value (i * 8)) >> write_be_loop i value) b

unfoldable pub write_u64 : ℕ → M (Unit {0})
write_u64 = write_be_loop 8

-- `for i in 0..8`, from index `i` for `n` rounds.
unfoldable pub write_le_loop : ℕ → ℕ → ℕ → M (Unit {0})
unfolding write_u8
write_le_loop zero i value b = (ok tt, b)
write_le_loop (suc n) i value b =
    (write_u8 (octet value (i * 8)) >> write_le_loop n (i + 1) value) b

unfoldable pub write_u64_le : ℕ → M (Unit {0})
write_u64_le = write_le_loop 8 0

unfoldable pub write_bool : Bool → M (Unit {0})
unfolding write_u8
write_bool value = write_u8 (if value then 1 else 0)
