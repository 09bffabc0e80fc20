-- ===== src/Buffer/RoundTrip.antt =====
-- The fixed-width reads read back what the writes wrote.
use skin_get_be_rust.Prelude.{
  ℕ, ◌+◌, ◌*◌, ◌/◌, ◌%◌, ◌^◌, ◌<◌, ◌≡◌, ◌∙◌, List, ◌++◌, arith, length, append_assoc,
}
use skin_get_be_rust.Prelude.Bytes.{u16_bytes, u16_le_bytes, u24_le_bytes, u32_bytes, u32_le_bytes}
use skin_get_be_rust.Prelude.Bits.{and_0xff}
use skin_get_be_rust.Error.{ok}
use skin_get_be_rust.Buffer.{Buffer, unread, advance, ◌>>◌}
use skin_get_be_rust.Buffer.View.{unread_at}
use skin_get_be_rust.Buffer.Fixed
use skin_get_be_rust.Buffer.Reads.{read_u16, read_u32, read_u32_le, read_u24_le}
use skin_get_be_rust.Buffer.Writes.{
  octet, write_u16, write_u16_le, write_u32, write_u32_le, write_u24_le, write_bytes,
}

abbrev pub appended : List ℕ → Buffer → Buffer
appended xs b = record b { bytes = b.bytes ++ xs }

octet_lem : (v k : ℕ) → octet v k ≡ v / 2 ^ k % 256
octet_lem v k = and_0xff (v / 2 ^ k)

octet_zero : (v : ℕ) → octet v 0 ≡ v % 256
octet_zero v = and_0xff (v / 2 ^ 0) ∙ omega arith

module _ (v : ℕ) (b : Buffer) where
  pub write_u16_lem : write_u16 v b ≡ (ok tt, appended (u16_bytes v) b)
  unfolding write_u16
  write_u16_lem = simp (append_assoc, octet_lem v 8, octet_zero v)

  pub write_u16_le_lem : write_u16_le v b ≡ (ok tt, appended (u16_le_bytes v) b)
  unfolding write_u16_le
  write_u16_le_lem = simp (append_assoc, octet_lem v 8, octet_zero v)

  pub write_u24_le_lem : write_u24_le v b ≡ (ok tt, appended (u24_le_bytes v) b)
  unfolding write_u24_le
  write_u24_le_lem = simp (append_assoc, octet_lem v 8, octet_lem v 16, octet_zero v)

  pub write_u32_lem : write_u32 v b ≡ (ok tt, appended (u32_bytes v) b)
  unfolding write_u32
  write_u32_lem = simp (append_assoc, octet_lem v 8, octet_lem v 16, octet_lem v 24, octet_zero v)

  pub write_u32_le_lem : write_u32_le v b ≡ (ok tt, appended (u32_le_bytes v) b)
  unfolding write_u32_le
  write_u32_le_lem =
      simp (append_assoc, octet_lem v 8, octet_lem v 16, octet_lem v 24, octet_zero v)

-- The reads on the bytes of a word that fits.
module _ (v : ℕ) (b : Buffer) (rest : List ℕ) where
  pub read_u16-bytes :
      v < 2 ^ 16 → unread b ≡ u16_bytes v ++ rest → read_u16 b ≡ (ok v, advance 2 b)
  read_u16-bytes h e =
      rw (Fixed.read_u16_lem b (v / 2 ^ 8 % 256) (v % 256) rest (omega arith) (omega arith) e)
        (λ i. (ok (sum i), advance 2 b))
    where
      sum : v / 2 ^ 8 % 256 * 2 ^ 8 + v % 256 ≡ v
      sum = omega arith

  pub read_u24_le-bytes :
      v < 2 ^ 24 → unread b ≡ u24_le_bytes v ++ rest → read_u24_le b ≡ (ok v, advance 3 b)
  read_u24_le-bytes h e =
      rw
        (Fixed.read_u24_le_lem b (v % 256) (v / 2 ^ 8 % 256) (v / 2 ^ 16 % 256) rest (omega arith)
          (omega arith) (omega arith) e)
        (λ i. (ok (sum i), advance 3 b))
    where
      sum : v % 256 + v / 2 ^ 8 % 256 * 2 ^ 8 + v / 2 ^ 16 % 256 * 2 ^ 16 ≡ v
      sum = omega arith

  pub read_u32-bytes :
      v < 2 ^ 32 → unread b ≡ u32_bytes v ++ rest → read_u32 b ≡ (ok v, advance 4 b)
  read_u32-bytes h e =
      rw
        (Fixed.read_u32_lem b (v / 2 ^ 24 % 256) (v / 2 ^ 16 % 256) (v / 2 ^ 8 % 256) (v % 256) rest
          (omega arith) (omega arith) (omega arith) (omega arith) e)
        (λ i. (ok (sum i), advance 4 b))
    where
      sum :
          v / 2 ^ 24 % 256 * 2 ^ 24 + v / 2 ^ 16 % 256 * 2 ^ 16 + v / 2 ^ 8 % 256 * 2 ^ 8 + v % 256
          ≡ v
      sum = omega arith

  pub read_u32_le-bytes :
      v < 2 ^ 32 → unread b ≡ u32_le_bytes v ++ rest → read_u32_le b ≡ (ok v, advance 4 b)
  read_u32_le-bytes h e =
      rw
        (Fixed.read_u32_le_lem b (v % 256) (v / 2 ^ 8 % 256) (v / 2 ^ 16 % 256) (v / 2 ^ 24 % 256)
          rest (omega arith) (omega arith) (omega arith) (omega arith) e)
        (λ i. (ok (sum i), advance 4 b))
    where
      sum :
          v % 256 + v / 2 ^ 8 % 256 * 2 ^ 8 + v / 2 ^ 16 % 256 * 2 ^ 16 + v / 2 ^ 24 % 256 * 2 ^ 24
          ≡ v
      sum = omega arith

-- Writing and then reading at the place of the write, with any bytes behind it.
module _ (v : ℕ) (rest : List ℕ) (b : Buffer) (at_end : b.position ≡ length b.bytes) where
  pub read_u24_le-write_u24_le :
      v < 2 ^ 24
      → (do write_u24_le v; write_bytes rest; read_u24_le) b
        ≡ (ok v, advance 3 (appended (u24_le_bytes v ++ rest) b))
  unfolding write_bytes
  read_u24_le-write_u24_le h =
      rw (write_u24_le_lem v b, append_assoc b.bytes (u24_le_bytes v) rest)
        (read_u24_le-bytes v (appended (u24_le_bytes v ++ rest) b) rest h (unread_at b _ at_end))

  pub read_u16-write_u16 :
      v < 2 ^ 16
      → (do write_u16 v; write_bytes rest; read_u16) b
        ≡ (ok v, advance 2 (appended (u16_bytes v ++ rest) b))
  unfolding write_bytes
  read_u16-write_u16 h =
      rw (write_u16_lem v b, append_assoc b.bytes (u16_bytes v) rest)
        (read_u16-bytes v (appended (u16_bytes v ++ rest) b) rest h (unread_at b _ at_end))

  pub read_u32-write_u32 :
      v < 2 ^ 32
      → (do write_u32 v; write_bytes rest; read_u32) b
        ≡ (ok v, advance 4 (appended (u32_bytes v ++ rest) b))
  unfolding write_bytes
  read_u32-write_u32 h =
      rw (write_u32_lem v b, append_assoc b.bytes (u32_bytes v) rest)
        (read_u32-bytes v (appended (u32_bytes v ++ rest) b) rest h (unread_at b _ at_end))

  pub read_u32_le-write_u32_le :
      v < 2 ^ 32
      → (do write_u32_le v; write_bytes rest; read_u32_le) b
        ≡ (ok v, advance 4 (appended (u32_le_bytes v ++ rest) b))
  unfolding write_bytes
  read_u32_le-write_u32_le h =
      rw (write_u32_le_lem v b, append_assoc b.bytes (u32_le_bytes v) rest)
        (read_u32_le-bytes v (appended (u32_le_bytes v ++ rest) b) rest h (unread_at b _ at_end))

-- A word that fits its width, written where the cursor stands at the end and followed by any
-- bytes, is read back in each format (big- and little-endian words of 32 bits, the big-endian
-- word of 16 bits, the little-endian triad), and the cursor is then behind it.
pub fixed_round_trip :
    (half triad word : ℕ) (rest : List ℕ) (b : Buffer)
    → half < 2 ^ 16
    → triad < 2 ^ 24
    → word < 2 ^ 32
    → b.position ≡ length b.bytes
    → ((do write_u16 half; write_bytes rest; read_u16) b
        ≡ (ok half, advance 2 (appended (u16_bytes half ++ rest) b)))
      × ((do write_u24_le triad; write_bytes rest; read_u24_le) b
          ≡ (ok triad, advance 3 (appended (u24_le_bytes triad ++ rest) b)))
      × ((do write_u32 word; write_bytes rest; read_u32) b
          ≡ (ok word, advance 4 (appended (u32_bytes word ++ rest) b)))
      × ((do write_u32_le word; write_bytes rest; read_u32_le) b
          ≡ (ok word, advance 4 (appended (u32_le_bytes word ++ rest) b)))
fixed_round_trip half triad word rest b h16 h24 h32 at_end = (
  read_u16-write_u16 half rest b at_end h16,
  read_u24_le-write_u24_le triad rest b at_end h24,
  read_u32-write_u32 word rest b at_end h32,
  read_u32_le-write_u32_le word rest b at_end h32,
)
