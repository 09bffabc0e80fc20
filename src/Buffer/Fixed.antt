-- ===== src/Buffer/Fixed.antt =====
-- What the fixed-width reads return, in plain arithmetic.
use skin_get_be_rust.Prelude.{ℕ, ◌+◌, ◌*◌, ◌^◌, ◌≡◌, ap, ◌∙◌, List, ◌∷◌, arith, bit_or, get_or}
use skin_get_be_rust.Prelude.Bits.{shl, or_shl, shl_or, or_fields}
use skin_get_be_rust.Error.{ok}
use skin_get_be_rust.Buffer.{Buffer, IsByte, byte_at, unread, advance}
use skin_get_be_rust.Buffer.View.{byte_at-unread, guarded_lem}
use skin_get_be_rust.Buffer.Reads.{
  u8_at, u16_at, u16_le_at, u24_le_at, u32_at, u32_le_at, read_u8, read_u16, read_u16_le, read_u32,
  read_u32_le, read_u24_le,
}

byte_lem : (b : Buffer) (i : ℕ) {xs : List ℕ} → unread b ≡ xs → byte_at b i ≡ get_or xs i 0
byte_lem b i h = byte_at-unread b i ∙ ap (λ ys. get_or ys i 0) h

-- Bytes joined by shifts and `|` are their weighted sum.
module _ (w x y z : ℕ) (hw : IsByte w) (hx : IsByte x) (hy : IsByte y) (hz : IsByte z) where
  le_triad : bit_or (bit_or w (shl 32 x 8)) (shl 32 y 16) ≡ w + x * 2 ^ 8 + y * 2 ^ 16
  le_triad =
      rw (or_shl 32 8 x w (omega arith) (omega arith))
        (or_shl 32 16 y (w + x * 2 ^ 8) (omega arith) (omega arith))

  le_word :
      bit_or (bit_or (bit_or w (shl 32 x 8)) (shl 32 y 16)) (shl 32 z 24)
      ≡ w + x * 2 ^ 8 + y * 2 ^ 16 + z * 2 ^ 24
  le_word = rw le_triad (or_shl 32 24 z (w + x * 2 ^ 8 + y * 2 ^ 16) (omega arith) (omega arith))

  be_word :
      bit_or (bit_or (bit_or (shl 32 w 24) (shl 32 x 16)) (shl 32 y 8)) z
      ≡ w * 2 ^ 24 + x * 2 ^ 16 + y * 2 ^ 8 + z
  be_word =
      let high : w * 2 ^ 24 + shl 32 x 16 ≡ (w * 2 ^ 8 + x) * 2 ^ 16 = omega arith in
      let middle : (w * 2 ^ 8 + x) * 2 ^ 16 + shl 32 y 8 ≡ ((w * 2 ^ 8 + x) * 2 ^ 8 + y) * 2 ^ 8 =
        omega arith in
      rw (shl_or 32 24 w (shl 32 x 16) (omega arith) (omega arith)) (
        rw high (
          rw (or_fields 16 (w * 2 ^ 8 + x) (shl 32 y 8) (omega arith))
            (rw middle (rw (or_fields 8 ((w * 2 ^ 8 + x) * 2 ^ 8 + y) z hz) (omega arith)))))

le_pair : (x y : ℕ) → IsByte x → IsByte y → bit_or x (shl 16 y 8) ≡ x + y * 2 ^ 8
le_pair x y hx hy = or_shl 16 8 y x hx (omega arith)

be_pair : (x y : ℕ) → IsByte x → IsByte y → bit_or (shl 16 x 8) y ≡ x * 2 ^ 8 + y
be_pair x y hx hy = shl_or 16 8 x y hy (omega arith)

-- Each read on a buffer that has the bytes: their value, and the cursor behind them.
module _ (b : Buffer) (w : ℕ) (rest : List ℕ) where
  pub read_u8_lem : unread b ≡ w ∷ rest → read_u8 b ≡ (ok w, advance 1 b)
  unfolding read_u8
  read_u8_lem h = guarded_lem 1 u8_at b w (omega arith) h (omega arith) (byte_lem b 0 h)

module _ (b : Buffer) (w x : ℕ) (rest : List ℕ) (hw : IsByte w) (hx : IsByte x) where
  pub read_u16_lem : unread b ≡ w ∷ x ∷ rest → read_u16 b ≡ (ok (w * 2 ^ 8 + x), advance 2 b)
  unfolding read_u16
  read_u16_lem h =
      guarded_lem 2 u16_at b _ (omega arith) h (omega arith)
        (rw (byte_lem b 0 h, byte_lem b 1 h) (be_pair w x hw hx))

  pub read_u16_le_lem : unread b ≡ w ∷ x ∷ rest → read_u16_le b ≡ (ok (w + x * 2 ^ 8), advance 2 b)
  unfolding read_u16_le
  read_u16_le_lem h =
      guarded_lem 2 u16_le_at b _ (omega arith) h (omega arith)
        (rw (byte_lem b 0 h, byte_lem b 1 h) (le_pair w x hw hx))

module _ (b : Buffer) (w x y : ℕ) (rest : List ℕ) (hw : IsByte w) (hx : IsByte x)
    (hy : IsByte y) where
  pub read_u24_le_lem :
      unread b ≡ w ∷ x ∷ y ∷ rest → read_u24_le b ≡ (ok (w + x * 2 ^ 8 + y * 2 ^ 16), advance 3 b)
  unfolding read_u24_le
  read_u24_le_lem h = guarded_lem 3 u24_le_at b _ (omega arith) h (omega arith) (
      rw (byte_lem b 0 h, byte_lem b 1 h, byte_lem b 2 h) (le_triad w x y 0 hw hx hy (omega arith)))

module _ (b : Buffer) (w x y z : ℕ) (rest : List ℕ) (hw : IsByte w) (hx : IsByte x) (hy : IsByte y)
    (hz : IsByte z) where
  pub read_u32_lem :
      unread b ≡ w ∷ x ∷ y ∷ z ∷ rest
      → read_u32 b ≡ (ok (w * 2 ^ 24 + x * 2 ^ 16 + y * 2 ^ 8 + z), advance 4 b)
  unfolding read_u32
  read_u32_lem h = guarded_lem 4 u32_at b _ (omega arith) h (omega arith) (
      rw (byte_lem b 0 h, byte_lem b 1 h, byte_lem b 2 h, byte_lem b 3 h)
        (be_word w x y z hw hx hy hz))

  pub read_u32_le_lem :
      unread b ≡ w ∷ x ∷ y ∷ z ∷ rest
      → read_u32_le b ≡ (ok (w + x * 2 ^ 8 + y * 2 ^ 16 + z * 2 ^ 24), advance 4 b)
  unfolding read_u32_le
  read_u32_le_lem h = guarded_lem 4 u32_le_at b _ (omega arith) h (omega arith) (
      rw (byte_lem b 0 h, byte_lem b 1 h, byte_lem b 2 h, byte_lem b 3 h)
        (le_word w x y z hw hx hy hz))
