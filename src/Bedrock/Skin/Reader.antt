-- ===== src/Bedrock/Skin/Reader.antt =====
-- A reader of PNG files that knows chunks, checksums and unfiltered rows, for what src/bedrock/skin.rs writes.
use skin_get_be_rust.Prelude.{
  ℕ, zero, suc, ◌+◌, ◌*◌, ◌^◌, ◌&&◌, [], ◌∷◌, ◌++◌, Option, none, some, take, drop, ◌==◌,
  if◌then◌else◌,
}
use skin_get_be_rust.Prelude.Bytes.{u32_bytes}
use skin_get_be_rust.Prelude.Text.{Chars, codes, chars_beq}
use skin_get_be_rust.Error.{Result, ok, err}
use skin_get_be_rust.Bedrock.Skin.{Bytes, Outside, png_signature}

abbrev pub be_value : ℕ → ℕ → ℕ → ℕ → ℕ
be_value a b c d = a * 2 ^ 24 + b * 2 ^ 16 + c * 2 ^ 8 + d

-- The data of a chunk of the type, and what is behind it. The checksum must be right.
module _ (o : Outside) where
  abbrev pub chunk_behind : Chars → ℕ → Bytes → Option (Bytes × Bytes)
  chunk_behind chunk_type n s =
      if chars_beq (take 4 s) chunk_type
        && chars_beq (take 4 (drop n (drop 4 s)))
            (u32_bytes (o.crc32 (chunk_type ++ take n (drop 4 s))))
      then some (take n (drop 4 s), drop 4 (drop n (drop 4 s)))
      else none

  unfoldable pub read_chunk : Chars → Bytes → Option (Bytes × Bytes)
  read_chunk chunk_type (a ∷ b ∷ c ∷ d ∷ s) = chunk_behind chunk_type (be_value a b c d) s
  read_chunk chunk_type _ = none

-- The rows, each behind the filter byte 0.
abbrev pub after_row : Bytes → Option Bytes → Option Bytes
after_row row none = none
after_row row (some rest) = some (row ++ rest)

unfoldable pub unfilter : (rows : ℕ) → (row_bytes : ℕ) → Bytes → Option Bytes
unfilter zero row_bytes [] = some []
unfilter zero row_bytes (x ∷ raw) = none
unfilter (suc rows) row_bytes [] = none
unfilter (suc rows) row_bytes (filter ∷ raw) =
    let rest = unfilter rows row_bytes (drop row_bytes raw) in
    if filter == 0 then after_row (take row_bytes raw) rest else none

-- An image of 8 bits a channel with alpha: its width, height and pixels.
abbrev pub Image : Type 0
Image = ℕ × ℕ × Bytes

module _ (o : Outside) (inflate : Bytes → Result Bytes) where
  abbrev pub with_pixels : ℕ → ℕ → Option Bytes → Option Image
  with_pixels width height none = none
  with_pixels width height (some rgba) = some (width, height, rgba)

  abbrev pub with_raw : ℕ → ℕ → Result Bytes → Option Image
  with_raw width height (err e) = none
  with_raw width height (ok raw) = with_pixels width height (unfilter height (width * 4) raw)

  abbrev pub with_end : Option Image → Option (Bytes × Bytes) → Option Image
  with_end image (some ([], [])) = image
  with_end image _ = none

  abbrev pub with_data : ℕ → ℕ → Option (Bytes × Bytes) → Option Image
  with_data width height none = none
  with_data width height (some (compressed, rest)) =
      with_end (with_raw width height (inflate compressed)) (read_chunk o (codes "IEND") rest)

  abbrev pub with_header : Option (Bytes × Bytes) → Option Image
  with_header (some (a ∷ b ∷ c ∷ d ∷ e ∷ f ∷ g ∷ h ∷ kind, rest)) =
      if chars_beq kind (8 ∷ 6 ∷ 0 ∷ 0 ∷ 0 ∷ [])
      then with_data (be_value a b c d) (be_value e f g h) (read_chunk o (codes "IDAT") rest)
      else none
  with_header _ = none

  unfoldable pub read_png : Bytes → Option Image
  read_png png =
      if chars_beq (take 8 png) png_signature
      then with_header (read_chunk o (codes "IHDR") (drop 8 png))
      else none
