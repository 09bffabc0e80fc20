-- ===== src/Bedrock/Skin/Png.antt =====
-- The PNG files of src/bedrock/skin.rs against the reader of the format.
use skin_get_be_rust.Prelude.{
  ℕ, zero, suc, ◌+◌, ◌*◌, ◌/◌, ◌%◌, ◌^◌, ◌<◌, ◌≤◌, ◌≡◌, refl, sym, ap, ◌∙◌, true, [], ◌∷◌, ◌++◌,
  append_assoc, append-nil, some, length, take, drop, take-append-drop, take_prefix, drop_prefix,
  length-append, length-drop, length-take, ==_iff, ◌==◌, arith, Bool-cases, inl, inr,
}
use skin_get_be_rust.Prelude.Bytes.{u32_bytes}
use skin_get_be_rust.Prelude.Text.{Chars, codes, chars_beq, chars_beq_iff}
use skin_get_be_rust.Error.{Result, ok, err}
use skin_get_be_rust.Bedrock.Skin.{
  Bytes, Outside, scanlines, ihdr, png_signature, on_ok, png_chunk, write_png_chunk, png_of,
  encode_png_rgba,
}
use mathlib.Core.Path.{subst}
use skin_get_be_rust.Bedrock.Skin.Reader.{be_value, chunk_behind, read_chunk, unfilter, read_png}

be_value-u32_bytes :
    (n : ℕ)
    → n < 2 ^ 32
    → be_value (n / 2 ^ 24 % 256) (n / 2 ^ 16 % 256) (n / 2 ^ 8 % 256) (n % 256) ≡ n
be_value-u32_bytes n h = omega arith

chars_beq_refl : (s : Chars) → chars_beq s s ≡ true
chars_beq_refl s = (chars_beq_iff s s).1 refl

-- Associating a chunk with what follows it.
append_three : (a b c d : Bytes) → (a ++ (b ++ c)) ++ d ≡ a ++ (b ++ (c ++ d))
append_three a b c d = append_assoc a (b ++ c) d ∙ ap (λ (x : Bytes). a ++ x) (append_assoc b c d)

append_four : (a b c d : Bytes) → ((a ++ b) ++ c) ++ d ≡ a ++ (b ++ (c ++ (d ++ [])))
append_four a b c d =
    append_assoc (a ++ b) c d
    ∙ append_assoc a b (c ++ d)
    ∙ ap (λ (x : Bytes). a ++ (b ++ (c ++ x))) (sym (append-nil d))

length_le-inner : (a b c d e f : Bytes) → length d ≤ length (a ++ ((b ++ (c ++ (d ++ e))) ++ f))
length_le-inner a b c d e f = omega (
  arith,
  length-append a ((b ++ (c ++ (d ++ e))) ++ f),
  length-append (b ++ (c ++ (d ++ e))) f,
  length-append b (c ++ (d ++ e)),
  length-append c (d ++ e),
  length-append d e,
)

length_le-three :
    (h a b c d e f : Bytes) → length d ≤ length (h ++ (a ++ ((b ++ (c ++ (d ++ e))) ++ f)))
length_le-three h a b c d e f =
    omega (arith, length-append h (a ++ ((b ++ (c ++ (d ++ e))) ++ f)), length_le-inner a b c d e f)

chunk_behind-append :
    (o : Outside) (chunk_type data_ rest : Bytes)
    → length chunk_type ≡ 4
    → chunk_behind o chunk_type
        (length data_)
        (chunk_type ++ (data_ ++ (u32_bytes (o.crc32 (chunk_type ++ data_)) ++ rest)))
      ≡ some (data_, rest)
chunk_behind-append o chunk_type data_ rest h =
    let crc : Bytes = u32_bytes (o.crc32 (chunk_type ++ data_)) in
    rw (
      take_prefix chunk_type (data_ ++ (crc ++ rest)) 4 (sym h),
      drop_prefix chunk_type (data_ ++ (crc ++ rest)) 4 (sym h),
      take_prefix data_ (crc ++ rest) (length data_) refl,
      drop_prefix data_ (crc ++ rest) (length data_) refl,
      chars_beq_refl chunk_type,
      chars_beq_refl crc,
    )

read_chunk-append :
    (o : Outside) (chunk_type data_ rest : Bytes)
    → length chunk_type ≡ 4
    → length data_ < 2 ^ 32
    → read_chunk o chunk_type (png_chunk o chunk_type data_ ++ rest) ≡ some (data_, rest)
unfolding read_chunk
read_chunk-append o chunk_type data_ rest h k =
    let small : length data_ % 2 ^ 32 ≡ length data_ = omega arith in
    let crc : Bytes = u32_bytes (o.crc32 (chunk_type ++ data_)) in
    rw (small, be_value-u32_bytes (length data_) k, append_three chunk_type data_ crc rest)
      (chunk_behind-append o chunk_type data_ rest h)

-- The rows of an image of the right size are read back.
unfilter-scanlines :
    (rows row_bytes : ℕ) (rgba : Bytes)
    → length rgba ≡ rows * row_bytes
    → unfilter rows row_bytes (scanlines rows row_bytes rgba) ≡ some rgba
unfolding unfilter scanlines
unfilter-scanlines zero row_bytes [] h = refl
unfilter-scanlines zero row_bytes (x ∷ rgba) h = absurd (omega arith)
unfilter-scanlines (suc rows) row_bytes rgba h =
    let split_ : suc rows * row_bytes ≡ row_bytes + rows * row_bytes = omega arith in
    let full : row_bytes ≡ length (take row_bytes rgba) =
      omega (arith, length-take row_bytes rgba) in
    let left : length (drop row_bytes rgba) ≡ rows * row_bytes =
      omega (arith, length-drop row_bytes rgba) in
    let later : Bytes = scanlines rows row_bytes (drop row_bytes rgba) in
    rw (
      take_prefix (take row_bytes rgba) later row_bytes full,
      drop_prefix (take row_bytes rgba) later row_bytes full,
      unfilter-scanlines rows row_bytes (drop row_bytes rgba) left,
      take-append-drop row_bytes rgba,
    )

turned : (w h : ℕ) → w * h * 4 ≡ h * (w * 4)
turned w h = omega arith

png_of-chunks :
    (o : Outside) (width height : ℕ) (compressed : Bytes)
    → png_of o width height compressed
      ≡ png_signature
        ++ (png_chunk o (codes "IHDR") (ihdr width height)
            ++ (png_chunk o (codes "IDAT") compressed ++ (png_chunk o (codes "IEND") [] ++ [])))
unfolding png_of write_png_chunk
png_of-chunks o width height compressed =
    append_four png_signature (png_chunk o (codes "IHDR") (ihdr width height))
      (png_chunk o (codes "IDAT") compressed) (png_chunk o (codes "IEND") [])

length_le-png_of :
    (o : Outside) (width height : ℕ) (compressed : Bytes)
    → length compressed ≤ length (png_of o width height compressed)
length_le-png_of o width height compressed = rw (png_of-chunks o width height compressed) (
    length_le-three png_signature (png_chunk o (codes "IHDR") (ihdr width height))
      (u32_bytes (length compressed % 2 ^ 32)) (codes "IDAT") compressed
      (u32_bytes (o.crc32 (codes "IDAT" ++ compressed))) (png_chunk o (codes "IEND") [] ++ []))

read_png-png_of :
    (o : Outside) (inflate : Bytes → Result Bytes) (width height : ℕ) (rgba compressed : Bytes)
    → width < 2 ^ 32
    → height < 2 ^ 32
    → length compressed < 2 ^ 32
    → length rgba ≡ height * (width * 4)
    → inflate compressed ≡ ok (scanlines height (width * 4) rgba)
    → read_png o inflate (png_of o width height compressed) ≡ some (width, height, rgba)
unfolding read_png
read_png-png_of o inflate width height rgba compressed w h c full e =
    let image : Bytes =
      png_chunk o (codes "IDAT") compressed ++ (png_chunk o (codes "IEND") [] ++ []) in
    rw (
      png_of-chunks o width height compressed,
      read_chunk-append o (codes "IHDR") (ihdr width height) image refl (omega arith),
      read_chunk-append o (codes "IDAT") compressed (png_chunk o (codes "IEND") [] ++ []) refl c,
      read_chunk-append o (codes "IEND") [] [] refl (omega arith),
      be_value-u32_bytes width w,
      be_value-u32_bytes height h,
      e,
      unfilter-scanlines height (width * 4) rgba full,
    )

-- With a zlib decoder that inverts the encoder, a PNG file of less than 4 GiB that is written for an image
-- with sides below 2 ^ 32 reads back as the image's width, height and pixels.
pub read_png-encode_png_rgba :
    (o : Outside) (inflate : Bytes → Result Bytes)
    → ((raw compressed : Bytes) → o.zlib raw ≡ ok compressed → inflate compressed ≡ ok raw)
    → (rgba : Bytes) (width height : ℕ) → width < 2 ^ 32
    → height < 2 ^ 32
    → (png : Bytes) → encode_png_rgba o rgba width height ≡ ok png
    → length png < 2 ^ 32
    → read_png o inflate png ≡ some (width, height, rgba)
unfolding encode_png_rgba
read_png-encode_png_rgba o inflate inverse rgba width height w h png e small =
    elim (Bool-cases (length rgba == width * height * 4)) [
      | inl full ↦
          go (o.zlib (scanlines height (width * 4) rgba)) refl (rw full at e)
            ((==_iff (length rgba) (width * height * 4)).0 full)
      | inr other ↦ (let no = rw other at e in cc)
    ]
  where
    go :
        (r : Result Bytes)
        → o.zlib (scanlines height (width * 4) rgba) ≡ r
        → on_ok r (λ compressed. ok (png_of o width height compressed)) ≡ ok png
        → length rgba ≡ width * height * 4
        → read_png o inflate png ≡ some (width, height, rgba)
    go (err x) z k full = cc
    go (ok compressed) z k full =
        let same : png_of o width height compressed ≡ png = cc in
        let rows : length rgba ≡ height * (width * 4) = full ∙ turned width height in
        let below : length compressed < 2 ^ 32 =
          omega (arith, ap length same, length_le-png_of o width height compressed) in
        subst (λ (p : Bytes). read_png o inflate p ≡ some (width, height, rgba)) same
          (read_png-png_of o inflate width height rgba compressed w h below rows
            (inverse (scanlines height (width * 4) rgba) compressed z))
