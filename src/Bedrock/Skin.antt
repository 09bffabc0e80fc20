-- ===== src/Bedrock/Skin.antt =====
-- src/bedrock/skin.rs: skin images, their PNG encoding and the files they are saved in. The zlib encoder,
-- the CRC, the JSON writer and the disk are parameters. Files are kept by their names in the `skins`
-- directory; the bytes of the name are those of the text.
pub mod Reader
pub mod Png
pub mod Names
pub mod Stem
pub mod Dimensions
pub mod Saved
use skin_get_be_rust.Prelude.{
  ℕ, zero, suc, ◌+◌, ◌*◌, ◌/◌, ◌-◌, ◌%◌, ◌^◌, min, Bool, true, false, not, ◌&&◌, ◌||◌, List, [],
  ◌∷◌, ◌++◌, map, Option, none, some, length, take, drop, ltb, ◌==◌, if◌then◌else◌,
}
use skin_get_be_rust.Prelude.Bytes.{u32_bytes}
use skin_get_be_rust.Prelude.Map.{Map, lookup}
use skin_get_be_rust.Prelude.Text.{Chars, codes, chars_eq}
use skin_get_be_rust.Prelude.Decimal.{decimal}
use skin_get_be_rust.Error.{Error, Result, ok, err, invalid_data}

abbrev pub Bytes : Type 0
Bytes = List ℕ

-- The files in the `skins` directory.
abbrev pub Files : Type 0
Files = Map Chars Bytes

-- What the code calls of flate2, crc32fast and `std::fs`. A write that fails may have changed its file.
pub record Outside : Type 0 where
  pub zlib : Bytes → Result Bytes
  pub crc32 : Bytes → ℕ
  pub create_dir_all : Result (Unit {0})
  pub write : Chars → Bytes → Files → Result (Unit {0}) × Files

-- `ExtractedSkin`
pub record ExtractedSkin : Type 0 where
  pub width : ℕ
  pub height : ℕ
  pub rgba : Bytes

abbrev pub new : ℕ → ℕ → Bytes → Result ExtractedSkin
new width height rgba =
    if not (length rgba == width * height * 4)
    then err invalid_data
    else ok (record { width = width; height = height; rgba = rgba })

-- The dimensions of a number of pixels.
abbrev pub dimensions : ℕ → ℕ × ℕ
dimensions pixels =
    if pixels == 64 * 32
    then (64, 32)
    else if pixels == 64 * 64
    then (64, 64)
    else if pixels == 128 * 64
    then (128, 64)
    else if pixels == 128 * 128
    then (128, 128)
    else (64, (if pixels % 2 ^ 32 / 64 == 0 then 64 else pixels % 2 ^ 32 / 64))

unfoldable pub extract_skin : Bytes → Result ExtractedSkin
extract_skin rgba =
    if ltb (length rgba) (64 * 32 * 4)
    then err invalid_data
    else ok (record {
      width = (dimensions (length rgba / 4)).0;
      height = (dimensions (length rgba / 4)).1;
      rgba = rgba;
    })

-- `matches!` on the characters that a file name may not hold.
abbrev pub is_reserved : ℕ → Bool
is_reserved c =
    c == b'/'
    || c == b'\\'
    || c == b':'
    || c == b'*'
    || c == b'?'
    || c == b'"'
    || c == b'<'
    || c == b'>'
    || c == b'|'

abbrev pub sanitize_char : ℕ → ℕ
sanitize_char c = if is_reserved c then b'_' else c

unfoldable pub sanitize_component : Chars → Chars
sanitize_component value = map sanitize_char value

-- A filter byte in front of each row; the rows start at `start` of the image.
unfoldable pub scanlines : (rows : ℕ) → (row_bytes : ℕ) → Bytes → Bytes
scanlines zero row_bytes rgba = []
scanlines (suc rows) row_bytes rgba =
    0 ∷ take row_bytes rgba ++ scanlines rows row_bytes (drop row_bytes rgba)

abbrev pub ihdr : ℕ → ℕ → Bytes
ihdr width height = u32_bytes width ++ (u32_bytes height ++ (8 ∷ 6 ∷ 0 ∷ 0 ∷ 0 ∷ []))

abbrev pub png_signature : Bytes
png_signature = 137 ∷ 80 ∷ 78 ∷ 71 ∷ 13 ∷ 10 ∷ 26 ∷ 10 ∷ []

abbrev pub on_ok : {A B : Type 0} → Result A → (A → Result B) → Result B
on_ok (ok a) f = f a
on_ok (err e) f = err e

module _ (o : Outside) where
  abbrev pub png_chunk : Chars → Bytes → Bytes
  png_chunk chunk_type data_ =
      u32_bytes (length data_ % 2 ^ 32)
      ++ (chunk_type ++ (data_ ++ u32_bytes (o.crc32 (chunk_type ++ data_))))

  unfoldable pub write_png_chunk : Bytes → Chars → Bytes → Bytes
  write_png_chunk out chunk_type data_ = out ++ png_chunk chunk_type data_

  unfoldable pub png_of : ℕ → ℕ → Bytes → Bytes
  png_of width height compressed =
      write_png_chunk
        (write_png_chunk (write_png_chunk png_signature (codes "IHDR") (ihdr width height))
          (codes "IDAT") compressed)
        (codes "IEND") []

  unfoldable pub encode_png_rgba : Bytes → ℕ → ℕ → Result Bytes
  encode_png_rgba rgba width height =
      if not (length rgba == width * height * 4)
      then err invalid_data
      else on_ok (o.zlib (scanlines height (width * 4) rgba))
          (λ compressed. ok (png_of width height compressed))

abbrev pub png_name : Chars → Chars
png_name stem = stem ++ codes ".png"

abbrev pub json_name : Chars → Chars
json_name stem = stem ++ codes ".json"

abbrev pub is_some : Option Bytes → Bool
is_some none = false
is_some (some bytes) = true

abbrev pub exists : Chars → Files → Bool
exists name files = is_some (lookup name files)

-- Neither the image nor the sidecar of the stem is there.
abbrev pub is_free : Files → Chars → Bool
is_free files stem = not (exists (png_name stem) files) && not (exists (json_name stem) files)

abbrev pub numbered : Chars → ℕ → Chars
numbered base_name count = base_name ++ b'_' ∷ decimal count

-- `count.saturating_add(1)`
abbrev pub next_count : ℕ → ℕ
next_count count = min (count + 1) (2 ^ 32 - 1)

-- The loop; out of fuel is none.
unfoldable pub stem_loop : (fuel : ℕ) → Files → Chars → ℕ → Option Chars
stem_loop zero files base_name count = none
stem_loop (suc fuel) files base_name count =
    let later = stem_loop fuel files base_name (next_count count) in
    if is_free files (numbered base_name count) then some (numbered base_name count) else later

unfoldable pub next_available_stem : (fuel : ℕ) → Files → Chars → Option Chars
next_available_stem fuel files base_name =
    if is_free files base_name then some base_name else stem_loop fuel files base_name 1

-- Enough rounds for every file to be in the way of one.
abbrev pub fuel_for : Files → ℕ
fuel_for files = suc (length files)

-- `match savemode`
unfoldable pub stem_for : ℕ → Files → Chars → Option Chars
stem_for savemode files base_name =
    if savemode == 1 then some base_name else next_available_stem (fuel_for files) files base_name

-- What a save returns: the name of the image, or none when saving is off.
abbrev pub Saving : Type 0
Saving = Result (Option Chars) × Files

module _ (o : Outside) where
  -- The sidecar; a failed write of it is only logged, a failed rendering is returned.
  abbrev pub save_sidecar : Chars → Result Bytes → Files → Saving
  save_sidecar stem (err e) files = (err e, files)
  save_sidecar stem (ok sidecar) files =
      (ok (some (png_name stem)), (o.write (json_name stem) sidecar files).1)

  abbrev pub after_image : Chars → Result Bytes → Result (Unit {0}) × Files → Saving
  after_image stem sidecar (err e, files) = (err e, files)
  after_image stem sidecar (ok done, files) = save_sidecar stem sidecar files

  abbrev pub save_image : Chars → Result Bytes → Result Bytes → Files → Saving
  save_image stem sidecar (err e) files = (err e, files)
  save_image stem sidecar (ok png) files =
      after_image stem sidecar (o.write (png_name stem) png files)

  -- A loop that ends on no stem does not return; `fuel_for` rules that out below 2 ^ 32 - 1 files.
  abbrev pub save_under : Option Chars → ExtractedSkin → Result Bytes → Files → Option Saving
  save_under none skin sidecar files = none
  save_under (some stem) skin sidecar files =
      some (save_image stem sidecar (encode_png_rgba o skin.rgba skin.width skin.height) files)

  abbrev pub base_name_of : Chars → Chars → Chars
  base_name_of player_name skin_id =
      sanitize_component player_name ++ b'_' ∷ sanitize_component skin_id

  abbrev pub in_directory : Result (Unit {0}) → Files → Option Saving → Option Saving
  in_directory (err e) files saving = some (err e, files)
  in_directory (ok done) files saving = saving

  -- `sidecar` is the rendered metadata.
  unfoldable pub save_login_capture :
      Chars → Chars → Result Bytes → ExtractedSkin → ℕ → Files → Option Saving
  save_login_capture player_name skin_id sidecar skin savemode files =
      if savemode == 0
      then some (ok none, files)
      else in_directory o.create_dir_all files (
          save_under (stem_for savemode files (base_name_of player_name skin_id)) skin sidecar
            files)
