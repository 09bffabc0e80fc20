-- ===== src/Tests/Skin.antt =====
-- Runs of the PNG writer and of saving, with a codec that stores and a disk that takes every file.
use skin_get_be_rust.Prelude.{
  ◌≡◌, ◌⊎◌, refl, sym, ◌∙◌, arith, true, false, [], ◌∷◌, some, length, Bool-cases, inl, inr,
}
use skin_get_be_rust.Prelude.Map.{lookup, insert, lookup-insert, lookup-insert_self}
use skin_get_be_rust.Prelude.Text.{Chars, codes, chars_beq, chars_beq_iff, chars_eq}
use skin_get_be_rust.Error.{Result, ok}
use skin_get_be_rust.Bedrock.Skin.{
  Bytes, Files, Outside, ExtractedSkin, Saving, exists, is_free, fuel_for, next_available_stem,
  encode_png_rgba, png_of, write_png_chunk, scanlines, save_login_capture,
}
use skin_get_be_rust.Bedrock.Skin.Reader.{read_png}
use skin_get_be_rust.Bedrock.Skin.Png.{read_png-encode_png_rgba}
use skin_get_be_rust.Bedrock.Skin.Stem.{FirstFree, next_available_stem_first}
use skin_get_be_rust.Bedrock.Skin.Saved.{
  Faithful, Reported, save_login_capture_keeps, save_login_capture_reports,
}

abbrev pub disk : Outside
disk = record {
  zlib = λ raw. ok raw;
  crc32 = λ s. length s;
  create_dir_all = ok tt;
  write = λ name bytes files. (ok tt, insert name bytes files);
}

pub disk-Faithful : Faithful disk
disk-Faithful = record {
  apart = λ name other bytes files h.
      lookup-insert name other bytes files ∙ elim (Bool-cases (chars_beq name other)) [
        | inl same ↦ absurd (h ((chars_beq_iff name other).0 same))
        | inr differ ↦ rw differ refl
      ];
  holds = λ name bytes files _. lookup-insert_self name bytes files;
}

-- One pixel.
abbrev dot_image : Bytes
dot_image = 1 ∷ 2 ∷ 3 ∷ 255 ∷ []

abbrev dot_png : Bytes
dot_png =
    137 ∷ 80 ∷ 78 ∷ 71 ∷ 13 ∷ 10 ∷ 26 ∷ 10 ∷ 0 ∷ 0 ∷ 0 ∷ 13 ∷ 73 ∷ 72 ∷ 68 ∷ 82 ∷ 0 ∷ 0 ∷ 0 ∷ 1 ∷ 0
    ∷ 0 ∷ 0 ∷ 1 ∷ 8 ∷ 6 ∷ 0 ∷ 0 ∷ 0 ∷ 0 ∷ 0 ∷ 0 ∷ 17 ∷ 0 ∷ 0 ∷ 0 ∷ 5 ∷ 73 ∷ 68 ∷ 65 ∷ 84 ∷ 0 ∷ 1 ∷ 2
    ∷ 3 ∷ 255 ∷ 0 ∷ 0 ∷ 0 ∷ 9 ∷ 0 ∷ 0 ∷ 0 ∷ 0 ∷ 73 ∷ 69 ∷ 78 ∷ 68 ∷ 0 ∷ 0 ∷ 0 ∷ 4 ∷ []

dot_encoded : encode_png_rgba disk dot_image 1 1 ≡ ok dot_png
unfolding encode_png_rgba png_of write_png_chunk scanlines
dot_encoded = refl

stored :
    (raw compressed : Bytes)
    → disk.zlib raw ≡ ok compressed
    → ◌≡◌ {A = Result Bytes} (ok compressed) (ok raw)
stored raw compressed h = sym h

read_png-encode_png_rgba_example : read_png disk (λ s. ok s) dot_png ≡ some (1, 1, dot_image)
read_png-encode_png_rgba_example =
    read_png-encode_png_rgba disk (λ s. ok s) stored dot_image 1 1 (omega arith) (omega arith)
      dot_png dot_encoded (omega arith)

abbrev files : Files
files = (codes "Steve_Skin.png", 1 ∷ []) ∷ (codes "Steve_Skin_1.json", 2 ∷ []) ∷ []

next_available_stem_first_example :
    ((is_free files (codes "Steve_Skin") ≡ true)
      × (next_available_stem (fuel_for files) files (codes "Steve_Skin")
          ≡ some (codes "Steve_Skin")))
    ⊎ ((is_free files (codes "Steve_Skin") ≡ false)
        × FirstFree
            (length files)
            files
            (codes "Steve_Skin")
            1
            (next_available_stem (fuel_for files) files (codes "Steve_Skin")))
next_available_stem_first_example =
    next_available_stem_first files (codes "Steve_Skin") (omega arith)

abbrev skin : ExtractedSkin
skin = record { width = 1; height = 1; rgba = dot_image }

save_login_capture_keeps_example :
    (saving : Saving) × (save_login_capture disk (codes "Steve") (codes "Skin") (ok []) skin 2 files
      ≡ some saving)
    × ((name : Chars) → exists name files ≡ true → lookup name saving.1 ≡ lookup name files)
save_login_capture_keeps_example =
    save_login_capture_keeps disk disk-Faithful (codes "Steve") (codes "Skin") (ok []) skin 2 files
      (omega arith) refl

save_login_capture_reports_example :
    (saving : Saving) × (save_login_capture disk (codes "Steve") (codes "Skin") (ok []) skin 1 files
      ≡ some saving)
    × Reported disk skin saving
save_login_capture_reports_example =
    save_login_capture_reports disk disk-Faithful (codes "Steve") (codes "Skin") (ok []) skin 1
      files (omega arith)
