-- ===== src/Bedrock/Skin/Saved.antt =====
-- What `save_login_capture` of src/bedrock/skin.rs leaves on the disk.
use skin_get_be_rust.Prelude.{
  ℕ, ◌+◌, ◌-◌, ◌^◌, ◌<◌, ◌≡◌, ◌≢◌, ◌⊎◌, refl, sym, ap, ◌∙◌, Bool, true, false, Option, none, some,
  length, length-append, ◌==◌, arith, Bool-cases, inl, inr,
}
use skin_get_be_rust.Prelude.Map.{lookup}
use skin_get_be_rust.Prelude.Text.{Chars, codes, chars_eq}
use skin_get_be_rust.Error.{Result, ok, err}
use skin_get_be_rust.Bedrock.Skin.{
  Bytes, Files, Outside, ExtractedSkin, png_name, json_name, exists, is_free, numbered, stem_for,
  next_available_stem, fuel_for, encode_png_rgba, Saving, save_sidecar, after_image, save_image,
  save_under, base_name_of, in_directory, save_login_capture,
}
use skin_get_be_rust.Bedrock.Skin.Stem.{next_available_stem_first, FirstFree}
use mathlib.Core.Path.{subst}

-- What the code relies on of the file system: a write, done or failed, leaves the other files alone, and a
-- file that was written holds the bytes.
pub record Faithful (o : Outside) : Type 0 where
  pub apart :
      (name other : Chars) (bytes : Bytes) (files : Files)
      → name ≢ other
      → lookup other (o.write name bytes files).1 ≡ lookup other files
  pub holds :
      (name : Chars) (bytes : Bytes) (files : Files)
      → (o.write name bytes files).0 ≡ ok tt
      → lookup name (o.write name bytes files).1 ≡ some bytes

png_name≢json_name : (stem : Chars) → json_name stem ≢ png_name stem
png_name≢json_name stem e =
    omega
      (arith, ap length e, length-append stem (codes ".png"), length-append stem (codes ".json"))

true≢false : true ≢ false
true≢false e = (let no : ◌≡◌ {A = Bool} true false = e in cc)

-- A save under a stem touches the two files of the stem only.
module _ (o : Outside) (f : Faithful o) (stem : Chars) (sidecar : Result Bytes) (name : Chars) where
  save_sidecar_keeps :
      (files : Files)
      → json_name stem ≢ name
      → lookup name (save_sidecar o stem sidecar files).1 ≡ lookup name files
  save_sidecar_keeps files h = go sidecar
    where
      go : (r : Result Bytes) → lookup name (save_sidecar o stem r files).1 ≡ lookup name files
      go (err e) = refl
      go (ok bytes) = f.apart (json_name stem) name bytes files h

  after_image_keeps :
      (saved : Result (Unit {0}) × Files)
      → json_name stem ≢ name
      → lookup name (after_image o stem sidecar saved).1 ≡ lookup name saved.1
  after_image_keeps (err e, files) h = refl
  after_image_keeps (ok done, files) h = save_sidecar_keeps files h

  save_image_keeps :
      (png : Result Bytes) (files : Files)
      → png_name stem ≢ name
      → json_name stem ≢ name
      → lookup name (save_image o stem sidecar png files).1 ≡ lookup name files
  save_image_keeps (err e) files g h = refl
  save_image_keeps (ok png) files g h =
      after_image_keeps (o.write (png_name stem) png files) h
      ∙ f.apart (png_name stem) name png files g

-- Any stem that the numbered mode picks is free.
FirstFree-free :
    (k count : ℕ) (files : Files) (base_name stem : Chars) (found : Option Chars)
    → FirstFree k files base_name count found
    → found ≡ some stem
    → is_free files stem ≡ true
FirstFree-free k count files base_name stem found (j, less, e, free, before) h =
    let same : numbered base_name (count + j) ≡ stem = cc in
    subst (λ (n : Chars). is_free files n ≡ true) same free

-- The stem of a save: there always is one, and it is free unless the mode is to overwrite.
stem_for_returns :
    (savemode : ℕ) (files : Files) (base_name : Chars)
    → length files < 2 ^ 32 - 1
    → (stem : Chars) × (stem_for savemode files base_name ≡ some stem)
      × (((savemode == 1) ≡ false) → is_free files stem ≡ true)
unfolding stem_for
stem_for_returns savemode files base_name h =
    go (Bool-cases (savemode == 1)) (next_available_stem_first files base_name h)
  where
    go :
        ((savemode == 1) ≡ true) ⊎ ((savemode == 1) ≡ false)
        → ((is_free files base_name ≡ true)
            × (next_available_stem (fuel_for files) files base_name ≡ some base_name))
          ⊎ ((is_free files base_name ≡ false)
              × FirstFree
                  (length files)
                  files
                  base_name
                  1
                  (next_available_stem (fuel_for files) files base_name))
        → (stem : Chars) × (stem_for savemode files base_name ≡ some stem)
          × (((savemode == 1) ≡ false) → is_free files stem ≡ true)
    go (inl one) found = (base_name, rw one refl, λ other. absurd (true≢false (sym one ∙ other)))
    go (inr other) (inl (free, found)) = (base_name, rw other found, λ more. free)
    go (inr other) (inr (taken, first)) =
        let (j, less, e, clear, before) = first in
        (numbered base_name (1 + j), rw other e, λ more. clear)

-- A name that is there is not one of a free stem.
free_apart :
    (files : Files) (stem name : Chars)
    → is_free files stem ≡ true
    → exists name files ≡ true
    → (png_name stem ≢ name) × (json_name stem ≢ name)
free_apart files stem name free there = (
  λ same. true≢false (sym there ∙ ap (λ n. exists n files) (sym same) ∙ ground arith),
  λ same. true≢false (sym there ∙ ap (λ n. exists n files) (sym same) ∙ ground arith),
)

-- Saving in the numbered mode ends, and every file that was there has the bytes it had: with fewer than
-- 2 ^ 32 - 1 files, on a disk where a write touches its own file only.
pub save_login_capture_keeps :
    (o : Outside) (f : Faithful o) (player_name skin_id : Chars) (sidecar : Result Bytes)
    (skin : ExtractedSkin) (savemode : ℕ) (files : Files)
    → length files < 2 ^ 32 - 1
    → (savemode == 1) ≡ false
    → (saving : Saving) × (save_login_capture o player_name skin_id sidecar skin savemode files
        ≡ some saving)
      × ((name : Chars) → exists name files ≡ true → lookup name saving.1 ≡ lookup name files)
unfolding save_login_capture
save_login_capture_keeps o f player_name skin_id sidecar skin savemode files h mode =
    elim (Bool-cases (savemode == 0)) [
      | inl off ↦ ((ok none, files), rw off refl, λ name there. refl)
      | inr on ↦ (let (saving, e, keeps) = made o.create_dir_all in (saving, rw on e, keeps))
    ]
  where
    base_name : Chars
    base_name = base_name_of o player_name skin_id

    made :
        (directory : Result (Unit {0}))
        → (saving : Saving) × (in_directory o directory files
              (save_under o (stem_for savemode files base_name) skin sidecar files)
            ≡ some saving)
          × ((name : Chars) → exists name files ≡ true → lookup name saving.1 ≡ lookup name files)
    made (err e) = ((err e, files), refl, λ name there. refl)
    made (ok done) =
        let (stem, e, free) = stem_for_returns savemode files base_name h in
        let png : Result Bytes = encode_png_rgba o skin.rgba skin.width skin.height in
        (
          save_image o stem sidecar png files,
          ap (λ found. save_under o found skin sidecar files) e,
          λ name there.
              (let (a, b) = free_apart files stem name (free mode) there in
                save_image_keeps o f stem sidecar name png files a b),
        )

-- The file that a save reports holds the image.
abbrev pub Reported : Outside → ExtractedSkin → Saving → Type 0
Reported o skin saving =
    (name : Chars)
    → saving.0 ≡ ok (some name)
    → (png : Bytes) × (encode_png_rgba o skin.rgba skin.width skin.height ≡ ok png)
      × (lookup name saving.1 ≡ some png)

save_image-Reported :
    (o : Outside) (f : Faithful o) (stem : Chars) (sidecar : Result Bytes) (skin : ExtractedSkin)
    (files : Files)
    → Reported o skin
        (save_image o stem sidecar (encode_png_rgba o skin.rgba skin.width skin.height) files)
save_image-Reported o f stem sidecar skin files name reported =
    go (encode_png_rgba o skin.rgba skin.width skin.height) refl reported
  where
    behind :
        (r : Result Bytes) (png : Bytes) (files : Files)
        → lookup (png_name stem) files ≡ some png
        → (save_sidecar o stem r files).0 ≡ ok (some name)
        → lookup name (save_sidecar o stem r files).1 ≡ some png
    behind (err e) png files held same = cc
    behind (ok bytes) png files held same =
        let here : png_name stem ≡ name = cc in
        subst (λ (n : Chars). lookup n (o.write (json_name stem) bytes files).1 ≡ some png) here
          (f.apart (json_name stem) (png_name stem) bytes files (png_name≢json_name stem) ∙ held)

    written :
        (png : Bytes) (w : Result (Unit {0}) × Files)
        → o.write (png_name stem) png files ≡ w
        → (after_image o stem sidecar w).0 ≡ ok (some name)
        → lookup name (after_image o stem sidecar w).1 ≡ some png
    written png (err e, left) same k = cc
    written png (ok done, left) same k =
        behind sidecar png left
          (ap (λ (w : Result (Unit {0}) × Files). lookup (png_name stem) w.1) (sym same)
            ∙ f.holds (png_name stem) png files (ap (λ (w : Result (Unit {0}) × Files). w.0) same))
          k

    go :
        (r : Result Bytes)
        → encode_png_rgba o skin.rgba skin.width skin.height ≡ r
        → (save_image o stem sidecar r files).0 ≡ ok (some name)
        → (png : Bytes) × (encode_png_rgba o skin.rgba skin.width skin.height ≡ ok png)
          × (lookup name (save_image o stem sidecar r files).1 ≡ some png)
    go (err e) encoded k = cc
    go (ok png) encoded k = (png, encoded, written png (o.write (png_name stem) png files) refl k)

-- A save ends, in every mode, and when it reports a file, that file holds the encoded image: with fewer
-- than 2 ^ 32 - 1 files, on a disk that keeps what was written and where a write touches its own file only.
pub save_login_capture_reports :
    (o : Outside) (f : Faithful o) (player_name skin_id : Chars) (sidecar : Result Bytes)
    (skin : ExtractedSkin) (savemode : ℕ) (files : Files)
    → length files < 2 ^ 32 - 1
    → (saving : Saving) × (save_login_capture o player_name skin_id sidecar skin savemode files
        ≡ some saving)
      × Reported o skin saving
unfolding save_login_capture
save_login_capture_reports o f player_name skin_id sidecar skin savemode files h =
    elim (Bool-cases (savemode == 0)) [
      | inl off ↦ ((ok none, files), rw off refl, λ name no. cc)
      | inr on ↦ (let (saving, e, holds) = made o.create_dir_all in (saving, rw on e, holds))
    ]
  where
    base_name : Chars
    base_name = base_name_of o player_name skin_id

    made :
        (directory : Result (Unit {0}))
        → (saving : Saving) × (in_directory o directory files
              (save_under o (stem_for savemode files base_name) skin sidecar files)
            ≡ some saving)
          × Reported o skin saving
    made (err e) = ((err e, files), refl, λ name no. cc)
    made (ok done) =
        let (stem, e, free) = stem_for_returns savemode files base_name h in
        (
          save_image o stem sidecar (encode_png_rgba o skin.rgba skin.width skin.height) files,
          ap (λ found. save_under o found skin sidecar files) e,
          save_image-Reported o f stem sidecar skin files,
        )
