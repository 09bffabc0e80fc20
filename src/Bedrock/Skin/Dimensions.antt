-- ===== src/Bedrock/Skin/Dimensions.antt =====
-- The dimensions that src/bedrock/skin.rs and src/bedrock/login.rs take for a number of pixels.
use skin_get_be_rust.Prelude.{
  ℕ, ◌*◌, ◌/◌, ◌%◌, ◌^◌, ◌<◌, ◌≤◌, ◌≡◌, ◌≢◌, ◌⊎◌, refl, sym, ◌∙◌, true, false, length, ltb, ==_iff,
  ◌==◌, arith, Bool-cases, inl, inr,
}
use skin_get_be_rust.Error.{ok}
use skin_get_be_rust.Bedrock.Skin.{Bytes, ExtractedSkin, dimensions, extract_skin}

-- The rectangle is the pixels, down to whole rows of 64.
pub dimensions_area :
    (pixels : ℕ)
    → 64 ≤ pixels
    → pixels < 2 ^ 32
    → (dimensions pixels).0 * (dimensions pixels).1 ≡ 64 * (pixels / 64)
dimensions_area pixels low high =
    go (Bool-cases (pixels == 64 * 32)) (Bool-cases (pixels == 64 * 64))
      (Bool-cases (pixels == 128 * 64)) (Bool-cases (pixels == 128 * 128))
  where
    Test : ℕ → Type 0
    Test n = ((pixels == n) ≡ true) ⊎ ((pixels == n) ≡ false)

    go :
        Test (64 * 32)
        → Test (64 * 64)
        → Test (128 * 64)
        → Test (128 * 128)
        → (dimensions pixels).0 * (dimensions pixels).1 ≡ 64 * (pixels / 64)
    go (inl a) b c d = rw a (let e = (==_iff pixels (64 * 32)).0 a in omega arith)
    go (inr a) (inl b) c d = rw (a, b) (let e = (==_iff pixels (64 * 64)).0 b in omega arith)
    go (inr a) (inr b) (inl c) d =
        rw (a, b, c) (let e = (==_iff pixels (128 * 64)).0 c in omega arith)
    go (inr a) (inr b) (inr c) (inl d) =
        rw (a, b, c, d) (let e = (==_iff pixels (128 * 128)).0 d in omega arith)
    go (inr a) (inr b) (inr c) (inr d) =
        let whole : pixels % 2 ^ 32 ≡ pixels = omega arith in
        let some_ : (pixels / 64 == 0) ≡ false = ground arith in rw (a, b, c, d, whole, some_) refl

whole_rows : (n area : ℕ) → area ≡ 64 * (n / 4 / 64) → (n == area * 4) ≡ (n % 256 == 0)
whole_rows n area h = go (Bool-cases (n == area * 4)) (Bool-cases (n % 256 == 0))
  where
    go :
        ((n == area * 4) ≡ true) ⊎ ((n == area * 4) ≡ false)
        → ((n % 256 == 0) ≡ true) ⊎ ((n % 256 == 0) ≡ false)
        → (n == area * 4) ≡ (n % 256 == 0)
    go (inl a) (inl b) = a ∙ sym b
    go (inr a) (inr b) = a ∙ sym b
    go (inl a) (inr b) =
        absurd (
          let e = (==_iff n (area * 4)).0 a in
          let f : n % 256 ≢ 0 = ground arith in f (omega arith))
    go (inr a) (inl b) =
        absurd (
          let e = (==_iff (n % 256) 0).0 b in
          let f : n ≢ area * 4 = ground arith in f (omega arith))

-- An extracted skin of less than 16 GiB has the size that its dimensions call for exactly when its bytes
-- are whole rows of 64 pixels.
pub extract_skin_fits :
    (rgba : Bytes)
    → 64 * 32 * 4 ≤ length rgba
    → length rgba < 2 ^ 34
    → (skin : ExtractedSkin) × (extract_skin rgba ≡ ok skin)
      × (skin.rgba ≡ rgba)
      × ((length skin.rgba == skin.width * skin.height * 4) ≡ (length rgba % 256 == 0))
unfolding extract_skin
extract_skin_fits rgba low high =
    let large : ltb (length rgba) (64 * 32 * 4) ≡ false = ground arith in
    (
      record {
        width = (dimensions (length rgba / 4)).0;
        height = (dimensions (length rgba / 4)).1;
        rgba = rgba;
      },
      rw large refl,
      refl,
      whole_rows (length rgba) ((dimensions (length rgba / 4)).0 * (dimensions (length rgba / 4)).1)
          (dimensions_area (length rgba / 4) (omega arith) (omega arith)),
    )
