-- ===== src/Bedrock/Batch/Compress.antt =====
-- The compression of batches, over any codec.
use skin_get_be_rust.Prelude.{
  ℕ, zero, suc, ◌+◌, ◌≤◌, ◌≡◌, refl, ap, ◌∙◌, List, [], ◌∷◌, arith, length, ltb, true, false, take,
}
use skin_get_be_rust.Error.{Result, ok, err, other}
use skin_get_be_rust.Bedrock.Batch.{
  Codec, max_decompressed_size, read_bounded, decompress_compressed_payload, decompress_batch,
  compress_batch,
}

-- What the code relies on in `flate2`: the raw decoder, asked for `n` bytes of what the raw
-- encoder wrote, gives the first `n` bytes of the original.
abbrev pub Inflates : Codec → Type 0
Inflates c =
    (xs compressed : List ℕ) (n : ℕ)
    → c.deflate_raw xs ≡ ok compressed
    → c.inflate_raw compressed n ≡ ok (take n xs)

take_all {ℓ} : {A : Type ℓ} (n : ℕ) (xs : List A) → length xs ≤ n → take n xs ≡ xs
take_all zero [] h = refl
take_all zero (x ∷ xs) h = absurd (omega arith)
take_all (suc n) [] h = refl
take_all (suc n) (x ∷ xs) h = ap (◌∷◌ x) (take_all n xs (omega arith))

-- Once compression is negotiated, no batch of more than 10 MiB gets through, whichever codec
-- answered and whatever it answered.
pub decompress_batch_bounded :
    (c : Codec) (xs out : List ℕ)
    → decompress_batch c xs true ≡ ok out
    → length out ≤ max_decompressed_size
unfolding decompress_batch decompress_compressed_payload read_bounded
decompress_batch_bounded c [] out h = cc
decompress_batch_bounded c (x ∷ xs) out h = ground arith

-- What `compress_batch` returned decompresses to the original, up to 10 MiB of it, once
-- compression is negotiated; before that `decompress_batch` returns it as it stands.
pub decompress_batch-compress_batch :
    (c : Codec) (xs payload : List ℕ)
    → Inflates c
    → length xs ≤ max_decompressed_size
    → compress_batch c xs ≡ ok payload
    → (decompress_batch c payload true ≡ ok xs) × (decompress_batch c payload false ≡ ok payload)
unfolding compress_batch decompress_batch decompress_compressed_payload read_bounded
decompress_batch-compress_batch c xs payload law small h = go (c.deflate_raw xs) refl h
  where
    inflated :
        (compressed : List ℕ)
        → c.deflate_raw xs ≡ ok compressed
        → c.inflate_raw compressed (max_decompressed_size + 1) ≡ ok xs
    inflated compressed e =
        law xs compressed (max_decompressed_size + 1) e
        ∙ ap ok (take_all (max_decompressed_size + 1) xs (omega arith))

    within : ltb max_decompressed_size (length xs) ≡ false
    within = ground arith

    go :
        (r : Result (List ℕ))
        → c.deflate_raw xs ≡ r
        → compress_batch c xs ≡ ok payload
        → (decompress_batch c payload true ≡ ok xs)
          × (decompress_batch c payload false ≡ ok payload)
    go (err e) d t = let no_payload : err other ≡ ok payload = rw d at t in cc
    go (ok compressed) d t =
        let same : ok (0 ∷ compressed) ≡ ok payload = rw d at t in
        let p : payload ≡ 0 ∷ compressed = cc in rw p (rw (inflated compressed d, within), refl)
