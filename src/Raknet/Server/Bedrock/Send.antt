-- ===== src/Raknet/Server/Bedrock/Send.antt =====
-- The bodies of the responses of src/raknet/server/bedrock.rs, as a client takes them apart.
use skin_get_be_rust.Prelude.{
  ℕ, zero, suc, ◌+◌, ◌/◌, ◌%◌, ◌^◌, ◌<◌, ◌≤◌, ◌≡◌, ◌≢◌, refl, ap, Bool, true, false, List, [], ◌∷◌,
  ◌++◌, length, length-append, ltb, ==_iff, ◌==◌, if◌then◌else◌, arith, Bool-cases, inl, inr,
}
use skin_get_be_rust.Error.{Result, ok, err, invalid_data}
use skin_get_be_rust.Buffer.{empty}
use skin_get_be_rust.Buffer.Writes.{write_bytes}
use skin_get_be_rust.Buffer.VarInt.Encode.{var_int, write_var_int_lem}
use skin_get_be_rust.Bedrock.Batch.{
  Codec, combine, parse_batch, compress_batch, decompress_batch, Packets, max_decompressed_size,
}
use skin_get_be_rust.Bedrock.Batch.Parse.{parse_batch-combine}
use skin_get_be_rust.Bedrock.Batch.Compress.{Inflates, decompress_batch-compress_batch}
use skin_get_be_rust.Raknet.Server.Bedrock.{Outer, length_groups, wrap_with_length, response_body}

-- The wrapper's length is the variable-length integer that the batches use.
length_groups-var_int :
    (k fuel v : ℕ) → k < fuel → v < 128 ^ suc k → length_groups fuel v ≡ var_int k v
unfolding length_groups var_int
length_groups-var_int k zero v h small = absurd (omega arith)
length_groups-var_int zero (suc fuel) v h small =
    let none_ : v / 128 ≡ 0 = omega arith in
    let last : (v / 128 == 0) ≡ true = (==_iff (v / 128) 0).1 none_ in
    let whole : v % 128 ≡ v = omega arith in rw (last, whole) refl
length_groups-var_int (suc k) (suc fuel) v h small = elim (Bool-cases (v / 128 == 0)) [
  | inl last ↦
      let none_ : v / 128 ≡ 0 = (==_iff (v / 128) 0).0 last in
      let below : v < 128 = omega arith in
      let low : ltb 0x7f v ≡ false = ground arith in
      let whole : v % 128 ≡ v = omega arith in rw (last, low, whole) refl
  | inr more ↦
      let some_ : v / 128 ≢ 0 = ground arith in
      let above : 0x7f < v = omega arith in
      let high : ltb 0x7f v ≡ true = ground arith in
      rw (more, high)
        (ap (◌∷◌ (v % 128 + 128))
          (length_groups-var_int k fuel (v / 128) (omega arith) (omega arith)))
]

wrap_with_length_lem :
    (packet : List ℕ)
    → length packet < 2 ^ 32
    → combine (packet ∷ []) empty
      ≡ (ok tt, record { bytes = wrap_with_length packet; position = 0 })
unfolding combine wrap_with_length write_bytes
wrap_with_length_lem packet h =
    let small : length packet % 2 ^ 32 ≡ length packet = omega arith in
    rw
      (
        small,
        write_var_int_lem (length packet) empty h,
        length_groups-var_int 4 10 (length packet) (omega arith) (omega arith),
      )
      refl

-- What a client takes out of a response: the body's first byte, and the packets of the rest, with the
-- decompression that it negotiated.
abbrev pub batches : Result (List ℕ) → Result Packets
batches (ok batch) = parse_batch batch
batches (err e) = err e

abbrev pub unpacked : Codec → Bool → List ℕ → Result Packets
unpacked c compression_enabled [] = err invalid_data
unpacked c compression_enabled (x ∷ body) =
    if x == 0xfe then batches (decompress_batch c body compression_enabled) else err invalid_data

parse_batch-wrap_with_length :
    (packet : List ℕ)
    → length packet < 2 ^ 32
    → parse_batch (wrap_with_length packet) ≡ ok (packet ∷ [])
parse_batch-wrap_with_length packet h =
    parse_batch-combine (packet ∷ []) (record { bytes = wrap_with_length packet; position = 0 })
      (h, tt) (wrap_with_length_lem packet h)

wrapped_cons : (packet : List ℕ) → (x : ℕ) × (xs : List ℕ) × (wrap_with_length packet ≡ x ∷ xs)
unfolding wrap_with_length length_groups
wrapped_cons packet = elim (Bool-cases (length packet / 128 == 0)) [
  | inl last ↦ (length packet % 128, packet, rw last refl)
  | inr more ↦
      (length packet % 128 + 128, length_groups 9 (length packet / 128) ++ packet, rw more refl)
]

plain_unpacked :
    (c : Codec) (packet : List ℕ)
    → length packet < 2 ^ 32
    → batches (decompress_batch c (wrap_with_length packet) false) ≡ ok (packet ∷ [])
unfolding decompress_batch
plain_unpacked c packet h =
    let (x, xs, e) = wrapped_cons packet in
    let same : decompress_batch c (wrap_with_length packet) false ≡ ok (wrap_with_length packet) =
      rw e (decompress_batch-plain c x xs) in
    rw same (parse_batch-wrap_with_length packet h)
  where
    decompress_batch-plain :
        (c : Codec) (x : ℕ) (xs : List ℕ) → decompress_batch c (x ∷ xs) false ≡ ok (x ∷ xs)
    decompress_batch-plain c x xs = refl

length_groups_le : (fuel v : ℕ) → length (length_groups fuel v) ≤ fuel
unfolding length_groups
length_groups_le zero v = omega arith
length_groups_le (suc fuel) v = ground (arith, length_groups_le fuel (v / 128))

length-wrap_with_length :
    (packet : List ℕ) (bound : ℕ)
    → length packet + 10 ≤ bound
    → length (wrap_with_length packet) ≤ bound
unfolding wrap_with_length
length-wrap_with_length packet bound h = omega (
  arith,
  length_groups_le 10 (length packet),
  length-append (length_groups 10 (length packet)) packet,
)

-- A client that knows what has been negotiated takes out of a response the one packet that it was built
-- for, of less than 10 MiB less ten bytes: compressed or not, with a codec whose raw decoder inverts its
-- encoder and whose encoder takes the packet.
pub unpacked-response_body :
    (o : Outer) (compression_enabled : Bool) (packet compressed : List ℕ)
    → Inflates o.codec
    → length packet + 10 ≤ max_decompressed_size
    → compress_batch o.codec (wrap_with_length packet) ≡ ok compressed
    → unpacked o.codec compression_enabled (response_body o compression_enabled packet)
      ≡ ok (packet ∷ [])
unfolding response_body
unpacked-response_body o false packet compressed law small h =
    plain_unpacked o.codec packet (omega arith)
unpacked-response_body o true packet compressed law small h =
    let size : length (wrap_with_length packet) ≤ max_decompressed_size = wrapped_size in
    let (inflated, kept) =
      decompress_batch-compress_batch o.codec (wrap_with_length packet) compressed law size h in
    rw (h, inflated) (parse_batch-wrap_with_length packet (omega arith))
  where
    wrapped_size : length (wrap_with_length packet) ≤ max_decompressed_size
    wrapped_size = length-wrap_with_length packet (max_decompressed_size) small
