-- ===== src/Bedrock/Batch.antt =====
-- src/bedrock/batch.rs: batches of length-prefixed packets and their compression.
-- The DEFLATE and zlib codecs of `flate2` are parameters.
pub mod Parse
pub mod Compress
use skin_get_be_rust.Prelude.{
  ℕ, zero, suc, ◌+◌, ◌*◌, ◌^◌, ◌%◌, ◌<◌, Bool, true, false, not, List, [], ◌∷◌, ◌++◌, length, ltb,
  ◌==◌, if◌then◌else◌,
}
use skin_get_be_rust.Error.{Result, ok, err, Error, invalid_data, other}
use skin_get_be_rust.Buffer.{Buffer, M, ◌>>◌, has_remaining, remaining, of_bytes, read_bytes}
use skin_get_be_rust.Buffer.Writes.{write_bytes}
use skin_get_be_rust.Buffer.VarInt.{read_var_int, write_var_int}

abbrev pub Packets : Type 0
Packets = List (List ℕ)

-- What the loop does next: `k` is its next round.
abbrev pub Next : Type 0
Next = Buffer → Packets → Result Packets

unfoldable pub take_packet : Next → Packets → Result (List ℕ) × Buffer → Result Packets
take_packet k packets (ok p, b) = k b (packets ++ (p ∷ []))
take_packet k packets (err e, b) = ok packets

unfoldable pub take_length : Next → Packets → Result ℕ × Buffer → Result Packets
take_length k packets (ok len, b) =
    if ltb (remaining b) len then ok packets else take_packet k packets (read_bytes len b)
take_length k packets (err e, b) = ok packets

unfoldable pub batch_step : Next → Buffer → Packets → Result Packets
batch_step k b packets =
    if has_remaining b then take_length k packets (read_var_int b) else ok packets

-- `while buf.has_remaining()`, on fuel. Running out of it is `err other`, which the source has
-- no counterpart of.
unfoldable pub parse_batch_loop : ℕ → Next
parse_batch_loop zero b packets = err other
parse_batch_loop (suc fuel) b packets = batch_step (parse_batch_loop fuel) b packets

-- A round that goes on takes a byte at least, so one round more than there are bytes is enough.
unfoldable pub parse_batch : List ℕ → Result Packets
parse_batch bytes = parse_batch_loop (suc (length bytes)) (of_bytes bytes) []

-- The loop of `send_bedrock_bundle`: `packet.len() as u32` keeps the low 32 bits.
unfoldable pub combine : Packets → M (Unit {0})
combine [] b = (ok tt, b)
combine (p ∷ ps) b = (do write_var_int (length p % 2 ^ 32); write_bytes p; combine ps) b

-- `MAX_DECOMPRESSED_SIZE`
abbrev pub max_decompressed_size : ℕ
max_decompressed_size = 10 * 1024 * 1024

-- The codecs of `flate2`. A decoder is asked for at most so many bytes (`Read::take`).
pub record Codec : Type 0 where
  pub inflate_raw : List ℕ → ℕ → Result (List ℕ)
  pub inflate_zlib : List ℕ → ℕ → Result (List ℕ)
  pub deflate_raw : List ℕ → Result (List ℕ)

abbrev pub or_else {ℓ} : {A : Type ℓ} → Result A → Result A → Result A
or_else (ok a) r = ok a
or_else (err e) r = r

abbrev bounded : Result (List ℕ) → Result (List ℕ)
bounded (ok out) = if ltb max_decompressed_size (length out) then err other else ok out
bounded (err e) = err other

unfoldable pub read_bounded : (ℕ → Result (List ℕ)) → Result (List ℕ)
read_bounded decoder = bounded (decoder (max_decompressed_size + 1))

module _ (c : Codec) where
  abbrev decompress_any : List ℕ → Result (List ℕ)
  decompress_any bytes =
      or_else (read_bounded (c.inflate_raw bytes)) (read_bounded (c.inflate_zlib bytes))

  unfoldable pub decompress_compressed_payload : List ℕ → Result (List ℕ)
  decompress_compressed_payload [] = decompress_any []
  decompress_compressed_payload (tag ∷ payload) =
      if tag == 0
      then decompress_any payload
      else if tag == 0xff
      then (if ltb max_decompressed_size (length payload) then err invalid_data else ok payload)
      else decompress_any (tag ∷ payload)

  unfoldable pub decompress_batch : List ℕ → Bool → Result (List ℕ)
  unfolding decompress_compressed_payload read_bounded
  decompress_batch [] compression_enabled = err invalid_data
  decompress_batch (x ∷ xs) compression_enabled =
      if not compression_enabled then ok (x ∷ xs) else decompress_compressed_payload (x ∷ xs)

  abbrev tagged : Result (List ℕ) → Result (List ℕ)
  tagged (ok compressed) = ok (0 ∷ compressed)
  tagged (err e) = err other

  unfoldable pub compress_batch : List ℕ → Result (List ℕ)
  compress_batch bytes = tagged (c.deflate_raw bytes)
