-- ===== src/Tests/Wire.antt =====
-- Runs of the buffer, of the batches and of the frame parser.
use skin_get_be_rust.Prelude.{
  ℕ, ◌+◌, ◌*◌, ◌^◌, ◌≤◌, ◌<◌, ◌≡◌, refl, ◌⊎◌, arith, List, [], ◌∷◌, ◌++◌, length, true, false, take,
  lt_wf,
}
use skin_get_be_rust.Error.{ok, err, invalid_data, protocol_error}
use skin_get_be_rust.Buffer.{Buffer, ◌>>◌, of_bytes, empty, advance, read_bytes}
use skin_get_be_rust.Buffer.Reads.{read_u8, read_u16, read_u24_le, read_u32, read_u32_le}
use skin_get_be_rust.Buffer.Writes.{
  write_u8, write_u16, write_u24_le, write_u32, write_u32_le, write_bytes,
}
use skin_get_be_rust.Prelude.Bytes.{u16_bytes, u24_le_bytes, u32_bytes, u32_le_bytes}
use skin_get_be_rust.Buffer.RoundTrip.{fixed_round_trip}
use skin_get_be_rust.Buffer.VarInt.{
  read_var_int, write_var_int, read_var_int_loop, write_var_int_loop,
}
use skin_get_be_rust.Buffer.VarInt.Encode.{var_int32, appended}
use skin_get_be_rust.Buffer.VarInt.RoundTrip.{read_var_int-write_var_int}
use skin_get_be_rust.Buffer.VarInt.Bounds.{Moves, read_var_int_takes}
use skin_get_be_rust.Bedrock.Batch.{
  Packets, parse_batch, parse_batch_loop, batch_step, take_length, take_packet, combine, Codec,
  max_decompressed_size, compress_batch, decompress_batch,
}
use skin_get_be_rust.Bedrock.Batch.Parse.{parse_batch_returns, parse_batch-combine}
use skin_get_be_rust.Bedrock.Batch.Compress.{
  Inflates, decompress_batch_bounded, decompress_batch-compress_batch,
}
use skin_get_be_rust.Raknet.Protocol.{RakNetFrame, at, parse_frame_set}
use skin_get_be_rust.Raknet.Protocol.Frames.{Outcome, parse_frame_set_total}
use native.Mathlib.Decide.{dec_lt}

-- One byte that has been read.
abbrev one_read : Buffer
one_read = record { bytes = 9 ∷ []; position = 1 }

abbrev trailing : List ℕ
trailing = 7 ∷ 8 ∷ []

fixed_round_trip_example :
    ((do write_u16 0x1234; write_bytes trailing; read_u16) one_read
      ≡ (ok 0x1234, advance 2 (appended (u16_bytes 0x1234 ++ trailing) one_read)))
    × ((do write_u24_le 0x12_3456; write_bytes trailing; read_u24_le) one_read
        ≡ (ok 0x12_3456, advance 3 (appended (u24_le_bytes 0x12_3456 ++ trailing) one_read)))
    × ((do write_u32 0x1234_5678; write_bytes trailing; read_u32) one_read
        ≡ (ok 0x1234_5678, advance 4 (appended (u32_bytes 0x1234_5678 ++ trailing) one_read)))
    × ((do write_u32_le 0x1234_5678; write_bytes trailing; read_u32_le) one_read
        ≡ (ok 0x1234_5678, advance 4 (appended (u32_le_bytes 0x1234_5678 ++ trailing) one_read)))
fixed_round_trip_example =
    fixed_round_trip 0x1234 0x12_3456 0x1234_5678 trailing one_read (omega arith) (omega arith)
      (omega arith) refl

var_int_300 : write_var_int 300 empty ≡ (ok tt, of_bytes (0xac ∷ 0x02 ∷ []))
unfolding write_var_int write_var_int_loop write_u8 lt_wf dec_lt
var_int_300 = refl

read_var_int-write_var_int_example :
    (do write_var_int 300; write_bytes trailing; read_var_int) one_read
    ≡ (ok 300, advance (length (var_int32 300)) (appended (var_int32 300 ++ trailing) one_read))
read_var_int-write_var_int_example =
    read_var_int-write_var_int 300 trailing one_read (omega arith) refl

-- The fifth byte's upper bits are dropped.
read_wide :
    read_var_int (of_bytes (0xff ∷ 0xff ∷ 0xff ∷ 0xff ∷ 0x7f ∷ []))
    ≡ (ok 0xffff_ffff, record { bytes = 0xff ∷ 0xff ∷ 0xff ∷ 0xff ∷ 0x7f ∷ []; position = 5 })
unfolding read_var_int read_var_int_loop read_u8
read_wide = refl

read_var_int_takes_example :
    (0xffff_ffff < 2 ^ 32)
    × Moves 5
        (of_bytes (0xff ∷ 0xff ∷ 0xff ∷ 0xff ∷ 0x7f ∷ []))
        (record { bytes = 0xff ∷ 0xff ∷ 0xff ∷ 0xff ∷ 0x7f ∷ []; position = 5 })
read_var_int_takes_example =
    read_var_int_takes (of_bytes (0xff ∷ 0xff ∷ 0xff ∷ 0xff ∷ 0x7f ∷ [])) 0xffff_ffff
      (record { bytes = 0xff ∷ 0xff ∷ 0xff ∷ 0xff ∷ 0x7f ∷ []; position = 5 }) read_wide

-- Two packets and a third that is cut short.
abbrev cut_batch : List ℕ
cut_batch = 1 ∷ 0xc1 ∷ 2 ∷ 0x0a ∷ 0x0b ∷ 5 ∷ 1 ∷ []

parse_cut : parse_batch cut_batch ≡ ok ((0xc1 ∷ []) ∷ (0x0a ∷ 0x0b ∷ []) ∷ [])
unfolding parse_batch parse_batch_loop batch_step take_length take_packet read_var_int
    read_var_int_loop read_u8 read_bytes
parse_cut = refl

parse_batch_returns_example : (ps : Packets) × (parse_batch cut_batch ≡ ok ps)
parse_batch_returns_example = parse_batch_returns cut_batch

abbrev two_packets : Packets
two_packets = (0xc1 ∷ []) ∷ (0x0a ∷ 0x0b ∷ []) ∷ []

combine_two : combine two_packets empty ≡ (ok tt, of_bytes (1 ∷ 0xc1 ∷ 2 ∷ 0x0a ∷ 0x0b ∷ []))
unfolding combine write_var_int write_var_int_loop write_u8 write_bytes lt_wf dec_lt
combine_two = refl

parse_batch-combine_example : parse_batch (1 ∷ 0xc1 ∷ 2 ∷ 0x0a ∷ 0x0b ∷ []) ≡ ok two_packets
parse_batch-combine_example =
    parse_batch-combine two_packets (of_bytes (1 ∷ 0xc1 ∷ 2 ∷ 0x0a ∷ 0x0b ∷ []))
      (omega arith, (omega arith, tt)) combine_two

-- A codec that stores the bytes as they stand.
abbrev storing : Codec
storing = record {
  inflate_raw = λ xs n. ok (take n xs);
  inflate_zlib = λ xs n. err invalid_data;
  deflate_raw = λ xs. ok xs;
}

storing-Inflates : Inflates storing
storing-Inflates xs compressed n h = let same : xs ≡ compressed = cc in rw same

compress_three : compress_batch storing (1 ∷ 2 ∷ 3 ∷ []) ≡ ok (0 ∷ 1 ∷ 2 ∷ 3 ∷ [])
unfolding compress_batch
compress_three = refl

decompress_batch-compress_batch_example :
    (decompress_batch storing (0 ∷ 1 ∷ 2 ∷ 3 ∷ []) true ≡ ok (1 ∷ 2 ∷ 3 ∷ []))
    × (decompress_batch storing (0 ∷ 1 ∷ 2 ∷ 3 ∷ []) false ≡ ok (0 ∷ 1 ∷ 2 ∷ 3 ∷ []))
decompress_batch-compress_batch_example =
    decompress_batch-compress_batch storing (1 ∷ 2 ∷ 3 ∷ []) (0 ∷ 1 ∷ 2 ∷ 3 ∷ []) storing-Inflates
      (omega arith) compress_three

-- The tag 0xff marks a payload that is not compressed.
decompress_plain : decompress_batch storing (0xff ∷ 7 ∷ []) true ≡ ok (7 ∷ [])
unfolding decompress_batch
decompress_plain = refl

decompress_batch_bounded_example : length {A = ℕ} (7 ∷ []) ≤ max_decompressed_size
decompress_batch_bounded_example =
    decompress_batch_bounded storing (0xff ∷ 7 ∷ []) (7 ∷ []) decompress_plain

-- One reliable ordered frame with two bytes of payload.
abbrev datagram : List ℕ
datagram = 0x84 ∷ 5 ∷ 0 ∷ 0 ∷ 0x60 ∷ 0 ∷ 16 ∷ 1 ∷ 0 ∷ 0 ∷ 2 ∷ 0 ∷ 0 ∷ 0 ∷ 0xaa ∷ 0xbb ∷ []

parse_frame_set_total_example :
    ((frames : List RakNetFrame) × (parse_frame_set datagram
        ≡ ok (record {
          id = at datagram 0;
          seq = at datagram 1 + at datagram 2 * 256 + at datagram 3 * 65536;
          frames = frames;
        }))
      × Outcome datagram frames
      × (4 ≤ length datagram)
      × (0x80 ≤ at datagram 0)
      × (at datagram 0 ≤ 0x8d))
    ⊎ ((parse_frame_set datagram ≡ err invalid_data) × (length datagram < 4))
    ⊎ ((parse_frame_set datagram ≡ err protocol_error)
        × ((at datagram 0 < 0x80) ⊎ (0x8d < at datagram 0)))
parse_frame_set_total_example = parse_frame_set_total datagram
