-- ===== src/Raknet/Server/Frames/Single.antt =====
-- A frame that `send_frame` builds for a whole payload, read by the frame parser.
use skin_get_be_rust.Prelude.{
  ℕ, ◌+◌, ◌*◌, ◌/◌, ◌^◌, ◌<◌, ◌≡◌, refl, sym, ap, ◌∙◌, true, false, List, [], ◌∷◌, ◌++◌, none, some,
  length, leb, ltb, arith, drop, le→leb, if◌then◌else◌, length-append, Bool-cases, inl, inr,
  bit_and,
}
use skin_get_be_rust.Prelude.Bits.{shr, and_0xff, and_0x07, and_split_bit}
use skin_get_be_rust.Prelude.Bytes.{u24_le_bytes, u16_bytes}
use skin_get_be_rust.Error.{ok}
use skin_get_be_rust.Raknet.Protocol.{
  RakNetFrame, bits, at, parse_fields, reliable_field, order_field, split_field, parse_frame,
  has_reliable, has_ordering, header_overhead, remaining_after, reliability_of, is_split_of,
  byte_length, frames_loop, on_frame, parse_frame_set_with_mode, try_bytes, select_frames,
  parse_frame_set, from_be_bytes,
}
use skin_get_be_rust.Raknet.Protocol.Fields.{
  drop-fields, reliable_field_lem, reliable_field-none, order_field-none, order_field_on_0,
  finish_frame_last,
}
use skin_get_be_rust.Raknet.Server.Frames.{
  Sequence, write_u24_le, build_frame, single_flags, frame_length_bits, reliable_header,
  order_header,
}

pub write_u24_le_lem : (v : ℕ) → write_u24_le v ≡ u24_le_bytes v
write_u24_le_lem v = rw (and_0xff v, and_0xff (shr v 8), and_0xff (shr v 16))

-- The numbers that fit a triad.
pub record IsTriads (s : Sequence) : Type 0 where
  pub seq_small : s.seq < 2 ^ 24
  pub rel_small : s.rel_seq < 2 ^ 24
  pub order_small : s.order_idx < 2 ^ 24

-- What the receiver reads.
abbrev pub received_frame : ℕ → Sequence → List ℕ → RakNetFrame
received_frame r s payload = record {
  reliability = r;
  is_split = false;
  payload = payload;
  reliable_seq = if has_reliable r then some s.rel_seq else none;
  order_index = if has_ordering r then some s.order_idx else none;
  order_channel = if has_ordering r then some 0 else none;
  split_count = none;
  split_id = none;
  split_index = none;
}

pub length-reliable_header :
    (r : ℕ) (s : Sequence) → length (reliable_header r s) ≡ (if has_reliable r then 3 else 0)
length-reliable_header r s = elim (Bool-cases (has_reliable r)) [
  | inl e ↦ rw e refl
  | inr e ↦ rw e refl
]

pub length-order_header :
    (r : ℕ) (s : Sequence) → length (order_header r s) ≡ (if has_ordering r then 4 else 0)
length-order_header r s = elim (Bool-cases (has_ordering r)) [
  | inl e ↦ rw e refl
  | inr e ↦ rw e refl
]

pub length-headers :
    (r : ℕ) (s : Sequence) (payload : List ℕ)
    → length (reliable_header r s ++ (order_header r s ++ payload))
      ≡ header_overhead r + length payload
unfolding header_overhead
length-headers r s payload = omega (
  arith,
  length-append (reliable_header r s) (order_header r s ++ payload),
  length-append (order_header r s) payload,
  length-reliable_header r s,
  length-order_header r s,
)

-- How far a header moves.
abbrev reliable_width : ℕ → ℕ
reliable_width r = if has_reliable r then 3 else 0

abbrev order_width : ℕ → ℕ
order_width r = if has_ordering r then 4 else 0

module _ (buf : List ℕ) (off r : ℕ) (s : Sequence) (rest : List ℕ) (triads : IsTriads s) where
  pub reliable_field-header :
      drop off buf ≡ reliable_header r s ++ rest
      → (reliable_field buf r off
          ≡ some (if has_reliable r then some s.rel_seq else none, off + reliable_width r))
        × (drop (off + reliable_width r) buf ≡ rest)
  reliable_field-header h = elim (Bool-cases (has_reliable r)) [
    | inl e ↦
        let h' : drop off buf ≡ u24_le_bytes s.rel_seq ++ rest =
          (rw e at h) ∙ ap (λ (xs : List ℕ). xs ++ rest) (write_u24_le_lem s.rel_seq) in
        rw e (
          reliable_field_lem buf off r s.rel_seq rest triads.rel_small e h',
          drop-fields buf off (u24_le_bytes s.rel_seq) rest 3 refl h',
        )
    | inr e ↦
        let h' : drop off buf ≡ rest = rw e at h in
        let z : off + 0 ≡ off = omega arith in rw (e, z) (reliable_field-none buf off r e, h')
  ]

  pub order_field-header :
      drop off buf ≡ order_header r s ++ rest
      → (order_field buf r off
          ≡ some (record {
            index = if has_ordering r then some s.order_idx else none;
            channel = if has_ordering r then some 0 else none;
            next = off + order_width r;
          }))
        × (drop (off + order_width r) buf ≡ rest)
  order_field-header h = elim (Bool-cases (has_ordering r)) [
    | inl e ↦
        let h' : drop off buf ≡ u24_le_bytes s.order_idx ++ (0 ∷ rest) =
          (rw e at h) ∙ ap (λ (xs : List ℕ). xs ++ (0 ∷ rest)) (write_u24_le_lem s.order_idx) in
        rw e (
          order_field_on_0 buf off r s.order_idx rest triads.order_small e h',
          drop-fields buf off (u24_le_bytes s.order_idx ++ (0 ∷ [])) rest 4 refl h',
        )
    | inr e ↦
        let h' : drop off buf ≡ rest = rw e at h in
        let z : off + 0 ≡ off = omega arith in rw (e, z) (order_field-none buf off r e, h')
  ]

parse_fields-headers :
    (buf : List ℕ) (off r : ℕ) (s : Sequence) (payload : List ℕ)
    → IsTriads s
    → drop off buf ≡ reliable_header r s ++ (order_header r s ++ payload)
    → off + header_overhead r + length payload ≡ length buf
    → parse_fields buf r false (length payload) off ≡ some (received_frame r s payload, length buf)
unfolding parse_fields header_overhead split_field
parse_fields-headers buf off r s payload triads h size =
    let (a, h₁) = reliable_field-header buf off r s (order_header r s ++ payload) triads h in
    let (b, h₂) = order_field-header buf (off + reliable_width r) r s payload triads h₁ in
    let last = off + reliable_width r + order_width r in
    rw (a, b)
      (finish_frame_last buf last r _
        (record {
          index = if has_ordering r then some s.order_idx else none;
          channel = if has_ordering r then some 0 else none;
          next = last;
        })
        payload refl h₂ (omega arith))

-- The flags byte of a whole frame.
pub flags_lem :
    (r : ℕ) → r < 8 → (reliability_of (single_flags r) ≡ r) × (is_split_of (single_flags r) ≡ false)
flags_lem r h =
    let byte : single_flags r ≡ r * 32 = omega arith in
    let three : r * 32 / 2 ^ 5 ≡ r = omega arith in
    let clear : bit_and (r * 32) 0x10 ≡ 0 = and_split_bit (r * 32) (omega arith) ∙ omega arith in
    rw byte (rw three (and_0x07 r ∙ omega arith), rw clear refl)

pub length_lem :
    (n : ℕ) → n < 8192 → byte_length bits (from_be_bytes (u16_bytes (frame_length_bits n)) 0) ≡ n
unfolding byte_length
length_lem n h = omega arith

module _ (r : ℕ) (s : Sequence) (payload : List ℕ) (known : r < 8) (triads : IsTriads s)
    (short : length payload < 8192) where
  abbrev built : List ℕ
  built = build_frame (single_flags r) r s payload

  size : length built ≡ 7 + header_overhead r + length payload
  size = omega (arith, length-headers r s payload)

  parse_frame-build_frame :
      parse_frame built 4 bits ≡ some (received_frame r s payload, length built)
  unfolding parse_frame
  parse_frame-build_frame =
      let (kind, whole) = flags_lem r known in
      let room : leb (4 + 3) (length built) ≡ true = le→leb _ _ (omega arith) in
      let fits : leb (length payload) (remaining_after (length built) (4 + 3 + header_overhead r))
          ≡ true =
        ground (arith, size) in
      rw (room, kind, length_lem (length payload) short, fits, whole)
        (parse_fields-headers built 7 r s payload triads refl (sym size))

  parsed_lem :
      parse_frame_set_with_mode built bits
      ≡ some (record {
        frames = received_frame r s payload ∷ [];
        offset = length built;
        failed = false;
      })
  unfolding parse_frame_set_with_mode frames_loop on_frame
  parsed_lem =
      let more : ltb 4 (length built) ≡ true = ground arith in
      let end : ltb (length built) (length built) ≡ false = ground arith in
      rw (more, parse_frame-build_frame, end) refl

  -- A datagram that `send_frame` builds for a whole payload below 8 KiB, with a known reliability
  -- and numbers that fit their triads, is parsed to that one frame: the sequence number, the
  -- reliability, the payload, and the reliable and ordering numbers that the reliability calls for.
  pub parse_frame_set-build_frame :
      parse_frame_set (build_frame (single_flags r) r s payload)
      ≡ ok (record { id = 0x84; seq = s.seq; frames = received_frame r s payload ∷ [] })
  unfolding parse_frame_set select_frames try_bytes
  parse_frame_set-build_frame =
      let long : ltb (length built) 4 ≡ false = ground arith in
      let end : ltb (length built) (length built) ≡ false = ground arith in
      let seq : at built 1 + at built 2 * 256 + at built 3 * 65536 ≡ s.seq = omega (
        arith,
        and_0xff s.seq,
        and_0xff (shr s.seq 8),
        and_0xff (shr s.seq 16),
        triads.seq_small,
      ) in
      rw (long, parsed_lem, end)
        (ap
          (λ (n : ℕ). ok (record { id = 0x84; seq = n; frames = received_frame r s payload ∷ [] }))
          seq)
