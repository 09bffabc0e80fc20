-- ===== src/Raknet/Server/Frames/Fragments.antt =====
-- The fragments that `send_frame` builds: their size, and what the frame parser makes of them.
use skin_get_be_rust.Prelude.{
  ℕ, ◌+◌, ◌*◌, ◌/◌, ◌^◌, ◌<◌, ◌≡◌, refl, ap, ◌∙◌, true, false, List, [], ◌++◌, Option, none, some,
  length, leb, ltb, arith, drop, le→leb, if◌then◌else◌, Option-cases, inl, inr, bit_and,
}
use skin_get_be_rust.Prelude.Bits.{shl, shr, and_0xff, and_0x07, and_split_bit, or_0x10}
use skin_get_be_rust.Error.{ok}
use skin_get_be_rust.Raknet.Protocol.{
  FrameLengthMode, bits, bytes, at, ◌>>=◌, parse_fields, Ordering, Split, split_field, finish_frame,
  parse_frame, read_u16_be, read_u32_be, has_reliable, has_ordering, header_overhead,
  remaining_after, reliability_of, is_split_of, raw_length, byte_length, frames_loop, on_frame,
  on_failure, parse_frame_set_with_mode, byte_is_better, try_bytes, select_frames, parse_frame_set,
}
use skin_get_be_rust.Raknet.Server.Frames.{
  Sequence, build_frame, split_flags, reliable_header, order_header, fragment_payload,
}
use skin_get_be_rust.Raknet.Server.Frames.Single.{
  IsTriads, length-headers, length_lem, reliable_field-header, order_field-header,
}

flags_lem :
    (r : ℕ) → r < 8 → (reliability_of (split_flags r) ≡ r) × (is_split_of (split_flags r) ≡ true)
flags_lem r h =
    let byte : shl 8 r 5 ≡ r * 32 = omega arith in
    let three : (r * 32 + 16) / 2 ^ 5 ≡ r = omega arith in
    let bit : bit_and (r * 32 + 16) 0x10 ≡ 16 =
      and_split_bit (r * 32 + 16) (omega arith) ∙ omega arith in
    rw (byte, or_0x10 r) (rw three (and_0x07 r ∙ omega arith), rw bit refl)

-- The split header takes ten bytes.
split_field-next :
    (buf : List ℕ) (off : ℕ) (s : Split) → split_field buf true off ≡ some s → s.next ≡ off + 10
unfolding split_field read_u32_be read_u16_be
split_field-next buf off s h = ground arith

-- A frame whose length counts the split header too would end behind the datagram.
too_long :
    (buf : List ℕ) (off r len : ℕ) (seq : Option ℕ) (order : Ordering)
    → order.next ≡ off
    → length buf < off + 10 + len
    → (split_field buf true order.next >>= λ split. finish_frame buf r true len seq order split)
      ≡ none
unfolding finish_frame
too_long buf off r len seq order e h = elim (Option-cases (split_field buf true order.next)) [
  | inl refused ↦ rw refused
  | inr (split, found) ↦
      let next : split.next ≡ off + 10 =
        split_field-next buf order.next split found ∙ ap (λ (n : ℕ). n + 10) e in
      let past : leb (split.next + len) (length buf) ≡ false = ground arith in rw (found, past)
]

parse_fields-fragment :
    (buf : List ℕ) (off r len : ℕ) (s : Sequence) (payload : List ℕ)
    → IsTriads s
    → drop off buf ≡ reliable_header r s ++ (order_header r s ++ payload)
    → length buf < off + header_overhead r + 10 + len
    → parse_fields buf r true len off ≡ none
unfolding parse_fields header_overhead
parse_fields-fragment buf off r len s payload triads h size =
    let (a, h₁) = reliable_field-header buf off r s (order_header r s ++ payload) triads h in
    let after = off + (if has_reliable r then 3 else 0) in
    let (b, h₂) = order_field-header buf after r s payload triads h₁ in
    let last = after + (if has_ordering r then 4 else 0) in
    rw (a, b)
      (too_long buf last r len (if has_reliable r then some s.rel_seq else none)
        (record {
          index = if has_ordering r then some s.order_idx else none;
          channel = if has_ordering r then some 0 else none;
          next = last;
        })
        refl (omega arith))

module _ (r : ℕ) (s : Sequence) (split_count split_id idx : ℕ) (chunk : List ℕ) (known : r < 8)
    (triads : IsTriads s) (short : length chunk < 8182) where
  abbrev body : List ℕ
  body = fragment_payload split_count split_id idx chunk

  abbrev built : List ℕ
  built = build_frame (split_flags r) r s body

  size : length built ≡ 7 + header_overhead r + length body
  size = omega (arith, length-headers r s body)

  refused : (mode : FrameLengthMode) → parse_frame built 4 mode ≡ none
  unfolding parse_frame byte_length
  refused bits =
      let (kind, split) = flags_lem r known in
      let room : leb (4 + 3) (length built) ≡ true = le→leb _ _ (omega arith) in
      let fits : leb (length body) (remaining_after (length built) (4 + 3 + header_overhead r))
          ≡ true =
        ground (arith, size) in
      rw (room, kind, length_lem (length body) (omega arith), fits, split)
        (parse_fields-fragment built 7 r (length body) s body triads refl (omega (arith, size)))
  refused bytes =
      let (kind, split) = flags_lem r known in
      let room : leb (4 + 3) (length built) ≡ true = le→leb _ _ (omega arith) in
      let raw : raw_length built 5 ≡ 8 * length body = omega arith in
      let over : leb (8 * length body) (remaining_after (length built) (4 + 3 + header_overhead r))
          ≡ false =
        ground (arith, size) in
      rw (room, kind, raw, over)

  refused_lem :
      (mode : FrameLengthMode)
      → parse_frame_set_with_mode built mode
        ≡ some (record { frames = []; offset = 4; failed = true })
  unfolding parse_frame_set_with_mode frames_loop on_frame on_failure
  refused_lem bits =
      let more : ltb 4 (length built) ≡ true = ground arith in rw (more, refused bits) refl
  refused_lem bytes =
      let more : ltb 4 (length built) ≡ true = ground arith in rw (more, refused bytes) refl

  -- A fragment that `send_frame` builds, with a chunk below 8182 bytes, a known reliability and
  -- numbers that fit their triads, is parsed to no frame at all: its length field counts the ten
  -- bytes of the split header, which `parse_frame` takes to lie outside the counted length.
  pub fragment_refused :
      parse_frame_set
        (build_frame (split_flags r) r s (fragment_payload split_count split_id idx chunk))
      ≡ ok (record { id = 0x84; seq = s.seq; frames = [] })
  unfolding parse_frame_set select_frames try_bytes byte_is_better
  fragment_refused =
      let long : ltb (length built) 4 ≡ false = ground arith in
      let seq : at built 1 + at built 2 * 256 + at built 3 * 65536 ≡ s.seq = omega (
        arith,
        and_0xff s.seq,
        and_0xff (shr s.seq 8),
        and_0xff (shr s.seq 16),
        triads.seq_small,
      ) in
      rw (long, refused_lem bits, refused_lem bytes)
        (ap (λ (n : ℕ). ok (record { id = 0x84; seq = n; frames = [] })) seq)
