-- ===== src/Bedrock/Batch/Parse.antt =====
-- `parse_batch` ends on every input, and reads back the packets that `send_bedrock_bundle`
-- combined.
use skin_get_be_rust.Prelude.{
  ℕ, zero, suc, ◌%◌, ◌^◌, ◌<◌, ◌≤◌, ◌≡◌, refl, sym, ap, ◌∙◌, List, [], ◌∷◌, ◌++◌, append_assoc,
  arith, length, All, ltb, Bool-cases, inl, inr, length-append, append-nil, true, false,
  drop_prefix,
}
use skin_get_be_rust.Error.{Result, ok, err}
use skin_get_be_rust.Buffer.{
  Buffer, unread, advance, has_remaining, remaining, read_bytes, of_bytes, empty, holds,
}
use skin_get_be_rust.Buffer.View
use skin_get_be_rust.Buffer.Writes.{write_bytes}
use skin_get_be_rust.Buffer.VarInt.{read_var_int}
use skin_get_be_rust.Buffer.VarInt.Bounds.{read_var_int_takes, Moves}
use skin_get_be_rust.Buffer.VarInt.Encode.{var_int32, appended, write_var_int_lem, length-var_int}
use skin_get_be_rust.Buffer.VarInt.RoundTrip.{read_var_int-var_int}
use skin_get_be_rust.Bedrock.Batch.{
  Packets, Next, take_packet, take_length, batch_step, parse_batch_loop, parse_batch, combine,
}

abbrev Returns : Result Packets → Type 0
Returns r = (ps : Packets) × (r ≡ ok ps)

module _ (k : Next) (b : Buffer)
    (next : (b' : Buffer) (ps : Packets)
      → length (unread b') < length (unread b)
      → Returns (k b' ps)) where
  take_packet-Returns :
      (packets : Packets) (len : ℕ) (b' : Buffer)
      → length (unread b') < length (unread b)
      → Returns (take_packet k packets (read_bytes len b'))
  unfolding take_packet read_bytes
  take_packet-Returns packets len b' h = elim (Bool-cases (holds len b')) [
    | inl fits ↦ rw fits (next (advance len b') _ (omega (arith, later)))
    | inr short ↦ (packets, rw short)
  ]
    where
      later : length (unread (advance len b')) ≤ length (unread b')
      later = omega (arith, View.length-unread (advance len b'), View.length-unread b')

  shorter : {b' : Buffer} → Moves 5 b b' → length (unread b') < length (unread b)
  shorter {b'} m = omega (
    arith,
    View.length-unread b,
    View.length-unread b',
    ap length m.same_bytes,
    m.forward,
    m.inside,
  )

  take_length-Returns :
      (packets : Packets) (r : Result ℕ × Buffer)
      → read_var_int b ≡ r
      → Returns (take_length k packets r)
  unfolding take_length
  take_length-Returns packets (err e, b') h = (packets, refl)
  take_length-Returns packets (ok len, b') h =
      let (_, m) = read_var_int_takes b len b' h in
      elim (Bool-cases (ltb (remaining b') len)) [
        | inl short ↦ (packets, rw short)
        | inr enough ↦ rw enough (take_packet-Returns packets len b' (shorter m))
      ]

  batch_step-Returns : (packets : Packets) → Returns (batch_step k b packets)
  unfolding batch_step
  batch_step-Returns packets = elim (Bool-cases (has_remaining b)) [
    | inl more ↦ rw more (take_length-Returns packets (read_var_int b) refl)
    | inr done ↦ (packets, rw done)
  ]

parse_batch_loop-Returns :
    (fuel : ℕ) (b : Buffer) (packets : Packets)
    → length (unread b) < fuel
    → Returns (parse_batch_loop fuel b packets)
unfolding parse_batch_loop
parse_batch_loop-Returns zero b packets h = absurd (omega arith)
parse_batch_loop-Returns (suc fuel) b packets h =
    batch_step-Returns (parse_batch_loop fuel) b
      (λ b' ps lt. parse_batch_loop-Returns fuel b' ps (omega arith)) packets

-- On every input `parse_batch` ends and returns `Ok` with some packets: its loop never runs out of
-- fuel, and no input makes it fail.
pub parse_batch_returns : (bytes : List ℕ) → (ps : Packets) × (parse_batch bytes ≡ ok ps)
unfolding parse_batch
parse_batch_returns bytes =
    parse_batch_loop-Returns (suc (length bytes)) (of_bytes bytes) [] (omega arith)

-- The packets behind one another, each behind its length.
abbrev pub batch : Packets → List ℕ
batch [] = []
batch (p ∷ ps) = var_int32 (length p) ++ (p ++ batch ps)

abbrev pub Fits : List ℕ → Type 0
Fits p = length p < 2 ^ 32

combine_lem :
    (ps : Packets) (b : Buffer) → All Fits ps → combine ps b ≡ (ok tt, appended (batch ps) b)
unfolding combine write_bytes
combine_lem [] b h = rw append-nil
combine_lem (p ∷ ps) b (hp, hps) =
    let e : length p % 2 ^ 32 ≡ length p = omega arith in
    rw (e, write_var_int_lem (length p) b hp, combine_lem ps _ hps) (simp append_assoc)

-- One packet is taken off the front.
batch_step_lem :
    (k : Next) (p rest : List ℕ) (b : Buffer) (packets : Packets)
    → Fits p
    → unread b ≡ var_int32 (length p) ++ (p ++ rest)
    → (b' : Buffer) × (batch_step k b packets ≡ k b' (packets ++ (p ∷ []))) × (unread b' ≡ rest)
unfolding batch_step take_length take_packet
batch_step_lem k p rest b packets hp h = (advance (length p) behind, stepped, left)
  where
    size : ℕ
    size = length (var_int32 (length p))

    behind : Buffer
    behind = advance size b

    read : read_var_int b ≡ (ok (length p), behind)
    read = read_var_int-var_int (length p) b (p ++ rest) hp h

    at_packet : unread behind ≡ p ++ rest
    at_packet =
        View.unread-advance b size ∙ rw h (drop_prefix (var_int32 (length p)) (p ++ rest) size refl)

    inside : behind.position ≤ length behind.bytes
    inside = omega (
      arith,
      View.length-unread b,
      ap length h,
      length-append (var_int32 (length p)) (p ++ rest),
      length-var_int 4 (length p),
    )

    some_left : has_remaining b ≡ true
    some_left = (View.has_remaining_iff b).1 (
        omega (
          arith,
          ap length h,
          length-append (var_int32 (length p)) (p ++ rest),
          length-var_int 4 (length p),
        ))

    enough : ltb (remaining behind) (length p) ≡ false
    enough = rw (View.remaining-unread behind, at_packet) (ground (arith, length-append p rest))

    stepped : batch_step k b packets ≡ k (advance (length p) behind) (packets ++ (p ∷ []))
    stepped = rw (some_left, read, enough, View.read_bytes_lem behind p rest inside at_packet)

    left : unread (advance (length p) behind) ≡ rest
    left = View.unread-advance behind (length p) ∙ rw at_packet (drop_prefix p rest (length p) refl)

batch_step_end :
    (k : Next) (b : Buffer) (packets : Packets)
    → unread b ≡ []
    → batch_step k b packets ≡ ok packets
unfolding batch_step
batch_step_end k b packets h = ground (arith, View.length-unread b, ap length h)

batch_longer : (p : List ℕ) (ps : Packets) → length (batch ps) < length (batch (p ∷ ps))
batch_longer p ps = omega (
  arith,
  length-append (var_int32 (length p)) (p ++ batch ps),
  length-append p (batch ps),
  length-var_int 4 (length p),
)

parse_batch_loop-batch :
    (ps : Packets) (fuel : ℕ) (b : Buffer) (packets : Packets)
    → All Fits ps
    → unread b ≡ batch ps
    → length (batch ps) < fuel
    → parse_batch_loop fuel b packets ≡ ok (packets ++ ps)
unfolding parse_batch_loop
parse_batch_loop-batch ps zero b packets h e f = absurd (omega arith)
parse_batch_loop-batch [] (suc fuel) b packets h e f =
    rw append-nil (batch_step_end (parse_batch_loop fuel) b packets e)
parse_batch_loop-batch (p ∷ ps) (suc fuel) b packets (hp, hps) e f =
    let (b', step, left) = batch_step_lem (parse_batch_loop fuel) p (batch ps) b packets hp e in
    step
    ∙ parse_batch_loop-batch ps fuel b' (packets ++ (p ∷ [])) hps left
        (omega (arith, batch_longer p ps))
    ∙ ap ok (append_assoc packets (p ∷ []) ps)

-- What `send_bedrock_bundle` puts together for packets below 4 GiB each, `parse_batch` takes
-- apart into the same packets, in order.
pub parse_batch-combine :
    (ps : Packets) (b : Buffer)
    → All Fits ps
    → combine ps empty ≡ (ok tt, b)
    → parse_batch b.bytes ≡ ok ps
unfolding parse_batch
parse_batch-combine ps b h e =
    let whole : b.bytes ≡ batch ps = ap (λ r. r.1.bytes) (sym e ∙ combine_lem ps empty h) in
    rw whole (
      parse_batch_loop-batch ps (suc (length (batch ps))) (of_bytes (batch ps)) [] h refl
        (omega arith))
