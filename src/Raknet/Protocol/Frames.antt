-- ===== src/Raknet/Protocol/Frames.antt =====
-- The loop over the frames of a set ends, and what it returns stands in the datagram frame by frame.
use skin_get_be_rust.Prelude.{
  ℕ, zero, suc, ◌+◌, ◌*◌, ◌<◌, ◌≤◌, ◌≡◌, refl, sym, true, false, ◌&&◌, ◌||◌, List, [], ◌∷◌, ◌++◌,
  Option, none, some, length, ltb, leb, arith, Bool-cases, inl, inr, drop, ◌⊎◌, lt→ltb,
}
use native.Mathlib.Decide.{dec_lt}
use skin_get_be_rust.Error.{ok, err, invalid_data, protocol_error}
use skin_get_be_rust.Raknet.Protocol.{
  RakNetFrame, FrameLengthMode, bits, bytes, at, parse_frame, Parsed, on_failure, on_frame,
  frames_loop, parse_frame_set_with_mode, try_bytes, select_frames, parse_frame_set, is_batch_head,
  byte_is_better,
}
use skin_get_be_rust.Raknet.Protocol.Parse.{IsFrame, parse_frame-IsFrame}
use mathlib.Core.Path.{subst}

-- Frames that stand one behind the other, from `start` to `end`.
abbrev pub Laid : List ℕ → FrameLengthMode → (start : ℕ) → List RakNetFrame → (end : ℕ) → Type 0
Laid buf mode start [] end = start ≡ end
Laid buf mode start (f ∷ fs) end =
    (next : ℕ) × IsFrame buf mode start f next × Laid buf mode next fs end

Laid-concat :
    (buf : List ℕ) (mode : FrameLengthMode) (start : ℕ) (fs : List RakNetFrame) (f : RakNetFrame)
    (end next : ℕ)
    → Laid buf mode start fs end
    → IsFrame buf mode end f next
    → Laid buf mode start (fs ++ (f ∷ [])) next
Laid-concat buf mode start [] f end next e s =
    (next, subst (λ (n : ℕ). IsFrame buf mode n f next) (sym e) s, refl)
Laid-concat buf mode start (g ∷ fs) f end next (mid, t, l) s =
    (mid, t, Laid-concat buf mode mid fs f end next l s)

-- Why the frames end where they do: at the datagram's end, at bytes that are no frame, or behind a
-- fragment.
abbrev pub Stops : List ℕ → FrameLengthMode → List RakNetFrame → (end : ℕ) → Type 0
Stops buf mode frames end =
    (end ≡ length buf)
    ⊎ (parse_frame buf end mode ≡ none)
    ⊎ ((before : List RakNetFrame) × (last : RakNetFrame) × (frames ≡ before ++ (last ∷ []))
        × (last.is_split ≡ true))

-- A lone batch in byte mode that has taken the bytes behind it, which are no frame.
abbrev pub Joined : List ℕ → List RakNetFrame → Type 0
Joined buf frames =
    (f : RakNetFrame) × (next : ℕ) × IsFrame buf bytes 4 f next
    × (is_batch_head f.payload ≡ true)
    × (parse_frame buf next bytes ≡ none)
    × (frames ≡ record f { payload = f.payload ++ drop next buf } ∷ [])

-- The frames of a datagram.
abbrev pub Outcome : List ℕ → List RakNetFrame → Type 0
Outcome buf frames =
    ((mode : FrameLengthMode) × (end : ℕ) × Laid buf mode 4 frames end
      × (end ≤ length buf)
      × Stops buf mode frames end)
    ⊎ Joined buf frames

module _ (buf : List ℕ) (mode : FrameLengthMode) where
  abbrev Returns : Option Parsed → Type 0
  Returns r = (p : Parsed) × (r ≡ some p) × Outcome buf p.frames

  on_failure-Outcome :
      (m : FrameLengthMode) (offset : ℕ) (fs : List RakNetFrame)
      → offset < length buf
      → Laid buf m 4 fs offset
      → parse_frame buf offset m ≡ none
      → Outcome buf (on_failure buf m offset fs).frames
  unfolding on_failure
  on_failure-Outcome bytes offset (f ∷ []) h (next, s, e) stop =
      elim (Bool-cases (is_batch_head f.payload)) [
        | inl head ↦ rw head (inr (f, offset, subst (IsFrame buf bytes 4 f) e s, head, stop, refl))
        | inr tail ↦ rw tail (inl (bytes, offset, (next, s, e), omega arith, inr (inl stop)))
      ]
  on_failure-Outcome bytes offset [] h l stop = inl (bytes, offset, l, omega arith, inr (inl stop))
  on_failure-Outcome bytes offset (f ∷ g ∷ fs) h l stop =
      inl (bytes, offset, l, omega arith, inr (inl stop))
  on_failure-Outcome bits offset fs h l stop = inl (bits, offset, l, omega arith, inr (inl stop))

  module _ (k : ℕ → List RakNetFrame → Option Parsed) (offset : ℕ) (frames : List RakNetFrame)
      (at_offset : offset < length buf) (laid : Laid buf mode 4 frames offset)
      (next : (offset' : ℕ) (fs : List RakNetFrame)
        → offset < offset'
        → Laid buf mode 4 fs offset'
        → offset' ≤ length buf
        → Returns (k offset' fs)) where
    on_frame-Returns :
        (r : Option (RakNetFrame × ℕ))
        → parse_frame buf offset mode ≡ r
        → Returns (on_frame buf mode k offset frames r)
    unfolding on_frame
    on_frame-Returns none h = (
      on_failure buf mode offset frames,
      refl,
      on_failure-Outcome mode offset frames at_offset laid h,
    )
    on_frame-Returns (some (f, next_offset)) h =
        let here = parse_frame-IsFrame buf offset mode f next_offset h in
        let all = Laid-concat buf mode 4 frames f offset next_offset laid here in
        elim (Bool-cases (f.is_split && ltb next_offset (length buf))) [
          | inl stop ↦ (
            record { frames = frames ++ (f ∷ []); offset = next_offset; failed = false },
            rw stop,
            inl (mode, next_offset, all, here.inside, inr (inr (frames, f, refl, ground arith))),
          )
          | inr go ↦
              rw go
                (next next_offset (frames ++ (f ∷ [])) (omega (arith, here.ends)) all here.inside)
        ]

  frames_loop-Returns :
      (fuel offset : ℕ) (frames : List RakNetFrame)
      → length buf < offset + fuel
      → offset ≤ length buf
      → Laid buf mode 4 frames offset
      → Returns (frames_loop fuel buf mode offset frames)
  unfolding frames_loop
  frames_loop-Returns zero offset frames h inside l = absurd (omega arith)
  frames_loop-Returns (suc fuel) offset frames h inside l = elim (dec_lt offset (length buf)) [
    | yes more ↦ rw (lt→ltb _ _ more) (
        on_frame-Returns (frames_loop fuel buf mode) offset frames more l
          (λ offset' fs lt l' inside'. frames_loop-Returns fuel offset' fs (omega arith) inside' l')
          (parse_frame buf offset mode) refl)
    | no done ↦ (
      record { frames = frames; offset = offset; failed = false },
      ground arith,
      inl (mode, offset, l, inside, inl (omega arith)),
    )
  ]

try_bytes_returns :
    (buf : List ℕ) (in_bits : Parsed)
    → 4 ≤ length buf
    → Outcome buf in_bits.frames
    → (fs : List RakNetFrame) × (try_bytes buf in_bits ≡ some fs) × Outcome buf fs
unfolding try_bytes parse_frame_set_with_mode
try_bytes_returns buf in_bits h l =
    elim (Bool-cases (in_bits.failed || ltb in_bits.offset (length buf))) [
      | inr fine ↦ (in_bits.frames, rw fine, l)
      | inl again ↦
          let (in_bytes, e, l') =
            frames_loop-Returns buf bytes (suc (length buf)) 4 [] (omega arith) h refl in
          elim (Bool-cases (byte_is_better in_bits in_bytes)) [
            | inl better ↦ (in_bytes.frames, rw (again, e, better), l')
            | inr worse ↦ (in_bits.frames, rw (again, e, worse), l)
          ]
    ]

-- On a datagram with a frame set's id and at least four bytes, parsing ends and returns a frame set
-- with that id and the little-endian sequence number. Its frames stand in the datagram one behind the
-- other from byte 4 on, all with their length in bits or all in bytes: each has the reliability and
-- the fragment mark of its flags, ends inside the datagram, and its payload has the length that its
-- length field gives and stands behind the headers that the flags call for; order channels are at most
-- 31 and split counts at most 1024. They end at the datagram's end, at bytes that are no frame or
-- behind a fragment. Or there is one frame in byte mode, whose payload begins as a batch and has taken
-- the bytes behind it, which are no frame. Any other datagram is refused.
pub parse_frame_set_total :
    (buf : List ℕ)
    → ((frames : List RakNetFrame) × (parse_frame_set buf
          ≡ ok (record {
            id = at buf 0;
            seq = at buf 1 + at buf 2 * 256 + at buf 3 * 65536;
            frames = frames;
          }))
        × Outcome buf frames
        × (4 ≤ length buf)
        × (0x80 ≤ at buf 0)
        × (at buf 0 ≤ 0x8d))
      ⊎ ((parse_frame_set buf ≡ err invalid_data) × (length buf < 4))
      ⊎ ((parse_frame_set buf ≡ err protocol_error) × ((at buf 0 < 0x80) ⊎ (0x8d < at buf 0)))
unfolding parse_frame_set select_frames parse_frame_set_with_mode
parse_frame_set_total buf = elim (dec_lt (length buf) 4) [
  | yes short ↦ inr (inl (ground arith, short))
  | no long ↦ elim (Bool-cases (leb 0x80 (at buf 0) && leb (at buf 0) 0x8d)) [
    | inr bad ↦ inr (inr (ground arith, ground arith))
    | inl good ↦ inl (
        result
          (frames_loop-Returns buf bits (suc (length buf)) 4 [] (omega arith) (omega arith) refl)
          long good)
  ]
]
  where
    result :
        (p : Parsed) × (frames_loop (suc (length buf)) buf bits 4 [] ≡ some p)
          × Outcome buf p.frames
        → ¬ (length buf < 4)
        → (leb 0x80 (at buf 0) && leb (at buf 0) 0x8d) ≡ true
        → (frames : List RakNetFrame) × (parse_frame_set buf
            ≡ ok (record {
              id = at buf 0;
              seq = at buf 1 + at buf 2 * 256 + at buf 3 * 65536;
              frames = frames;
            }))
          × Outcome buf frames
          × (4 ≤ length buf)
          × (0x80 ≤ at buf 0)
          × (at buf 0 ≤ 0x8d)
    result (p, e, l) long good =
        let (fs, e', l') = try_bytes_returns buf p (omega arith) l in
        let size : ltb (length buf) 4 ≡ false = ground arith in
        (fs, rw (size, good, e, e'), l', omega arith, ground arith, ground arith)
