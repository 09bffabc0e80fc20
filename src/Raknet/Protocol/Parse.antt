-- ===== src/Raknet/Protocol/Parse.antt =====
-- `parse_frame_set` on any datagram: it ends, and what the frames that it returns satisfy.
use skin_get_be_rust.Prelude.{
  ℕ, ◌+◌, ◌≤◌, ◌≡◌, refl, Bool, true, false, List, Option, none, some, length, arith, length-drop,
  drop, take, length-take, ◌*◌, ◌<◌, sym, ap, ◌∙◌, if◌then◌else◌,
}
use mathlib.Core.Path.{subst}
use skin_get_be_rust.Raknet.Protocol.{
  RakNetFrame, FrameLengthMode, ◌>>=◌, require, at, read_u24_le, read_u16_be, read_u32_be,
  reliable_field, Ordering, order_field, Split, split_field, parse_frame, parse_fields,
  finish_frame, reliability_of, is_split_of, raw_length, byte_length, has_reliable, has_ordering,
  bits, bytes,
}

-- Inversion of a chain of checks that succeeded.
bind-eq-some {ℓ κ} :
    {A : Type ℓ} {B : Type κ} (m : Option A) (f : A → Option B) {b : B}
    → (m >>= f) ≡ some b
    → (a : A) × (m ≡ some a) × (f a ≡ some b)
bind-eq-some none f h = cc
bind-eq-some (some a) f h = (a, refl, h)

require-eq-some : (b : Bool) {u : Unit {0}} → require b ≡ some u → b ≡ true
require-eq-some true h = refl
require-eq-some false h = cc

-- What the optional headers may hold.
abbrev pub IsChannel : Option ℕ → Type 0
IsChannel none = Unit
IsChannel (some c) = c ≤ 31

abbrev pub IsCount : Option ℕ → Type 0
IsCount none = Unit
IsCount (some c) = c ≤ 1024

module _ (buf : List ℕ) (off : ℕ) where
  reliable_field_next :
      (r : ℕ) (seq : Option ℕ) (off' : ℕ)
      → reliable_field buf r off ≡ some (seq, off')
      → off' ≡ off + (if has_reliable r then 3 else 0)
  unfolding reliable_field read_u24_le
  reliable_field_next r seq off' h = ground arith

  order_field_lem :
      (r : ℕ) (o : Ordering)
      → order_field buf r off ≡ some o
      → (o.next ≡ off + (if has_ordering r then 4 else 0)) × IsChannel o.channel
  unfolding order_field read_u24_le
  order_field_lem r o h = ground arith

  split_field_lem :
      (is_split : Bool) (s : Split)
      → split_field buf is_split off ≡ some s
      → (s.next ≡ off + (if is_split then 10 else 0)) × IsCount s.count
  unfolding split_field read_u32_be read_u16_be
  split_field_lem is_split s h = ground arith

-- Where the payload of a frame starts: behind the flags, the length, and the headers that the flags
-- call for.
abbrev pub payload_start : List ℕ → ℕ → ℕ
payload_start buf start =
    start
    + 3
    + (if has_reliable (reliability_of (at buf start)) then 3 else 0)
    + (if has_ordering (reliability_of (at buf start)) then 4 else 0)
    + (if is_split_of (at buf start) then 10 else 0)

-- A length in bytes as the length field gives it: in bytes, or in bits that fill the last byte in part.
abbrev pub Counts : FrameLengthMode → (raw size : ℕ) → Type 0
Counts bits raw size = (raw ≤ size * 8) × (size * 8 < raw + 8)
Counts bytes raw size = size ≡ raw

-- The frame that stands at `start` of the datagram, and ends at `next` inside it: the flags give its
-- reliability and whether it is a fragment, its payload has the length that the length field gives
-- and stands behind the headers, and the channel and the number of fragments are in range.
pub record IsFrame (buf : List ℕ) (mode : FrameLengthMode) (start : ℕ) (f : RakNetFrame) (next : ℕ)
    : Type 0 where
  pub reliability : f.reliability ≡ reliability_of (at buf start)
  pub split : f.is_split ≡ is_split_of (at buf start)
  pub counted : Counts mode (raw_length buf (start + 1)) (length f.payload)
  pub stands : f.payload ≡ take (length f.payload) (drop (payload_start buf start) buf)
  pub ends : next ≡ payload_start buf start + length f.payload
  pub inside : next ≤ length buf
  pub channel : IsChannel f.order_channel
  pub count : IsCount f.split_count

byte_length-Counts : (mode : FrameLengthMode) (raw : ℕ) → Counts mode raw (byte_length mode raw)
unfolding byte_length
byte_length-Counts bits raw = (omega arith, omega arith)
byte_length-Counts bytes raw = refl

-- A frame whose payload has `len` bytes behind `off`.
finish_frame_lem :
    (buf : List ℕ) (r : ℕ) (is_split : Bool) (len : ℕ) (seq : Option ℕ) (o : Ordering) (s : Split)
    (f : RakNetFrame) (next : ℕ)
    → finish_frame buf r is_split len seq o s ≡ some (f, next)
    → (f.reliability ≡ r)
      × (f.is_split ≡ is_split)
      × (f.payload ≡ take len (drop s.next buf))
      × (next ≡ s.next + len)
      × (next ≤ length buf)
      × (f.order_channel ≡ o.channel)
      × (f.split_count ≡ s.count)
unfolding finish_frame
finish_frame_lem buf r is_split len seq o s f next h = ground arith

parse_fields-IsFrame :
    (buf : List ℕ) (mode : FrameLengthMode) (start : ℕ) (f : RakNetFrame) (next : ℕ)
    → parse_fields buf
        (reliability_of (at buf start))
        (is_split_of (at buf start))
        (byte_length mode (raw_length buf (start + 1)))
        (start + 3)
      ≡ some (f, next)
    → IsFrame buf mode start f next
unfolding parse_fields
parse_fields-IsFrame buf mode start f next h =
    let r = reliability_of (at buf start) in
    let is_split = is_split_of (at buf start) in
    let len = byte_length mode (raw_length buf (start + 1)) in
    let ((seq, off₁), h₁, k₁) = bind-eq-some (reliable_field buf r (start + 3)) _ h in
    let (order, h₂, k₂) = bind-eq-some (order_field buf r off₁) _ k₁ in
    let (split, h₃, k₃) = bind-eq-some (split_field buf is_split order.next) _ k₂ in
    let next₁ = reliable_field_next buf (start + 3) r seq off₁ h₁ in
    let (next₂, channel) = order_field_lem buf off₁ r order h₂ in
    let (next₃, count) = split_field_lem buf order.next is_split split h₃ in
    let (same_r, same_split, payload, ends, inside, same_channel, same_count) =
      finish_frame_lem buf r is_split len seq order split f next k₃ in
    let at_payload : split.next ≡ payload_start buf start = omega arith in
    let size : length f.payload ≡ len = omega (
      arith,
      ap length payload,
      length-take len (drop split.next buf),
      length-drop split.next buf,
    ) in
    record {
      reliability = same_r;
      split = same_split;
      counted = rw size (byte_length-Counts mode (raw_length buf (start + 1)));
      stands =
          payload
          ∙ ap (λ (n : ℕ). take n (drop split.next buf)) (sym size)
          ∙ ap (λ (n : ℕ). take (length f.payload) (drop n buf)) at_payload;
      ends = omega arith;
      inside = inside;
      channel = subst IsChannel (sym same_channel) channel;
      count = subst IsCount (sym same_count) count;
    }

pub parse_frame-IsFrame :
    (buf : List ℕ) (start : ℕ) (mode : FrameLengthMode) (f : RakNetFrame) (next : ℕ)
    → parse_frame buf start mode ≡ some (f, next)
    → IsFrame buf mode start f next
unfolding parse_frame
parse_frame-IsFrame buf start mode f next h =
    parse_fields-IsFrame buf mode start f next (ground arith)
