-- ===== src/Raknet/Protocol.antt =====
-- src/raknet/protocol.rs: parsing of RakNet frame sets. Log output is left out.
-- `offset` walks over `usize` indices that never pass the datagram's length by more than a
-- header, so its additions are written without a wrap.
pub mod Parse
pub mod Fields
pub mod Frames
use skin_get_be_rust.Prelude.{
  ℕ, zero, suc, ◌+◌, ◌-◌, ◌*◌, ◌/◌, ◌%◌, ◌^◌, ◌<◌, Bool, true, false, not, ◌&&◌, ◌||◌, List, [],
  ◌∷◌, ◌++◌, Option, none, some, length, ltb, leb, ◌==◌, if◌then◌else◌, bit_and, bit_or, take, drop,
  get_or,
}
use skin_get_be_rust.Prelude.Bits.{shl, shr}
use skin_get_be_rust.Error.{Result, ok, err, invalid_data, protocol_error, other}

pub record RakNetFrame : Type 0 where
  pub reliability : ℕ
  pub is_split : Bool
  pub payload : List ℕ
  pub reliable_seq : Option ℕ
  pub order_index : Option ℕ
  pub order_channel : Option ℕ
  pub split_count : Option ℕ
  pub split_id : Option ℕ
  pub split_index : Option ℕ

pub record FrameSet : Type 0 where
  pub id : ℕ
  pub seq : ℕ
  pub frames : List RakNetFrame

pub data FrameLengthMode : Type 0 where
  bits bytes : FrameLengthMode

infixl 5 ◌>>=◌ ◌>>◌
abbrev pub ◌>>=◌ {ℓ κ} : {A : Type ℓ} {B : Type κ} → Option A → (A → Option B) → Option B
none >>= f = none
some a >>= f = f a

abbrev pub ◌>>◌ {ℓ} : {B : Type ℓ} → Option (Unit {0}) → Option B → Option B
m >> k = m >>= λ _. k

-- `if !condition { return None; }`
abbrev pub require : Bool → Option (Unit {0})
require true = some tt
require false = none

-- `data[offset]`; every use stands behind a bounds check.
abbrev pub at : List ℕ → ℕ → ℕ
at buf off = get_or buf off 0

-- The nested readers return the value and the offset behind it.
unfoldable pub read_u24_le : List ℕ → ℕ → Option (ℕ × ℕ)
read_u24_le buf off = do
  require (leb (off + 3) (length buf))
  some (
    bit_or (bit_or (at buf off) (shl 32 (at buf (off + 1)) 8)) (shl 32 (at buf (off + 2)) 16),
    off + 3,
  )

-- `u16::from_be_bytes` and `u32::from_be_bytes`
abbrev pub from_be_bytes : List ℕ → ℕ → ℕ
from_be_bytes [] acc = acc
from_be_bytes (x ∷ xs) acc = from_be_bytes xs (acc * 256 + x)

unfoldable pub read_u16_be : List ℕ → ℕ → Option (ℕ × ℕ)
read_u16_be buf off = do
  require (leb (off + 2) (length buf))
  some (from_be_bytes (at buf off ∷ at buf (off + 1) ∷ []) 0, off + 2)

unfoldable pub read_u32_be : List ℕ → ℕ → Option (ℕ × ℕ)
read_u32_be buf off = do
  require (leb (off + 4) (length buf))
  some (
    from_be_bytes (at buf off ∷ at buf (off + 1) ∷ at buf (off + 2) ∷ at buf (off + 3) ∷ []) 0,
    off + 4,
  )

-- `matches!(reliability, 2 | 3 | 4 | 6 | 7)` and `matches!(reliability, 1 | 3 | 4 | 7)`
unfoldable pub has_reliable : ℕ → Bool
has_reliable r = r == 2 || r == 3 || r == 4 || r == 6 || r == 7

unfoldable pub has_ordering : ℕ → Bool
has_ordering r = r == 1 || r == 3 || r == 4 || r == 7

unfoldable pub header_overhead : ℕ → ℕ
header_overhead r = (if has_reliable r then 3 else 0) + (if has_ordering r then 4 else 0)

-- The length field counts bits, rounded up to bytes, or bytes.
unfoldable pub byte_length : FrameLengthMode → ℕ → ℕ
byte_length bits raw = (raw + 7) / 8
byte_length bytes raw = raw

abbrev pub remaining_after : ℕ → ℕ → ℕ
remaining_after total headers_end = if ltb headers_end total then total - headers_end else 0

unfoldable pub reliable_field : List ℕ → ℕ → ℕ → Option (Option ℕ × ℕ)
reliable_field buf reliability off =
    if has_reliable reliability
    then (do (seq, off') ← read_u24_le buf off; some (some seq, off'))
    else some (none, off)

pub record Ordering : Type 0 where
  pub index : Option ℕ
  pub channel : Option ℕ
  pub next : ℕ

unfoldable pub order_field : List ℕ → ℕ → ℕ → Option Ordering
order_field buf reliability off =
    if has_ordering reliability
    then (do
      (idx, off') ← read_u24_le buf off
      require (ltb off' (length buf))
      require (leb (at buf off') 31)
      some (record { index = some idx; channel = some (at buf off'); next = off' + 1 }))
    else some (record { index = none; channel = none; next = off })

pub record Split : Type 0 where
  pub count : Option ℕ
  pub id : Option ℕ
  pub index : Option ℕ
  pub next : ℕ

unfoldable pub split_field : List ℕ → Bool → ℕ → Option Split
split_field buf is_split off =
    if is_split
    then (do
      (count, off₁) ← read_u32_be buf off
      (id, off₂) ← read_u16_be buf off₁
      (index, off₃) ← read_u32_be buf off₂
      require (leb count 1024)
      some (record { count = some count; id = some id; index = some index; next = off₃ }))
    else some (record { count = none; id = none; index = none; next = off })

-- The last check, and the frame with the offset behind it.
unfoldable pub finish_frame :
    List ℕ → ℕ → Bool → ℕ → Option ℕ → Ordering → Split → Option (RakNetFrame × ℕ)
finish_frame buf reliability is_split byte_len reliable_seq order split = do
  require (leb (split.next + byte_len) (length buf))
  some (
    record {
      reliability = reliability;
      is_split = is_split;
      payload = take byte_len (drop split.next buf);
      reliable_seq = reliable_seq;
      order_index = order.index;
      order_channel = order.channel;
      split_count = split.count;
      split_id = split.id;
      split_index = split.index;
    },
    split.next + byte_len,
  )

-- The headers behind the length, from `off` on.
unfoldable pub parse_fields : List ℕ → ℕ → Bool → ℕ → ℕ → Option (RakNetFrame × ℕ)
parse_fields buf reliability is_split byte_len off = do
  (reliable_seq, off₁) ← reliable_field buf reliability off
  order ← order_field buf reliability off₁
  split ← split_field buf is_split order.next
  finish_frame buf reliability is_split byte_len reliable_seq order split

abbrev pub reliability_of : ℕ → ℕ
reliability_of flags = bit_and (shr flags 5) 0x07

abbrev pub is_split_of : ℕ → Bool
is_split_of flags = not (bit_and flags 0x10 == 0)

-- The length field, in the unit of the mode.
abbrev pub raw_length : List ℕ → ℕ → ℕ
raw_length buf off = from_be_bytes (at buf off ∷ at buf (off + 1) ∷ []) 0

unfoldable pub parse_frame : List ℕ → ℕ → FrameLengthMode → Option (RakNetFrame × ℕ)
parse_frame buf start length_mode = do
  require (leb (start + 3) (length buf))
  let flags = at buf start
  let reliability = reliability_of flags
  let byte_len = byte_length length_mode (raw_length buf (start + 1))
  let off = start + 3
  require (leb byte_len (remaining_after (length buf) (off + header_overhead reliability)))
  parse_fields buf reliability (is_split_of flags) byte_len off

-- `[0xFE, 0x00, ..] | [0xFE, 0xFF, ..]`
unfoldable pub is_batch_head : List ℕ → Bool
is_batch_head [] = false
is_batch_head (x ∷ []) = false
is_batch_head (x ∷ y ∷ _) = x == 0xfe && (y == 0x00 || y == 0xff)

pub record Parsed : Type 0 where
  pub frames : List RakNetFrame
  pub offset : ℕ
  pub failed : Bool

-- A frame that does not parse: a lone batch frame in byte mode takes the trailing bytes.
unfoldable pub on_failure : List ℕ → FrameLengthMode → ℕ → List RakNetFrame → Parsed
on_failure buf bytes offset (f ∷ []) =
    if is_batch_head f.payload
    then record {
      frames = record f { payload = f.payload ++ drop offset buf } ∷ [];
      offset = length buf;
      failed = false;
    }
    else record { frames = f ∷ []; offset = offset; failed = true }
on_failure buf _ offset frames = record { frames = frames; offset = offset; failed = true }

-- What the loop does with one result of `parse_frame`; `k` is its next round.
unfoldable pub on_frame :
    List ℕ
    → FrameLengthMode
    → (ℕ → List RakNetFrame → Option Parsed)
    → ℕ
    → List RakNetFrame
    → Option (RakNetFrame × ℕ)
    → Option Parsed
on_frame buf mode k offset frames none = some (on_failure buf mode offset frames)
on_frame buf mode k offset frames (some (frame, new_offset)) =
    if frame.is_split && ltb new_offset (length buf)
    then some (record { frames = frames ++ (frame ∷ []); offset = new_offset; failed = false })
    else k new_offset (frames ++ (frame ∷ []))

-- `while offset < data.len()`, on fuel; `none` means that it ran out.
unfoldable pub frames_loop : ℕ → List ℕ → FrameLengthMode → ℕ → List RakNetFrame → Option Parsed
frames_loop zero buf mode offset frames = none
frames_loop (suc fuel) buf mode offset frames =
    if ltb offset (length buf)
    then on_frame buf mode (frames_loop fuel buf mode) offset frames (parse_frame buf offset mode)
    else some (record { frames = frames; offset = offset; failed = false })

-- Every frame takes three bytes at least, so there is fuel enough.
unfoldable pub parse_frame_set_with_mode : List ℕ → FrameLengthMode → Option Parsed
parse_frame_set_with_mode buf mode = frames_loop (suc (length buf)) buf mode 4 []

abbrev is_empty : List RakNetFrame → Bool
is_empty [] = true
is_empty (f ∷ fs) = false

unfoldable pub byte_is_better : Parsed → Parsed → Bool
byte_is_better in_bits in_bytes =
    not (is_empty in_bytes.frames)
    && (ltb in_bits.offset in_bytes.offset || in_bits.failed && not in_bytes.failed)

-- The frames of the mode that fits better: byte mode is tried where bit mode fails or stops early.
unfoldable pub try_bytes : List ℕ → Parsed → Option (List RakNetFrame)
try_bytes buf in_bits =
    if in_bits.failed || ltb in_bits.offset (length buf)
    then (do
      in_bytes ← parse_frame_set_with_mode buf bytes
      some (if byte_is_better in_bits in_bytes then in_bytes.frames else in_bits.frames))
    else some in_bits.frames

unfoldable pub select_frames : List ℕ → Option (List RakNetFrame)
select_frames buf = parse_frame_set_with_mode buf bits >>= try_bytes buf

abbrev frame_set : List ℕ → Option (List RakNetFrame) → Result FrameSet
frame_set buf none = err other
frame_set buf (some frames) =
    ok (record {
      id = at buf 0;
      seq = at buf 1 + at buf 2 * 256 + at buf 3 * 65536;
      frames = frames;
    })

-- `err other` stands for a loop that ran out of fuel.
unfoldable pub parse_frame_set : List ℕ → Result FrameSet
parse_frame_set buf =
    if ltb (length buf) 4
    then err invalid_data
    else if not (leb 0x80 (at buf 0) && leb (at buf 0) 0x8d)
    then err protocol_error
    else frame_set buf (select_frames buf)
