-- ===== src/Raknet/Server/Split.antt =====
-- The split-packet branch of `handle_game_packet` in src/raknet/server/mod.rs: fragments are kept
-- by peer and split id until all have arrived.
pub mod Entry
pub mod Assemble
pub mod AnyOrder
use skin_get_be_rust.Prelude.{
  ℕ, zero, suc, ◌+◌, ◌<◌, ◌≤◌, ◌≡◌, refl, Bool, true, false, not, ◌&&◌, List, [], ◌∷◌, ◌++◌, Option,
  none, some, length, ltb, ◌==◌, if◌then◌else◌, get_or, set, replicate,
}
use skin_get_be_rust.Prelude.Map.{Map, Eq, nat_eq, pair_eq, lookup, insert, remove}
use skin_get_be_rust.Raknet.Protocol.{RakNetFrame}
use skin_get_be_rust.Raknet.Server.Session.{SplitBuffer, SocketAddr, addr_eq, max_split_parts}

-- `AssembledMeta`
pub record Assembled : Type 0 where
  pub payload : List ℕ
  pub reliability : ℕ
  pub order_index : Option ℕ
  pub order_channel : Option ℕ

abbrev pub SplitBuffers : Type 0
SplitBuffers = Map (SocketAddr × ℕ) SplitBuffer

-- The buffer that the first fragment of a packet makes.
abbrev pub new_buffer : RakNetFrame → ℕ → ℕ → SplitBuffer
new_buffer frame count now = record {
  count = count;
  received_count = 0;
  created_at = now;
  fragments = replicate count [];
  received = replicate count false;
  reliability = frame.reliability;
  order_index = frame.order_index;
  order_channel = frame.order_channel;
}

-- `for frag in entry.fragments.iter() { full.extend_from_slice(frag); }`
abbrev pub concat : List (List ℕ) → List ℕ
concat [] = []
concat (f ∷ fs) = f ++ concat fs

abbrev pub assembled : SplitBuffer → Assembled
assembled entry = record {
  payload = concat entry.fragments;
  reliability = entry.reliability;
  order_index = entry.order_index;
  order_channel = entry.order_channel;
}

abbrev pub marked : ℕ → List ℕ → SplitBuffer → SplitBuffer
marked idx payload entry = record entry {
  fragments = set entry.fragments idx payload;
  received = set entry.received idx true;
  received_count = entry.received_count + 1;
}

-- A fragment that is in range and new is stored; the last one completes the packet.
unfoldable pub store_fragment : ℕ → List ℕ → SplitBuffer → SplitBuffer × Option Assembled
store_fragment idx payload entry =
    if ltb idx (length entry.fragments) && not (get_or entry.received idx false)
    then (let entry' = marked idx payload entry in
        (entry', if entry'.received_count == entry'.count then some (assembled entry') else none))
    else (entry, none)

abbrev pub or_buffer : Option SplitBuffer → SplitBuffer → SplitBuffer
or_buffer none fresh = fresh
or_buffer (some entry) fresh = entry

abbrev or_zero : Option ℕ → ℕ
or_zero none = 0
or_zero (some n) = n

-- The buffer goes back into the table, or is removed when it is complete.
abbrev pub settle :
    SocketAddr × ℕ → SplitBuffers → SplitBuffer × Option Assembled → SplitBuffers × Option Assembled
settle key buffers (entry, none) = (insert key entry buffers, none)
settle key buffers (entry, some meta) = (remove key buffers, some meta)

unfoldable pub take_fragment :
    SocketAddr × ℕ → ℕ → RakNetFrame → ℕ → SplitBuffers → SplitBuffers × Option Assembled
take_fragment key count frame now buffers =
    let entry = or_buffer (lookup key buffers) (new_buffer frame count now) in
    settle key buffers (store_fragment (or_zero frame.split_index) frame.payload entry)

-- A frame with no split id, no parts or too many parts changes nothing.
unfoldable pub split_step :
    SocketAddr → Option ℕ → RakNetFrame → ℕ → SplitBuffers → SplitBuffers × Option Assembled
split_step from none frame now buffers = (buffers, none)
split_step from (some sid) frame now buffers =
    let count = or_zero frame.split_count in
    if count == 0
    then (buffers, none)
    else if ltb max_split_parts count
    then (buffers, none)
    else take_fragment (from, sid) count frame now buffers
