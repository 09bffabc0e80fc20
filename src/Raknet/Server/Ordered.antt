-- ===== src/Raknet/Server/Ordered.antt =====
-- `buffer_ordered_payload` of src/raknet/server/session.rs.
use skin_get_be_rust.Prelude.{
  ℕ, zero, suc, ◌+◌, ◌%◌, ◌^◌, ◌<◌, ◌≤◌, ◌≡◌, refl, Bool, true, false, ◌&&◌, List, [], ◌∷◌, ◌++◌,
  Option, none, some, length, ◌==◌, if◌then◌else◌, arith,
}
use skin_get_be_rust.Prelude.Map.{Map, nat_eq, lookup, insert, remove}
use skin_get_be_rust.Raknet.Server.Session.{OrderedChannel, ClientSession}
pub mod Flush
pub mod InOrder
pub mod Pruned

abbrev pub Emitted : Type 0
Emitted = List (List ℕ)

-- What one round of the `while let` does with the entry at `next_index`; `k` is the next round.
unfoldable pub flush_entry :
    (OrderedChannel → Emitted → OrderedChannel × Emitted)
    → OrderedChannel
    → Emitted
    → Option (List ℕ × ℕ)
    → OrderedChannel × Emitted
flush_entry k channel emit none = (channel, emit)
flush_entry k channel emit (some (p, created_at)) =
    k
      (record {
        next_index = (channel.next_index + 1) % 2 ^ 32;
        buffer = remove channel.next_index channel.buffer;
      })
      (emit ++ (p ∷ []))

-- Each round removes an entry, so as many rounds as there are entries are enough.
unfoldable pub flush_loop : ℕ → OrderedChannel → Emitted → OrderedChannel × Emitted
flush_loop zero channel emit = (channel, emit)
flush_loop (suc fuel) channel emit =
    flush_entry (flush_loop fuel) channel emit (lookup channel.next_index channel.buffer)

abbrev pub flush : OrderedChannel → Emitted → OrderedChannel × Emitted
flush channel emit = flush_loop (length channel.buffer) channel emit

abbrev pub new_channel : OrderedChannel
new_channel = record { next_index = 0; buffer = [] }

-- The entry goes in, and a lone entry in a channel at index 0 sets where the channel starts.
unfoldable pub place : ℕ → List ℕ → ℕ → OrderedChannel → OrderedChannel
place idx payload now channel =
    let buffer' = insert idx (payload, now) channel.buffer in
    record {
      next_index =
          if length buffer' == 1 && channel.next_index == 0 then idx else channel.next_index;
      buffer = buffer';
    }

abbrev pub or_channel : Option OrderedChannel → OrderedChannel
or_channel none = new_channel
or_channel (some channel) = channel

abbrev pub or_zero : Option ℕ → ℕ
or_zero none = 0
or_zero (some ch) = ch

unfoldable pub deliver : ℕ → ℕ → List ℕ → ℕ → ClientSession → Emitted → ClientSession × Emitted
deliver ch idx payload now session emit =
    let placed = place idx payload now (or_channel (lookup ch session.ordered_channels)) in
    let (channel, emit') = flush placed emit in
    (record session { ordered_channels = insert ch channel session.ordered_channels }, emit')

unfoldable pub buffer_ordered_payload :
    List ℕ → Option ℕ → Option ℕ → ℕ → ClientSession → Emitted → ClientSession × Emitted
buffer_ordered_payload payload none order_channel now session emit =
    (session, emit ++ (payload ∷ []))
buffer_ordered_payload payload (some idx) order_channel now session emit =
    deliver (or_zero order_channel) idx payload now session emit
