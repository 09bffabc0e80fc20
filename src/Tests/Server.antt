-- ===== src/Tests/Server.antt =====
-- Runs of the server's ordering and reassembly.
use skin_get_be_rust.Prelude.{ℕ, ◌<◌, ◌≡◌, refl, arith, List, [], ◌∷◌, ◌++◌, none, some, true}
use skin_get_be_rust.Prelude.Map.{nat_eq, pair_eq, lookup, insert, remove}
use skin_get_be_rust.Raknet.Protocol.{RakNetFrame}
use skin_get_be_rust.Raknet.Server.Session.{
  OrderedChannel, ClientSession, new_session, SocketAddr, v4, addr_eq, prune_session_queues,
}
use skin_get_be_rust.Raknet.Server.Ordered.{
  Emitted, flush, flush_loop, flush_entry, place, deliver, buffer_ordered_payload,
}
use skin_get_be_rust.Raknet.Server.Ordered.Flush.{Flushed, flush_lem}
use skin_get_be_rust.Raknet.Server.Ordered.InOrder.{
  Tracks, receive_all, Delivered, receive_all_in_order,
}
use skin_get_be_rust.Raknet.Server.Ordered.Pruned.{pruned_channel_hands_on_anything}
use skin_get_be_rust.Raknet.Server.Split.{SplitBuffers}
use skin_get_be_rust.Raknet.Server.Split.Assemble.{seen_in}
use skin_get_be_rust.Raknet.Server.Split.AnyOrder.{receive, receive_in_any_order}

-- Payload `i` of a peer is the byte `i` twice.
abbrev source : ℕ → List ℕ
source i = i ∷ i ∷ []

-- Index 6 is awaited and there.
abbrev ready : OrderedChannel
ready = record { next_index = 6; buffer = (6, (6 ∷ 6 ∷ [], 0)) ∷ [] }

flush_lem_example :
    (run : Emitted) × ((flush ready []).1 ≡ [] ++ run) × Flushed ready run (flush ready []).0
flush_lem_example = flush_lem ready []

abbrev started : OrderedChannel
started = record { next_index = 5; buffer = [] }

abbrev session : ClientSession
session = record (new_session true 11 800 []) { ordered_channels = (0, started) ∷ [] }

abbrev out_of_order : List (ℕ × ℕ)
out_of_order = (6, 0) ∷ (5, 1) ∷ (6, 2) ∷ (8, 3) ∷ []

started-Tracks : Tracks source started []
unfolding lookup
started-Tracks = record {
  started = omega arith;
  small = omega arith;
  consistent = λ j p t h. cc;
  present = λ j h. cc;
}

channel_0 : lookup 0 session.ordered_channels ≡ some started
unfolding lookup
channel_0 = refl

nothing_waits : lookup 5 started.buffer ≡ none
unfolding lookup
nothing_waits = refl

-- Both arrive once and in order; the repeated one is kept back, as is the one behind the gap.
in_order : (receive_all source 0 out_of_order session []).1 ≡ (5 ∷ 5 ∷ []) ∷ (6 ∷ 6 ∷ []) ∷ []
unfolding receive_all buffer_ordered_payload deliver place flush_loop flush_entry lookup insert
    remove
in_order = refl

receive_all_in_order_example :
    Delivered source 0 started
      (6 ∷ 5 ∷ 6 ∷ 8 ∷ [])
      []
      (receive_all source 0 out_of_order session []).0
      (receive_all source 0 out_of_order session []).1
receive_all_in_order_example =
    receive_all_in_order source 0 out_of_order started session [] channel_0
      (omega arith, (omega arith, (omega arith, (omega arith, tt)))) started-Tracks nothing_waits

drained :
    lookup 0 (buffer_ordered_payload (5 ∷ []) (some 5) (some 0) 0 session []).0.ordered_channels
    ≡ some (record { next_index = 6; buffer = [] })
unfolding buffer_ordered_payload deliver place flush_loop flush_entry lookup insert remove
drained = refl

-- The payload with index 5 is handed on a second time.
pruned_channel_hands_on_anything_example :
    (buffer_ordered_payload
      (5 ∷ [])
      (some 5)
      (some 0)
      2
      (prune_session_queues 1 (buffer_ordered_payload (5 ∷ []) (some 5) (some 0) 0 session []).0)
      []).1
    ≡ (5 ∷ []) ∷ []
pruned_channel_hands_on_anything_example =
    pruned_channel_hands_on_anything session 0 5 5 0 1 2 (5 ∷ []) (5 ∷ []) [] []
      (record { next_index = 6; buffer = [] }) drained refl

abbrev peer : SocketAddr
peer = v4 (127 ∷ 0 ∷ 0 ∷ 1 ∷ []) 19132

abbrev three_parts : List (List ℕ)
three_parts = (1 ∷ 2 ∷ []) ∷ (3 ∷ 4 ∷ []) ∷ (5 ∷ []) ∷ []

abbrev header : RakNetFrame
header = record {
  reliability = 3;
  is_split = true;
  payload = [];
  reliable_seq = some 0;
  order_index = some 0;
  order_channel = some 0;
  split_count = none;
  split_id = none;
  split_index = none;
}

abbrev backwards : List (ℕ × ℕ)
backwards = (2, 0) ∷ (1, 1) ∷ (2, 2) ∷ []

abbrev no_table : SplitBuffers
no_table = []

no_buffers : lookup (peer, 7) no_table ≡ none
unfolding lookup
no_buffers = refl

all_seen : (k : ℕ) → k < 3 → seen_in k (0 ∷ 2 ∷ 1 ∷ 2 ∷ []) ≡ true
all_seen k h = ground arith

receive_in_any_order_example :
    ((receive three_parts header peer 7 backwards no_table).1 ≡ [])
    × ((receive three_parts header peer 7 (backwards ++ ((0, 3) ∷ [])) no_table).1
        ≡ (1 ∷ 2 ∷ 3 ∷ 4 ∷ 5 ∷ []) ∷ [])
    × (lookup (peer, 7) (receive three_parts header peer 7 (backwards ++ ((0, 3) ∷ [])) no_table).0
        ≡ none)
receive_in_any_order_example =
    receive_in_any_order three_parts header peer 7 (omega arith) (omega arith) backwards 0 3
      no_table no_buffers (omega arith, (omega arith, (omega arith, tt))) (omega arith) refl
      all_seen
