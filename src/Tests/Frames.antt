-- ===== src/Tests/Frames.antt =====
-- Runs of the outgoing frames.
use skin_get_be_rust.Prelude.{ℕ, ◌^◌, ◌<◌, ◌≡◌, refl, arith, List, [], ◌∷◌, replicate, none, All}
use skin_get_be_rust.Prelude.Map.{nat_eq}
use skin_get_be_rust.Error.{Result, ok}
use skin_get_be_rust.Raknet.Protocol.{parse_frame_set, has_reliable, has_ordering}
use skin_get_be_rust.Raknet.Server.Session.{RakNetServer, SocketAddr, v4, addr_eq}
use skin_get_be_rust.Raknet.Server.Frames.{
  Sequence, build_frame, single_flags, split_flags, fragment_payload, send_frame,
  max_single_payload, max_frag_payload, div_ceil, frame_overhead,
}
use skin_get_be_rust.Raknet.Server.Frames.Single.{
  IsTriads, received_frame, parse_frame_set-build_frame,
}
use skin_get_be_rust.Raknet.Server.Frames.Fragments.{fragment_refused}
use skin_get_be_rust.Raknet.Server.Frames.Mtu.{Within, send_frame-Within}
use skin_get_be_rust.Raknet.Server.Frames.Numbered.{
  Accepts, Carries, numbers_of, send_frame-Carries,
}

abbrev numbering : Sequence
numbering = record { seq = 5; rel_seq = 6; order_idx = 7 }

numbering-IsTriads : IsTriads numbering
numbering-IsTriads = record {
  seq_small = omega arith;
  rel_small = omega arith;
  order_small = omega arith;
}

parse_frame_set-build_frame_example :
    parse_frame_set (build_frame (single_flags 3) 3 numbering (0xaa ∷ 0xbb ∷ []))
    ≡ ok
        (record { id = 0x84; seq = 5; frames = received_frame 3 numbering (0xaa ∷ 0xbb ∷ []) ∷ [] })
parse_frame_set-build_frame_example =
    parse_frame_set-build_frame 3 numbering (0xaa ∷ 0xbb ∷ []) (omega arith) numbering-IsTriads
      (omega arith)

fragment_refused_example :
    parse_frame_set
      (build_frame (split_flags 3) 3 numbering (fragment_payload 2 9 0 (0xaa ∷ 0xbb ∷ [])))
    ≡ ok (record { id = 0x84; seq = 5; frames = [] })
fragment_refused_example =
    fragment_refused 3 numbering 2 9 0 (0xaa ∷ 0xbb ∷ []) (omega arith) numbering-IsTriads
      (omega arith)

abbrev small_server : RakNetServer
small_server = record {
  config = record {
    server_guid = 0x1234_5678;
    protocol_version = 924;
    mtu_size = 40;
    server_port = 19132;
    version = [];
    external_addr = none;
    savemode = 2;
  };
  connections = [];
  split_buffers = [];
  runtime_protocol_version = 924;
  runtime_version = [];
}

abbrev peer : SocketAddr
peer = v4 (127 ∷ 0 ∷ 0 ∷ 1 ∷ []) 19133

abbrev accept_all : List ℕ → SocketAddr → Result (Unit {0})
accept_all frame to = ok tt

abbrev at_once : ℕ → ℕ
at_once idx = 0

abbrev thirty : List ℕ
thirty = replicate 30 7

overhead_3 : frame_overhead 3 ≡ 10
unfolding has_reliable has_ordering
overhead_3 = refl

send_frame-Within_example :
    All (Within 40) (send_frame accept_all small_server thirty 3 peer 9 at_once).datagrams
send_frame-Within_example =
    send_frame-Within accept_all small_server thirty 3 peer 9 at_once (omega (arith, overhead_3))

most_3 : max_single_payload 40 3 < 30
unfolding max_single_payload has_reliable has_ordering
most_3 = omega arith

count_3 : div_ceil 30 (max_frag_payload 40 3) < 2 ^ 32
unfolding max_frag_payload has_reliable has_ordering
count_3 = omega arith

accept_all-Accepts : Accepts accept_all
accept_all-Accepts frame to = refl

send_frame-Carries_example :
    Carries 3
      (div_ceil 30 (max_frag_payload 40 3))
      9
      0
      (numbers_of small_server peer)
      thirty
      (send_frame accept_all small_server thirty 3 peer 9 at_once).datagrams
    × ((send_frame accept_all small_server thirty 3 peer 9 at_once).result ≡ ok tt)
send_frame-Carries_example =
    send_frame-Carries accept_all small_server thirty 3 peer 9 at_once accept_all-Accepts most_3
      count_3
