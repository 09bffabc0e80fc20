-- ===== src/Tests/Acks.antt =====
-- Runs of the acknowledgements.
use skin_get_be_rust.Prelude.{
  ◌*◌, ℕ, ◌≡◌, refl, ap, arith, Bool-cases, inl, inr, true, ◌&&◌, if◌then◌else◌, leb, [], ◌∷◌, none,
  some,
}
use skin_get_be_rust.Prelude.Map.{nat_eq, lookup, insert, remove}
use skin_get_be_rust.Raknet.Server.Session.{
  ClientSession, new_session, PendingMessage, RakNetServer, SocketAddr, v4, addr_eq,
}
use skin_get_be_rust.Raknet.Server.Acks.{
  handle_ack_packet, handle_nack_packet, nack_segments, nack_session, nack_range, nack_message,
  back_off,
}
use skin_get_be_rust.Raknet.Server.Acks.Steady.{AllSteady, acks-AllSteady}
use skin_get_be_rust.Raknet.Server.Resend.{resend_round, resend_connections, resend_keys}
use skin_get_be_rust.Raknet.Server.Resend.Due.{resend_round-AllSteady}
use skin_get_be_rust.Raknet.Server.Session.{is_active_connection, millisecond}
use skin_get_be_rust.Raknet.Server.Acks.Cleared.{ack_packet, handle_ack_packet_clears}
use skin_get_be_rust.Buffer.Reads.{read_u8, read_u16, read_u24_le}

abbrev peer : SocketAddr
peer = v4 (10 ∷ 0 ∷ 0 ∷ 2 ∷ []) 19134

abbrev sent : ℕ → PendingMessage
sent seq = record { frame = 0x84 ∷ seq ∷ []; size_bytes = 2; last_sent = 0; attempts = 1 }

abbrev session : ClientSession
session = record (new_session true 11 800 []) {
  pending_messages = (4, sent 4) ∷ (5, sent 5) ∷ (9, sent 9) ∷ [];
}

abbrev server : RakNetServer
server = record {
  config = record {
    server_guid = 1;
    protocol_version = 924;
    mtu_size = 1492;
    server_port = 19132;
    version = [];
    external_addr = none;
    savemode = 2;
  };
  connections = (peer, session) ∷ [];
  split_buffers = [];
  runtime_protocol_version = 924;
  runtime_version = [];
}

server-AllSteady : AllSteady server
unfolding lookup
server-AllSteady addr found e = elim (Bool-cases (addr_eq.beq peer addr)) [
  | inl same ↦
      let eq : session ≡ found = ground (arith, rw same at e) in
      record {
        patient = omega (arith, ap (λ s. s.retransmit_timeout) eq);
        prompt = omega (arith, ap (λ s. s.retransmit_timeout) eq);
        open_ = omega (arith, ap (λ s. s.congestion_window_bytes) eq);
        held = omega (arith, ap (λ s. s.congestion_window_bytes) eq);
      }
  | inr other ↦ (let none_ = rw other at e in cc)
]

acks-AllSteady_example :
    AllSteady (handle_ack_packet (0xc0 ∷ 0 ∷ 1 ∷ 1 ∷ 4 ∷ 0 ∷ 0 ∷ 6 ∷ 0 ∷ 0 ∷ []) peer 1000 server)
    × AllSteady
        (handle_nack_packet (0xc0 ∷ 0 ∷ 1 ∷ 1 ∷ 4 ∷ 0 ∷ 0 ∷ 6 ∷ 0 ∷ 0 ∷ []) peer 1000 server).0
acks-AllSteady_example =
    acks-AllSteady (0xc0 ∷ 0 ∷ 1 ∷ 1 ∷ 4 ∷ 0 ∷ 0 ∷ 6 ∷ 0 ∷ 0 ∷ []) peer 1000 server server-AllSteady

-- The two messages that are asked for are sent again.
nack_resends :
    (handle_nack_packet (0xa0 ∷ 0 ∷ 1 ∷ 1 ∷ 4 ∷ 0 ∷ 0 ∷ 6 ∷ 0 ∷ 0 ∷ []) peer 1000 server).1
    ≡ (0x84 ∷ 4 ∷ []) ∷ (0x84 ∷ 5 ∷ []) ∷ []
unfolding handle_nack_packet nack_segments nack_session nack_range nack_message back_off lookup
    insert remove read_u8 read_u16 read_u24_le
nack_resends = refl

peer_known : lookup peer server.connections ≡ some session
unfolding lookup
peer_known = refl

handle_ack_packet_clears_example :
    (session' : ClientSession) × (lookup peer
        (handle_ack_packet (ack_packet 1 4 6) peer 1000 server).connections
      ≡ some session')
    × ((j : ℕ)
        → lookup j session'.pending_messages
          ≡ (if leb 4 j && leb j 6 then none else lookup j session.pending_messages))
handle_ack_packet_clears_example =
    handle_ack_packet_clears 1 4 6 1000 peer server session (omega arith) (omega arith) peer_known

-- After half a second everything that waited longer than the timeout is due.
resend_three :
    (resend_round (500 * millisecond) server).1
    ≡ (peer, 0x84 ∷ 4 ∷ []) ∷ (peer, 0x84 ∷ 5 ∷ []) ∷ (peer, 0x84 ∷ 9 ∷ []) ∷ []
unfolding resend_round resend_connections resend_keys nack_message back_off lookup insert remove
resend_three = refl

resend_round-AllSteady_example :
    AllSteady (resend_round (500 * millisecond) server).0
    × (is_active_connection (resend_round (500 * millisecond) server).0 peer
        ≡ is_active_connection server peer)
resend_round-AllSteady_example =
    resend_round-AllSteady (500 * millisecond) server peer server-AllSteady
