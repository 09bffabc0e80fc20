-- ===== src/Tests/Replies.antt =====
-- Runs of the replies while a connection is opened.
use skin_get_be_rust.Prelude.{
  ℕ, ◌≡◌, refl, arith, true, List, [], ◌∷◌, ◌++◌, length, take, drop, replicate, none, some, ◌<◌,
  ◌⊎◌, get_elem?, if◌then◌else◌,
}
use skin_get_be_rust.Prelude.Bytes.{u16_bytes, u64_bytes}
use skin_get_be_rust.Prelude.Map.{lookup, insert}
use skin_get_be_rust.Error.{ok, err, protocol_error}
use skin_get_be_rust.Raknet.Server.Session.{
  RakNetServer, SocketAddr, v4, addr_eq, new_session, ensure_session,
}
use skin_get_be_rust.Raknet.Server.Replies.{
  magic, note_protocol, handle_open_connection_request_1, handle_open_connection_request_2,
  handle_connection_request,
}
use skin_get_be_rust.Raknet.Server.Replies.WellFormed.{
  first_reply, opened, open_connection_request_1_sets, replies_are_well_formed,
}

abbrev peer : SocketAddr
peer = v4 (127 ∷ 0 ∷ 0 ∷ 1 ∷ []) 19135

abbrev server : RakNetServer
server = record {
  config = record {
    server_guid = 0x1234_5678_1234_5678;
    protocol_version = 924;
    mtu_size = 1492;
    server_port = 19132;
    version = [];
    external_addr = none;
    savemode = 2;
  };
  connections = [];
  split_buffers = [];
  runtime_protocol_version = 924;
  runtime_version = [];
}

abbrev first_request : List ℕ
first_request = (0x05 ∷ magic) ++ (11 ∷ replicate 10 0)

too_short : handle_open_connection_request_1 (0x05 ∷ []) peer server ≡ (server, err protocol_error)
unfolding handle_open_connection_request_1
too_short = refl

abbrev other_peer : SocketAddr
other_peer = v4 (127 ∷ 0 ∷ 0 ∷ 2 ∷ []) 19135

-- The peer is connected with another protocol, and so is a second one.
abbrev running : RakNetServer
running = record server {
  connections = (peer, new_session true 9 924 []) ∷ (other_peer, new_session true 10 924 []) ∷ [];
}

open_connection_request_1_sets_example :
    ((length first_request < 17)
      × (handle_open_connection_request_1 first_request peer running
          ≡ (running, err protocol_error)))
    ⊎ ((length first_request ≡ 17)
        × (handle_open_connection_request_1 first_request peer running
            ≡ (running, ok (first_reply running))))
    ⊎ ((17 < length first_request)
        × (protocol : ℕ) × (get_elem? first_request 17 ≡ some protocol)
        × (server' : RakNetServer) × (handle_open_connection_request_1 first_request peer running
            ≡ (server', ok (first_reply running)))
        × (record server' { connections = running.connections } ≡ running)
        × (lookup peer server'.connections ≡ (
            if addr_eq.beq peer peer
            then some (opened running protocol (lookup peer running.connections))
            else lookup peer running.connections)))
open_connection_request_1_sets_example =
    open_connection_request_1_sets first_request peer peer running

-- The connected session keeps all but its protocol.
known_peer :
    lookup peer (handle_open_connection_request_1 first_request peer running).0.connections
    ≡ some (new_session true 11 924 [])
unfolding handle_open_connection_request_1 note_protocol ensure_session lookup insert
known_peer = refl

abbrev second_request : List ℕ
second_request = (0x07 ∷ magic) ++ replicate 17 1

replies_are_well_formed_example :
    ((reply : List ℕ) × (handle_open_connection_request_2 second_request peer server
        ≡ (server, ok reply))
      × (length reply ≡ 35)
      × (take 17 reply ≡ 0x08 ∷ magic)
      × (take 8 (drop 17 reply) ≡ u64_bytes server.config.server_guid)
      × (take 7 (drop 25 reply) ≡ 0x04 ∷ 127 ∷ 0 ∷ 0 ∷ 1 ∷ u16_bytes 19135)
      × (drop 32 reply ≡ u16_bytes server.config.mtu_size ++ (0 ∷ [])))
    × ((reply : List ℕ) × ((handle_connection_request
            (0x09 ∷ (u64_bytes 77 ++ (u64_bytes 12345 ++ (0 ∷ []))))
            peer
            99
            server).1
          ≡ ok reply)
        × (length reply ≡ 94)
        × (take 8 (drop 78 reply) ≡ u64_bytes 12345)
        × (drop 86 reply ≡ u64_bytes 99))
replies_are_well_formed_example =
    replies_are_well_formed second_request (0 ∷ []) 127 0 0 1 19135 0x09 77 12345 99 server
      (omega arith) (omega arith)
