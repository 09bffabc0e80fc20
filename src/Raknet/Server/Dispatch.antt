-- ===== src/Raknet/Server/Dispatch.antt =====
-- src/raknet/server/mod.rs: `dispatch_raknet_packet`, what is done with a packet out of the frames.
pub mod Receive
pub mod Batches
pub mod Single
use skin_get_be_rust.Prelude.{
  ℕ, zero, suc, ◌+◌, ◌^◌, Bool, true, false, not, ◌&&◌, ◌||◌, List, [], ◌∷◌, ◌++◌, map, Option,
  none, some, length, take, drop, ltb, leb, ◌==◌, if◌then◌else◌,
}
use skin_get_be_rust.Prelude.Bytes.{u16_bytes, u24_le_bytes, u64_bytes, u64_le_bytes}
use skin_get_be_rust.Prelude.Map.{lookup, insert}
use skin_get_be_rust.Error.{Result, ok, err, invalid_data, unwrap_or}
use skin_get_be_rust.Buffer.{Buffer, of_bytes}
use skin_get_be_rust.Buffer.Reads.{read_u64}
use skin_get_be_rust.Bedrock.Batch.{Packets, parse_batch, decompress_batch}
use skin_get_be_rust.Raknet.Protocol.{RakNetFrame, FrameSet, parse_frame_set}
use skin_get_be_rust.Raknet.Server.Session.{
  ClientSession, RakNetServer, SocketAddr, addr_eq, ensure_session, is_active_connection,
  prune_split_buffers_for_peer, prune_session_queues, drop_connection_state,
}
use skin_get_be_rust.Raknet.Server.Ordered.{buffer_ordered_payload}
use skin_get_be_rust.Raknet.Server.Split.{Assembled, SplitBuffers, split_step}
use skin_get_be_rust.Raknet.Server.Ping.{handle_unconnected_ping}
use skin_get_be_rust.Raknet.Server.Acks.{handle_ack_packet, handle_nack_packet}
use skin_get_be_rust.Raknet.Server.Replies.{
  handle_open_connection_request_1, handle_open_connection_request_2, handle_connection_request,
  inverted, client_ip_bytes, port_of, request_timestamp,
}
use skin_get_be_rust.Raknet.Server.Bedrock.{World, Outer, with_session, compression_of, send_as}
use skin_get_be_rust.Raknet.Server.Bedrock.Handle.{process_single_bedrock_packet}

abbrev pub and_then : Option World → (World → Option World) → Option World
and_then none k = none
and_then (some w) k = k w

abbrev pub connect : ClientSession → ClientSession
connect session = record session { connected = true }

-- `ensure_session`, and what is done with the session in the table.
unfoldable pub ensured : SocketAddr → (ClientSession → ClientSession) → RakNetServer → RakNetServer
ensured from f server =
    let (session, server') = ensure_session server from true 0 in
    record server' { connections = insert from (f session) server'.connections }

-- `write_raknet_ipv4`
abbrev pub raknet_ipv4 : SocketAddr → List ℕ
raknet_ipv4 addr = 0x04 ∷ client_ip_bytes addr ++ u16_bytes (port_of addr)

-- `for _ in 0..10`, with `n` rounds left: 127.0.0.1 without a port.
abbrev pub loopbacks : ℕ → List ℕ
loopbacks zero = []
loopbacks (suc n) =
    let rest = loopbacks n in
    0x04 ∷ inverted 127 ∷ inverted 0 ∷ inverted 0 ∷ inverted 1 ∷ 0 ∷ 0 ∷ rest

unfoldable pub connection_accepted : List ℕ → SocketAddr → ℕ → List ℕ
connection_accepted packet from accepted_time =
    (0x10 ∷ raknet_ipv4 from)
    ++ (u16_bytes 0
        ++ (loopbacks 10
            ++ (u64_le_bytes (request_timestamp packet) ++ u64_le_bytes accepted_time)))

-- The least sizes of the first packet for which a shifted batch is believed.
abbrev pub is_plausible : Packets → Bool
is_plausible [] = false
is_plausible ([] ∷ packets) = false
is_plausible ((x ∷ first) ∷ packets) =
    if x == 1
    then leb 16 (length (x ∷ first))
    else if x == 0xc1
    then leb 5 (length (x ∷ first))
    else true

abbrev pub believed : Packets → Option Packets
believed packets = if is_plausible packets then some packets else none

abbrev pub shifted_packets : Result Packets → Option Packets
shifted_packets (ok []) = none
shifted_packets (ok (p ∷ packets)) = believed (p ∷ packets)
shifted_packets (err e) = none

abbrev pub or_shift : Option Packets → Packets → Packets
or_shift none later = later
or_shift (some packets) later = packets

-- `for shift in 1..=3`, with `n` rounds left.
unfoldable pub try_shifts : (n : ℕ) → (shift : ℕ) → List ℕ → Packets
try_shifts zero shift batch = []
try_shifts (suc n) shift batch =
    let later = try_shifts n (shift + 1) batch in
    if leb (length batch) shift
    then []
    else or_shift (shifted_packets (parse_batch (drop shift batch))) later

abbrev pub packets_or_shifted : List ℕ → Result Packets → Packets
packets_or_shifted batch (ok []) = try_shifts 3 1 batch
packets_or_shifted batch (ok (p ∷ packets)) = p ∷ packets
packets_or_shifted batch (err e) = try_shifts 3 1 batch

module _ (o : Outer) where
  unfoldable pub process_all : Packets → SocketAddr → World → Option World
  process_all [] from w = some w
  process_all (p ∷ packets) from w =
      and_then (process_single_bedrock_packet o p from w) (process_all packets from)

  abbrev pub accept : List ℕ → SocketAddr → ℕ → World → World
  accept packet from accepted_time w =
      send_as o 3 (connection_accepted packet from accepted_time) from
        (record w { server = ensured from connect w.server })

  -- The eight bytes behind the id come back with the server's own number.
  abbrev pub pong : List ℕ → SocketAddr → World → World
  pong packet from w =
      send_as o 0
        (0x03 ∷ u64_bytes (unwrap_or (read_u64 (record { bytes = packet; position = 1 })).0 0)
          ++ u64_bytes w.server.config.server_guid)
        from w

  abbrev pub process_parsed : Result Packets → SocketAddr → World → Option World
  process_parsed (ok packets) from w = process_all packets from w
  process_parsed (err e) from w = some w

  abbrev pub process_body : Result (List ℕ) → SocketAddr → World → Option World
  process_body (ok batch) from w = process_parsed (parse_batch batch) from w
  process_body (err e) from w = some w

  abbrev pub process_batch : Result (List ℕ) → SocketAddr → World → Option World
  process_batch (ok batch) from w =
      process_all (packets_or_shifted batch (parse_batch batch)) from w
  process_batch (err e) from w = some w

  -- A packet of one byte is too short.
  abbrev pub batch_packet : List ℕ → SocketAddr → World → Option World
  batch_packet [] from w = some w
  batch_packet (x ∷ payload) from w =
      process_batch
        (decompress_batch o.codec (x ∷ payload) (compression_of (lookup from w.server.connections)))
        from w

  unfoldable pub dispatch_raknet_packet : List ℕ → SocketAddr → World → Option World
  dispatch_raknet_packet [] from w = some w
  dispatch_raknet_packet (id ∷ payload) from w =
      if id == 0x09
      then some (accept (id ∷ payload) from o.milliseconds w)
      else if id == 0x13
      then some (record w { server = with_session from connect w.server })
      else if id == 0x15
      then some (record w { server = drop_connection_state from w.server })
      else if id == 0x00
      then (if length (id ∷ payload) == 9
          then some (pong (id ∷ payload) from w)
          else if compression_of (lookup from w.server.connections)
          then process_body (decompress_batch o.codec (id ∷ payload) true) from w
          else some w)
      else if id == 0xfe
      then batch_packet payload from w
      else some w

  unfoldable pub dispatch_all : List (List ℕ) → SocketAddr → World → Option World
  dispatch_all [] from w = some w
  dispatch_all (p ∷ payloads) from w =
      and_then (dispatch_raknet_packet p from w) (dispatch_all payloads from)
