-- ===== src/Raknet/Server/Dispatch/Receive.antt =====
-- src/raknet/server/mod.rs: what is done with a datagram, `handle_packet` and `handle_game_packet`. One reading
-- of the clock, `now`, stands for those made while a datagram is handled.
use skin_get_be_rust.Prelude.{
  ℕ, true, not, ◌&&◌, List, [], ◌∷◌, ◌++◌, Option, none, some, length, ltb, leb, ◌==◌,
  if◌then◌else◌,
}
use skin_get_be_rust.Prelude.Bytes.{u16_bytes, u24_le_bytes}
use skin_get_be_rust.Prelude.Map.{insert}
use skin_get_be_rust.Error.{Result, ok, err, invalid_data}
use skin_get_be_rust.Raknet.Protocol.{RakNetFrame, FrameSet, parse_frame_set}
use skin_get_be_rust.Raknet.Server.Session.{
  ClientSession, RakNetServer, SocketAddr, addr_eq, ensure_session, is_active_connection,
  prune_split_buffers_for_peer, prune_session_queues,
}
use skin_get_be_rust.Raknet.Server.Ordered.{buffer_ordered_payload}
use skin_get_be_rust.Raknet.Server.Split.{Assembled, SplitBuffers, split_step}
use skin_get_be_rust.Raknet.Server.Ping.{handle_unconnected_ping}
use skin_get_be_rust.Raknet.Server.Acks.{handle_ack_packet, handle_nack_packet}
use skin_get_be_rust.Raknet.Server.Replies.{
  handle_open_connection_request_1, handle_open_connection_request_2, handle_connection_request,
}
use skin_get_be_rust.Raknet.Server.Bedrock.{World, Outer, with_session}
use skin_get_be_rust.Raknet.Server.Dispatch.{and_then, connect, ensured, dispatch_all}

-- The payloads that a frame makes ready, and the session and split buffers behind it.
abbrev pub deliver_assembled : Option Assembled → ℕ → ClientSession → ClientSession × List (List ℕ)
deliver_assembled none now session = (session, [])
deliver_assembled (some a) now session =
    buffer_ordered_payload a.payload a.order_index a.order_channel now session []

abbrev pub stored :
    SocketAddr
    → RakNetServer
    → SplitBuffers
    → ClientSession × List (List ℕ)
    → RakNetServer × List (List ℕ)
stored from server split_buffers (session, emitted) = (
  record server {
    connections = insert from session server.connections;
    split_buffers = split_buffers;
  },
  emitted,
)

unfoldable pub receive_frame :
    ℕ → SocketAddr → RakNetFrame → RakNetServer → RakNetServer × List (List ℕ)
receive_frame now from frame server =
    let (session, server') = ensure_session server from true 0 in
    if frame.is_split
    then (let (split_buffers, assembled) =
          split_step from frame.split_id frame now server'.split_buffers in
        stored from server' split_buffers (deliver_assembled assembled now session))
    else stored from server' server'.split_buffers
        (buffer_ordered_payload frame.payload frame.order_index frame.order_channel now session [])

abbrev pub ack : ℕ → List ℕ
ack seq = 0xc0 ∷ u16_bytes 1 ++ (1 ∷ u24_le_bytes seq ++ u24_le_bytes seq)

abbrev pub acknowledged : ℕ → World → World
acknowledged seq w = record w { datagrams = w.datagrams ++ (ack seq ∷ []) }

abbrev pub acknowledge_all : ℕ → Option World → Option World
acknowledge_all seq none = none
acknowledge_all seq (some w) = some (acknowledged seq w)

abbrev pub pruned : ℕ → SocketAddr → RakNetServer → RakNetServer
pruned now from server =
    with_session from (prune_session_queues now) (prune_split_buffers_for_peer from now server)

module _ (o : Outer) where
  unfoldable pub receive_frames : ℕ → SocketAddr → List RakNetFrame → World → Option World
  receive_frames now from [] w = some w
  receive_frames now from (frame ∷ frames) w =
      let (server, emitted) = receive_frame now from frame w.server in
      and_then (dispatch_all o emitted from (record w { server = server }))
        (receive_frames now from frames)

  abbrev pub receive_set : ℕ → SocketAddr → World → Result FrameSet → Option World
  receive_set now from w (err e) = some w
  receive_set now from w (ok frame_set) = acknowledge_all frame_set.seq (
      receive_frames now from frame_set.frames
        (record w { server = ensured from connect w.server }))

  unfoldable pub handle_game_packet : ℕ → List ℕ → SocketAddr → World → Option World
  handle_game_packet now packet from w =
      if not (is_active_connection w.server from)
      then some w
      else if ltb (length packet) 4
      then some (record w { server = pruned now from w.server })
      else receive_set now from (record w { server = pruned now from w.server })
          (parse_frame_set packet)

  -- What a handler returns, with the world behind it.
  abbrev pub Handled : Type 0
  Handled = Result (Unit {0}) × World

  -- `self.socket.send_to(&response, from).await?`
  abbrev pub replied : SocketAddr → World → RakNetServer × Result (List ℕ) → Handled
  replied from w (server, err e) = (err e, record w { server = server })
  replied from w (server, ok reply) =
      (o.send_to reply from, record w { server = server; datagrams = w.datagrams ++ (reply ∷ []) })

  abbrev pub handled : Option World → Option Handled
  handled none = none
  handled (some w) = some (ok tt, w)

  abbrev pub resent : World → RakNetServer × List (List ℕ) → World
  resent w (server, frames) = record w { server = server; datagrams = w.datagrams ++ frames }

  unfoldable pub handle_packet : ℕ → List ℕ → SocketAddr → World → Option Handled
  handle_packet now [] from w = some (err invalid_data, w)
  handle_packet now (id ∷ rest) from w =
      if id == 0x01
      then some (
          replied from w
            (w.server, handle_unconnected_ping o.to_utf8 o.seconds (id ∷ rest) from w.server))
      else if id == 0x05
      then some (replied from w (handle_open_connection_request_1 (id ∷ rest) from w.server))
      else if id == 0x07
      then some (replied from w (handle_open_connection_request_2 (id ∷ rest) from w.server))
      else if id == 0x09
      then some
          (replied from w (handle_connection_request (id ∷ rest) from o.milliseconds w.server))
      else if leb 0x80 id && leb id 0x8d
      then handled (handle_game_packet now (id ∷ rest) from w)
      else if id == 0xc0
      then some (ok tt, record w { server = handle_ack_packet (id ∷ rest) from now w.server })
      else if id == 0xa0
      then some (ok tt, resent w (handle_nack_packet (id ∷ rest) from now w.server))
      else some (ok tt, w)
