-- ===== src/Raknet/Server/Acks/Cleared.antt =====
-- What an ACK of one segment leaves pending.
use skin_get_be_rust.Prelude.{
  ℕ, zero, suc, ◌+◌, ◌^◌, ◌<◌, ◌≡◌, refl, ap, ◌∙◌, ◌&&◌, List, [], ◌∷◌, ◌++◌, Option, none, some,
  ltb, leb, ◌==◌, arith, if◌then◌else◌,
}
use skin_get_be_rust.Prelude.Bytes.{u24_le_bytes}
use skin_get_be_rust.Prelude.Map.{Map, nat_eq, lookup, insert, lookup-remove, lookup-insert_self}
use skin_get_be_rust.Buffer.{Buffer, advance}
use skin_get_be_rust.Buffer.Reads.{read_u8, read_u16}
use skin_get_be_rust.Buffer.RoundTrip.{read_u24_le-bytes}
use skin_get_be_rust.Raknet.Server.Session.{
  ClientSession, PendingMessage, RakNetServer, SocketAddr, addr_eq,
}
use skin_get_be_rust.Raknet.Server.Acks.{
  acknowledge, ack_message, ack_range, ack_segments, handle_ack_packet, count_from,
}

abbrev pub Pending : Type 0
Pending = Map ℕ PendingMessage

ack_message_lem :
    (now seq j : ℕ) (msg : Option PendingMessage) (session : ClientSession)
    → lookup seq session.pending_messages ≡ msg
    → lookup j (ack_message now seq msg session).pending_messages
      ≡ (if seq == j then none else lookup j session.pending_messages)
unfolding ack_message acknowledge
ack_message_lem now seq j none session e = ground (arith, e)
ack_message_lem now seq j (some msg) session e = lookup-remove seq j session.pending_messages

ack_range_lem :
    (n seq now j : ℕ) (session : ClientSession)
    → lookup j (ack_range n seq now session).pending_messages
      ≡ (if leb seq j && ltb j (seq + n) then none else lookup j session.pending_messages)
unfolding ack_range
ack_range_lem zero seq now j session = ground arith
ack_range_lem (suc n) seq now j session =
    let msg = lookup seq session.pending_messages in
    ground (
      arith,
      ack_range_lem n (seq + 1) now j (ack_message now seq msg session),
      ack_message_lem now seq j msg session refl,
    )

-- An ACK of the numbers from `start` to `end_`.
abbrev pub ack_packet : ℕ → ℕ → ℕ → List ℕ
ack_packet flag start end_ = 0xc0 ∷ 0 ∷ 1 ∷ flag ∷ (u24_le_bytes start ++ u24_le_bytes end_)

handle_ack_packet_lem :
    (flag start end_ now : ℕ) (from : SocketAddr) (server : RakNetServer) (session : ClientSession)
    → start < 2 ^ 24
    → end_ < 2 ^ 24
    → lookup from server.connections ≡ some session
    → handle_ack_packet (ack_packet flag start end_) from now server ≡ record server {
      connections =
          insert from (ack_range (count_from start end_) start now session) server.connections;
    }
unfolding handle_ack_packet ack_segments read_u8 read_u16
handle_ack_packet_lem flag start end_ now from server session hs he known =
    let b : Buffer = record { bytes = ack_packet flag start end_; position = 4 } in
    let first = read_u24_le-bytes start b (u24_le_bytes end_) hs refl in
    let second = read_u24_le-bytes end_ (advance 3 b) [] he refl in rw (first, second, known)

-- An ACK packet of one segment from a peer with a session takes exactly the messages numbered from
-- `start` to `end_` off the pending messages of that session, and keeps every other one.
pub handle_ack_packet_clears :
    (flag start end_ now : ℕ) (from : SocketAddr) (server : RakNetServer) (session : ClientSession)
    → start < 2 ^ 24
    → end_ < 2 ^ 24
    → lookup from server.connections ≡ some session
    → (session' : ClientSession) × (lookup from
          (handle_ack_packet (ack_packet flag start end_) from now server).connections
        ≡ some session')
      × ((j : ℕ)
          → lookup j session'.pending_messages
            ≡ (if leb start j && leb j end_ then none else lookup j session.pending_messages))
handle_ack_packet_clears flag start end_ now from server session hs he known =
    let session' = ack_range (count_from start end_) start now session in
    (
      session',
      ap (λ s. lookup from s.connections)
            (handle_ack_packet_lem flag start end_ now from server session hs he known)
          ∙ lookup-insert_self from session' server.connections,
      λ j. ground (arith, ack_range_lem (count_from start end_) start now j session),
    )
