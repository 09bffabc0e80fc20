-- ===== src/Raknet/Server/Replies/WellFormed.antt =====
-- The fields of the replies, and the session that a handshake leaves.
use skin_get_be_rust.Prelude.{
  ℕ, zero, suc, ◌^◌, ◌<◌, ◌≤◌, ◌≡◌, ◌⊎◌, inl, inr, refl, ap, true, false, List, [], ◌∷◌, ◌++◌,
  Option, none, some, length, ltb, leb, if◌then◌else◌, Bool-cases, arith, get_elem?, take, drop,
}
use native.Mathlib.Decide.{dec_lt}
use skin_get_be_rust.Prelude.Bytes.{u16_bytes, u64_bytes}
use skin_get_be_rust.Prelude.Map.{lookup, lookup-insert}
use skin_get_be_rust.Error.{ok, err, protocol_error}
use skin_get_be_rust.Raknet.Protocol.{from_be_bytes}
use skin_get_be_rust.Raknet.Server.Session.{
  RakNetServer, ClientSession, SocketAddr, v4, addr_eq, new_session, ensure_session,
}
use skin_get_be_rust.Raknet.Server.Replies.{
  magic, note_protocol, handle_open_connection_request_1, handle_open_connection_request_2,
  handle_connection_request, request_timestamp,
}

-- The session of a peer that opens a connection with `protocol`: the one that it has, or a new one,
-- which has not been connected yet.
abbrev pub opened : RakNetServer → ℕ → Option ClientSession → ClientSession
opened server protocol (some session) = record session { raknet_protocol = protocol }
opened server protocol none =
    new_session false protocol server.runtime_protocol_version server.runtime_version

-- The table behind the handler, at any address.
note_protocol-lookup :
    (server : RakNetServer) (from to : SocketAddr) (protocol : ℕ) (o : Option ClientSession)
    → lookup from server.connections ≡ o
    → lookup to (note_protocol server from (some protocol)).connections ≡ (
        if addr_eq.beq from to
        then some (opened server protocol o)
        else lookup to server.connections)
unfolding note_protocol ensure_session
note_protocol-lookup server from to protocol o e = go o e (Bool-cases (addr_eq.beq from to))
  where
    After : Option ClientSession → Type 0
    After o = lookup to (note_protocol server from (some protocol)).connections ≡ (
        if addr_eq.beq from to
        then some (opened server protocol o)
        else lookup to server.connections)

    go :
        (o : Option ClientSession)
        → lookup from server.connections ≡ o
        → (addr_eq.beq from to ≡ true) ⊎ (addr_eq.beq from to ≡ false)
        → After o
    go none e (inl same) = rw (e, lookup-insert, same) refl
    go none e (inr other) = rw (e, lookup-insert, other, lookup-insert, other) refl
    go (some session) e (inl same) = rw (e, lookup-insert, same) refl
    go (some session) e (inr other) = rw (e, lookup-insert, other, lookup-insert, other) refl

get_elem?-some : (xs : List ℕ) (i : ℕ) → i < length xs → (x : ℕ) × (get_elem? xs i ≡ some x)
get_elem?-some [] i h = absurd (omega arith)
get_elem?-some (x ∷ xs) zero h = (x, refl)
get_elem?-some (x ∷ xs) (suc i) h = get_elem?-some xs i (omega arith)

get_elem?-none : (xs : List ℕ) (i : ℕ) → length xs ≤ i → get_elem? xs i ≡ none
get_elem?-none [] i h = refl
get_elem?-none (x ∷ xs) zero h = absurd (omega arith)
get_elem?-none (x ∷ xs) (suc i) h = get_elem?-none xs i (omega arith)

-- The reply to an OPEN_CONNECTION_REQUEST_1: its id, the magic, the server's id, no security and the
-- configured size.
abbrev pub first_reply : RakNetServer → List ℕ
first_reply server =
    (0x06 ∷ magic)
    ++ (u64_bytes server.config.server_guid ++ (0 ∷ u16_bytes server.config.mtu_size))

-- An OPEN_CONNECTION_REQUEST_1 below 17 bytes is refused, and nothing changes. One of 17 bytes is
-- answered, and nothing changes. A longer one is answered and only the table of sessions changes: a
-- session that the peer has stays as it was but for its protocol, which is the byte at 17; without
-- one the peer gets a new session with that protocol, which is not connected; and the sessions of
-- all other peers stay.
pub open_connection_request_1_sets :
    (packet : List ℕ) (from to : SocketAddr) (server : RakNetServer)
    → ((length packet < 17)
        × (handle_open_connection_request_1 packet from server ≡ (server, err protocol_error)))
      ⊎ ((length packet ≡ 17)
          × (handle_open_connection_request_1 packet from server
              ≡ (server, ok (first_reply server))))
      ⊎ ((17 < length packet)
          × (protocol : ℕ) × (get_elem? packet 17 ≡ some protocol)
          × (server' : RakNetServer) × (handle_open_connection_request_1 packet from server
              ≡ (server', ok (first_reply server)))
          × (record server' { connections = server.connections } ≡ server)
          × (lookup to server'.connections ≡ (
              if addr_eq.beq from to
              then some (opened server protocol (lookup from server.connections))
              else lookup to server.connections)))
unfolding handle_open_connection_request_1 note_protocol ensure_session
open_connection_request_1_sets packet from to server = elim (dec_lt (length packet) 17) [
  | yes short ↦ inl (short, ground arith)
  | no long ↦ elim (dec_lt 17 (length packet)) [
    | no exact ↦
        let size : ltb (length packet) 17 ≡ false = ground arith in
        let missing = get_elem?-none packet 17 (omega arith) in
        inr (inl (omega arith, rw (size, missing) refl))
    | yes more ↦
        let size : ltb (length packet) 17 ≡ false = ground arith in
        let (protocol, there) = get_elem?-some packet 17 more in
        inr (
          inr (
            more,
            protocol,
            there,
            note_protocol server from (some protocol),
            rw (size, there) refl,
            refl,
            note_protocol-lookup server from to protocol (lookup from server.connections) refl,
          ))
  ]
]

from_be_bytes-u64_bytes : (v : ℕ) → v < 2 ^ 64 → from_be_bytes (u64_bytes v) 0 ≡ v
from_be_bytes-u64_bytes v h = omega arith

-- The reply to an OPEN_CONNECTION_REQUEST_2 of at least 19 bytes from an IPv4 peer has 35 bytes: the
-- id, the magic at 1, the server's id at 17, the peer's address as seen at 25, the configured size
-- at 32 and the security flag at 34. A CONNECTION_REQUEST with its time is answered with 94 bytes,
-- which give that time back at 78 and the accepted time at 86.
pub replies_are_well_formed :
    (packet rest : List ℕ) (a b c d port id guid time accepted : ℕ) (server : RakNetServer)
    → 19 ≤ length packet
    → time < 2 ^ 64
    → ((reply : List ℕ) × (handle_open_connection_request_2 packet
            (v4 (a ∷ b ∷ c ∷ d ∷ []) port)
            server
          ≡ (server, ok reply))
        × (length reply ≡ 35)
        × (take 17 reply ≡ 0x08 ∷ magic)
        × (take 8 (drop 17 reply) ≡ u64_bytes server.config.server_guid)
        × (take 7 (drop 25 reply) ≡ 0x04 ∷ a ∷ b ∷ c ∷ d ∷ u16_bytes port)
        × (drop 32 reply ≡ u16_bytes server.config.mtu_size ++ (0 ∷ [])))
      × ((reply : List ℕ) × ((handle_connection_request
              (id ∷ (u64_bytes guid ++ (u64_bytes time ++ rest)))
              (v4 (a ∷ b ∷ c ∷ d ∷ []) port)
              accepted
              server).1
            ≡ ok reply)
          × (length reply ≡ 94)
          × (take 8 (drop 78 reply) ≡ u64_bytes time)
          × (drop 86 reply ≡ u64_bytes accepted))
unfolding handle_open_connection_request_2 handle_connection_request
replies_are_well_formed packet rest a b c d port id guid time accepted server h small =
    let long : ltb (length packet) 19 ≡ false = ground arith in
    let request = id ∷ (u64_bytes guid ++ (u64_bytes time ++ rest)) in
    let enough : leb 17 (length request) ≡ true = ground arith in
    let same : request_timestamp request ≡ time = rw enough (from_be_bytes-u64_bytes time small) in
    let reply =
      (0x08 ∷ magic)
      ++ (u64_bytes server.config.server_guid
          ++ ((0x04 ∷ a ∷ b ∷ c ∷ d ∷ u16_bytes port)
              ++ (u16_bytes server.config.mtu_size ++ (0 ∷ [])))) in
    ((reply, rw long refl, refl, refl, refl, refl, refl), (_, refl, refl, ap u64_bytes same, refl))
