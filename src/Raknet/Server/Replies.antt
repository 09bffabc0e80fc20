-- ===== src/Raknet/Server/Replies.antt =====
-- The replies of src/raknet/server/handshake.rs while a connection is opened. A handler returns the
-- server and either the datagram that it hands to the socket or the error with which it stops
-- before. The clock is an argument.
pub mod WellFormed
use skin_get_be_rust.Prelude.{
  ℕ, zero, suc, ◌+◌, ◌-◌, Bool, true, false, List, [], ◌∷◌, ◌++◌, Option, none, some, length, ltb,
  leb, get_elem?, take, drop, map, if◌then◌else◌,
}
use skin_get_be_rust.Prelude.Bytes.{u16_bytes, u64_bytes}
use skin_get_be_rust.Prelude.Map.{insert}
use skin_get_be_rust.Error.{Result, ok, err, protocol_error}
use skin_get_be_rust.Raknet.Protocol.{from_be_bytes}
use skin_get_be_rust.Raknet.Server.Session.{
  RakNetServer, SocketAddr, v4, v6, addr_eq, ensure_session,
}

-- `MAGIC` of src/raknet/constants.rs
abbrev pub magic : List ℕ
magic =
    0x00 ∷ 0xff ∷ 0xff ∷ 0x00 ∷ 0xfe ∷ 0xfe ∷ 0xfe ∷ 0xfe ∷ 0xfd ∷ 0xfd ∷ 0xfd ∷ 0xfd ∷ 0x12 ∷ 0x34
    ∷ 0x56 ∷ 0x78 ∷ []

abbrev pub extract_open_connection_protocol : List ℕ → Option ℕ
extract_open_connection_protocol packet = get_elem? packet (1 + length magic)

-- The protocol is noted in the session of the peer, a new one if need be.
unfoldable pub note_protocol : RakNetServer → SocketAddr → Option ℕ → RakNetServer
note_protocol server from none = server
note_protocol server from (some protocol) =
    let (session, server') = ensure_session server from false protocol in
    record server' {
      connections = insert from (record session { raknet_protocol = protocol }) server'.connections;
    }

unfoldable pub handle_open_connection_request_1 :
    List ℕ → SocketAddr → RakNetServer → RakNetServer × Result (List ℕ)
handle_open_connection_request_1 packet from server =
    if ltb (length packet) 17 then (server, err protocol_error) else (
      note_protocol server from (extract_open_connection_protocol packet),
      ok (
          (0x06 ∷ magic)
          ++ (u64_bytes server.config.server_guid ++ (0 ∷ u16_bytes server.config.mtu_size))),
    )

-- The client's address: its version, its octets and its port.
abbrev pub address_field : SocketAddr → List ℕ
address_field (v4 ip port) = (0x04 ∷ ip) ++ u16_bytes port
address_field (v6 ip port) = (0x06 ∷ ip) ++ u16_bytes port

unfoldable pub handle_open_connection_request_2 :
    List ℕ → SocketAddr → RakNetServer → RakNetServer × Result (List ℕ)
handle_open_connection_request_2 packet from server =
    if ltb (length packet) 19 then (server, err protocol_error) else (
      server,
      ok (
          (0x08 ∷ magic)
          ++ (u64_bytes server.config.server_guid
              ++ (address_field from ++ (u16_bytes server.config.mtu_size ++ (0 ∷ []))))),
    )

-- `!b` on a byte
abbrev pub inverted : ℕ → ℕ
inverted b = 255 - b

abbrev pub client_ip_bytes : SocketAddr → List ℕ
client_ip_bytes (v4 ip port) = map inverted ip
client_ip_bytes (v6 ip port) = inverted 127 ∷ inverted 0 ∷ inverted 0 ∷ inverted 1 ∷ []

abbrev pub port_of : SocketAddr → ℕ
port_of (v4 ip port) = port
port_of (v6 ip port) = port

-- The time in the request, at bytes 9 to 16, if it is long enough.
abbrev pub request_timestamp : List ℕ → ℕ
request_timestamp packet =
    if leb 17 (length packet) then from_be_bytes (take 8 (drop 9 packet)) 0 else 0

-- `for _ in 0..10`, with `n` rounds left.
abbrev pub fallback_addresses : ℕ → List ℕ
fallback_addresses zero = []
fallback_addresses (suc n) =
    let rest = fallback_addresses n in
    0x04 ∷ inverted 0 ∷ inverted 0 ∷ inverted 0 ∷ inverted 0 ∷ 0 ∷ 0 ∷ rest

unfoldable pub handle_connection_request :
    List ℕ → SocketAddr → ℕ → RakNetServer → RakNetServer × Result (List ℕ)
handle_connection_request packet from accepted_timestamp server = (
  (ensure_session server from true 0).1,
  ok (
      (0x10 ∷ 0x04 ∷ client_ip_bytes from)
      ++ (u16_bytes (port_of from)
          ++ (fallback_addresses 10
              ++ (u64_bytes (request_timestamp packet) ++ u64_bytes accepted_timestamp)))),
)
