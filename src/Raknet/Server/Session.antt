-- ===== src/Raknet/Server/Session.antt =====
-- src/raknet/server/session.rs: the state of one peer and of the server's two tables.
use skin_get_be_rust.Prelude.{
  ℕ, ◌-◌, ◌*◌, ◌≡◌, ◌↔◌, Bool, true, false, not, ◌&&◌, List, [], ◌∷◌, Option, none, some, leb, ◌==◌,
  if◌then◌else◌, arith,
}
use skin_get_be_rust.Prelude.Map.{Map, Eq, nat_eq, pair_eq, lookup, insert, remove, retain}

-- `MAX_SPLIT_PARTS` and `SESSION_QUEUE_TTL_SECS`
abbrev pub max_split_parts : ℕ
max_split_parts = 512

abbrev pub second : ℕ
second = 1_000_000_000

abbrev pub millisecond : ℕ
millisecond = 1_000_000

abbrev pub session_queue_ttl : ℕ
session_queue_ttl = 30 * second

pub record SplitBuffer : Type 0 where
  pub count : ℕ
  pub received_count : ℕ
  pub created_at : ℕ
  pub fragments : List (List ℕ)
  pub received : List Bool
  pub reliability : ℕ
  pub order_index : Option ℕ
  pub order_channel : Option ℕ

pub record OrderedChannel : Type 0 where
  pub next_index : ℕ
  pub buffer : Map ℕ (List ℕ × ℕ)

pub record PendingMessage : Type 0 where
  pub frame : List ℕ
  pub size_bytes : ℕ
  pub last_sent : ℕ
  pub attempts : ℕ

-- Text is kept as the list of its characters' code points.
abbrev pub Chars : Type 0
Chars = List ℕ

pub record ClientSession : Type 0 where
  pub connected : Bool
  pub packet_seq : ℕ
  pub reliable_seq : ℕ
  pub order_index : ℕ
  pub raknet_protocol : ℕ
  pub bedrock_protocol : ℕ
  pub bedrock_version : Chars
  pub smoothed_rtt : Option ℕ
  pub retransmit_timeout : ℕ
  pub congestion_window_bytes : ℕ
  pub slow_start_threshold_bytes : ℕ
  pub in_flight_bytes : ℕ
  pub compression_enabled : Bool
  pub compression_algo : Option ℕ
  pub username : Option Chars
  pub skin_path : Option Chars
  pub ordered_channels : Map ℕ OrderedChannel
  pub pending_messages : Map ℕ PendingMessage

-- `ClientSession::new`
abbrev pub new_session : Bool → ℕ → ℕ → Chars → ClientSession
new_session connected raknet_protocol bedrock_protocol bedrock_version = record {
  connected = connected;
  packet_seq = 1;
  reliable_seq = 0;
  order_index = 0;
  raknet_protocol = raknet_protocol;
  bedrock_protocol = bedrock_protocol;
  bedrock_version = bedrock_version;
  smoothed_rtt = none;
  retransmit_timeout = 300 * millisecond;
  congestion_window_bytes = 16 * 1024;
  slow_start_threshold_bytes = 64 * 1024;
  in_flight_bytes = 0;
  compression_enabled = false;
  compression_algo = none;
  username = none;
  skin_path = none;
  ordered_channels = [];
  pending_messages = [];
}

-- `std::net::SocketAddr`: the bytes of the address and the port.
pub data SocketAddr : Type 0 where
  v4 v6 : List ℕ → ℕ → SocketAddr

abbrev bytes_beq : List ℕ → List ℕ → Bool
bytes_beq [] [] = true
bytes_beq (x ∷ xs) (y ∷ ys) = x == y && bytes_beq xs ys
bytes_beq _ _ = false

pub bytes_beq_iff : (xs ys : List ℕ) → (bytes_beq xs ys ≡ true) ↔ (xs ≡ ys)
bytes_beq_iff [] [] = ground arith
bytes_beq_iff [] (y ∷ ys) = ground arith
bytes_beq_iff (x ∷ xs) [] = ground arith
bytes_beq_iff (x ∷ xs) (y ∷ ys) = ground (arith, bytes_beq_iff xs ys)

abbrev addr_beq : SocketAddr → SocketAddr → Bool
addr_beq (v4 ip port) (v4 ip' port') = bytes_beq ip ip' && port == port'
addr_beq (v6 ip port) (v6 ip' port') = bytes_beq ip ip' && port == port'
addr_beq _ _ = false

pub addr_beq_iff : (a b : SocketAddr) → (addr_beq a b ≡ true) ↔ (a ≡ b)
addr_beq_iff (v4 ip port) (v4 ip' port') = ground (arith, bytes_beq_iff ip ip')
addr_beq_iff (v4 ip port) (v6 ip' port') = ground arith
addr_beq_iff (v6 ip port) (v4 ip' port') = ground arith
addr_beq_iff (v6 ip port) (v6 ip' port') = ground (arith, bytes_beq_iff ip ip')

-- The tables are keyed by the address as text, which tells addresses apart.
instance abbrev pub addr_eq : Eq SocketAddr
addr_eq = record { beq = addr_beq; beq_iff = addr_beq_iff }

-- `RakNetConfig`
pub record RakNetConfig : Type 0 where
  pub server_guid : ℕ
  pub protocol_version : ℕ
  pub mtu_size : ℕ
  pub server_port : ℕ
  pub version : Chars
  pub external_addr : Option Chars
  pub savemode : ℕ

pub record RakNetServer : Type 0 where
  pub config : RakNetConfig
  pub connections : Map SocketAddr ClientSession
  pub split_buffers : Map (SocketAddr × ℕ) SplitBuffer
  pub runtime_protocol_version : ℕ
  pub runtime_version : Chars

abbrev pub create_session : RakNetServer → Bool → ℕ → ClientSession
create_session s connected raknet_protocol =
    new_session connected raknet_protocol s.runtime_protocol_version s.runtime_version

abbrev or_new : Option ClientSession → ClientSession → ClientSession
or_new none fresh = fresh
or_new (some session) fresh = session

-- The session of `addr`, and the table with a fresh one if there was none.
unfoldable pub ensure_session : RakNetServer → SocketAddr → Bool → ℕ → ClientSession × RakNetServer
ensure_session s addr connected raknet_protocol =
    let session = or_new (lookup addr s.connections) (create_session s connected raknet_protocol) in
    (session, record s { connections = insert addr session s.connections })

abbrev pub has_key : {V : Type 0} → Option V → Bool
has_key none = false
has_key (some v) = true

unfoldable pub is_active_connection : RakNetServer → SocketAddr → Bool
is_active_connection s addr = has_key (lookup addr s.connections)

-- `now.duration_since(then) <= ttl`
abbrev pub is_fresh : ℕ → ℕ → Bool
is_fresh now then_ = leb (now - then_) session_queue_ttl

unfoldable pub prune_split_buffers_for_peer : SocketAddr → ℕ → RakNetServer → RakNetServer
prune_split_buffers_for_peer addr now s = record s {
  split_buffers =
      retain
        (λ key split. if not (addr_beq key.0 addr) then true else is_fresh now split.created_at)
        s.split_buffers;
}

abbrev is_empty : {V : Type 0} → Map ℕ V → Bool
is_empty [] = true
is_empty (x ∷ m) = false

abbrev prune_channel : ℕ → OrderedChannel → OrderedChannel
prune_channel now channel = record channel {
  buffer = retain (λ idx entry. is_fresh now entry.1) channel.buffer;
}

-- `retain` with a mutable visit: the entries of each channel are filtered, and a channel whose
-- buffer is then empty is dropped with its `next_index`.
unfoldable pub prune_channels : ℕ → Map ℕ OrderedChannel → Map ℕ OrderedChannel
prune_channels now [] = []
prune_channels now ((ch, channel) ∷ m) =
    let rest = prune_channels now m in
    let pruned = prune_channel now channel in
    if is_empty pruned.buffer then rest else (ch, pruned) ∷ rest

unfoldable pub prune_session_queues : ℕ → ClientSession → ClientSession
prune_session_queues now session = record session {
  ordered_channels = prune_channels now session.ordered_channels;
  pending_messages =
      retain (λ seq pending. is_fresh now pending.last_sent) session.pending_messages;
}

unfoldable pub drop_connection_state : SocketAddr → RakNetServer → RakNetServer
drop_connection_state addr s = record s {
  connections = remove addr s.connections;
  split_buffers = retain (λ key split. not (addr_beq key.0 addr)) s.split_buffers;
}
