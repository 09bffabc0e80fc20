-- ===== src/Raknet/Server/Acks.antt =====
-- `handle_ack_packet` and `handle_nack_packet` of src/raknet/server/handshake.rs. A handler reads the
-- clock once. A `Duration` divided by 8 keeps whole nanoseconds; the saturation of its doubling lies
-- above the two seconds that it is then cut to.
pub mod Steady
pub mod Cleared
use skin_get_be_rust.Prelude.{
  ℕ, zero, suc, ◌+◌, ◌-◌, ◌*◌, ◌/◌, ◌^◌, min, max, Bool, true, false, List, [], ◌∷◌, ◌++◌, Option,
  none, some, length, ltb, leb, if◌then◌else◌,
}
use skin_get_be_rust.Prelude.Map.{Map, nat_eq, lookup, insert, remove}
use skin_get_be_rust.Error.{Result, ok, err, unwrap_or}
use skin_get_be_rust.Buffer.{Buffer, of_bytes}
use skin_get_be_rust.Buffer.Reads.{read_u8, read_u16, read_u24_le}
use skin_get_be_rust.Raknet.Server.Session.{
  ClientSession, PendingMessage, RakNetServer, SocketAddr, addr_eq, second, millisecond,
}
use skin_get_be_rust.Raknet.Server.Frames.{saturating_add}

abbrev pub longest_timeout : ℕ
longest_timeout = 2 * second

abbrev pub smooth : Option ℕ → ℕ → ℕ
smooth none rtt = rtt
smooth (some prev) rtt = if leb prev rtt then prev + (rtt - prev) / 8 else prev - (prev - rtt) / 8

abbrev pub grow : ClientSession → ℕ → ℕ
grow session size =
    if ltb session.congestion_window_bytes session.slow_start_threshold_bytes
    then saturating_add session.congestion_window_bytes (max size 1)
    else saturating_add session.congestion_window_bytes (max (max size 1 / 2) 1)

-- What the acknowledgement of a pending message changes.
unfoldable pub acknowledge : ℕ → ℕ → PendingMessage → ClientSession → ClientSession
acknowledge now seq msg session =
    let smoothed = smooth session.smoothed_rtt (now - msg.last_sent) in
    record session {
      pending_messages = remove seq session.pending_messages;
      in_flight_bytes = session.in_flight_bytes - msg.size_bytes;
      smoothed_rtt = some smoothed;
      retransmit_timeout = min (max (smoothed * 2) (150 * millisecond)) longest_timeout;
      congestion_window_bytes = grow session msg.size_bytes;
    }

unfoldable pub ack_message : ℕ → ℕ → Option PendingMessage → ClientSession → ClientSession
ack_message now seq none session = session
ack_message now seq (some msg) session = acknowledge now seq msg session

-- `for seq in start..=end`, with `n` numbers left.
unfoldable pub ack_range : ℕ → ℕ → ℕ → ClientSession → ClientSession
ack_range zero seq now session = session
ack_range (suc n) seq now session =
    ack_range n (seq + 1) now (ack_message now seq (lookup seq session.pending_messages) session)

abbrev pub count_from : ℕ → ℕ → ℕ
count_from start end_ = end_ + 1 - start

abbrev pub with_session :
    RakNetServer
    → SocketAddr
    → Option ClientSession
    → (ClientSession → ClientSession)
    → RakNetServer
with_session server from none f = server
with_session server from (some session) f = record server {
  connections = insert from (f session) server.connections;
}

-- One segment: its two triads, or 0 for one that is not there.
abbrev pub read_segment : Buffer → ℕ × ℕ × Buffer
read_segment b =
    let (start, b₁) = read_u24_le b in
    let (end_, b₂) = read_u24_le b₁ in (unwrap_or start 0, unwrap_or end_ 0, b₂)

unfoldable pub ack_segments : ℕ → Buffer → ℕ → SocketAddr → RakNetServer → RakNetServer
ack_segments zero b now from server = server
ack_segments (suc n) b now from server =
    let (start, end_, b') = read_segment b in
    ack_segments n b' now from (
      with_session server from (lookup from server.connections)
        (ack_range (count_from start end_) start now))

-- The packet id, the number of segments and the flag.
abbrev pub read_head : List ℕ → ℕ × Buffer
read_head bytes =
    let (id, b₁) = read_u8 (of_bytes bytes) in
    let (count, b₂) = read_u16 b₁ in let (flag, b₃) = read_u8 b₂ in (unwrap_or count 0, b₃)

unfoldable pub handle_ack_packet : List ℕ → SocketAddr → ℕ → RakNetServer → RakNetServer
handle_ack_packet bytes from now server =
    let (seg_count, b) = read_head bytes in ack_segments seg_count b now from server

-- `attempts.saturating_add(1)` on a `u32`
abbrev pub one_more : PendingMessage → ℕ → PendingMessage
one_more msg now = record msg { attempts = min (msg.attempts + 1) (2 ^ 32 - 1); last_sent = now }

-- A message that is sent again halves the window and doubles the timeout.
unfoldable pub back_off : ℕ → ℕ → PendingMessage → ClientSession → ClientSession
back_off now seq msg session =
    let threshold = max (session.congestion_window_bytes / 2) 1024 in
    record session {
      pending_messages = insert seq (one_more msg now) session.pending_messages;
      slow_start_threshold_bytes = threshold;
      congestion_window_bytes = max threshold 1024;
      retransmit_timeout = min (session.retransmit_timeout * 2) longest_timeout;
    }

abbrev pub Resend : Type 0
Resend = List (List ℕ)

unfoldable pub nack_message :
    ℕ → ℕ → Option PendingMessage → ClientSession → Resend → ClientSession × Resend
nack_message now seq none session resend = (session, resend)
nack_message now seq (some msg) session resend =
    (back_off now seq msg session, resend ++ (msg.frame ∷ []))

unfoldable pub nack_range : ℕ → ℕ → ℕ → ClientSession → Resend → ClientSession × Resend
nack_range zero seq now session resend = (session, resend)
nack_range (suc n) seq now session resend =
    let (session', resend') =
      nack_message now seq (lookup seq session.pending_messages) session resend in
    nack_range n (seq + 1) now session' resend'

unfoldable pub nack_session :
    ℕ → ℕ → ℕ → SocketAddr → Option ClientSession → RakNetServer → Resend → RakNetServer × Resend
nack_session start end_ now from none server resend = (server, resend)
nack_session start end_ now from (some session) server resend =
    let (session', resend') = nack_range (count_from start end_) start now session resend in
    (record server { connections = insert from session' server.connections }, resend')

unfoldable pub nack_segments :
    ℕ → Buffer → ℕ → SocketAddr → RakNetServer → Resend → RakNetServer × Resend
nack_segments zero b now from server resend = (server, resend)
nack_segments (suc n) b now from server resend =
    let (start, end_, b') = read_segment b in
    let (server', resend') =
      nack_session start end_ now from (lookup from server.connections) server resend in
    nack_segments n b' now from server' resend'

-- The server, and the frames that are sent again.
unfoldable pub handle_nack_packet : List ℕ → SocketAddr → ℕ → RakNetServer → RakNetServer × Resend
handle_nack_packet bytes from now server =
    let (seg_count, b) = read_head bytes in nack_segments seg_count b now from server []
