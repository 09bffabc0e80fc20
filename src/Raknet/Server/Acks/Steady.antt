-- ===== src/Raknet/Server/Acks/Steady.antt =====
-- The timeout and the congestion window stay in their ranges.
use mathlib.Core.Path.{subst}
use skin_get_be_rust.Prelude.{
  ℕ, zero, suc, ◌+◌, ◌*◌, ◌^◌, ◌<◌, ◌≤◌, ◌≡◌, refl, sym, ◌∙◌, List, [], Option, none, some, arith,
  Bool-cases, inl, inr,
}
use skin_get_be_rust.Prelude.Map.{nat_eq, lookup, insert, lookup-insert}
use skin_get_be_rust.Buffer.{Buffer}
use skin_get_be_rust.Raknet.Server.Session.{
  ClientSession, PendingMessage, RakNetServer, SocketAddr, addr_eq, millisecond,
}
use skin_get_be_rust.Raknet.Server.Acks.{
  acknowledge, ack_message, ack_range, with_session, ack_segments, handle_ack_packet, back_off,
  nack_message, nack_range, nack_session, nack_segments, handle_nack_packet, Resend, count_from,
  read_segment, read_head, longest_timeout,
}

-- A timeout from 150 milliseconds to two seconds, and a window of at least a kibibyte that a
-- `usize` holds.
pub record IsSteady (session : ClientSession) : Type 0 where
  pub patient : 150 * millisecond ≤ session.retransmit_timeout
  pub prompt : session.retransmit_timeout ≤ longest_timeout
  pub open_ : 1024 ≤ session.congestion_window_bytes
  pub held : session.congestion_window_bytes < 2 ^ 64

abbrev pub AllSteady : RakNetServer → Type 0
AllSteady server =
    (addr : SocketAddr) (session : ClientSession)
    → lookup addr server.connections ≡ some session
    → IsSteady session

acknowledge-IsSteady :
    (now seq : ℕ) (msg : PendingMessage) (session : ClientSession)
    → IsSteady session
    → IsSteady (acknowledge now seq msg session)
unfolding acknowledge
acknowledge-IsSteady now seq msg session s = record {
  patient = omega arith;
  prompt = omega arith;
  open_ = ground (arith, s.open_);
  held = ground (arith, s.held);
}

back_off-IsSteady :
    (now seq : ℕ) (msg : PendingMessage) (session : ClientSession)
    → IsSteady session
    → IsSteady (back_off now seq msg session)
unfolding back_off
back_off-IsSteady now seq msg session s = record {
  patient = omega (arith, s.patient);
  prompt = omega arith;
  open_ = omega arith;
  held = omega (arith, s.held);
}

ack_message-IsSteady :
    (now seq : ℕ) (msg : Option PendingMessage) (session : ClientSession)
    → IsSteady session
    → IsSteady (ack_message now seq msg session)
unfolding ack_message
ack_message-IsSteady now seq none session s = s
ack_message-IsSteady now seq (some msg) session s = acknowledge-IsSteady now seq msg session s

pub nack_message-IsSteady :
    (now seq : ℕ) (msg : Option PendingMessage) (session : ClientSession) (resend : Resend)
    → IsSteady session
    → IsSteady (nack_message now seq msg session resend).0
unfolding nack_message
nack_message-IsSteady now seq none session resend s = s
nack_message-IsSteady now seq (some msg) session resend s = back_off-IsSteady now seq msg session s

ack_range-IsSteady :
    (n seq now : ℕ) (session : ClientSession)
    → IsSteady session
    → IsSteady (ack_range n seq now session)
unfolding ack_range
ack_range-IsSteady zero seq now session s = s
ack_range-IsSteady (suc n) seq now session s =
    let msg = lookup seq session.pending_messages in
    ack_range-IsSteady n (seq + 1) now (ack_message now seq msg session)
      (ack_message-IsSteady now seq msg session s)

nack_range-IsSteady :
    (n seq now : ℕ) (session : ClientSession) (resend : Resend)
    → IsSteady session
    → IsSteady (nack_range n seq now session resend).0
unfolding nack_range
nack_range-IsSteady zero seq now session resend s = s
nack_range-IsSteady (suc n) seq now session resend s =
    let msg = lookup seq session.pending_messages in
    let next = nack_message now seq msg session resend in
    nack_range-IsSteady n (seq + 1) now next.0 next.1
      (nack_message-IsSteady now seq msg session resend s)

-- One session is replaced by a steady one.
insert-AllSteady :
    (server : RakNetServer) (from : SocketAddr) (session : ClientSession)
    → AllSteady server
    → IsSteady session
    → AllSteady (record server { connections = insert from session server.connections })
insert-AllSteady server from session all s addr found e =
    let there = sym (lookup-insert from addr session server.connections) ∙ e in
    elim (Bool-cases (addr_eq.beq from addr)) [
      | inl same ↦
          (let eq : session ≡ found = ground (arith, rw same at there) in
            subst (λ x. IsSteady x) eq s)
      | inr other ↦ all addr found (rw other at there)
    ]

module _ (server : RakNetServer) (from : SocketAddr) (all : AllSteady server) where
  with_session-AllSteady :
      (found : Option ClientSession) (f : ClientSession → ClientSession)
      → lookup from server.connections ≡ found
      → ((session : ClientSession) → IsSteady session → IsSteady (f session))
      → AllSteady (with_session server from found f)
  with_session-AllSteady none f e keeps = all
  with_session-AllSteady (some session) f e keeps =
      insert-AllSteady server from (f session) all (keeps session (all from session e))

  nack_session-AllSteady :
      (start end_ now : ℕ) (found : Option ClientSession) (resend : Resend)
      → lookup from server.connections ≡ found
      → AllSteady (nack_session start end_ now from found server resend).0
  unfolding nack_session
  nack_session-AllSteady start end_ now none resend e = all
  nack_session-AllSteady start end_ now (some session) resend e =
      insert-AllSteady server from (nack_range (count_from start end_) start now session resend).0
        all
        (nack_range-IsSteady (count_from start end_) start now session resend (all from session e))

ack_segments-AllSteady :
    (n : ℕ) (b : Buffer) (now : ℕ) (from : SocketAddr) (server : RakNetServer)
    → AllSteady server
    → AllSteady (ack_segments n b now from server)
unfolding ack_segments
ack_segments-AllSteady zero b now from server all = all
ack_segments-AllSteady (suc n) b now from server all =
    let (start, end_, b') = read_segment b in
    let f = ack_range (count_from start end_) start now in
    ack_segments-AllSteady n b' now from
      (with_session server from (lookup from server.connections) f)
      (with_session-AllSteady server from all (lookup from server.connections) f refl
        (ack_range-IsSteady (count_from start end_) start now))

nack_segments-AllSteady :
    (n : ℕ) (b : Buffer) (now : ℕ) (from : SocketAddr) (server : RakNetServer) (resend : Resend)
    → AllSteady server
    → AllSteady (nack_segments n b now from server resend).0
unfolding nack_segments
nack_segments-AllSteady zero b now from server resend all = all
nack_segments-AllSteady (suc n) b now from server resend all =
    let (start, end_, b') = read_segment b in
    let found = lookup from server.connections in
    let next = nack_session start end_ now from found server resend in
    nack_segments-AllSteady n b' now from next.0 next.1
      (nack_session-AllSteady server from all start end_ now found resend refl)

-- On any bytes an ACK and a NACK keep every session's retransmit timeout from 150 milliseconds to
-- two seconds, and its congestion window at least a kibibyte and within a `usize`.
pub acks-AllSteady :
    (packet : List ℕ) (from : SocketAddr) (now : ℕ) (server : RakNetServer)
    → AllSteady server
    → AllSteady (handle_ack_packet packet from now server)
      × AllSteady (handle_nack_packet packet from now server).0
unfolding handle_ack_packet handle_nack_packet
acks-AllSteady packet from now server all =
    let (seg_count, b) = read_head packet in
    (
      ack_segments-AllSteady seg_count b now from server all,
      nack_segments-AllSteady seg_count b now from server [] all,
    )
