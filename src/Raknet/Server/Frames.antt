-- ===== src/Raknet/Server/Frames.antt =====
-- src/raknet/server/frames.rs: outgoing frames. `socket.send_to` is a parameter; the random split id
-- and the clock are arguments. A table is locked twice for a frame, to take the numbers and to note
-- the frame; here both are one step. `(len as u16) * 8` wraps, as it does in a release build.
pub mod Single
pub mod Fragments
pub mod Mtu
pub mod Numbered
use skin_get_be_rust.Prelude.{
  ℕ, zero, suc, ◌+◌, ◌-◌, ◌*◌, ◌/◌, ◌%◌, ◌^◌, min, Bool, true, ◌&&◌, List, [], ◌∷◌, ◌++◌, length,
  ltb, leb, take, drop, if◌then◌else◌, bit_or, bit_and,
}
use skin_get_be_rust.Prelude.Bits.{shl, shr}
use skin_get_be_rust.Prelude.Bytes.{u16_bytes, u32_bytes}
use skin_get_be_rust.Prelude.Map.{insert, nat_eq}
use skin_get_be_rust.Error.{Result, ok, err}
use skin_get_be_rust.Raknet.Protocol.{has_reliable, has_ordering}
use skin_get_be_rust.Raknet.Server.Session.{
  ClientSession, RakNetServer, SocketAddr, addr_eq, ensure_session,
}

abbrev pub write_u24_le : ℕ → List ℕ
write_u24_le value =
    bit_and value 0xff ∷ bit_and (shr value 8) 0xff ∷ bit_and (shr value 16) 0xff ∷ []

-- The numbers that a frame takes.
pub record Sequence : Type 0 where
  pub seq : ℕ
  pub rel_seq : ℕ
  pub order_idx : ℕ

-- `wrapping_add(1)` on a `u32`
abbrev pub next_u32 : ℕ → ℕ
next_u32 n = (n + 1) % 2 ^ 32

unfoldable pub allocate_sequence : ClientSession → Bool → Bool → Sequence × ClientSession
allocate_sequence session reliable ordered = (
  record {
    seq = session.packet_seq;
    rel_seq = session.reliable_seq;
    order_idx = session.order_index;
  },
  record session {
    packet_seq = next_u32 session.packet_seq;
    reliable_seq = if reliable then next_u32 session.reliable_seq else session.reliable_seq;
    order_index = if ordered then next_u32 session.order_index else session.order_index;
  },
)

-- `saturating_add` on a `usize`
abbrev pub saturating_add : ℕ → ℕ → ℕ
saturating_add a b = min (a + b) (2 ^ 64 - 1)

unfoldable pub register_pending : ClientSession → ℕ → List ℕ → ℕ → ClientSession
register_pending session seq frame now = record session {
  in_flight_bytes = saturating_add session.in_flight_bytes (length frame);
  pending_messages =
      insert seq
        (record { frame = frame; size_bytes = length frame; last_sent = now; attempts = 1 })
        session.pending_messages;
}

-- The headers around a payload, and the four bytes of the frame set.
abbrev pub frame_overhead : ℕ → ℕ
frame_overhead reliability =
    3 + (if has_reliable reliability then 3 else 0) + (if has_ordering reliability then 4 else 0)

abbrev pub split_overhead : ℕ
split_overhead = 10

unfoldable pub max_single_payload : ℕ → ℕ → ℕ
max_single_payload mtu reliability =
    if ltb (4 + frame_overhead reliability) mtu then mtu - 4 - frame_overhead reliability else 0

unfoldable pub max_frag_payload : ℕ → ℕ → ℕ
max_frag_payload mtu reliability =
    if ltb (4 + frame_overhead reliability + split_overhead) mtu
    then mtu - 4 - frame_overhead reliability - split_overhead
    else 1

abbrev pub frame_length_bits : ℕ → ℕ
frame_length_bits len = len % 2 ^ 16 * 8 % 2 ^ 16

abbrev pub reliable_header : ℕ → Sequence → List ℕ
reliable_header reliability s = if has_reliable reliability then write_u24_le s.rel_seq else []

abbrev pub order_header : ℕ → Sequence → List ℕ
order_header reliability s =
    if has_ordering reliability then write_u24_le s.order_idx ++ (0 ∷ []) else []

-- A frame set of one frame.
abbrev pub build_frame : ℕ → ℕ → Sequence → List ℕ → List ℕ
build_frame flags reliability s payload =
    (0x84 ∷ write_u24_le s.seq)
    ++ ((flags ∷ u16_bytes (frame_length_bits (length payload)))
        ++ (reliable_header reliability s ++ (order_header reliability s ++ payload)))

abbrev pub single_flags : ℕ → ℕ
single_flags reliability = shl 8 reliability 5

abbrev pub split_flags : ℕ → ℕ
split_flags reliability = bit_or (shl 8 reliability 5) 0x10

abbrev pub fragment_payload : ℕ → ℕ → ℕ → List ℕ → List ℕ
fragment_payload split_count split_id idx chunk =
    u32_bytes split_count ++ (u16_bytes split_id ++ (u32_bytes idx ++ chunk))

-- What a call leaves: the server, the datagrams handed to the socket, and the result.
pub record Sent : Type 0 where
  pub server : RakNetServer
  pub datagrams : List (List ℕ)
  pub result : Result (Unit {0})

-- The frame is noted when it is reliable.
abbrev pub note_pending : ℕ → ℕ → List ℕ → ℕ → ClientSession → ClientSession
note_pending reliability seq frame now session =
    if has_reliable reliability then register_pending session seq frame now else session

-- One frame is built with the numbers of the session of `to`.
unfoldable pub prepare : RakNetServer → ℕ → ℕ → List ℕ → SocketAddr → ℕ → List ℕ × RakNetServer
prepare server flags reliability payload to now =
    let (session, server') = ensure_session server to true 0 in
    let (s, session') =
      allocate_sequence session (has_reliable reliability) (has_ordering reliability) in
    let frame = build_frame flags reliability s payload in
    let noted = note_pending reliability s.seq frame now session' in
    (frame, record server' { connections = insert to noted server'.connections })

-- `self.socket.send_to(&frame, to).await?`, then the rest.
unfoldable pub after_send : List ℕ → RakNetServer → Sent → Result (Unit {0}) → Sent
after_send frame server rest (ok _) = record rest { datagrams = frame ∷ rest.datagrams }
after_send frame server rest (err e) = record {
  server = server;
  datagrams = frame ∷ [];
  result = err e;
}

abbrev pub done : RakNetServer → Sent
done server = record { server = server; datagrams = []; result = ok tt }

-- `n.div_ceil(d)`
abbrev pub div_ceil : ℕ → ℕ → ℕ
div_ceil n d = (n + d - 1) / d

module _ (send_to : List ℕ → SocketAddr → Result (Unit {0})) where
  -- `for idx in 0..split_count`, with `n` fragments left.
  unfoldable pub send_fragments :
      (n idx offset : ℕ) → ℕ → ℕ → ℕ → List ℕ → ℕ → SocketAddr → (ℕ → ℕ) → RakNetServer → Sent
  send_fragments zero idx offset size split_count split_id payload reliability to now server =
      done server
  send_fragments (suc n) idx offset size split_count split_id payload reliability to now server =
      let taken = min size (length payload - offset) in
      let chunk = take taken (drop offset payload) in
      let (frame, server') =
        prepare server (split_flags reliability) reliability
          (fragment_payload split_count split_id idx chunk) to (now idx) in
      let rest =
        send_fragments n (idx + 1) (offset + taken) size split_count split_id payload reliability to
          now server' in
      after_send frame server' rest (send_to frame to)

  unfoldable pub send_frame :
      RakNetServer → List ℕ → ℕ → SocketAddr → (split_id : ℕ) → (now : ℕ → ℕ) → Sent
  send_frame server payload reliability to split_id now =
      let mtu = server.config.mtu_size in
      let max_single = max_single_payload mtu reliability in
      if leb (length payload) max_single && ltb 0 max_single
      then (let (frame, server') =
            prepare server (single_flags reliability) reliability payload to (now 0) in
          after_send frame server' (done server') (send_to frame to))
      else (let size = max_frag_payload mtu reliability in
          let split_count = div_ceil (length payload) size % 2 ^ 32 in
          send_fragments split_count 0 0 size split_count split_id payload reliability to now
            server)
