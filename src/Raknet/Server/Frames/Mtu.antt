-- ===== src/Raknet/Server/Frames/Mtu.antt =====
-- What `send_frame` hands to the socket fits the configured size.
use skin_get_be_rust.Prelude.{
  ℕ, zero, suc, ◌+◌, ◌-◌, ◌<◌, ◌≤◌, ◌≡◌, min, true, ◌&&◌, List, length, leb, ltb, arith, take, drop,
  length-take, Bool-cases, inl, inr, All,
}
use skin_get_be_rust.Error.{Result, ok, err}
use skin_get_be_rust.Raknet.Protocol.{has_reliable, has_ordering, header_overhead}
use skin_get_be_rust.Raknet.Server.Session.{RakNetServer, SocketAddr, ensure_session}
use skin_get_be_rust.Raknet.Server.Frames.{
  Sent, single_flags, split_flags, frame_overhead, fragment_payload, allocate_sequence, prepare,
  after_send, send_fragments, send_frame, max_single_payload, max_frag_payload, done,
}
use skin_get_be_rust.Raknet.Server.Frames.Single.{length-headers}

abbrev pub Within : ℕ → List ℕ → Type 0
Within mtu datagram = length datagram ≤ mtu

length-prepare :
    (server : RakNetServer) (flags r : ℕ) (payload : List ℕ) (to : SocketAddr) (now : ℕ)
    → length (prepare server flags r payload to now).0 ≡ 4 + frame_overhead r + length payload
unfolding prepare header_overhead
length-prepare server flags r payload to now =
    let s =
      (allocate_sequence (ensure_session server to true 0).0 (has_reliable r) (has_ordering r)).0 in
    omega (arith, length-headers r s payload)

All-after_send :
    (mtu : ℕ) (frame : List ℕ) (server : RakNetServer) (rest : Sent) (sent : Result (Unit {0}))
    → Within mtu frame
    → All (Within mtu) rest.datagrams
    → All (Within mtu) (after_send frame server rest sent).datagrams
unfolding after_send
All-after_send mtu frame server rest (ok _) h hs = (h, hs)
All-after_send mtu frame server rest (err e) h hs = (h, tt)

module _ (send_to : List ℕ → SocketAddr → Result (Unit {0})) (mtu r : ℕ) (to : SocketAddr)
    (now : ℕ → ℕ) (payload : List ℕ) where
  send_fragments-All :
      (n idx offset size split_count split_id : ℕ) (server : RakNetServer)
      → 4 + frame_overhead r + 10 + size ≤ mtu
      → All
          (Within mtu)
          (send_fragments send_to n idx offset size split_count split_id payload r to now
            server).datagrams
  unfolding send_fragments
  send_fragments-All zero idx offset size split_count split_id server h = tt
  send_fragments-All (suc n) idx offset size split_count split_id server h =
      let taken = min size (length payload - offset) in
      let chunk = take taken (drop offset payload) in
      let body = fragment_payload split_count split_id idx chunk in
      let sent = prepare server (split_flags r) r body to (now idx) in
      All-after_send mtu sent.0 sent.1
        (send_fragments send_to n (idx + 1) (offset + taken) size split_count split_id payload r to
          now sent.1)
        (send_to sent.0 to)
        (omega (
          arith,
          length-prepare server (split_flags r) r body to (now idx),
          length-take taken (drop offset payload),
        ))
        (send_fragments-All n (idx + 1) (offset + taken) size split_count split_id sent.1 h)

-- With a configured size that leaves room for the headers and the split header, every datagram
-- that `send_frame` hands to the socket is within that size, whatever the payload, its reliability
-- and what the socket answers.
pub send_frame-Within :
    (send_to : List ℕ → SocketAddr → Result (Unit {0})) (server : RakNetServer) (payload : List ℕ)
    (r : ℕ) (to : SocketAddr) (split_id : ℕ) (now : ℕ → ℕ)
    → 4 + frame_overhead r + 10 < server.config.mtu_size
    → All
        (Within server.config.mtu_size)
        (send_frame send_to server payload r to split_id now).datagrams
unfolding send_frame max_single_payload max_frag_payload
send_frame-Within send_to server payload r to split_id now h =
    let mtu = server.config.mtu_size in
    let single : ltb (4 + frame_overhead r) mtu ≡ true = ground arith in
    let split : ltb (4 + frame_overhead r + 10) mtu ≡ true = ground arith in
    let most = mtu - 4 - frame_overhead r in
    rw (single, split)
      (elim (Bool-cases (leb (length payload) most && ltb 0 most)) [
        | inl whole ↦
            let sent = prepare server (single_flags r) r payload to (now 0) in
            let room : length payload ≤ most = ground arith in
            rw whole (
              All-after_send mtu sent.0 sent.1 (done sent.1) (send_to sent.0 to)
                (omega (arith, length-prepare server (single_flags r) r payload to (now 0))) tt)
        | inr parts ↦ rw parts (
            send_fragments-All send_to mtu r to now payload _ 0 0 _ _ split_id server (omega arith))
      ])
