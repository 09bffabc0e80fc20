-- ===== src/Raknet/Server/Frames/Numbered.antt =====
-- The fragments of a payload carry all of it, in order and with consecutive numbers.
use skin_get_be_rust.Prelude.{
  ℕ, zero, suc, ◌+◌, ◌-◌, ◌*◌, ◌%◌, ◌^◌, ◌<◌, ◌≤◌, ◌≡◌, refl, sym, ap, ◌∙◌, min, true, false, ◌&&◌,
  List, [], ◌∷◌, ◌++◌, length, leb, ltb, arith, take, drop, length-take, length-drop, drop-drop,
  take-append-drop, if◌then◌else◌, Bool-cases, inl, inr,
}
use native.Mathlib.Nat.{div-add-mod, mod-lt}
use skin_get_be_rust.Prelude.Map.{lookup-insert_self}
use skin_get_be_rust.Error.{Result, ok}
use skin_get_be_rust.Raknet.Protocol.{has_reliable, has_ordering}
use skin_get_be_rust.Raknet.Server.Session.{
  RakNetServer, ClientSession, SocketAddr, addr_eq, ensure_session,
}
use skin_get_be_rust.Raknet.Server.Frames.{
  Sequence, build_frame, split_flags, fragment_payload, next_u32, allocate_sequence,
  register_pending, note_pending, prepare, after_send, send_fragments, send_frame,
  max_single_payload, max_frag_payload, div_ceil,
}

abbrev pub numbers : ClientSession → Sequence
numbers session = record {
  seq = session.packet_seq;
  rel_seq = session.reliable_seq;
  order_idx = session.order_index;
}

-- The numbers that the next frame to `to` takes.
abbrev pub numbers_of : RakNetServer → SocketAddr → Sequence
numbers_of server to = numbers (ensure_session server to true 0).0

abbrev pub next_numbers : ℕ → Sequence → Sequence
next_numbers r s = record {
  seq = next_u32 s.seq;
  rel_seq = if has_reliable r then next_u32 s.rel_seq else s.rel_seq;
  order_idx = if has_ordering r then next_u32 s.order_idx else s.order_idx;
}

-- The datagrams are the fragments of a payload from `idx` on, numbered from `s` on.
pub data Carries (r split_count split_id : ℕ) : ℕ → Sequence → List ℕ → List (List ℕ) → Type 0 where
  all_sent : {idx : ℕ} {s : Sequence} → Carries r split_count split_id idx s [] []
  fragment :
      {idx : ℕ} {s : Sequence} {payload rest frame : List ℕ} {later : List (List ℕ)}
      (chunk : List ℕ)
      → 0 < length chunk
      → payload ≡ chunk ++ rest
      → frame ≡ build_frame (split_flags r) r s (fragment_payload split_count split_id idx chunk)
      → Carries r split_count split_id (idx + 1) (next_numbers r s) rest later
      → Carries r split_count split_id idx s payload (frame ∷ later)

numbers-note_pending :
    (r seq : ℕ) (frame : List ℕ) (now : ℕ) (session : ClientSession)
    → numbers (note_pending r seq frame now session) ≡ numbers session
unfolding register_pending
numbers-note_pending r seq frame now session = elim (Bool-cases (has_reliable r)) [
  | inl e ↦ rw e refl
  | inr e ↦ rw e refl
]

module _ (server : RakNetServer) (flags r : ℕ) (payload : List ℕ) (to : SocketAddr) (now : ℕ) where
  prepare_frame :
      (prepare server flags r payload to now).0 ≡ build_frame flags r (numbers_of server to) payload
  unfolding prepare allocate_sequence
  prepare_frame = refl

  prepare_numbers :
      numbers_of (prepare server flags r payload to now).1 to
      ≡ next_numbers r (numbers_of server to)
  unfolding prepare allocate_sequence ensure_session
  prepare_numbers =
      let (session, server') = ensure_session server to true 0 in
      let taken = allocate_sequence session (has_reliable r) (has_ordering r) in
      let frame = build_frame flags r taken.0 payload in
      let noted = note_pending r taken.0.seq frame now taken.1 in
      rw (lookup-insert_self to noted server'.connections)
        (numbers-note_pending r taken.0.seq frame now taken.1)

drop_past : (n : ℕ) (xs : List ℕ) → length xs ≤ n → drop n xs ≡ []
drop_past zero [] h = refl
drop_past zero (x ∷ xs) h = absurd (omega arith)
drop_past (suc n) [] h = refl
drop_past (suc n) (x ∷ xs) h = drop_past n xs (omega arith)

-- The socket takes every datagram.
abbrev pub Accepts : (List ℕ → SocketAddr → Result (Unit {0})) → Type 0
Accepts send_to = (frame : List ℕ) (to : SocketAddr) → send_to frame to ≡ ok tt

module _ (send_to : List ℕ → SocketAddr → Result (Unit {0})) (accepts : Accepts send_to) (r : ℕ)
    (to : SocketAddr) (now : ℕ → ℕ) (payload : List ℕ) (size split_count split_id : ℕ)
    (some_room : 0 < size) where
  send_fragments-Carries :
      (n idx offset : ℕ) (server : RakNetServer)
      → length payload ≤ offset + n * size
      → offset + n * size < length payload + size
      → (Carries r split_count split_id idx
          (numbers_of server to)
          (drop offset payload)
          (send_fragments send_to n idx offset size split_count split_id payload r to now
            server).datagrams)
        × ((send_fragments send_to n idx offset size split_count split_id payload r to now
              server).result
            ≡ ok tt)
  unfolding send_fragments after_send
  send_fragments-Carries zero idx offset server enough tight =
      rw (drop_past offset payload (omega arith)) (all_sent, refl)
  send_fragments-Carries (suc n) idx offset server enough tight =
      let taken = min size (length payload - offset) in
      let left = drop offset payload in
      let chunk = take taken left in
      let body = fragment_payload split_count split_id idx chunk in
      let sent = prepare server (split_flags r) r body to (now idx) in
      let more : suc n * size ≡ n * size + size = omega arith in
      let (carried, fine) =
        send_fragments-Carries n (idx + 1) (offset + taken) sent.1 (omega arith) (omega arith) in
      let numbered = rw (prepare_numbers server (split_flags r) r body to (now idx)) at carried in
      let swap : taken + offset ≡ offset + taken = omega arith in
      let cut : left ≡ chunk ++ drop (offset + taken) payload =
        sym (take-append-drop taken left)
        ∙ ap (λ (xs : List ℕ). chunk ++ xs)
            (drop-drop taken offset payload ∙ ap (λ (k : ℕ). drop k payload) swap) in
      let nonempty : 0 < length chunk =
        omega (arith, length-take taken left, length-drop offset payload) in
      rw (accepts sent.0 to) (
        fragment chunk nonempty cut (prepare_frame server (split_flags r) r body to (now idx))
            numbered,
        fine,
      )

div_ceil_lem : (n d : ℕ) → 0 < d → (n ≤ div_ceil n d * d) × (div_ceil n d * d < n + d)
div_ceil_lem n d h =
    let a = div-add-mod (n + d - 1) d in
    let b = mod-lt (n + d - 1) h in (omega (arith, a, b), omega (arith, a, b))

max_frag_payload_pos : (mtu r : ℕ) → 0 < max_frag_payload mtu r
unfolding max_frag_payload
max_frag_payload_pos mtu r = ground arith

-- With a socket that takes every datagram, a payload too long for one frame goes out as fragments
-- with consecutive split indices from 0 on, each with a non-empty chunk, whose chunks joined in
-- order are the payload; their sequence numbers, and the reliable and ordering numbers where the
-- reliability has them, follow one another from the session's on; and the call succeeds. The
-- payload takes fewer than 2 ^ 32 fragments.
pub send_frame-Carries :
    (send_to : List ℕ → SocketAddr → Result (Unit {0})) (server : RakNetServer) (payload : List ℕ)
    (r : ℕ) (to : SocketAddr) (split_id : ℕ) (now : ℕ → ℕ)
    → Accepts send_to
    → max_single_payload server.config.mtu_size r < length payload
    → div_ceil (length payload) (max_frag_payload server.config.mtu_size r) < 2 ^ 32
    → Carries r
        (div_ceil (length payload) (max_frag_payload server.config.mtu_size r))
        split_id
        0
        (numbers_of server to)
        payload
        (send_frame send_to server payload r to split_id now).datagrams
      × ((send_frame send_to server payload r to split_id now).result ≡ ok tt)
unfolding send_frame
send_frame-Carries send_to server payload r to split_id now accepts long small =
    let size = max_frag_payload server.config.mtu_size r in
    let count = div_ceil (length payload) size in
    let most = max_single_payload server.config.mtu_size r in
    let parts : (leb (length payload) most && ltb 0 most) ≡ false = ground arith in
    let fits : count % 2 ^ 32 ≡ count = omega arith in
    let pos : 0 < size = max_frag_payload_pos server.config.mtu_size r in
    let (enough, tight) = div_ceil_lem (length payload) size pos in
    rw (parts, fits)
      (send_fragments-Carries send_to accepts r to now payload size count split_id pos count 0 0
        server (omega arith) (omega arith))
