-- ===== src/Raknet/Server/Resend.antt =====
-- One round of the background worker that `RakNetServer::new` of src/raknet/server/mod.rs starts: it
-- sends messages again that have waited longer than their session's timeout. The text that a table
-- is keyed by always parses back to its address. What it does to one message is what a NACK does.
pub mod Due
use skin_get_be_rust.Prelude.{ℕ, ◌-◌, Bool, ◌&&◌, List, [], ◌∷◌, ◌++◌, ltb, if◌then◌else◌}
use skin_get_be_rust.Prelude.Map.{Map, nat_eq, lookup}
use skin_get_be_rust.Raknet.Server.Session.{ClientSession, PendingMessage, RakNetServer, SocketAddr}
use skin_get_be_rust.Raknet.Server.Acks.{Resend, nack_message}

-- `now.duration_since(v.last_sent) > timeout && v.attempts < 5`
abbrev pub is_due : ℕ → ℕ → PendingMessage → Bool
is_due now timeout msg = ltb timeout (now - msg.last_sent) && ltb msg.attempts 5

abbrev pub due_keys : ℕ → ℕ → Map ℕ PendingMessage → List ℕ
due_keys now timeout [] = []
due_keys now timeout ((k, msg) ∷ m) =
    let rest = due_keys now timeout m in if is_due now timeout msg then k ∷ rest else rest

-- `for k in keys`
unfoldable pub resend_keys : List ℕ → ℕ → ClientSession → Resend → ClientSession × Resend
resend_keys [] now session resend = (session, resend)
resend_keys (k ∷ keys) now session resend =
    let (session', resend') =
      nack_message now k (lookup k session.pending_messages) session resend in
    resend_keys keys now session' resend'

abbrev pub resend_session : ℕ → ClientSession → ClientSession × Resend
resend_session now session =
    resend_keys (due_keys now session.retransmit_timeout session.pending_messages) now session []

abbrev pub addressed : SocketAddr → Resend → List (SocketAddr × List ℕ)
addressed addr [] = []
addressed addr (frame ∷ frames) = (addr, frame) ∷ addressed addr frames

-- `for (addr_str, session) in map.iter_mut()`
unfoldable pub resend_connections :
    ℕ → Map SocketAddr ClientSession → Map SocketAddr ClientSession × List (SocketAddr × List ℕ)
resend_connections now [] = ([], [])
resend_connections now ((addr, session) ∷ m) =
    let rest = resend_connections now m in
    let (session', frames) = resend_session now session in
    ((addr, session') ∷ rest.0, addressed addr frames ++ rest.1)

unfoldable pub resend_round : ℕ → RakNetServer → RakNetServer × List (SocketAddr × List ℕ)
resend_round now server =
    let (connections, resend_list) = resend_connections now server.connections in
    (record server { connections = connections }, resend_list)
