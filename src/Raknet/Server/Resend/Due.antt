-- ===== src/Raknet/Server/Resend/Due.antt =====
-- What a round of the resend worker keeps.
use mathlib.Core.Path.{subst}
use skin_get_be_rust.Prelude.{
  ℕ, ◌≡◌, refl, sym, ap, ◌∙◌, List, [], ◌∷◌, Option, none, some, arith, Bool-cases, inl, inr,
}
use skin_get_be_rust.Prelude.Map.{Map, nat_eq, lookup}
use skin_get_be_rust.Raknet.Server.Session.{
  ClientSession, RakNetServer, SocketAddr, addr_eq, has_key, is_active_connection,
}
use skin_get_be_rust.Raknet.Server.Acks.{Resend, nack_message}
use skin_get_be_rust.Raknet.Server.Acks.Steady.{IsSteady, AllSteady, nack_message-IsSteady}
use skin_get_be_rust.Raknet.Server.Resend.{
  due_keys, resend_keys, resend_session, resend_connections, resend_round,
}

resend_keys-IsSteady :
    (keys : List ℕ) (now : ℕ) (session : ClientSession) (resend : Resend)
    → IsSteady session
    → IsSteady (resend_keys keys now session resend).0
unfolding resend_keys
resend_keys-IsSteady [] now session resend s = s
resend_keys-IsSteady (k ∷ keys) now session resend s =
    let msg = lookup k session.pending_messages in
    let next = nack_message now k msg session resend in
    resend_keys-IsSteady keys now next.0 next.1 (nack_message-IsSteady now k msg session resend s)

abbrev after_round : ℕ → Option ClientSession → Option ClientSession
after_round now none = none
after_round now (some session) = some (resend_session now session).0

resend_connections_lem :
    (now : ℕ) (addr : SocketAddr) (m : Map SocketAddr ClientSession)
    → lookup addr (resend_connections now m).0 ≡ after_round now (lookup addr m)
unfolding resend_connections lookup
resend_connections_lem now addr [] = refl
resend_connections_lem now addr ((a, session) ∷ m) = elim (Bool-cases (addr_eq.beq a addr)) [
  | inl same ↦ rw same refl
  | inr other ↦ rw other (resend_connections_lem now addr m)
]

after_round-IsSteady :
    (now : ℕ) (before : Option ClientSession) (after : ClientSession)
    → ((session : ClientSession) → before ≡ some session → IsSteady session)
    → after_round now before ≡ some after
    → IsSteady after
after_round-IsSteady now none after all e = cc
after_round-IsSteady now (some session) after all e =
    let same : (resend_session now session).0 ≡ after = ground arith in
    let keys = due_keys now session.retransmit_timeout session.pending_messages in
    subst (λ x. IsSteady x) same (resend_keys-IsSteady keys now session [] (all session refl))

has_key-after_round :
    (now : ℕ) (before : Option ClientSession) → has_key (after_round now before) ≡ has_key before
has_key-after_round now none = refl
has_key-after_round now (some session) = refl

-- A round of the resend worker keeps every session's timeout and window in their ranges, and
-- neither adds nor drops a session.
pub resend_round-AllSteady :
    (now : ℕ) (server : RakNetServer) (addr : SocketAddr)
    → AllSteady server
    → AllSteady (resend_round now server).0
      × (is_active_connection (resend_round now server).0 addr ≡ is_active_connection server addr)
unfolding resend_round is_active_connection
resend_round-AllSteady now server addr all = (
  λ addr' after e.
      after_round-IsSteady now (lookup addr' server.connections) after (all addr')
        (sym (resend_connections_lem now addr' server.connections) ∙ e),
  ap has_key (resend_connections_lem now addr server.connections)
      ∙ has_key-after_round now (lookup addr server.connections),
)
