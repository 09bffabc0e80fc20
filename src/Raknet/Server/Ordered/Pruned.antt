-- ===== src/Raknet/Server/Ordered/Pruned.antt =====
-- What pruning does to a channel that has handed on everything.
use skin_get_be_rust.Prelude.{ℕ, ◌≡◌, refl, sym, ◌∙◌, List, [], ◌∷◌, ◌++◌, none, some, arith}
use skin_get_be_rust.Prelude.Map.{
  Map, nat_eq, lookup, insert, remove, retain, lookup-insert_self, beq_refl,
}
use skin_get_be_rust.Raknet.Server.Session.{
  OrderedChannel, ClientSession, prune_session_queues, prune_channels,
}
use skin_get_be_rust.Raknet.Server.Ordered.{
  Emitted, flush, flush_loop, flush_entry, place, new_channel, or_channel, deliver,
  buffer_ordered_payload,
}

prune-remove :
    (now ch : ℕ) (m : Map ℕ OrderedChannel) → lookup ch (prune_channels now (remove ch m)) ≡ none
unfolding prune_channels remove lookup
prune-remove now ch [] = refl
prune-remove now ch ((k, c) ∷ m) = ground (arith, prune-remove now ch m)

-- A drained channel is forgotten.
prune-insert :
    (now ch : ℕ) (c : OrderedChannel) (m : Map ℕ OrderedChannel)
    → c.buffer ≡ []
    → lookup ch (prune_channels now (insert ch c m)) ≡ none
unfolding insert
prune-insert now ch c m e = unfold prune_channels retain in rw e (prune-remove now ch m)

-- A fresh channel hands on whatever comes first.
place_first :
    (idx now : ℕ) (payload : List ℕ) (emit : Emitted)
    → (flush (place idx payload now new_channel) emit).1 ≡ emit ++ (payload ∷ [])
unfolding place insert remove flush_loop flush_entry lookup
place_first idx now payload emit = rw (beq_refl idx)

-- Once a channel has handed on everything that it held, the pruning at the head of the next game
-- packet forgets where it stood: the next payload on the channel is handed on at once, whatever its
-- index, one that was handed on before included.
pub pruned_channel_hands_on_anything :
    (session : ClientSession) (ch idx idx' now now' now'' : ℕ) (payload payload' : List ℕ)
    (emit emit' : Emitted) (c : OrderedChannel)
    → lookup ch
        (buffer_ordered_payload payload (some idx) (some ch) now session emit).0.ordered_channels
      ≡ some c
    → c.buffer ≡ []
    → (buffer_ordered_payload payload'
        (some idx')
        (some ch)
        now''
        (prune_session_queues now'
          (buffer_ordered_payload payload (some idx) (some ch) now session emit).0)
        emit').1
      ≡ emit' ++ (payload' ∷ [])
unfolding buffer_ordered_payload deliver prune_session_queues
pruned_channel_hands_on_anything session ch idx idx' now now' now'' payload payload' emit emit' c e
      drained =
    let placed = place idx payload now (or_channel (lookup ch session.ordered_channels)) in
    let channel = (flush placed emit).0 in
    let same : some channel ≡ some c =
      sym (lookup-insert_self ch channel session.ordered_channels) ∙ e in
    let empty : channel.buffer ≡ [] = cc in
    rw (prune-insert now' ch channel session.ordered_channels empty)
      (place_first idx' now'' payload' emit')
