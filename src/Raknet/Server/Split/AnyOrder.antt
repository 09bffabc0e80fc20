-- ===== src/Raknet/Server/Split/AnyOrder.antt =====
-- A packet is reassembled from its fragments in whatever order they arrive.
use skin_get_be_rust.Prelude.{
  ℕ, ◌<◌, ◌≤◌, ◌≡◌, refl, ap, ◌∙◌, true, false, ◌||◌, List, [], ◌∷◌, ◌++◌, Option, none, some,
  length, ◌==◌, arith,
}
use skin_get_be_rust.Prelude.Map.{lookup, nat_eq, pair_eq}
use skin_get_be_rust.Raknet.Protocol.{RakNetFrame}
use skin_get_be_rust.Raknet.Server.Session.{SocketAddr, addr_eq, max_split_parts}
use skin_get_be_rust.Raknet.Server.Split.{Assembled, SplitBuffers, concat, split_step}
use skin_get_be_rust.Raknet.Server.Split.Assemble.{
  seen_in, fragment, Inv, Inv-fresh, step_open, step_last,
}

-- The payload of a packet that is complete.
abbrev pub payload_of : Option Assembled → List (List ℕ)
payload_of none = []
payload_of (some out) = out.payload ∷ []

abbrev pub indices : List (ℕ × ℕ) → List ℕ
indices [] = []
indices ((i, now) ∷ later) = i ∷ indices later

abbrev pub AllBelow : ℕ → List ℕ → Type 0
AllBelow n [] = Unit
AllBelow n (i ∷ is) = (i < n) × AllBelow n is

-- The fragments of one packet arrive one after another, each an index and a time.
unfoldable pub receive :
    List (List ℕ)
    → RakNetFrame
    → SocketAddr
    → ℕ
    → List (ℕ × ℕ)
    → SplitBuffers
    → SplitBuffers × List (List ℕ)
receive parts header from sid [] buffers = (buffers, [])
receive parts header from sid ((i, now) ∷ later) buffers =
    let (buffers', out) = split_step from (some sid) (fragment parts header sid i) now buffers in
    let rest = receive parts header from sid later buffers' in (rest.0, payload_of out ++ rest.1)

seen_after : List (ℕ × ℕ) → List ℕ → List ℕ
seen_after [] seen = seen
seen_after ((i, now) ∷ later) seen = seen_after later (i ∷ seen)

-- The order in which the indices are noted does not matter.
seen_in-seen_after :
    (k : ℕ) (early : List (ℕ × ℕ)) (seen : List ℕ)
    → seen_in k (seen_after early seen) ≡ (seen_in k (indices early) || seen_in k seen)
unfolding seen_after
seen_in-seen_after k [] seen = refl
seen_in-seen_after k ((i, now) ∷ later) seen = ground (arith, seen_in-seen_after k later (i ∷ seen))

module _ (parts : List (List ℕ)) (header : RakNetFrame) (from : SocketAddr) (sid : ℕ)
    (some_parts : 0 < length parts) (few : length parts ≤ max_split_parts) where
  -- While a part is missing nothing is complete.
  receive_incomplete :
      (early : List (ℕ × ℕ)) (j : ℕ) (seen : List ℕ) (buffers : SplitBuffers)
      → Inv parts header from sid some_parts few buffers seen
      → AllBelow (length parts) (indices early)
      → j < length parts
      → seen_in j (seen_after early seen) ≡ false
      → (receive parts header from sid early buffers).1 ≡ []
  unfolding receive seen_after
  receive_incomplete [] j seen buffers inv small lt new = refl
  receive_incomplete ((i, t) ∷ early) j seen buffers inv (h, small) lt new =
      let old : seen_in j (i ∷ seen) ≡ false =
        ground (arith, seen_in-seen_after j early (i ∷ seen)) in
      let (e, inv') =
        step_open parts header from sid some_parts few buffers seen inv i t h j lt old in
      let buffers' = (split_step from (some sid) (fragment parts header sid i) t buffers).0 in
      rw e (receive_incomplete early j (i ∷ seen) buffers' inv' small lt new)

  receive_complete :
      (early : List (ℕ × ℕ)) (j now : ℕ) (seen : List ℕ) (buffers : SplitBuffers)
      → Inv parts header from sid some_parts few buffers seen
      → AllBelow (length parts) (indices early)
      → j < length parts
      → seen_in j (seen_after early seen) ≡ false
      → ((k : ℕ) → k < length parts → seen_in k (j ∷ seen_after early seen) ≡ true)
      → ((receive parts header from sid (early ++ ((j, now) ∷ [])) buffers).1 ≡ concat parts ∷ [])
        × (lookup (from, sid) (receive parts header from sid (early ++ ((j, now) ∷ [])) buffers).0
            ≡ none)
  unfolding receive seen_after
  receive_complete [] j now seen buffers inv small lt new all =
      let ((out, e, p), gone) =
        step_last parts header from sid some_parts few buffers seen inv j now lt new all in
      (rw (e, p) refl, gone)
  receive_complete ((i, t) ∷ early) j now seen buffers inv (h, small) lt new all =
      let old : seen_in j (i ∷ seen) ≡ false =
        ground (arith, seen_in-seen_after j early (i ∷ seen)) in
      let (e, inv') =
        step_open parts header from sid some_parts few buffers seen inv i t h j lt old in
      let buffers' = (split_step from (some sid) (fragment parts header sid i) t buffers).0 in
      let (a, b) = receive_complete early j now (i ∷ seen) buffers' inv' small lt new all in
      (rw e a, b)

  -- The fragments of a packet of at most 512 parts arrive at a table with no buffer for it, in any
  -- order and with repetitions, up to the one that comes last and has not come before: the last
  -- one alone completes a packet, whose payload is the parts joined in their order, and its buffer
  -- is removed from the table.
  pub receive_in_any_order :
      (early : List (ℕ × ℕ)) (j now : ℕ) (buffers : SplitBuffers)
      → lookup (from, sid) buffers ≡ none
      → AllBelow (length parts) (indices early)
      → j < length parts
      → seen_in j (indices early) ≡ false
      → ((k : ℕ) → k < length parts → seen_in k (j ∷ indices early) ≡ true)
      → ((receive parts header from sid early buffers).1 ≡ [])
        × ((receive parts header from sid (early ++ ((j, now) ∷ [])) buffers).1 ≡ concat parts ∷ [])
        × (lookup (from, sid) (receive parts header from sid (early ++ ((j, now) ∷ [])) buffers).0
            ≡ none)
  receive_in_any_order early j now buffers fresh small lt new all =
      let noted : (k : ℕ) → seen_in k (seen_after early []) ≡ seen_in k (indices early) =
        λ k. ground (arith, seen_in-seen_after k early []) in
      let inv : Inv parts header from sid some_parts few buffers [] =
        Inv-fresh parts header from sid some_parts few buffers fresh in
      let (joined, gone) =
        receive_complete early j now [] buffers inv small lt (noted j ∙ new)
          (λ k below. ap (λ b. j == k || b) (noted k) ∙ all k below) in
      (receive_incomplete early j [] buffers inv small lt (noted j ∙ new), joined, gone)
