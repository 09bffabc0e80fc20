-- ===== src/Raknet/Server/Ordered/InOrder.antt =====
-- One ordered channel hands the payloads on in the order of their indices, whatever the order in
-- which they arrive.
use skin_get_be_rust.Prelude.{
  ℕ, zero, suc, ◌+◌, ◌^◌, ◌<◌, ◌≤◌, ◌≡◌, refl, sym, ap, ◌∙◌, Bool, true, false, ◌||◌, List, [], ◌∷◌,
  ◌++◌, append-nil, append_assoc, none, some, length, ◌==◌, arith, Bool-cases, inl, inr, ◌⊎◌,
}
use native.Mathlib.Decide.{dec_lt}
use skin_get_be_rust.Prelude.Map.{Map, nat_eq, lookup, lookup-insert, lookup-insert_self}
use skin_get_be_rust.Raknet.Server.Session.{OrderedChannel, ClientSession}
use skin_get_be_rust.Raknet.Server.Ordered.{Emitted, flush, place, deliver, buffer_ordered_payload}
use skin_get_be_rust.Raknet.Server.Ordered.Flush.{
  Flushed, Stored, in_run, after_run, next_of, flush_lem,
}

-- The payloads of `n` consecutive indices from `i` on.
abbrev pub stream : (ℕ → List ℕ) → ℕ → ℕ → Emitted
stream source i zero = []
stream source i (suc n) = source i ∷ stream source (i + 1) n

abbrev pub arrived : ℕ → List ℕ → Bool
arrived j [] = false
arrived j (i ∷ is) = i == j || arrived j is

stream-append :
    (source : ℕ → List ℕ) (i m n : ℕ)
    → stream source i m ++ stream source (i + m) n ≡ stream source i (m + n)
stream-append source i zero n =
    let e : i + 0 ≡ i = omega arith in let f : 0 + n ≡ n = omega arith in rw (e, f) refl
stream-append source i (suc m) n =
    let e : i + suc m ≡ i + 1 + m = omega arith in
    let f : suc m + n ≡ suc (m + n) = omega arith in
    rw (e, f) (ap (◌∷◌ (source i)) (stream-append source (i + 1) m n))

-- A triad is below 2 ^ 24, so an index never wraps.
abbrev pub index_limit : ℕ
index_limit = 2 ^ 24

module _ (source : ℕ → List ℕ) where
  -- Every entry is what the sender has under its index.
  abbrev pub Consistent : Map ℕ (List ℕ × ℕ) → Type 0
  Consistent m =
      (j : ℕ) (p : List ℕ) (t : ℕ) → lookup j m ≡ some (p, t) → (p ≡ source j) × (j < index_limit)

  -- The channel stands at `next_index`, and what has arrived is behind it or in the buffer.
  pub record Tracks (c : OrderedChannel) (seen : List ℕ) : Type 0 where
    pub started : 0 < c.next_index
    pub small : c.next_index ≤ index_limit
    pub consistent : Consistent c.buffer
    pub present :
        (j : ℕ)
        → arrived j seen ≡ true
        → (j < c.next_index) ⊎ ((entry : List ℕ × ℕ) × (lookup j c.buffer ≡ some entry))

  -- A stored run is a piece of the stream, and its end does not wrap.
  Stored-stream :
      (m : Map ℕ (List ℕ × ℕ)) (run : Emitted) (i : ℕ)
      → Consistent m
      → i ≤ index_limit
      → Stored m i run
      → (run ≡ stream source i (length run))
        × (after_run i run ≡ i + length run)
        × (i + length run ≤ index_limit)
        × ((j : ℕ) → in_run i run j ≡ true → j < i + length run)
  Stored-stream m [] i ok h s = (refl, omega arith, omega arith, λ j e. cc)
  Stored-stream m (p ∷ run) i ok h ((t, e), s) =
      let (same, lt) = ok i p t e in
      let step : next_of i ≡ i + 1 = omega arith in
      let (a, b, c, d) = Stored-stream m run (i + 1) ok (omega arith) (rw step at s) in
      (
        rw same (ap (◌∷◌ (source i)) a),
        rw step (omega (arith, b)),
        omega (arith, c),
        λ j f. elim (Bool-cases (i == j)) [
          | inl eq ↦ ground arith
          | inr ne ↦ omega (arith, d j (rw (step, ne) at f))
        ],
      )

  place-Tracks :
      (c : OrderedChannel) (seen : List ℕ) (idx now : ℕ)
      → idx < index_limit
      → Tracks c seen
      → Tracks (place idx (source idx) now c) (idx ∷ seen)
        × ((place idx (source idx) now c).next_index ≡ c.next_index)
  unfolding place
  place-Tracks c seen idx now h t =
      let kept : (place idx (source idx) now c).next_index ≡ c.next_index =
        ground (arith, t.started) in
      (
        record {
          started = rw kept t.started;
          small = rw kept t.small;
          consistent = λ j p u e.
              ground (arith, lookup-insert idx j (source idx, now) c.buffer, t.consistent j p u);
          present = λ j e. elim (Bool-cases (idx == j)) [
            | inl same ↦
                inr ((source idx, now), rw (lookup-insert idx j (source idx, now) c.buffer, same))
            | inr other ↦
                ground (
                  arith,
                  lookup-insert idx j (source idx, now) c.buffer,
                  t.present j (rw other at e),
                )
          ];
        },
        kept,
      )

  flush-Tracks :
      (c : OrderedChannel) (seen : List ℕ) (run : Emitted) (c' : OrderedChannel)
      → Tracks c seen
      → Flushed c run c'
      → Tracks c' seen
        × (run ≡ stream source c.next_index (length run))
        × (c'.next_index ≡ c.next_index + length run)
  flush-Tracks c seen run c' t f =
      let (a, b, d, below) =
        Stored-stream c.buffer run c.next_index t.consistent t.small f.stored in
      (
        record {
          started = omega (arith, t.started, f.next);
          small = omega (arith, f.next);
          consistent = λ j p u e. ground (arith, f.rest j, t.consistent j p u);
          present = λ j e. elim (Bool-cases (in_run c.next_index run j)) [
            | inl gone ↦ inl (omega (arith, f.next, below j gone))
            | inr stays ↦ elim (t.present j e) [
              | inl behind ↦ inl (omega (arith, f.next))
              | inr (entry, found) ↦ inr (entry, f.rest j ∙ rw (stays, found))
            ]
          ];
        },
        a,
        f.next ∙ b,
      )

  -- Arrivals on channel `ch`, each an index and a time.
  unfoldable pub receive_all : ℕ → List (ℕ × ℕ) → ClientSession → Emitted → ClientSession × Emitted
  receive_all ch [] s emit = (s, emit)
  receive_all ch ((idx, now) ∷ later) s emit =
      let (s', emit') = buffer_ordered_payload (source idx) (some idx) (some ch) now s emit in
      receive_all ch later s' emit'

  seen_after : List (ℕ × ℕ) → List ℕ → List ℕ
  seen_after [] seen = seen
  seen_after ((idx, now) ∷ later) seen = seen_after later (idx ∷ seen)

abbrev pub indices : List (ℕ × ℕ) → List ℕ
indices [] = []
indices ((idx, now) ∷ later) = idx ∷ indices later

abbrev pub AllSmall : List ℕ → Type 0
AllSmall [] = Unit
AllSmall (idx ∷ is) = (idx < index_limit) × AllSmall is

module _ (source : ℕ → List ℕ) (ch : ℕ) where
  -- What a channel at `c` has become, with `n` payloads of the stream handed on.
  pub record Delivered (c : OrderedChannel) (is : List ℕ) (emit : Emitted) (s : ClientSession)
      (out : Emitted) : Type 0 where
    pub taken : ℕ
    pub channel : OrderedChannel
    pub here : lookup ch s.ordered_channels ≡ some channel
    pub emitted : out ≡ emit ++ stream source c.next_index taken
    pub moved : channel.next_index ≡ c.next_index + taken
    -- Nothing that could be handed on is held back.
    pub complete : (m : ℕ) → ((i : ℕ) → i < m → arrived (c.next_index + i) is ≡ true) → m ≤ taken

  receive_one :
      (c : OrderedChannel) (seen : List ℕ) (idx now : ℕ) (s : ClientSession) (emit : Emitted)
      → lookup ch s.ordered_channels ≡ some c
      → idx < index_limit
      → Tracks source c seen
      → (n : ℕ) × (c' : OrderedChannel) × (lookup ch
            (buffer_ordered_payload (source idx) (some idx) (some ch) now s emit).0.ordered_channels
          ≡ some c')
        × ((buffer_ordered_payload (source idx) (some idx) (some ch) now s emit).1
            ≡ emit ++ stream source c.next_index n)
        × (c'.next_index ≡ c.next_index + n)
        × Tracks source c' (idx ∷ seen)
        × (lookup c'.next_index c'.buffer ≡ none)
  unfolding buffer_ordered_payload deliver
  receive_one c seen idx now s emit e h t =
      let (t₁, same) = place-Tracks source c seen idx now h t in
      let placed = place idx (source idx) now c in
      let (run, out, f) = flush_lem placed emit in
      let (t₂, r, moved) = flush-Tracks source placed (idx ∷ seen) run (flush placed emit).0 t₁ f in
      (
        length run,
        (flush placed emit).0,
        rw e (lookup-insert_self ch _ s.ordered_channels),
        rw e (out ∙ ap (λ x. emit ++ x) (r ∙ ap (λ n. stream source n (length run)) same)),
        moved ∙ ap (λ n. n + length run) same,
        t₂,
        f.gap,
      )

  receive_all_lem :
      (frames : List (ℕ × ℕ)) (c : OrderedChannel) (seen : List ℕ) (s : ClientSession)
      (emit : Emitted)
      → lookup ch s.ordered_channels ≡ some c
      → AllSmall (indices frames)
      → Tracks source c seen
      → lookup c.next_index c.buffer ≡ none
      → (n : ℕ) × (c' : OrderedChannel) × (lookup ch
            (receive_all source ch frames s emit).0.ordered_channels
          ≡ some c')
        × ((receive_all source ch frames s emit).1 ≡ emit ++ stream source c.next_index n)
        × (c'.next_index ≡ c.next_index + n)
        × Tracks source c' (seen_after source frames seen)
        × (lookup c'.next_index c'.buffer ≡ none)
  unfolding receive_all seen_after
  receive_all_lem [] c seen s emit e small t gap =
      (0, c, e, sym (append-nil emit), omega arith, t, gap)
  receive_all_lem ((idx, now) ∷ frames) c seen s emit e (h, small) t gap =
      let (n, c₁, e₁, out₁, m₁, t₁, g₁) = receive_one c seen idx now s emit e h t in
      let next = buffer_ordered_payload (source idx) (some idx) (some ch) now s emit in
      let (k, c₂, e₂, out₂, m₂, t₂, g₂) =
        receive_all_lem frames c₁ (idx ∷ seen) next.0 next.1 e₁ small t₁ g₁ in
      (
        n + k,
        c₂,
        e₂,
        out₂
            ∙ ap (λ x. x ++ stream source c₁.next_index k) out₁
            ∙ append_assoc emit (stream source c.next_index n) (stream source c₁.next_index k)
            ∙ ap (λ x. emit ++ x)
                (ap (λ i. stream source c.next_index n ++ stream source i k) m₁
                  ∙ stream-append source c.next_index n k),
        omega (arith, m₁, m₂),
        t₂,
        g₂,
      )

  arrived-seen :
      (frames : List (ℕ × ℕ)) (seen : List ℕ) (j : ℕ)
      → arrived j seen ≡ true
      → arrived j (seen_after source frames seen) ≡ true
  unfolding seen_after
  arrived-seen [] seen j h = h
  arrived-seen ((idx, now) ∷ frames) seen j h = arrived-seen frames (idx ∷ seen) j (ground arith)

  arrived-indices :
      (frames : List (ℕ × ℕ)) (seen : List ℕ) (j : ℕ)
      → arrived j (indices frames) ≡ true
      → arrived j (seen_after source frames seen) ≡ true
  unfolding seen_after
  arrived-indices [] seen j h = cc
  arrived-indices ((idx, now) ∷ frames) seen j h = elim (Bool-cases (idx == j)) [
    | inl same ↦ arrived-seen frames (idx ∷ seen) j (rw same)
    | inr other ↦ arrived-indices frames (idx ∷ seen) j (rw other at h)
  ]

  -- Frames with any indices arrive on a channel that has started, in any order and repeated or
  -- not, with nothing pruned between them: what is handed on is the sender's payloads under
  -- consecutive indices from `next_index` on, each once; and if the first `m` of them have
  -- arrived, at least `m` are handed on.
  pub receive_all_in_order :
      (frames : List (ℕ × ℕ)) (c : OrderedChannel) (s : ClientSession) (emit : Emitted)
      → lookup ch s.ordered_channels ≡ some c
      → AllSmall (indices frames)
      → Tracks source c []
      → lookup c.next_index c.buffer ≡ none
      → Delivered c
          (indices frames)
          emit
          (receive_all source ch frames s emit).0
          (receive_all source ch frames s emit).1
  receive_all_in_order frames c s emit e small t gap =
      let (n, c', e', out, moved, t', gap') = receive_all_lem frames c [] s emit e small t gap in
      record {
        taken = n;
        channel = c';
        here = e';
        emitted = out;
        moved = moved;
        complete = λ m all. elim (dec_lt n m) [
          | no enough ↦ omega arith
          | yes short ↦
              elim (t'.present (c.next_index + n)
                (arrived-indices frames [] (c.next_index + n) (all n short))) [
                  | inl behind ↦ absurd (omega arith)
                  | inr (entry, found) ↦
                      (let hole : lookup (c.next_index + n) c'.buffer ≡ none = rw moved at gap' in
                        cc)
                ]
        ];
      }
