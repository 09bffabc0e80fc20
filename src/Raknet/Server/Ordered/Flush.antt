-- ===== src/Raknet/Server/Ordered/Flush.antt =====
-- What flushing a channel emits, and where it stops.
use skin_get_be_rust.Prelude.{
  ℕ, zero, suc, ◌+◌, ◌%◌, ◌^◌, ◌≤◌, ◌≡◌, refl, sym, ◌∙◌, Bool, false, ◌||◌, List, [], ◌∷◌, ◌++◌,
  append-nil, append_assoc, none, some, length, ◌==◌, if◌then◌else◌, arith, Option-cases, inl, inr,
}
use skin_get_be_rust.Prelude.Map.{Map, nat_eq, lookup, remove, lookup-remove, length-remove_lt}
use skin_get_be_rust.Raknet.Server.Session.{OrderedChannel}
use skin_get_be_rust.Raknet.Server.Ordered.{Emitted, flush_entry, flush_loop, flush}

-- `u32::wrapping_add(1)`
abbrev pub next_of : ℕ → ℕ
next_of i = (i + 1) % 2 ^ 32

-- The payloads `run` stand in the buffer under consecutive indices from `i` on.
abbrev pub Stored : Map ℕ (List ℕ × ℕ) → ℕ → Emitted → Type 0
Stored m i [] = Unit
Stored m i (p ∷ run) = ((t : ℕ) × (lookup i m ≡ some (p, t))) × Stored m (next_of i) run

-- `j` is one of those indices.
abbrev pub in_run : ℕ → Emitted → ℕ → Bool
in_run i [] j = false
in_run i (p ∷ run) j = i == j || in_run (next_of i) run j

-- The index behind the run.
abbrev pub after_run : ℕ → Emitted → ℕ
after_run i [] = i
after_run i (p ∷ run) = after_run (next_of i) run

-- `run` is what was flushed from channel `c`, which leaves `c'`: the payloads under consecutive
-- indices from `next_index` on, up to the first index that is missing; every other entry stays.
pub record Flushed (c : OrderedChannel) (run : Emitted) (c' : OrderedChannel) : Type 0 where
  pub stored : Stored c.buffer c.next_index run
  pub next : c'.next_index ≡ after_run c.next_index run
  pub gap : lookup c'.next_index c'.buffer ≡ none
  pub rest :
      (j : ℕ) → lookup j c'.buffer ≡ (if in_run c.next_index run j then none else lookup j c.buffer)

Stored-remove :
    (m : Map ℕ (List ℕ × ℕ)) (k i : ℕ) (run : Emitted) → Stored (remove k m) i run → Stored m i run
Stored-remove m k i [] s = tt
Stored-remove m k i (p ∷ run) ((t, e), s) =
    ((t, ground (arith, lookup-remove k i m)), Stored-remove m k (next_of i) run s)

abbrev popped : OrderedChannel → OrderedChannel
popped c = record { next_index = next_of c.next_index; buffer = remove c.next_index c.buffer }

Flushed-entry :
    (c c' : OrderedChannel) (p : List ℕ) (t : ℕ) (run : Emitted)
    → lookup c.next_index c.buffer ≡ some (p, t)
    → Flushed (popped c) run c'
    → Flushed c (p ∷ run) c'
Flushed-entry c c' p t run e f = record {
  stored = ((t, e), Stored-remove c.buffer c.next_index (next_of c.next_index) run f.stored);
  next = f.next;
  gap = f.gap;
  rest = λ j. f.rest j ∙ ground (arith, lookup-remove c.next_index j c.buffer);
}

Flushed-nil : (c : OrderedChannel) → lookup c.next_index c.buffer ≡ none → Flushed c [] c
Flushed-nil c e = record { stored = tt; next = refl; gap = e; rest = λ j. refl }

lookup-nil : (i : ℕ) (m : Map ℕ (List ℕ × ℕ)) → length m ≡ 0 → lookup i m ≡ none
unfolding lookup
lookup-nil i [] h = refl
lookup-nil i (x ∷ m) h = absurd (omega arith)

abbrev Extends : OrderedChannel → Emitted → OrderedChannel × Emitted → Type 0
Extends c emit r = (run : Emitted) × (r.1 ≡ emit ++ run) × Flushed c run r.0

flush_loop_lem :
    (fuel : ℕ) (c : OrderedChannel) (emit : Emitted)
    → length c.buffer ≤ fuel
    → Extends c emit (flush_loop fuel c emit)
unfolding flush_loop flush_entry
flush_loop_lem zero c emit h =
    ([], sym (append-nil emit), Flushed-nil c (lookup-nil _ c.buffer (omega arith)))
flush_loop_lem (suc fuel) c emit h = elim (Option-cases (lookup c.next_index c.buffer)) [
  | inl gap ↦ rw gap ([], sym (append-nil emit), Flushed-nil c gap)
  | inr ((p, t), e) ↦
      let (run, out, f) =
        flush_loop_lem fuel (popped c) (emit ++ (p ∷ []))
          (omega (arith, length-remove_lt c.next_index c.buffer (p, t) e)) in
      rw e (p ∷ run, out ∙ append_assoc emit (p ∷ []) run, Flushed-entry c _ p t run e f)
]

-- Flushing a channel appends the payloads under consecutive indices from `next_index` on, stops
-- only at an index that is not there, and keeps every other entry.
pub flush_lem :
    (c : OrderedChannel) (emit : Emitted)
    → (run : Emitted) × ((flush c emit).1 ≡ emit ++ run) × Flushed c run (flush c emit).0
flush_lem c emit = flush_loop_lem (length c.buffer) c emit (omega arith)
