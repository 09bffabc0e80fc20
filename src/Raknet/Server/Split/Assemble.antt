-- ===== src/Raknet/Server/Split/Assemble.antt =====
-- What one fragment does to the table of reassembly buffers.
use skin_get_be_rust.Prelude.{
  ℕ, zero, suc, ◌<◌, ◌≤◌, ◌≡◌, refl, sym, ap, ◌∙◌, Bool, true, false, ◌||◌, List, [], ◌∷◌, Option,
  none, some, length, ltb, ◌==◌, get_or, set, replicate, arith, Bool-cases, inl, inr, ==_iff,
  length-set,
}
use skin_get_be_rust.Prelude.Map.{
  nat_eq, pair_eq, lookup, insert, remove, lookup-insert_self, lookup-remove_self,
}
use skin_get_be_rust.Raknet.Protocol.{RakNetFrame}
use skin_get_be_rust.Raknet.Server.Session.{SplitBuffer, SocketAddr, addr_eq, max_split_parts}
use skin_get_be_rust.Raknet.Server.Split.{
  Assembled, SplitBuffers, concat, new_buffer, store_fragment, take_fragment, split_step, settle,
  or_buffer, marked, assembled,
}
use skin_get_be_rust.Raknet.Server.Split.Entry.{
  Holds, Agree-fresh, Agree-length, trues, trues-lt, all_true, get_or-set, store_old, store_more,
  store_last, trues-set,
}

abbrev pub seen_in : ℕ → List ℕ → Bool
seen_in i [] = false
seen_in i (j ∷ js) = j == i || seen_in i js

-- Fragment `i` of a packet of `parts`, with headers that all its fragments share.
abbrev pub fragment : List (List ℕ) → RakNetFrame → ℕ → ℕ → RakNetFrame
fragment parts header sid i = record header {
  is_split = true;
  payload = get_or parts i [];
  split_count = some (length parts);
  split_id = some sid;
  split_index = some i;
}

module _ (parts : List (List ℕ)) (header : RakNetFrame) (from : SocketAddr) (sid : ℕ)
    (some_parts : 0 < length parts) (few : length parts ≤ max_split_parts) where
  abbrev pub frame : ℕ → RakNetFrame
  frame = fragment parts header sid

  abbrev pub key : SocketAddr × ℕ
  key = (from, sid)

  -- The buffer that the next fragment meets, at whatever time it comes.
  abbrev current : SplitBuffers → ℕ → ℕ → SplitBuffer
  current buffers i now = or_buffer (lookup key buffers) (new_buffer (frame i) (length parts) now)

  abbrev Marks : SplitBuffer → List ℕ → Type 0
  Marks entry seen = (i : ℕ) → i < length parts → get_or entry.received i false ≡ seen_in i seen

  abbrev pub Inv : SplitBuffers → List ℕ → Type 0
  Inv buffers seen =
      (j now : ℕ) → Holds parts (current buffers j now) × Marks (current buffers j now) seen

  get_or-replicate : (n i : ℕ) → get_or (replicate n false) i false ≡ false
  get_or-replicate zero i = refl
  get_or-replicate (suc n) zero = refl
  get_or-replicate (suc n) (suc i) = get_or-replicate n i

  trues-replicate : (n : ℕ) → trues (replicate n false) ≡ 0
  trues-replicate zero = refl
  trues-replicate (suc n) = trues-replicate n

  pub Inv-fresh : (buffers : SplitBuffers) → lookup key buffers ≡ none → Inv buffers []
  Inv-fresh buffers h j now = rw h (
    record {
      count = refl;
      agree = Agree-fresh parts;
      counted = sym (trues-replicate (length parts));
      open_ = some_parts;
    },
    λ i lt. get_or-replicate (length parts) i,
  )

  step_lem :
      (buffers : SplitBuffers) (i now : ℕ)
      → split_step from (some sid) (frame i) now buffers
        ≡ settle key buffers (store_fragment i (get_or parts i []) (current buffers i now))
  unfolding split_step take_fragment
  step_lem buffers i now =
      let a : (length parts == 0) ≡ false = ground arith in
      let b : ltb max_split_parts (length parts) ≡ false = ground arith in rw (a, b)

  settle-some :
      (buffers : SplitBuffers) (p : SplitBuffer × Option Assembled) {out : Assembled}
      → p.1 ≡ some out
      → settle key buffers p ≡ (remove key buffers, some out)
  settle-some buffers (entry, none) h = cc
  settle-some buffers (entry, some out) h = ap (λ o. (remove key buffers, o)) h

  Inv-insert :
      (buffers : SplitBuffers) (entry : SplitBuffer) (seen : List ℕ)
      → Holds parts entry
      → Marks entry seen
      → Inv (insert key entry buffers) seen
  Inv-insert buffers entry seen h m j now = rw (lookup-insert_self key entry buffers) (h, m)

  Marks-old :
      (entry : SplitBuffer) (i : ℕ) (seen : List ℕ)
      → seen_in i seen ≡ true
      → Marks entry seen
      → Marks entry (i ∷ seen)
  Marks-old entry i seen old m j lt = elim (Bool-cases (i == j)) [
    | inl same ↦
        let e : i ≡ j = (==_iff i j).0 same in
        rw same (m j lt ∙ ap (λ k. seen_in k seen) (sym e) ∙ old)
    | inr other ↦ rw other (m j lt)
  ]

  module _ (buffers : SplitBuffers) (seen : List ℕ) (inv : Inv buffers seen) (i now : ℕ)
      (inside : i < length parts) where
    abbrev entry : SplitBuffer
    entry = current buffers i now

    holds : Holds parts (current buffers i now)
    holds = (inv i now).0

    marks : Marks (current buffers i now) seen
    marks = (inv i now).1

    size : length entry.received ≡ length parts
    size = (Agree-length holds.agree).0

    Marks-new : Marks (marked i (get_or parts i []) entry) (i ∷ seen)
    Marks-new j lt = ground (arith, get_or-set entry.received i j (omega (arith, size)), marks j lt)

    -- A fragment that leaves some part missing completes nothing.
    pub step_open :
        (gap : ℕ)
        → gap < length parts
        → seen_in gap (i ∷ seen) ≡ false
        → ((split_step from (some sid) (frame i) now buffers).1 ≡ none)
          × Inv (split_step from (some sid) (frame i) now buffers).0 (i ∷ seen)
    step_open gap lt missing = elim (Bool-cases (seen_in i seen)) [
      | inl old ↦
          rw
            (
              step_lem buffers i now,
              store_old parts (current buffers i now) i holds (marks i inside ∙ old),
            )
            (
              refl,
              Inv-insert buffers (current buffers i now) (i ∷ seen) holds
                  (Marks-old (current buffers i now) i seen old marks),
            )
      | inr new ↦
          let fresh : get_or entry.received i false ≡ false = marks i inside ∙ new in
          let unseen : seen_in gap seen ≡ false = ground arith in
          let other : (i == gap) ≡ false = ground arith in
          let hole : get_or (set entry.received i true) gap false ≡ false =
            Marks-new gap lt ∙ rw (other, unseen) in
          let more : suc (trues entry.received) < length parts = omega (
            arith,
            trues-lt (set entry.received i true) gap
                (omega (arith, size, length-set entry.received i true)) hole,
            trues-set entry.received i (omega (arith, size)) fresh,
            length-set entry.received i true,
            size,
          ) in
          let (stored, held) = store_more parts entry i holds fresh inside more in
          rw (step_lem buffers i now, stored)
            (
              refl,
              Inv-insert buffers (marked i (get_or parts i []) entry) (i ∷ seen) held Marks-new,
            )
    ]

    -- The last fragment completes the packet, which is then forgotten.
    pub step_last :
        seen_in i seen ≡ false
        → ((k : ℕ) → k < length parts → seen_in k (i ∷ seen) ≡ true)
        → ((out : Assembled) × ((split_step from (some sid) (frame i) now buffers).1 ≡ some out)
            × (out.payload ≡ concat parts))
          × (lookup key (split_step from (some sid) (frame i) now buffers).0 ≡ none)
    step_last new all =
        let fresh : get_or entry.received i false ≡ false = marks i inside ∙ new in
        let full : suc (trues entry.received) ≡ length parts = omega (
          arith,
          all_true (set entry.received i true) (λ k lt.
              let lt' : k < length parts = omega (arith, size, length-set entry.received i true) in
              Marks-new k lt' ∙ all k lt'),
          trues-set entry.received i (omega (arith, size)) fresh,
          length-set entry.received i true,
          size,
        ) in
        let done = store_last parts entry i holds fresh inside full in
        rw
          (
            step_lem buffers i now,
            settle-some buffers (store_fragment i (get_or parts i []) entry) done,
          )
          (
            (record (assembled entry) { payload = concat parts }, refl, refl),
            lookup-remove_self key buffers,
          )
