-- ===== src/Raknet/Protocol/Fields.antt =====
-- The readers of the frame parser on a datagram that has the fields: their values.
use skin_get_be_rust.Prelude.{
  ℕ, suc, ◌+◌, ◌/◌, ◌%◌, ◌^◌, ◌<◌, ◌≡◌, refl, sym, ap, ◌∙◌, true, false, List, [], ◌∷◌, ◌++◌,
  Option, none, some, length, leb, ltb, arith, get_or, get_or-drop, drop, length-drop, drop-drop,
  take, bit_or, take_prefix, le→leb, drop_prefix, append-nil,
}
use skin_get_be_rust.Prelude.Bits.{shl, or_shl}
use skin_get_be_rust.Prelude.Bytes.{u24_le_bytes}
use skin_get_be_rust.Raknet.Protocol.{
  at, read_u24_le, has_reliable, has_ordering, reliable_field, Ordering, order_field, finish_frame,
}

module _ (buf : List ℕ) (off : ℕ) where
  at-drop : {xs : List ℕ} → drop off buf ≡ xs → (i : ℕ) → at buf (off + i) ≡ get_or xs i 0
  at-drop h i = sym (get_or-drop i off buf 0) ∙ ap (λ ys. get_or ys i 0) h

  at-drop_head : {x : ℕ} {xs : List ℕ} → drop off buf ≡ x ∷ xs → at buf off ≡ x
  at-drop_head h = let e : off ≡ off + 0 = omega arith in ap (at buf) e ∙ at-drop h 0

  pub length-fields :
      {x : ℕ} {xs : List ℕ} → drop off buf ≡ x ∷ xs → off + suc (length xs) ≡ length buf
  length-fields h = omega (arith, length-drop off buf, ap length h)

  pub drop-fields :
      (pre rest : List ℕ) (n : ℕ)
      → n ≡ length pre
      → drop off buf ≡ pre ++ rest
      → drop (off + n) buf ≡ rest
  drop-fields pre rest n e h =
      let swap : off + n ≡ n + off = omega arith in
      rw swap (sym (drop-drop n off buf) ∙ ap (drop n) h ∙ drop_prefix pre rest n e)

  pub read_u24_le_lem :
      (v : ℕ) (rest : List ℕ)
      → v < 2 ^ 24
      → drop off buf ≡ u24_le_bytes v ++ rest
      → read_u24_le buf off ≡ some (v, off + 3)
  unfolding read_u24_le
  read_u24_le_lem v rest small h =
      let a : at buf off ≡ v % 256 = at-drop_head h in
      let b : at buf (off + 1) ≡ v / 2 ^ 8 % 256 = at-drop h 1 in
      let c : at buf (off + 2) ≡ v / 2 ^ 16 % 256 = at-drop h 2 in
      let room : leb (off + 3) (length buf) ≡ true = le→leb _ _ (omega (arith, length-fields h)) in
      let low : bit_or (v % 256) (shl 32 (v / 2 ^ 8 % 256) 8) ≡ v % 2 ^ 16 =
        or_shl 32 8 (v / 2 ^ 8 % 256) (v % 256) (omega arith) (omega arith) ∙ omega arith in
      let all : bit_or (v % 2 ^ 16) (shl 32 (v / 2 ^ 16 % 256) 16) ≡ v =
        or_shl 32 16 (v / 2 ^ 16 % 256) (v % 2 ^ 16) (omega arith) (omega arith) ∙ omega arith in
      rw (room, a, b, c, low) (ap (λ x. some (x, off + 3)) all)

  pub reliable_field_lem :
      (r v : ℕ) (rest : List ℕ)
      → v < 2 ^ 24
      → has_reliable r ≡ true
      → drop off buf ≡ u24_le_bytes v ++ rest
      → reliable_field buf r off ≡ some (some v, off + 3)
  unfolding reliable_field
  reliable_field_lem r v rest small e h = rw (e, read_u24_le_lem v rest small h)

  pub reliable_field-none :
      (r : ℕ) → has_reliable r ≡ false → reliable_field buf r off ≡ some (none, off)
  unfolding reliable_field
  reliable_field-none r e = rw e

  pub order_field-none :
      (r : ℕ)
      → has_ordering r ≡ false
      → order_field buf r off ≡ some (record { index = none; channel = none; next = off })
  unfolding order_field
  order_field-none r e = rw e

module _ (buf : List ℕ) (off : ℕ) where
  pub order_field_on_0 :
      (r v : ℕ) (rest : List ℕ)
      → v < 2 ^ 24
      → has_ordering r ≡ true
      → drop off buf ≡ u24_le_bytes v ++ (0 ∷ rest)
      → order_field buf r off ≡ some (record { index = some v; channel = some 0; next = off + 4 })
  unfolding order_field
  order_field_on_0 r v rest small e h =
      let behind : drop (off + 3) buf ≡ 0 ∷ rest =
        drop-fields buf off (u24_le_bytes v) (0 ∷ rest) 3 refl h in
      let zero_ : at buf (off + 3) ≡ 0 = at-drop_head buf (off + 3) behind in
      let inside : ltb (off + 3) (length buf) ≡ true =
        ground (arith, length-fields buf (off + 3) behind) in
      let sum : off + 3 + 1 ≡ off + 4 = omega arith in
      rw (e, read_u24_le_lem buf off v (0 ∷ rest) small h, inside, zero_, sum)

  -- The payload is what is left.
  pub finish_frame_last :
      (r : ℕ) (seq : Option ℕ) (order : Ordering) (payload : List ℕ)
      → order.next ≡ off
      → drop off buf ≡ payload
      → off + length payload ≡ length buf
      → finish_frame buf r false
          (length payload)
          seq
          order
          (record { count = none; id = none; index = none; next = off })
        ≡ some (
          record {
            reliability = r;
            is_split = false;
            payload = payload;
            reliable_seq = seq;
            order_index = order.index;
            order_channel = order.channel;
            split_count = none;
            split_id = none;
            split_index = none;
          },
          length buf,
        )
  unfolding finish_frame
  finish_frame_last r seq order payload e h size =
      let room : leb (off + length payload) (length buf) ≡ true = le→leb _ _ (omega arith) in
      let whole : take (length payload) (drop off buf) ≡ payload = rw h (
        ap (take (length payload)) (sym (append-nil payload))
        ∙ take_prefix payload [] (length payload) refl) in
      rw (room, whole, size)
