-- ===== src/Buffer/VarInt/RoundTrip.antt =====
-- `read_var_int` reads back what `write_var_int` wrote, and what it returns on any input.
use native.Mathlib.Nat.{div-add-mod}
use native.Mathlib.Numerals.{towards_suc}
use native.Mathlib.Decide.{dec_lt}
use skin_get_be_rust.Prelude.{
  ℕ, zero, suc, ◌+◌, ◌*◌, ◌/◌, ◌%◌, ◌^◌, ◌<◌, ◌≡◌, ap, ◌∙◌, List, [], ◌∷◌, ◌++◌, append_assoc,
  arith, length, bit_and, bit_or, drop,
}
use skin_get_be_rust.Prelude.Bits.{and_0x7f, and_top_bit, or_shl, shl}
use skin_get_be_rust.Error.{ok}
use skin_get_be_rust.Buffer.{Buffer, ◌>>◌, unread, advance}
use skin_get_be_rust.Buffer.View.{unread-advance, unread_at}
use skin_get_be_rust.Buffer.Fixed.{read_u8_lem}
use skin_get_be_rust.Buffer.Writes.{write_bytes}
use skin_get_be_rust.Buffer.VarInt.{read_var_int_loop, read_var_int, write_var_int}
use skin_get_be_rust.Buffer.VarInt.Encode.{
  var_int, var_int32, appended, write_var_int_lem, var_int_more, var_int_done,
}

-- The weight of the group behind the `i`-th.
shift_suc : (i : ℕ) → 2 ^ (7 * (i + 1)) ≡ 128 * 2 ^ (7 * i)
shift_suc i = let e : 7 * (i + 1) ≡ 7 * i + 7 = omega arith in rw e (simp towards_suc (omega arith))

-- One round of the loop on a byte over the group `g`.
module _ (n i result g : ℕ) (b : Buffer) (rest : List ℕ) (low : g < 128)
    (below : result < 2 ^ (7 * i)) (fits : g * 2 ^ (7 * i) < 2 ^ 32) where
  join : bit_or result (shl 32 g (7 * i)) ≡ result + g * 2 ^ (7 * i)
  join = or_shl 32 (7 * i) g result below fits

  last_round :
      unread b ≡ g ∷ rest
      → read_var_int_loop (suc n) i result b ≡ (ok (result + g * 2 ^ (7 * i)), advance 1 b)
  unfolding read_var_int_loop
  last_round h = rw (read_u8_lem b g rest h) (ground (arith, and_0x7f g, and_top_bit g, join))

  inner_round :
      unread b ≡ (g + 128) ∷ rest
      → read_var_int_loop (suc n) i result b
        ≡ read_var_int_loop n (i + 1) (result + g * 2 ^ (7 * i)) (advance 1 b)
  unfolding read_var_int_loop
  inner_round h =
      let group : bit_and (g + 128) 0x7f ≡ g = omega (arith, and_0x7f (g + 128)) in
      let top : bit_and (g + 128) 0x80 ≡ 128 = omega (arith, and_top_bit (g + 128) (omega arith)) in
      rw (read_u8_lem b (g + 128) rest h) (rw (top, group, join))

-- The lowest group of `v` and the rest of it, at the weights of their places.
split_group : (v i : ℕ) → v * 2 ^ (7 * i) ≡ v % 128 * 2 ^ (7 * i) + v / 128 * 2 ^ (7 * (i + 1))
split_group v i = omega (
  arith,
  ap (λ (t : ℕ). t * 2 ^ (7 * i)) (div-add-mod v 128),
  ap (λ (t : ℕ). v / 128 * t) (shift_suc i),
)

advance-suc : (b : Buffer) (m : ℕ) → advance m (advance 1 b) ≡ advance (suc m) b
advance-suc b m = ap (λ p. record b { position = p }) (omega arith)

-- `v` is what is still to be read, and counts from group `i` on.
read_var_int_loop-var_int :
    (k n v i result : ℕ) (b : Buffer) (rest : List ℕ)
    → v < 128 ^ suc k
    → k < n
    → result < 2 ^ (7 * i)
    → result + v * 2 ^ (7 * i) < 2 ^ 32
    → unread b ≡ var_int k v ++ rest
    → read_var_int_loop n i result b
      ≡ (ok (result + v * 2 ^ (7 * i)), advance (length (var_int k v)) b)
read_var_int_loop-var_int k zero v i result b rest hv hk below fits h = absurd (omega arith)
read_var_int_loop-var_int zero (suc n) v i result b rest hv hk below fits h =
    let e : var_int 0 v ≡ v ∷ [] = var_int_done 0 v (omega arith) in
    rw e (last_round n i result v b rest (omega arith) below (omega arith) (rw e at h))
read_var_int_loop-var_int (suc k) (suc n) v i result b rest hv hk below fits h =
    elim (dec_lt 0x7f v) [
      | yes more ↦
          let e = var_int_more k v more in
          let fits' : v % 128 * 2 ^ (7 * i) < 2 ^ 32 = omega (arith, split_group v i) in
          let h' : unread b ≡ (v % 128 + 128) ∷ (var_int k (v / 128) ++ rest) = rw e at h in
          let below' : result + v % 128 * 2 ^ (7 * i) < 2 ^ (7 * (i + 1)) =
            smaller (v % 128) (omega arith) in
          rw e (
            inner_round n i result (v % 128) b _ (omega arith) below fits' h'
            ∙ read_var_int_loop-var_int k n (v / 128) (i + 1) (result + v % 128 * 2 ^ (7 * i))
                (advance 1 b) rest (omega arith) (omega arith) below'
                (omega (arith, split_group v i)) (unread-advance b 1 ∙ ap (drop 1) h')
            ∙ λ j. (ok (total j), advance-suc b (length (var_int k (v / 128))) j))
      | no last ↦
          let e = var_int_done (suc k) v (omega arith) in
          rw e (last_round n i result v b rest (omega arith) below (omega arith) (rw e at h))
    ]
  where
    total : result + v % 128 * 2 ^ (7 * i) + v / 128 * 2 ^ (7 * (i + 1)) ≡ result + v * 2 ^ (7 * i)
    total = omega (arith, split_group v i)

    smaller : (g : ℕ) → g < 128 → result + g * 2 ^ (7 * i) < 2 ^ (7 * (i + 1))
    smaller g hg = grind (arith, shift_suc i, below)

-- A `u32` that was written is read back from where it stands, whatever follows it, and the
-- cursor is then behind its encoding.
pub read_var_int-var_int :
    (v : ℕ) (b : Buffer) (rest : List ℕ)
    → v < 2 ^ 32
    → unread b ≡ var_int32 v ++ rest
    → read_var_int b ≡ (ok v, advance (length (var_int32 v)) b)
unfolding read_var_int
read_var_int-var_int v b rest hv h =
    read_var_int_loop-var_int 4 5 v 0 0 b rest (omega arith) (omega arith) (omega arith)
      (omega arith) h
    ∙ λ j. (ok (same j), advance (length (var_int32 v)) b)
  where
    same : 0 + v * 2 ^ (7 * 0) ≡ v
    same = omega arith

-- `write_var_int`, then any further bytes, then `read_var_int` at the place of the write.
pub read_var_int-write_var_int :
    (v : ℕ) (rest : List ℕ) (b : Buffer)
    → v < 2 ^ 32
    → b.position ≡ length b.bytes
    → (do write_var_int v; write_bytes rest; read_var_int) b
      ≡ (ok v, advance (length (var_int32 v)) (appended (var_int32 v ++ rest) b))
unfolding write_bytes
read_var_int-write_var_int v rest b hv h = rw (write_var_int_lem v b hv) (
    rw (append_assoc b.bytes (var_int32 v) rest)
      (read_var_int-var_int v (appended (var_int32 v ++ rest) b) rest hv (unread_at b _ h)))
