-- ===== src/Buffer/VarInt/Encode.antt =====
-- What `write_var_int` appends, in plain arithmetic.
use mathlib.Core.WellFounded.{Acc}
use skin_get_be_rust.Prelude.{
  ℕ, zero, suc, ◌+◌, ◌/◌, ◌%◌, ◌^◌, ◌<◌, ◌≤◌, ◌≡◌, refl, List, [], ◌∷◌, ◌++◌, append_assoc, arith,
  length, bit_and, bit_or, lt_wf, ltb, if◌then◌else◌,
}
use skin_get_be_rust.Prelude.Bits.{and_0x7f, set_top_bit}
use skin_get_be_rust.Error.{ok}
use skin_get_be_rust.Buffer.{Buffer}
use skin_get_be_rust.Buffer.Writes.{write_u8}
use skin_get_be_rust.Buffer.VarInt.{write_var_int_loop, write_var_int}

-- The encoding of a value below 128 ^ (k + 1).
unfoldable pub var_int : ℕ → ℕ → List ℕ
var_int zero v = v ∷ []
var_int (suc k) v =
    let rest = var_int k (v / 128) in if ltb 0x7f v then (v % 128 + 128) ∷ rest else v ∷ []

-- A `u32` has five groups at most.
abbrev pub var_int32 : ℕ → List ℕ
var_int32 = var_int 4

abbrev pub appended : List ℕ → Buffer → Buffer
appended xs b = record b { bytes = b.bytes ++ xs }

inner_group : (v : ℕ) → bit_or (bit_and v 0x7f) 0x80 ≡ v % 128 + 128
inner_group v = rw and_0x7f (set_top_bit _ (omega arith))

last_group : (v : ℕ) → v < 128 → bit_and v 0x7f ≡ v
last_group v h = rw and_0x7f (omega arith)

write_var_int_loop_lem :
    (k v : ℕ) (w : Acc ◌<◌ v) (b : Buffer)
    → v < 128 ^ suc k
    → write_var_int_loop v w b ≡ (ok tt, appended (var_int k v) b)
unfolding write_var_int_loop var_int write_u8
write_var_int_loop_lem zero v (Acc.intro _ smaller) b h = ground (arith, last_group v)
write_var_int_loop_lem (suc k) v (Acc.intro _ smaller) b h =
    let head : List ℕ = (v % 128 + 128) ∷ [] in
    grind (
      arith,
      inner_group v,
      last_group v,
      λ (w : Acc ◌<◌ (v / 128)).
          write_var_int_loop_lem k (v / 128) w (appended head b) (omega arith),
      append_assoc b.bytes head (var_int k (v / 128)),
    )

-- `write_var_int` appends the encoding of a `u32` and leaves the cursor.
pub write_var_int_lem :
    (v : ℕ) (b : Buffer) → v < 2 ^ 32 → write_var_int v b ≡ (ok tt, appended (var_int32 v) b)
unfolding write_var_int
write_var_int_lem v b h = write_var_int_loop_lem 4 v (lt_wf.apply v) b (omega arith)

pub length-var_int : (k v : ℕ) → (1 ≤ length (var_int k v)) × (length (var_int k v) ≤ k + 1)
unfolding var_int
length-var_int zero v = omega arith
length-var_int (suc k) v = ground (arith, length-var_int k (v / 128))

pub var_int_more : (k v : ℕ) → 0x7f < v → var_int (suc k) v ≡ (v % 128 + 128) ∷ var_int k (v / 128)
unfolding var_int
var_int_more k v h = ground arith

pub var_int_done : (k v : ℕ) → v < 128 → var_int k v ≡ v ∷ []
unfolding var_int
var_int_done zero v h = refl
var_int_done (suc k) v h = ground arith
