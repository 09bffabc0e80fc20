-- ===== src/Prelude/Bytes.antt =====
-- The bytes of a word, as `to_be_bytes` and `to_le_bytes` give them.
use Prim.Native.Nat.{ℕ, ◌/◌, ◌%◌, ◌^◌}
use mathlib.Core.List.{List, [], ◌∷◌}

abbrev pub u16_bytes : ℕ → List ℕ
u16_bytes v = v / 2 ^ 8 % 256 ∷ v % 256 ∷ []

abbrev pub u16_le_bytes : ℕ → List ℕ
u16_le_bytes v = v % 256 ∷ v / 2 ^ 8 % 256 ∷ []

abbrev pub u24_le_bytes : ℕ → List ℕ
u24_le_bytes v = v % 256 ∷ v / 2 ^ 8 % 256 ∷ v / 2 ^ 16 % 256 ∷ []

abbrev pub u32_bytes : ℕ → List ℕ
u32_bytes v = v / 2 ^ 24 % 256 ∷ v / 2 ^ 16 % 256 ∷ v / 2 ^ 8 % 256 ∷ v % 256 ∷ []

abbrev pub u32_le_bytes : ℕ → List ℕ
u32_le_bytes v = v % 256 ∷ v / 2 ^ 8 % 256 ∷ v / 2 ^ 16 % 256 ∷ v / 2 ^ 24 % 256 ∷ []

abbrev pub u64_bytes : ℕ → List ℕ
u64_bytes v =
    v / 2 ^ 56 % 256 ∷ v / 2 ^ 48 % 256 ∷ v / 2 ^ 40 % 256 ∷ v / 2 ^ 32 % 256 ∷ u32_bytes v

abbrev pub u64_le_bytes : ℕ → List ℕ
u64_le_bytes v =
    v % 256
    ∷ v / 2 ^ 8 % 256
    ∷ v / 2 ^ 16 % 256
    ∷ v / 2 ^ 24 % 256
    ∷ v / 2 ^ 32 % 256
    ∷ v / 2 ^ 40 % 256
    ∷ v / 2 ^ 48 % 256
    ∷ v / 2 ^ 56 % 256
    ∷ []
