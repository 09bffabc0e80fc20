-- ===== src/Prelude/Map.antt =====
-- Finite maps as association lists: the `HashMap` and `BTreeMap` of the code, which looks keys up,
-- inserts, removes and filters, and never depends on the order of the entries.
use Prim.Native.Nat.{ℕ, ◌<◌, ◌≤◌}
use mathlib.Core.Path.{◌≡◌, refl}
use mathlib.Core.Logic.{◌↔◌}
use mathlib.Core.Bool.{Bool, true, ◌&&◌}
use mathlib.Core.Option.{Option, none, some}
use mathlib.Core.List.{List, [], ◌∷◌}
use native.Mathlib.Omega.{arith}
use skin_get_be_rust.Prelude.Tests.{◌==◌, ==_iff, if◌then◌else◌}
use skin_get_be_rust.Prelude.Lists.{length}

-- Equality of keys.
pub record Eq (K : Type 0) : Type 0 where
  pub beq : K → K → Bool
  pub beq_iff : (a b : K) → (beq a b ≡ true) ↔ (a ≡ b)

instance abbrev pub nat_eq : Eq ℕ
nat_eq = record { beq = ◌==◌; beq_iff = ==_iff }

module _ {A B : Type 0} ⦃e : Eq A⦄ ⦃f : Eq B⦄ where
  abbrev pair_beq : A × B → A × B → Bool
  pair_beq (a, b) (c, d) = e.beq a c && f.beq b d

  pub pair_beq_iff : (p q : A × B) → (pair_beq p q ≡ true) ↔ (p ≡ q)
  pair_beq_iff (a, b) (c, d) = ground (arith, e.beq_iff a c, f.beq_iff b d)

  instance abbrev pub pair_eq : Eq (A × B)
  pair_eq = record { beq = pair_beq; beq_iff = pair_beq_iff }

pub beq_refl : {K : Type 0} ⦃e : Eq K⦄ (k : K) → e.beq k k ≡ true
beq_refl ⦃e⦄ k = (e.beq_iff k k).1 refl

abbrev pub Map : Type 0 → Type 0 → Type 0
Map K V = List (K × V)

module _ {K V : Type 0} ⦃e : Eq K⦄ where
  unfoldable pub lookup : K → Map K V → Option V
  lookup k [] = none
  lookup k ((j, v) ∷ m) = if e.beq j k then some v else lookup k m

  unfoldable pub remove : K → Map K V → Map K V
  remove k [] = []
  remove k ((j, v) ∷ m) = let rest = remove k m in if e.beq j k then rest else (j, v) ∷ rest

  unfoldable pub insert : K → V → Map K V → Map K V
  insert k v m = (k, v) ∷ remove k m

  -- `retain`
  unfoldable pub retain : (K → V → Bool) → Map K V → Map K V
  retain keep [] = []
  retain keep ((j, v) ∷ m) = let rest = retain keep m in if keep j v then (j, v) ∷ rest else rest

  pub lookup-remove :
      (k j : K) (m : Map K V) → lookup j (remove k m) ≡ (if e.beq k j then none else lookup j m)
  unfolding lookup remove
  lookup-remove k j [] = ground arith
  lookup-remove k j ((i, v) ∷ m) =
      ground (arith, e.beq_iff i k, e.beq_iff i j, e.beq_iff k j, lookup-remove k j m)

  pub lookup-insert :
      (k j : K) (v : V) (m : Map K V)
      → lookup j (insert k v m) ≡ (if e.beq k j then some v else lookup j m)
  unfolding insert lookup
  lookup-insert k j v m = ground (arith, lookup-remove k j m)

  pub lookup-insert_self : (k : K) (v : V) (m : Map K V) → lookup k (insert k v m) ≡ some v
  lookup-insert_self k v m = rw (lookup-insert k k v m, beq_refl k)

  pub lookup-remove_self : (k : K) (m : Map K V) → lookup k (remove k m) ≡ none
  lookup-remove_self k m = rw (lookup-remove k k m, beq_refl k)

  pub length-remove_le : (k : K) (m : Map K V) → length (remove k m) ≤ length m
  unfolding remove
  length-remove_le k [] = omega arith
  length-remove_le k ((j, v) ∷ m) = ground (arith, length-remove_le k m)

  pub length-remove_lt :
      (k : K) (m : Map K V) (v : V) → lookup k m ≡ some v → length (remove k m) < length m
  unfolding remove lookup
  length-remove_lt k [] v h = cc
  length-remove_lt k ((j, w) ∷ m) v h = ground (arith, length-remove_le k m, length-remove_lt k m v)
