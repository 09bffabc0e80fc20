-- ===== src/Prelude/Lists.antt =====
-- Lists measured and indexed by native numbers, under the library's names.
use Prim.Native.Nat.{ℕ, zero, suc, ◌+◌, ◌-◌, min}
use mathlib.Core.Path.{◌≡◌, refl, ap}
use mathlib.Core.List.{List, [], ◌∷◌, ◌++◌, map}
use mathlib.Core.Option.{Option, none, some}
use native.Mathlib.Omega.{arith}

module _ {ℓ} {A : Type ℓ} where
  abbrev pub length : List A → ℕ
  length [] = 0
  length (x ∷ xs) = suc (length xs)

  abbrev pub get_elem? : List A → ℕ → Option A
  get_elem? [] i = none
  get_elem? (x ∷ xs) zero = some x
  get_elem? (x ∷ xs) (suc i) = get_elem? xs i

  -- A write out of bounds changes nothing.
  abbrev pub set : List A → ℕ → A → List A
  set [] i v = []
  set (x ∷ xs) zero v = v ∷ xs
  set (x ∷ xs) (suc i) v = x ∷ set xs i v

  abbrev pub get_or : List A → ℕ → A → A
  get_or [] i d = d
  get_or (x ∷ xs) zero d = x
  get_or (x ∷ xs) (suc i) d = get_or xs i d

  abbrev pub take : ℕ → List A → List A
  take zero xs = []
  take (suc n) [] = []
  take (suc n) (x ∷ xs) = x ∷ take n xs

  abbrev pub drop : ℕ → List A → List A
  drop zero xs = xs
  drop (suc n) [] = []
  drop (suc n) (x ∷ xs) = drop n xs

  abbrev pub replicate : ℕ → A → List A
  replicate zero a = []
  replicate (suc n) a = a ∷ replicate n a

  abbrev pub All {κ} : (A → Type κ) → List A → Type κ
  All P [] = Unit {κ}
  All P (x ∷ xs) = P x × All P xs

  pub length-append : (xs ys : List A) → length (xs ++ ys) ≡ length xs + length ys
  length-append [] ys = omega arith
  length-append (x ∷ xs) ys = omega (arith, length-append xs ys)

module _ {ℓ} {A : Type ℓ} where
  pub length-set : (xs : List A) (i : ℕ) (v : A) → length (set xs i v) ≡ length xs
  length-set [] i v = refl
  length-set (x ∷ xs) zero v = refl
  length-set (x ∷ xs) (suc i) v = ap suc (length-set xs i v)

  pub take-append-drop : (n : ℕ) (xs : List A) → take n xs ++ drop n xs ≡ xs
  take-append-drop zero xs = refl
  take-append-drop (suc n) [] = refl
  take-append-drop (suc n) (x ∷ xs) = rw (take-append-drop n xs)

  pub length-take : (n : ℕ) (xs : List A) → length (take n xs) ≡ min n (length xs)
  length-take zero xs = omega arith
  length-take (suc n) [] = omega arith
  length-take (suc n) (x ∷ xs) = omega (arith, length-take n xs)

  pub length-drop : (n : ℕ) (xs : List A) → length (drop n xs) ≡ length xs - n
  length-drop zero xs = omega arith
  length-drop (suc n) [] = omega arith
  length-drop (suc n) (x ∷ xs) = omega (arith, length-drop n xs)

  pub length-replicate : (n : ℕ) (a : A) → length (replicate n a) ≡ n
  length-replicate zero a = refl
  length-replicate (suc n) a = ap suc (length-replicate n a)

  pub length-map {κ} : {B : Type κ} (xs : List A) (f : A → B) → length (map f xs) ≡ length xs
  length-map [] f = refl
  length-map (x ∷ xs) f = ap suc (length-map xs f)

  -- Reading behind a prefix, where the prefix's length is only known up to an equation.
  pub drop_prefix : (pre xs : List A) (n : ℕ) → n ≡ length pre → drop n (pre ++ xs) ≡ xs
  drop_prefix [] xs zero h = refl
  drop_prefix [] xs (suc n) h = absurd (omega arith)
  drop_prefix (y ∷ pre) xs zero h = absurd (omega arith)
  drop_prefix (y ∷ pre) xs (suc n) h = drop_prefix pre xs n (omega arith)

  pub take_prefix : (pre xs : List A) (n : ℕ) → n ≡ length pre → take n (pre ++ xs) ≡ pre
  take_prefix [] xs zero h = refl
  take_prefix [] xs (suc n) h = absurd (omega arith)
  take_prefix (y ∷ pre) xs zero h = absurd (omega arith)
  take_prefix (y ∷ pre) xs (suc n) h = ap (◌∷◌ y) (take_prefix pre xs n (omega arith))

  pub drop-drop : (n m : ℕ) (xs : List A) → drop n (drop m xs) ≡ drop (n + m) xs
  drop-drop n m [] = ground (arith, drop-nil n, drop-nil m, drop-nil (n + m))
    where
      drop-nil : (k : ℕ) → drop {A = A} k [] ≡ []
      drop-nil zero = refl
      drop-nil (suc k) = refl
  drop-drop n zero (x ∷ xs) = let e : n + 0 ≡ n = omega arith in rw e refl
  drop-drop n (suc m) (x ∷ xs) =
      let e : n + suc m ≡ suc (n + m) = omega arith in rw e (drop-drop n m xs)

  -- An element read by its index, as the head of what is left behind the index.
  pub get_or-drop : (i n : ℕ) (xs : List A) (d : A) → get_or (drop n xs) i d ≡ get_or xs (n + i) d
  get_or-drop i zero xs d = let e : 0 + i ≡ i = omega arith in rw e refl
  get_or-drop i (suc n) [] d = refl
  get_or-drop i (suc n) (x ∷ xs) d =
      let e : suc n + i ≡ suc (n + i) = omega arith in rw e (get_or-drop i n xs d)
