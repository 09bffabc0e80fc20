-- ===== src/Raknet/Server/Split/Entry.antt =====
-- One reassembly buffer: what it holds of the packet, and when it is complete.
use skin_get_be_rust.Prelude.{
  ℕ, zero, suc, ◌+◌, ◌<◌, ◌≤◌, ◌≡◌, refl, ap, ap, ◌∙◌, Bool, true, false, not, ◌&&◌, List, [], ◌∷◌,
  none, some, length, ltb, ◌==◌, if◌then◌else◌, get_or, set, replicate, arith, Bool-cases, inl, inr,
  lt→ltb,
}
use skin_get_be_rust.Raknet.Server.Session.{SplitBuffer}
use skin_get_be_rust.Raknet.Server.Split.{concat, store_fragment, marked, assembled}

abbrev pub trues : List Bool → ℕ
trues [] = 0
trues (true ∷ r) = suc (trues r)
trues (false ∷ r) = trues r

-- Where a part has been received, the fragment is that part.
pub data Agree : List Bool → List (List ℕ) → List (List ℕ) → Type 0 where
  nil : Agree [] [] []
  got :
      {r : List Bool} {fs ps : List (List ℕ)} {f p : List ℕ}
      → f ≡ p
      → Agree r fs ps
      → Agree (true ∷ r) (f ∷ fs) (p ∷ ps)
  missing :
      {r : List Bool} {fs ps : List (List ℕ)} {f p : List ℕ}
      → Agree r fs ps
      → Agree (false ∷ r) (f ∷ fs) (p ∷ ps)

pub Agree-fresh :
    (parts : List (List ℕ))
    → Agree (replicate (length parts) false) (replicate (length parts) []) parts
Agree-fresh [] = nil
Agree-fresh (p ∷ ps) = missing (Agree-fresh ps)

pub Agree-length :
    {r : List Bool} {fs ps : List (List ℕ)}
    → Agree r fs ps
    → (length r ≡ length ps) × (length fs ≡ length ps)
Agree-length nil = (refl, refl)
Agree-length (got _ h) = let (a, b) = Agree-length h in (ap suc a, ap suc b)
Agree-length (missing h) = let (a, b) = Agree-length h in (ap suc a, ap suc b)

-- Storing the right part keeps the agreement.
pub Agree-set :
    {r : List Bool} {fs ps : List (List ℕ)} (i : ℕ)
    → Agree r fs ps
    → Agree (set r i true) (set fs i (get_or ps i [])) ps
Agree-set i nil = nil
Agree-set zero (got _ h) = got refl h
Agree-set zero (missing h) = got refl h
Agree-set (suc i) (got e h) = got e (Agree-set i h)
Agree-set (suc i) (missing h) = missing (Agree-set i h)

pub trues-le : (r : List Bool) → trues r ≤ length r
trues-le [] = omega arith
trues-le (true ∷ r) = omega (arith, trues-le r)
trues-le (false ∷ r) = omega (arith, trues-le r)

pub trues-set :
    (r : List Bool) (i : ℕ)
    → i < length r
    → get_or r i false ≡ false
    → trues (set r i true) ≡ suc (trues r)
trues-set [] i h e = absurd (omega arith)
trues-set (true ∷ r) zero h e = cc
trues-set (false ∷ r) zero h e = refl
trues-set (true ∷ r) (suc i) h e = ap suc (trues-set r i (omega arith) e)
trues-set (false ∷ r) (suc i) h e = trues-set r i (omega arith) e

-- With every part received the fragments are the parts.
pub Agree-full :
    {r : List Bool} {fs ps : List (List ℕ)} → Agree r fs ps → trues r ≡ length ps → fs ≡ ps
Agree-full nil h = refl
Agree-full (got {fs = fs} {ps = ps} {p = p} e a) h = rw (e, Agree-full a (omega arith))
Agree-full (missing {r = r} a) h = absurd (omega (arith, trues-le r, (Agree-length a).0))

-- A buffer for a packet of these parts, with its counters right and not complete.
pub record Holds (parts : List (List ℕ)) (entry : SplitBuffer) : Type 0 where
  pub count : entry.count ≡ length parts
  pub agree : Agree entry.received entry.fragments parts
  pub counted : entry.received_count ≡ trues entry.received
  pub open_ : entry.received_count < length parts

pub all_true :
    (r : List Bool) → ((i : ℕ) → i < length r → get_or r i false ≡ true) → trues r ≡ length r
all_true [] h = refl
all_true (true ∷ r) h = ap suc (all_true r (λ i lt. h (suc i) (omega arith)))
all_true (false ∷ r) h = let e : false ≡ true = h 0 (omega arith) in cc

pub trues-lt :
    (r : List Bool) (i : ℕ) → i < length r → get_or r i false ≡ false → trues r < length r
trues-lt [] i h e = absurd (omega arith)
trues-lt (true ∷ r) zero h e = cc
trues-lt (false ∷ r) zero h e = omega (arith, trues-le r)
trues-lt (true ∷ r) (suc i) h e = omega (arith, trues-lt r i (omega arith) e)
trues-lt (false ∷ r) (suc i) h e = omega (arith, trues-lt r i (omega arith) e)

pub get_or-set :
    (r : List Bool) (j i : ℕ)
    → j < length r
    → get_or (set r j true) i false ≡ (if j == i then true else get_or r i false)
get_or-set [] j i h = absurd (omega arith)
get_or-set (x ∷ r) zero zero h = refl
get_or-set (x ∷ r) zero (suc i) h = ground arith
get_or-set (x ∷ r) (suc j) zero h = ground arith
get_or-set (x ∷ r) (suc j) (suc i) h = ground (arith, get_or-set r j i)

module _ (parts : List (List ℕ)) (entry : SplitBuffer) (i : ℕ) (holds : Holds parts entry) where
  abbrev part : List ℕ
  part = get_or parts i []

  sizes : (length entry.received ≡ length parts) × (length entry.fragments ≡ length parts)
  sizes = Agree-length holds.agree

  pub store_old : get_or entry.received i false ≡ true → store_fragment i part entry ≡ (entry, none)
  unfolding store_fragment
  store_old old = elim (Bool-cases (ltb i (length entry.fragments))) [
    | inl inside ↦ rw (inside, old)
    | inr outside ↦ rw outside
  ]

  module _ (fresh : get_or entry.received i false ≡ false) (inside : i < length parts) where
    test : (ltb i (length entry.fragments) && not (get_or entry.received i false)) ≡ true
    test = rw (fresh, lt→ltb i (length entry.fragments) (omega (arith, sizes.1)))

    pub store_more :
        (suc (trues entry.received) < length parts)
        → (store_fragment i part entry ≡ (marked i part entry, none))
          × Holds parts (marked i part entry)
    unfolding store_fragment
    store_more h =
        let e : (entry.received_count + 1 == entry.count) ≡ false =
          ground (arith, holds.counted, holds.count) in
        (
          rw (test, e),
          record {
            count = holds.count;
            agree = Agree-set i holds.agree;
            counted =
                omega
                  (arith, holds.counted, trues-set entry.received i (omega (arith, sizes.0)) fresh);
            open_ = omega (arith, holds.counted);
          },
        )

    pub store_last :
        suc (trues entry.received) ≡ length parts
        → (store_fragment i part entry).1
          ≡ some (record (assembled entry) { payload = concat parts })
    unfolding store_fragment
    store_last h =
        let e : (entry.received_count + 1 == entry.count) ≡ true =
          ground (arith, holds.counted, holds.count) in
        let full : set entry.fragments i part ≡ parts =
          Agree-full (Agree-set i holds.agree)
            (trues-set entry.received i (omega (arith, sizes.0)) fresh ∙ h) in
        rw (test, e, full)
