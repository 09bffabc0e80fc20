-- ===== src/Bedrock/Version/Latest.antt =====
-- The latest entry of the table of src/bedrock/version.rs, and repeated calls of `resolve_version`.
use skin_get_be_rust.Prelude.{
  ℕ, ◌<◌, ◌≤◌, ◌≡◌, ◌⊎◌, refl, sym, ap, ◌∙◌, true, false, [], ◌∷◌, Option, none, some, ltb, ==_iff,
  ◌==◌, arith, Bool-cases, inl, inr,
}
use skin_get_be_rust.Prelude.Map.{Map, lookup, nat_eq}
use skin_get_be_rust.Prelude.Text.{Chars, is_empty}
use skin_get_be_rust.Bedrock.Version.{
  protocol_map, Fallbacks, max_entry, latest_of, get_latest_protocol, get_latest_version, member,
  warn_once, fallback_version, resolved, resolve_version,
}
use mathlib.Core.Path.{subst}

max_entry_bound :
    (best : ℕ × Chars) (entries : Map ℕ Chars)
    → (best.0 ≤ (max_entry best entries).0)
      × ((p : ℕ) (v : Chars) → lookup p entries ≡ some v → p ≤ (max_entry best entries).0)
unfolding max_entry lookup
max_entry_bound best [] = (omega arith, λ p v h. cc)
max_entry_bound best (entry ∷ entries) =
    go (Bool-cases (ltb entry.0 best.0)) (max_entry_bound best entries)
      (max_entry_bound entry entries)
  where
    Bound : ℕ × Chars → Type 0
    Bound b =
        (b.0 ≤ (max_entry b entries).0)
        × ((p : ℕ) (v : Chars) → lookup p entries ≡ some v → p ≤ (max_entry b entries).0)

    go :
        (ltb entry.0 best.0 ≡ true) ⊎ (ltb entry.0 best.0 ≡ false)
        → Bound best
        → Bound entry
        → (best.0 ≤ (max_entry best (entry ∷ entries)).0)
          × ((p : ℕ) (v : Chars)
              → lookup p (entry ∷ entries) ≡ some v
              → p ≤ (max_entry best (entry ∷ entries)).0)
    go (inl less) (a, f) b = rw less (
      a,
      λ p v h. elim (Bool-cases (entry.0 == p)) [
        | inl here ↦
            (let e = (==_iff entry.0 p).0 here in
              let l : entry.0 < best.0 = ground arith in omega arith)
        | inr other ↦ f p v (rw other at h)
      ],
    )
    go (inr more) a (b, f) =
        let l : best.0 ≤ entry.0 = ground arith in
        rw more (
          omega arith,
          λ p v h. elim (Bool-cases (entry.0 == p)) [
            | inl here ↦ (let e = (==_iff entry.0 p).0 here in omega arith)
            | inr other ↦ f p v (rw other at h)
          ],
        )

latest_of_bound :
    (m : Map ℕ Chars) (last : ℕ × Chars)
    → latest_of m ≡ some last
    → (p : ℕ) (v : Chars) → lookup p m ≡ some v
    → p ≤ last.0
unfolding lookup
latest_of_bound [] last e p v h = cc
latest_of_bound (entry ∷ entries) last e p v h =
    let same : max_entry entry entries ≡ last = cc in
    let (first, others) = max_entry_bound entry entries in
    subst (λ (b : ℕ × Chars). p ≤ b.0) same
      (elim (Bool-cases (entry.0 == p)) [
        | inl here ↦ (let k = (==_iff entry.0 p).0 here in omega arith)
        | inr other ↦ others p v (rw other at h)
      ])

-- No listed protocol is later than the latest, which is listed with the latest version, whatever the
-- fallbacks are.
pub get_latest_protocol_max :
    (fallbacks : Fallbacks)
    → ((p : ℕ) (v : Chars) → lookup p protocol_map ≡ some v → p ≤ get_latest_protocol fallbacks)
      × (lookup (get_latest_protocol fallbacks) protocol_map ≡ some (get_latest_version fallbacks))
unfolding get_latest_protocol get_latest_version max_entry lookup
get_latest_protocol_max fallbacks =
    (latest_of_bound protocol_map (2225, get_latest_version fallbacks) refl, refl)

get_latest_version-same : (a b : Fallbacks) → get_latest_version a ≡ get_latest_version b
unfolding get_latest_version max_entry
get_latest_version-same a b = refl

warn_once-version :
    (p : ℕ) (fallbacks : Fallbacks) → (warn_once p fallbacks).version ≡ fallbacks.version
warn_once-version p fallbacks = go (Bool-cases (member p fallbacks.warned))
  where
    go :
        (member p fallbacks.warned ≡ true) ⊎ (member p fallbacks.warned ≡ false)
        → (warn_once p fallbacks).version ≡ fallbacks.version
    go (inl warned) = rw warned refl
    go (inr fresh) = rw fresh refl

warn_once-twice :
    (p : ℕ) (fallbacks : Fallbacks) → warn_once p (warn_once p fallbacks) ≡ warn_once p fallbacks
warn_once-twice p fallbacks = go (Bool-cases (member p fallbacks.warned))
  where
    itself : (p == p) ≡ true
    itself = (==_iff p p).1 refl

    go :
        (member p fallbacks.warned ≡ true) ⊎ (member p fallbacks.warned ≡ false)
        → warn_once p (warn_once p fallbacks) ≡ warn_once p fallbacks
    go (inl warned) = rw (warned, warned) refl
    go (inr fresh) = rw (fresh, itself) refl

fallback_version-same :
    (a b : Fallbacks) → a.version ≡ b.version → fallback_version a ≡ fallback_version b
unfolding get_latest_version
fallback_version-same a b h = rw h refl

fallback_version-some : (fallbacks : Fallbacks) → is_empty (fallback_version fallbacks) ≡ false
unfolding get_latest_version max_entry
fallback_version-some fallbacks = go (Bool-cases (is_empty fallbacks.version))
  where
    go :
        (is_empty fallbacks.version ≡ true) ⊎ (is_empty fallbacks.version ≡ false)
        → is_empty (fallback_version fallbacks) ≡ false
    go (inl none_) = rw none_ refl
    go (inr set) = rw (set, set) refl

-- Asking for the version of a protocol changes no later answer, and asking again changes nothing more.
pub resolve_version_steady :
    (p q : ℕ) (fallbacks : Fallbacks)
    → ((resolve_version q (resolve_version p fallbacks).1).0 ≡ (resolve_version q fallbacks).0)
      × (resolve_version p (resolve_version p fallbacks).1 ≡ resolve_version p fallbacks)
unfolding resolve_version
resolve_version_steady p q fallbacks = go (lookup p protocol_map) (lookup q protocol_map)
  where
    go :
        (o r : Option Chars)
        → ((resolved q (resolved p fallbacks o).1 r).0 ≡ (resolved q fallbacks r).0)
          × (resolved p (resolved p fallbacks o).1 o ≡ resolved p fallbacks o)
    go (some v) r = (refl, refl)
    go none (some w) = (refl, again)
      where
        again : resolved p (resolved p fallbacks none).1 none ≡ resolved p fallbacks none
        again = ap (λ (f : Fallbacks). (fallback_version f, f)) (warn_once-twice p fallbacks)
    go none none = (
      fallback_version-same (warn_once q (warn_once p fallbacks)) (warn_once q fallbacks) (
          warn_once-version q (warn_once p fallbacks)
          ∙ warn_once-version p fallbacks
          ∙ sym (warn_once-version q fallbacks)),
      ap (λ (f : Fallbacks). (fallback_version f, f)) (warn_once-twice p fallbacks),
    )
