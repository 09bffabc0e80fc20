-- ===== src/Crypto/Jwt/Equivalence.antt =====
-- The two ways to a token's payload: `get_payload`, and `parse` with `decode_payload`.
use skin_get_be_rust.Prelude.{
  ℕ, zero, suc, ◌≡◌, refl, ap, false, List, [], ◌∷◌, ◌++◌, some, ◌==◌, if◌then◌else◌, arith,
  Bool-cases, inl, inr,
}
use skin_get_be_rust.Prelude.Text.{Chars, count, split_char}
use skin_get_be_rust.Error.{err, crypto_error}
use skin_get_be_rust.Crypto.Jwt.{Encodings, dot, split, parse, ◌>>=◌, get_payload, decode_payload}

split_free : (d : ℕ) (s : Chars) → count d s ≡ 0 → split d s ≡ s ∷ []
unfolding split
split_free d [] h = refl
split_free d (c ∷ s) h = ground (arith, split_free d s)

-- A text with a `d` in it, taken apart at the first.
record Cut (d n : ℕ) (s : Chars) : Type 0 where
  before : Chars
  after : Chars
  whole : s ≡ before ++ d ∷ after
  left : count d after ≡ n
  parts : split d s ≡ before ∷ split d after
  cut : split_char d s ≡ some (before, after)

Cut-at : (d n : ℕ) (s : Chars) → count d s ≡ suc n → Cut d n s
unfolding split split_char
Cut-at d n [] h = absurd (omega arith)
Cut-at d n (c ∷ s) h = elim (Bool-cases (c == d)) [
  | inl here ↦ record {
    before = [];
    after = s;
    whole = ground arith;
    left = ground arith;
    parts = rw here;
    cut = rw here;
  }
  | inr later ↦
      let r = Cut-at d n s (ground arith) in
      record {
        before = c ∷ r.before;
        after = r.after;
        whole = ap (◌∷◌ c) r.whole;
        left = r.left;
        parts = rw (later, r.parts);
        cut = rw (later, r.cut);
      }
]

split-cons : (d : ℕ) (s : Chars) → (part : Chars) × (rest : List Chars) × (split d s ≡ part ∷ rest)
unfolding split
split-cons d [] = ([], [], refl)
split-cons d (x ∷ s) = elim (Bool-cases (x == d)) [
  | inl here ↦ ([], split d s, rw here)
  | inr later ↦ (let (part, rest, e) = split-cons d s in (x ∷ part, rest, rw (later, e)))
]

-- Tokens with three parts and no other are parsed, and decoding the payload of a parsed token is
-- what `get_payload` does.
pub parse-decode_payload :
    (e : Encodings) (token : Chars)
    → (parse token >>= decode_payload e)
      ≡ (if count dot token == 2 then get_payload e token else err crypto_error)
unfolding parse decode_payload get_payload
parse-decode_payload e token = go (count dot token) refl
  where
    go :
        (n : ℕ)
        → count dot token ≡ n
        → (parse token >>= decode_payload e)
          ≡ (if n == 2 then get_payload e token else err crypto_error)
    go zero h = rw (split_free dot token h)
    go (suc zero) h = let a = Cut-at dot 0 token h in rw (a.parts, split_free dot a.after a.left)
    go (suc (suc zero)) h =
        let a = Cut-at dot 1 token h in
        let b = Cut-at dot 0 a.after a.left in
        rw (a.parts, b.parts, split_free dot b.after b.left, a.cut, b.cut)
    go (suc (suc (suc n))) h =
        let a = Cut-at dot (suc (suc n)) token h in
        let b = Cut-at dot (suc n) a.after a.left in
        let c = Cut-at dot n b.after b.left in
        let (part, rest, more) = split-cons dot c.after in
        let several : (suc (suc (suc n)) == 2) ≡ false = ground arith in
        rw (a.parts, b.parts, c.parts, more, several)
