-- ===== src/Crypto/Jwt/Chain.antt =====
-- The tokens that `parse_auth_chain` goes through.
use skin_get_be_rust.Prelude.{
  ℕ, zero, suc, ◌<◌, ◌≡◌, refl, sym, ap, ◌∙◌, Bool, true, false, List, [], ◌∷◌, ◌++◌, append_assoc,
  append-nil, Option, none, some, length, length-append, ◌==◌, if◌then◌else◌, arith, Bool-cases,
  Option-cases, inl, inr,
}
use skin_get_be_rust.Prelude.Text.{Chars, split_char, split_char_sound, shifted, shifted-some}
use skin_get_be_rust.Error.{ok}
use skin_get_be_rust.Crypto.Jwt.{
  Encodings, quote, next_token, token_in, payload_of, chain_loop, parse_auth_chain,
}

-- The quoted pieces of a text, read character by character: `open_` is whether a quote is open, and
-- `piece` what has been read behind it.
unfoldable pub quoted : (open_ : Bool) → (piece : Chars) → Chars → List Chars
quoted open_ piece [] = []
quoted false piece (c ∷ s) =
    let opened = quoted true [] s in
    let more = quoted false [] s in if c == quote then opened else more
quoted true piece (c ∷ s) =
    let closed = quoted false [] s in
    let more = quoted true (piece ++ (c ∷ [])) s in if c == quote then piece ∷ closed else more

abbrev pub payloads : Encodings → List Chars → List Chars
payloads e [] = []
payloads e (token ∷ tokens) = payload_of e token ++ payloads e tokens

-- What each state reads up to the next quote.
quoted-outside :
    (piece s before after : Chars)
    → split_char quote s ≡ some (before, after)
    → quoted false piece s ≡ quoted true [] after
unfolding quoted split_char
quoted-outside piece [] before after h = cc
quoted-outside piece (c ∷ s) before after h = elim (Bool-cases (c == quote)) [
  | inl here ↦ ground arith
  | inr later ↦
      let (b, e, same) = shifted-some c (split_char quote s) before after (rw later at h) in
      rw later (quoted-outside [] s b after e)
]

quoted-inside :
    (piece s before after : Chars)
    → split_char quote s ≡ some (before, after)
    → quoted true piece s ≡ (piece ++ before) ∷ quoted false [] after
unfolding quoted split_char
quoted-inside piece [] before after h = cc
quoted-inside piece (c ∷ s) before after h = elim (Bool-cases (c == quote)) [
  | inl here ↦
      let e : ◌≡◌ {A = Option (Chars × Chars)} (some ([], s)) (some (before, after)) =
        rw here at h in
      let empty : [] ≡ before = cc e in
      let rest : s ≡ after = cc e in rw (here, ← empty, ← rest, append-nil)
  | inr later ↦
      let (b, e, same) = shifted-some c (split_char quote s) before after (rw later at h) in
      rw later (
        quoted-inside (piece ++ (c ∷ [])) s b after e
        ∙ ap (λ (x : Chars). x ∷ quoted false [] after)
            (append_assoc piece (c ∷ []) b ∙ ap (λ (x : Chars). piece ++ x) (sym same)))
]

shifted-none : (c : ℕ) (o : Option (Chars × Chars)) → shifted c o ≡ none → o ≡ none
shifted-none c none h = refl
shifted-none c (some (b, a)) h = cc

quoted-none :
    (open_ : Bool) (piece s : Chars) → split_char quote s ≡ none → quoted open_ piece s ≡ []
unfolding quoted split_char
quoted-none open_ piece [] h = refl
quoted-none false piece (c ∷ s) h =
    ground (arith, shifted-none c (split_char quote s), quoted-none false [] s)
quoted-none true piece (c ∷ s) h =
    ground (arith, shifted-none c (split_char quote s), quoted-none true (piece ++ (c ∷ [])) s)

length-split_char :
    (d : ℕ) (s before after : Chars)
    → split_char d s ≡ some (before, after)
    → length after < length s
length-split_char d s before after h =
    let (whole, free) = split_char_sound d s before after h in
    omega (arith, ap length whole, length-append before (d ∷ after))

-- The loop's view of the same text.
next_token-quoted :
    (s : Chars) (o : Option (Chars × Chars))
    → next_token s ≡ o
    → (token : Chars) (rest : Chars) → o ≡ some (token, rest)
    → (quoted false [] s ≡ token ∷ quoted false [] rest) × (length rest < length s)
unfolding next_token
next_token-quoted s o h token rest k = go (split_char quote s) refl (h ∙ k)
  where
    go :
        (p : Option (Chars × Chars))
        → split_char quote s ≡ p
        → token_in p ≡ some (token, rest)
        → (quoted false [] s ≡ token ∷ quoted false [] rest) × (length rest < length s)
    go none e f = cc
    go (some (before, after)) e f = (
      quoted-outside [] s before after e ∙ quoted-inside [] after token rest f,
      omega (
        arith,
        length-split_char quote s before after e,
        length-split_char quote after token rest f,
      ),
    )

next_token-none : (s : Chars) → next_token s ≡ none → quoted false [] s ≡ []
unfolding next_token
next_token-none s h = go (split_char quote s) refl h
  where
    go :
        (p : Option (Chars × Chars))
        → split_char quote s ≡ p
        → token_in p ≡ none
        → quoted false [] s ≡ []
    go none e f = quoted-none false [] s e
    go (some (before, after)) e f = quoted-outside [] s before after e ∙ quoted-none true [] after f

chain_loop-quoted :
    (e : Encodings) (fuel : ℕ) (s : Chars)
    → length s < fuel
    → chain_loop e fuel s ≡ payloads e (quoted false [] s)
unfolding chain_loop
chain_loop-quoted e zero s h = absurd (omega arith)
chain_loop-quoted e (suc fuel) s h = elim (Option-cases (next_token s)) [
  | inl end ↦ rw (end, next_token-none s end)
  | inr ((token, rest), found) ↦
      let (pieces, less) = next_token-quoted s (next_token s) refl token rest found in
      rw (found, pieces)
        (ap (λ xs. payload_of e token ++ xs) (chain_loop-quoted e fuel rest (omega arith)))
]

-- `parse_auth_chain` returns the payloads of the quoted pieces of the text, read character by
-- character, in their order: of those pieces that look like a JWT and decode.
pub parse_auth_chain-quoted :
    (e : Encodings) (chain_json : Chars)
    → parse_auth_chain e chain_json ≡ ok (payloads e (quoted false [] chain_json))
unfolding parse_auth_chain
parse_auth_chain-quoted e chain_json =
    ap ok (chain_loop-quoted e (suc (length chain_json)) chain_json (omega arith))
