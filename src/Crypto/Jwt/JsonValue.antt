-- ===== src/Crypto/Jwt/JsonValue.antt =====
-- What `get_json_value` picks out of a text.
use skin_get_be_rust.Prelude.{
  ℕ, ◌≢◌, ◌↔◌, ==_iff, ◌≡◌, refl, ap, ◌∙◌, Bool, true, false, not, ◌&&◌, [], ◌∷◌, ◌++◌,
  append_assoc, append-nil, Option, none, some, ◌==◌, arith, Bool-cases, inl, inr, ◌⊎◌,
}
use skin_get_be_rust.Prelude.Search.{
  IsFirst, split_text-IsFirst, split_text-append, IsTrimmed, trim_start-IsTrimmed,
  trim_start-append,
}
use skin_get_be_rust.Prelude.Text.{
  Chars, AllSpaces, split_text, split_text_sound, strip_prefix, strip_prefix-append, trim_start,
  trim_start_sound,
}
use skin_get_be_rust.Crypto.Jwt.{
  quote, backslash, string_value, is_delimiter, take_value, non_empty, value_of, search_key,
  behind_key, get_json_value,
}
use mathlib.Core.Path.{subst}

-- A value that needs no escape.
abbrev pub IsPlain : Chars → Type 0
IsPlain [] = Unit
IsPlain (c ∷ s) = ((c == quote) ≡ false) × ((c == backslash) ≡ false) × IsPlain s

-- The text of a quoted value in front of its closing quote: every quote in it is escaped, and the
-- backslashes in front of its end are paired. `escaped` tells whether a backslash escapes what is next.
abbrev pub IsQuoted : (escaped : Bool) → Chars → Type 0
IsQuoted escaped [] = escaped ≡ false
IsQuoted escaped (c ∷ s) =
    ((c ≡ quote) → escaped ≡ true) × IsQuoted (c == backslash && not escaped) s

IsPlain-IsQuoted : (value : Chars) → IsPlain value → IsQuoted false value
IsPlain-IsQuoted [] h = refl
IsPlain-IsQuoted (c ∷ value) (q, b, h) = ((λ same. ground arith), rw b (IsPlain-IsQuoted value h))

string_value_sound :
    (escaped : Bool) (prefix s value : Chars)
    → string_value escaped prefix s ≡ some value
    → (inner : Chars) × (rest : Chars) × (value ≡ prefix ++ inner)
      × (s ≡ inner ++ (quote ∷ rest))
      × IsQuoted escaped inner
unfolding string_value
string_value_sound escaped prefix [] value h = cc
string_value_sound escaped prefix (c ∷ s) value h = elim (Bool-cases (c == quote && not escaped)) [
  | inl end ↦ ([], s, ground (arith, append-nil prefix), ground arith, ground arith)
  | inr more ↦
      let (inner, rest, e, f, closed) =
        string_value_sound (c == backslash && not escaped) (prefix ++ (c ∷ [])) s value
          (rw more at h) in
      (
        c ∷ inner,
        rest,
        e ∙ append_assoc prefix (c ∷ []) inner,
        ap (◌∷◌ c) f,
        ((λ same. ground arith), closed),
      )
]

string_value-append :
    (escaped : Bool) (prefix inner rest : Chars)
    → IsQuoted escaped inner
    → string_value escaped prefix (inner ++ (quote ∷ rest)) ≡ some (prefix ++ inner)
unfolding string_value
string_value-append escaped prefix [] rest h = rw (h, append-nil) refl
string_value-append escaped prefix (c ∷ inner) rest (no_end, h) =
    let more : (c == quote && not escaped) ≡ false = ground (arith, no_end) in
    rw more (
      string_value-append (c == backslash && not escaped) (prefix ++ (c ∷ [])) inner rest h
      ∙ ap some (append_assoc prefix (c ∷ []) inner))

-- A comma, a closing brace or bracket, or a space.
abbrev pub Delimits : ℕ → Type 0
Delimits c = (c ≡ b',') ⊎ (c ≡ b'}') ⊎ (c ≡ b']') ⊎ (c ≡ b' ')

abbrev pub NoDelimiter : Chars → Type 0
NoDelimiter [] = Unit
NoDelimiter (c ∷ s) = ¬ (Delimits c) × NoDelimiter s

-- What is behind a value without quotes.
abbrev pub IsDelimited : Chars → Type 0
IsDelimited [] = Unit
IsDelimited (c ∷ s) = Delimits c

Delimits-is_delimiter : (c : ℕ) → Delimits c → is_delimiter c ≡ true
Delimits-is_delimiter c h = ground arith

is_delimiter-Delimits : (c : ℕ) → is_delimiter c ≡ true → Delimits c
is_delimiter-Delimits c h = elim (Bool-cases (c == b',')) [
  | inl comma ↦ inl ((==_iff c b',').0 comma)
  | inr p ↦ elim (Bool-cases (c == b'}')) [
    | inl brace ↦ inr (inl ((==_iff c b'}').0 brace))
    | inr q ↦ elim (Bool-cases (c == b']')) [
      | inl bracket ↦ inr (inr (inl ((==_iff c b']').0 bracket)))
      | inr r ↦ inr (inr (inr ((==_iff c b' ').0 (rw (p, q, r) at h))))
    ]
  ]
]

take_value_sound :
    (s : Chars)
    → (rest : Chars) × (s ≡ take_value s ++ rest) × NoDelimiter (take_value s) × IsDelimited rest
unfolding take_value
take_value_sound [] = ([], refl, tt, tt)
take_value_sound (c ∷ s) = elim (Bool-cases (is_delimiter c)) [
  | inl end ↦ (c ∷ s, rw end refl, rw end tt, is_delimiter-Delimits c end)
  | inr more ↦
      (let (rest, e, free, end) = take_value_sound s in
        (
          rest,
          rw more (ap (◌∷◌ c) e),
          rw more ((λ d. let is = Delimits-is_delimiter c d in cc), free),
          end,
        ))
]

take_value-append :
    (value rest : Chars) → NoDelimiter value → IsDelimited rest → take_value (value ++ rest) ≡ value
unfolding take_value
take_value-append [] [] h end = refl
take_value-append [] (c ∷ rest) h end = rw (Delimits-is_delimiter c end) refl
take_value-append (c ∷ value) rest (other, h) end = elim (Bool-cases (is_delimiter c)) [
  | inl is ↦ absurd (other (is_delimiter-Delimits c is))
  | inr more ↦ rw (more, take_value-append value rest h end) refl
]

-- A text that starts with the value: in quotes, or without, up to the first delimiter or the end.
abbrev pub Quoted : Chars → Chars → Type 0
Quoted value content =
    (rest : Chars) × (content ≡ quote ∷ value ++ (quote ∷ rest)) × IsQuoted false value

abbrev pub Bare : Chars → Chars → Type 0
Bare [] content = ⊥
Bare (c ∷ value) content =
    (rest : Chars) × (content ≡ c ∷ value ++ rest)
    × (c ≢ quote)
    × NoDelimiter (c ∷ value)
    × IsDelimited rest

abbrev pub StartsWith : Chars → Chars → Type 0
StartsWith value content = Quoted value content ⊎ Bare value content

non_empty-some : (s value : Chars) → non_empty s ≡ some value → s ≡ value
non_empty-some [] value h = cc
non_empty-some (c ∷ s) value h = cc

take_value-Bare :
    (c : ℕ) (s value : Chars)
    → (c == quote) ≡ false
    → non_empty (take_value (c ∷ s)) ≡ some value
    → Bare value (c ∷ s)
take_value-Bare c s [] other h =
    let empty : take_value (c ∷ s) ≡ [] = non_empty-some (take_value (c ∷ s)) [] h in
    let nothing : ◌≡◌ {A = Option Chars} none (some []) = rw empty at h in cc
take_value-Bare c s (v ∷ value) other h =
    let e : take_value (c ∷ s) ≡ v ∷ value = non_empty-some (take_value (c ∷ s)) (v ∷ value) h in
    let (rest, whole, free, end) = take_value_sound (c ∷ s) in
    let text : c ∷ s ≡ v ∷ value ++ rest = whole ∙ ap (λ (x : Chars). x ++ rest) e in
    let first : c ≡ v = cc text in
    (rest, text, (λ same. ground arith), subst NoDelimiter e free, end)

value_of_sound : (content value : Chars) → value_of content ≡ some value → StartsWith value content
unfolding value_of
value_of_sound [] value h = cc
value_of_sound (c ∷ s) value h = elim (Bool-cases (c == quote)) [
  | inl here ↦
      let (inner, rest, e, f, closed) = string_value_sound false [] s value (rw here at h) in
      let same : c ≡ quote = (==_iff c quote).0 here in
      inl (rest, rw (same, f, e) refl, rw e closed)
  | inr other ↦ inr (take_value-Bare c s value other (rw other at h))
]

value_of-append : (content value : Chars) → StartsWith value content → value_of content ≡ some value
unfolding value_of
value_of-append content value (inl (rest, e, closed)) =
    rw e (string_value-append false [] value rest closed)
value_of-append content [] (inr h) = absurd h
value_of-append content (c ∷ value) (inr (rest, e, other, free, end)) =
    let unquoted : (c == quote) ≡ false = ground arith in
    rw (e, unquoted, take_value-append (c ∷ value) rest free end) refl

-- The first occurrence of the key in quotes with its colon stands in front of white space and of a
-- text that starts with the value.
abbrev pub Stands : (json key value : Chars) → Type 0
Stands json key value =
    (before : Chars) × (spaces : Chars) × (content : Chars) × (json
      ≡ before ++ (search_key key ++ (spaces ++ content)))
    × IsFirst (search_key key) before (spaces ++ content)
    × AllSpaces spaces
    × IsTrimmed content
    × StartsWith value content

-- A value is what get_json_value finds exactly when it stands behind the key: the first occurrence of
-- the key in quotes with its colon is followed by white space and then by the value. The value is in
-- quotes, with every quote inside it escaped, or it is not empty, begins with no quote, holds no
-- comma, closing brace, closing bracket or space, and is followed by one of these or by the end.
pub get_json_value_finds :
    (json key value : Chars) → (get_json_value json key ≡ some value) ↔ Stands json key value
unfolding get_json_value
get_json_value_finds json key value = (sound (split_text (search_key key) json) refl, complete)
  where
    sound :
        (o : Option (Chars × Chars))
        → split_text (search_key key) json ≡ o
        → behind_key o ≡ some value
        → Stands json key value
    sound none e f = cc
    sound (some (before, after)) e f =
        let (spaces, whole, all) = trim_start_sound after in
        (
          before,
          spaces,
          trim_start after,
          split_text_sound (search_key key) json before after e
              ∙ ap (λ (x : Chars). before ++ (search_key key ++ x)) whole,
          subst (IsFirst (search_key key) before) whole
              (split_text-IsFirst (search_key key) json before after e),
          all,
          trim_start-IsTrimmed after,
          value_of_sound (trim_start after) value f,
        )

    complete : Stands json key value → behind_key (split_text (search_key key) json) ≡ some value
    complete (before, spaces, content, e, first, all, trimmed, there) =
        rw
          (
            e,
            split_text-append (search_key key) before (spaces ++ content) first,
            trim_start-append spaces content all trimmed,
          )
          (value_of-append content value there)

-- A value without quotes and backslashes, written in quotes behind its key at the front of an object
-- whose text has no earlier quote, is what is found.
pub get_json_value-written :
    (key value rest : Chars)
    → IsPlain value
    → get_json_value (b'{' ∷ (search_key key ++ (quote ∷ value ++ (quote ∷ rest)))) key ≡ some value
unfolding get_json_value split_text strip_prefix trim_start value_of
get_json_value-written key value rest h =
    rw (strip_prefix-append (search_key key) (quote ∷ value ++ (quote ∷ rest)))
      (string_value-append false [] value rest (IsPlain-IsQuoted value h))
