-- ===== src/Crypto/Jwt.antt =====
-- src/crypto/jwt.rs: tokens, and values picked out of their JSON payloads. The base64 engines and the
-- UTF-8 decoder are parameters.
pub mod Equivalence
pub mod JsonValue
pub mod Chain
use skin_get_be_rust.Prelude.{
  ℕ, zero, suc, ◌+◌, ◌%◌, Bool, true, false, not, ◌&&◌, ◌||◌, List, [], ◌∷◌, ◌++◌, Option, none,
  some, length, ◌==◌, if◌then◌else◌,
}
use skin_get_be_rust.Prelude.Text.{
  Chars, codes, is_empty, count, split_char, split_text, trim_start, byte_len,
}
use skin_get_be_rust.Error.{Result, ok, err, crypto_error}

-- What the code calls of the base64 crate and of the standard library.
pub record Encodings : Type 0 where
  pub url_safe_no_pad : Chars → Result (List ℕ)
  pub standard : Chars → Result (List ℕ)
  pub from_utf8 : List ℕ → Result Chars

-- `JWT`
pub record Token : Type 0 where
  pub header : Chars
  pub payload : Chars
  pub signature : Chars

abbrev pub dot : ℕ
dot = b'.'

abbrev pub quote : ℕ
quote = b'"'

abbrev pub backslash : ℕ
backslash = b'\\'

abbrev pub onto_first : ℕ → List Chars → List Chars
onto_first c [] = (c ∷ []) ∷ []
onto_first c (part ∷ parts) = (c ∷ part) ∷ parts

-- `token.split('.').collect()`
unfoldable pub split : ℕ → Chars → List Chars
split d [] = [] ∷ []
split d (c ∷ s) = let parts = split d s in if c == d then [] ∷ parts else onto_first c parts

abbrev pub of_parts : List Chars → Result Token
of_parts (header ∷ payload ∷ signature ∷ []) =
    ok (record { header = header; payload = payload; signature = signature })
of_parts _ = err crypto_error

unfoldable pub parse : Chars → Result Token
parse token = of_parts (split dot token)

abbrev pub crypto : {A : Type 0} → Result A → Result A
crypto (ok a) = ok a
crypto (err e) = err crypto_error

abbrev pub or_else : {A : Type 0} → Result A → Result A → Result A
or_else (ok a) later = ok a
or_else (err e) later = later

infixl 5 ◌>>=◌
abbrev pub ◌>>=◌ : {A B : Type 0} → Result A → (A → Result B) → Result B
ok a >>= f = f a
err e >>= f = err e

-- `while !padded.len().is_multiple_of(4) { padded.push('='); }`: three rounds at most.
abbrev pub padded : Chars → Chars
padded encoded =
    if byte_len encoded % 4 == 0
    then encoded
    else if byte_len encoded % 4 == 1
    then encoded ++ (b'=' ∷ b'=' ∷ b'=' ∷ [])
    else if byte_len encoded % 4 == 2
    then encoded ++ (b'=' ∷ b'=' ∷ [])
    else encoded ++ (b'=' ∷ [])

module _ (e : Encodings) where
  unfoldable pub decode_base64 : Chars → Result Chars
  decode_base64 encoded =
      crypto (or_else (e.url_safe_no_pad encoded) (e.url_safe_no_pad (padded encoded)))
      >>= λ decoded. crypto (e.from_utf8 decoded)

  abbrev pub behind_second : Option (Chars × Chars) → Result Chars
  behind_second none = err crypto_error
  behind_second (some (payload, signature)) = decode_base64 payload

  abbrev pub behind_first : Option (Chars × Chars) → Result Chars
  behind_first none = err crypto_error
  behind_first (some (header, rest)) = behind_second (split_char dot rest)

  unfoldable pub get_payload : Chars → Result Chars
  get_payload token = behind_first (split_char dot token)

  unfoldable pub decode_payload : Token → Result Chars
  decode_payload token = decode_base64 token.payload

-- A placeholder in the source too.
abbrev pub verify : Token → List ℕ → Result Bool
verify token public_key = ok true

-- The loop over the characters of a quoted value.
unfoldable pub string_value : Bool → Chars → Chars → Option Chars
string_value prev_backslash value [] = none
string_value prev_backslash value (c ∷ s) =
    let rest = string_value (c == backslash && not prev_backslash) (value ++ (c ∷ [])) s in
    if c == quote && not prev_backslash then some value else rest

-- `matches!(c, ',' | '}' | ']' | ' ')`
abbrev pub is_delimiter : ℕ → Bool
is_delimiter c = c == b',' || c == b'}' || c == b']' || c == b' '

unfoldable pub take_value : Chars → Chars
take_value [] = []
take_value (c ∷ s) = let rest = take_value s in if is_delimiter c then [] else c ∷ rest

abbrev pub non_empty : Chars → Option Chars
non_empty value = if is_empty value then none else some value

-- The value at the start of the text behind the key.
unfoldable pub value_of : Chars → Option Chars
value_of [] = non_empty []
value_of (c ∷ s) = if c == quote then string_value false [] s else non_empty (take_value (c ∷ s))

-- `"key":`
abbrev pub search_key : Chars → Chars
search_key key = quote ∷ key ++ (quote ∷ b':' ∷ [])

abbrev pub behind_key : Option (Chars × Chars) → Option Chars
behind_key none = none
behind_key (some (before, after)) = value_of (trim_start after)

unfoldable pub get_json_value : Chars → Chars → Option Chars
get_json_value json key = behind_key (split_text (search_key key) json)

-- The text between the next two quotes, and what is behind them.
abbrev pub token_in : Option (Chars × Chars) → Option (Chars × Chars)
token_in none = none
token_in (some (before, rest)) = split_char quote rest

unfoldable pub next_token : Chars → Option (Chars × Chars)
next_token s = token_in (split_char quote s)

abbrev pub ok_only : Result Chars → List Chars
ok_only (ok payload) = payload ∷ []
ok_only (err e) = []

module _ (e : Encodings) where
  -- A token that does not look like a JWT, or does not decode, is passed over.
  unfoldable pub payload_of : Chars → List Chars
  payload_of token = if count dot token == 2 then ok_only (get_payload e token) else []

  -- What the loop does with the next token; `k` is its next round on the text behind it.
  abbrev pub chain_step : (Chars → List Chars) → Option (Chars × Chars) → List Chars
  chain_step k none = []
  chain_step k (some (token, rest)) = payload_of token ++ k rest

  unfoldable pub chain_loop : ℕ → Chars → List Chars
  chain_loop zero s = []
  chain_loop (suc fuel) s = chain_step (chain_loop fuel) (next_token s)

  -- Each round takes two characters at least, so there are rounds enough.
  unfoldable pub parse_auth_chain : Chars → Result (List Chars)
  parse_auth_chain chain_json = ok (chain_loop (suc (length chain_json)) chain_json)
