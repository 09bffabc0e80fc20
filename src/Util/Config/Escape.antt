-- ===== src/Util/Config/Escape.antt =====
-- `escape_json_string` of src/util/config.rs against a reader of JSON string literals.
use skin_get_be_rust.Prelude.{
  ℕ, ◌≡◌, ◌⊎◌, refl, true, false, not, ◌&&◌, ◌||◌, [], ◌∷◌, ◌++◌, append_assoc, Option, none, some,
  ltb, ==_iff, ◌==◌, if◌then◌else◌, arith, Bool-cases, inl, inr,
}
use skin_get_be_rust.Prelude.Text.{Chars}
use skin_get_be_rust.Util.Config.{escape_char, escape_json_string}

-- How a character is escaped: as itself, which needs no escape, or as a backslash and a letter.
abbrev pub Escaped : ℕ → Type 0
Escaped c =
    ((escape_char c ≡ c ∷ []) × ((c == b'"') ≡ false) × ((c == b'\\') ≡ false))
    ⊎ ((x : ℕ) × (escape_char c ≡ b'\\' ∷ x ∷ []))

pub escape_char-Escaped : (c : ℕ) → Escaped c
escape_char-Escaped c =
    go (Bool-cases (c == b'"')) (Bool-cases (c == b'\\')) (Bool-cases (c == b'\n'))
      (Bool-cases (c == b'\r')) (Bool-cases (c == b'\t'))
  where
    Test : ℕ → Type 0
    Test d = ((c == d) ≡ true) ⊎ ((c == d) ≡ false)

    go : Test b'"' → Test b'\\' → Test b'\n' → Test b'\r' → Test b'\t' → Escaped c
    go (inl q) b n r t = inr (b'"', rw q refl)
    go (inr q) (inl b) n r t = inr (b'\\', rw (q, b) refl)
    go (inr q) (inr b) (inl n) r t = inr (b'n', rw (q, b, n) refl)
    go (inr q) (inr b) (inr n) (inl r) t = inr (b'r', rw (q, b, n, r) refl)
    go (inr q) (inr b) (inr n) (inr r) (inl t) = inr (b't', rw (q, b, n, r, t) refl)
    go (inr q) (inr b) (inr n) (inr r) (inr t) = inl (rw (q, b, n, r, t) refl, q, b)

-- What JSON reads behind a backslash, of the letters that name one character.
abbrev pub unescaped : ℕ → Option ℕ
unescaped c =
    if c == b'"'
    then some b'"'
    else if c == b'\\'
    then some b'\\'
    else if c == b'/'
    then some b'/'
    else if c == b'b'
    then some 8
    else if c == b'f'
    then some 12
    else if c == b'n'
    then some b'\n'
    else if c == b'r'
    then some b'\r'
    else if c == b't'
    then some b'\t'
    else none

abbrev pub before : ℕ → Option (Chars × Chars) → Option (Chars × Chars)
before c none = none
before c (some (value, rest)) = some (c ∷ value, rest)

abbrev pub before_option : Option ℕ → Option (Chars × Chars) → Option (Chars × Chars)
before_option none later = none
before_option (some c) later = before c later

-- A JSON string literal behind its opening quote: its value, and what follows the closing quote. JSON
-- forbids control characters in it.
unfoldable pub read_literal : Chars → Option (Chars × Chars)
read_literal [] = none
read_literal (c ∷ []) = if c == b'"' then some ([], []) else none
read_literal (c ∷ d ∷ s) =
    let behind = read_literal s in
    let more = read_literal (d ∷ s) in
    if c == b'"'
    then some ([], d ∷ s)
    else if c == b'\\'
    then before_option (unescaped d) behind
    else if ltb c 0x20
    then none
    else before c more

-- The characters that a value may hold.
abbrev pub Printable : Chars → Type 0
Printable [] = Unit
Printable (c ∷ value) =
    ((ltb c 0x20 && not (c == b'\n' || c == b'\r' || c == b'\t')) ≡ false) × Printable value

read_literal-quote : (rest : Chars) → read_literal (b'"' ∷ rest) ≡ some ([], rest)
unfolding read_literal
read_literal-quote [] = refl
read_literal-quote (c ∷ rest) = refl

read_literal-escape_char :
    (c : ℕ) (s : Chars) (value rest : Chars)
    → (ltb c 0x20 && not (c == b'\n' || c == b'\r' || c == b'\t')) ≡ false
    → read_literal s ≡ some (value, rest)
    → read_literal (escape_char c ++ s) ≡ some (c ∷ value, rest)
unfolding read_literal
read_literal-escape_char c [] value rest h k = cc
read_literal-escape_char c (d ∷ s) value rest h k =
    go (Bool-cases (c == b'"')) (Bool-cases (c == b'\\')) (Bool-cases (c == b'\n'))
      (Bool-cases (c == b'\r')) (Bool-cases (c == b'\t'))
  where
    Test : ℕ → Type 0
    Test x = ((c == x) ≡ true) ⊎ ((c == x) ≡ false)

    same :
        (x : ℕ)
        → (c == x) ≡ true
        → ◌≡◌ {A = Option (Chars × Chars)} (some (x ∷ value, rest)) (some (c ∷ value, rest))
    same x t = let e : c ≡ x = (==_iff c x).0 t in rw e refl

    go :
        Test b'"'
        → Test b'\\'
        → Test b'\n'
        → Test b'\r'
        → Test b'\t'
        → read_literal (escape_char c ++ d ∷ s) ≡ some (c ∷ value, rest)
    go (inl q) b n r t = rw (q, k) (same b'"' q)
    go (inr q) (inl b) n r t = rw (q, b, k) (same b'\\' b)
    go (inr q) (inr b) (inl n) r t = rw (q, b, n, k) (same b'\n' n)
    go (inr q) (inr b) (inr n) (inl r) t = rw (q, b, n, r, k) (same b'\r' r)
    go (inr q) (inr b) (inr n) (inr r) (inl t) = rw (q, b, n, r, t, k) (same b'\t' t)
    go (inr q) (inr b) (inr n) (inr r) (inr t) =
        let low : ltb c 0x20 ≡ false = ground arith in rw (q, b, n, r, t, q, b, low, k) refl

-- A value without control characters other than line feed, carriage return and tab, written as a JSON
-- string, reads back as the value.
pub read_literal-escape_json_string :
    (value rest : Chars)
    → Printable value
    → read_literal (escape_json_string value ++ b'"' ∷ rest) ≡ some (value, rest)
unfolding escape_json_string
read_literal-escape_json_string [] rest h = read_literal-quote rest
read_literal-escape_json_string (c ∷ value) rest (h, more) =
    rw (append_assoc (escape_char c) (escape_json_string value) (b'"' ∷ rest)) (
      read_literal-escape_char c (escape_json_string value ++ b'"' ∷ rest) value rest h
        (read_literal-escape_json_string value rest more))
