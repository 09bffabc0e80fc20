-- ===== src/Bedrock/Skin/Names.antt =====
-- `sanitize_component` of src/bedrock/skin.rs.
use skin_get_be_rust.Prelude.{
  ℕ, suc, ◌≡◌, ◌⊎◌, refl, sym, ap, ◌∙◌, Bool, true, false, [], ◌∷◌, length, ==_iff, ◌==◌,
  Bool-cases, inl, inr,
}
use skin_get_be_rust.Prelude.Text.{Chars, chars_eq, contains}
use skin_get_be_rust.Bedrock.Skin.{is_reserved, sanitize_char, sanitize_component}

is_reserved-sanitize_char : (x : ℕ) → is_reserved (sanitize_char x) ≡ false
is_reserved-sanitize_char x = go (Bool-cases (is_reserved x))
  where
    go : (is_reserved x ≡ true) ⊎ (is_reserved x ≡ false) → is_reserved (sanitize_char x) ≡ false
    go (inl reserved) = rw reserved refl
    go (inr plain) = rw plain plain

unreserved_differs : (x c : ℕ) → is_reserved x ≡ false → is_reserved c ≡ true → (x == c) ≡ false
unreserved_differs x c h k = go (Bool-cases (x == c))
  where
    go : ((x == c) ≡ true) ⊎ ((x == c) ≡ false) → (x == c) ≡ false
    go (inl same) =
        absurd (
          let e : ◌≡◌ {A = Bool} false true = sym h ∙ ap is_reserved ((==_iff x c).0 same) ∙ k in
          cc)
    go (inr other) = other

-- A sanitized name holds no reserved character, keeps its length, and stays as it is when sanitized again.
pub sanitize_component_clean :
    (value : Chars) (c : ℕ)
    → is_reserved c ≡ true
    → (contains c (sanitize_component value) ≡ false)
      × (length (sanitize_component value) ≡ length value)
      × (sanitize_component (sanitize_component value) ≡ sanitize_component value)
unfolding sanitize_component
sanitize_component_clean [] c h = (refl, refl, refl)
sanitize_component_clean (x ∷ value) c h =
    let (free, same, twice) = sanitize_component_clean value c h in
    let clean : is_reserved (sanitize_char x) ≡ false = is_reserved-sanitize_char x in
    let other : (sanitize_char x == c) ≡ false = unreserved_differs (sanitize_char x) c clean h in
    let fixed : sanitize_char (sanitize_char x) ≡ sanitize_char x = rw clean refl in
    (rw (other, free) refl, ap suc same, rw fixed (ap (◌∷◌ (sanitize_char x)) twice))
