-- ===== src/Util/Config/Documents.antt =====
-- Every text is a document, and what `strip_json_comments` of src/util/config.rs makes of it.
use skin_get_be_rust.Prelude.{
  ℕ, ◌≡◌, ◌≢◌, ◌⊎◌, ◌↔◌, refl, sym, ap, ◌∙◌, Bool, true, false, not, ◌&&◌, [], ◌∷◌, ◌++◌, ==_iff,
  ◌==◌, Bool-cases, inl, inr, arith,
}
use skin_get_be_rust.Prelude.Text.{Chars}
use skin_get_be_rust.Util.Config.{
  Mode, text, line_comment, in_string, block_comment, strip_json_comments,
}
use skin_get_be_rust.Util.Config.Comments.{
  Document, end, char, quoted, line, block, open_string, open_line, open_block, written,
  without_comments, NoQuote, IsQuoted, NoNewline, NoClose, IsBlock, OpensNothing, IsDocument,
  strip-written,
}
use mathlib.Core.Path.{subst}

-- A text that goes on with a document behind a body.
abbrev Behind : (Chars → Type 0) → ℕ → Chars → Type 0
Behind Body closing s =
    (body : Chars) × (d : Document) × (s ≡ body ++ (closing ∷ written d)) × Body body × IsDocument d

-- What the rest of a text is, in each mode of reading it.
abbrev Splits : Mode → Chars → Type 0
Splits text s = (d : Document) × (s ≡ written d) × IsDocument d
Splits line_comment s = NoNewline s ⊎ Behind NoNewline b'\n' s
Splits (in_string escaped) s = NoQuote escaped s ⊎ Behind (IsQuoted escaped) b'"' s
Splits (block_comment previous) s = NoClose previous s ⊎ Behind (IsBlock previous) b'/' s

as_string : (s : Chars) → Splits (in_string false) s → Splits text (b'"' ∷ s)
as_string s (inl h) = (open_string s, refl, h)
as_string s (inr (body, d, e, h, ds)) = (quoted body d, ap (◌∷◌ b'"') e, (h, ds))

as_line : (s : Chars) → Splits line_comment s → Splits text (b'/' ∷ b'/' ∷ s)
as_line s (inl h) = (open_line s, refl, h)
as_line s (inr (body, d, e, h, ds)) = (line body d, ap (λ (x : Chars). b'/' ∷ b'/' ∷ x) e, (h, ds))

as_block : (s : Chars) → Splits (block_comment 0) s → Splits text (b'/' ∷ b'*' ∷ s)
as_block s (inl h) = (open_block s, refl, h)
as_block s (inr (body, d, e, h, ds)) =
    (block body d, ap (λ (x : Chars). b'/' ∷ b'*' ∷ x) e, (h, ds))

as_char : (c : ℕ) (s : Chars) → c ≢ b'"' → OpensNothing c s → Splits text s → Splits text (c ∷ s)
as_char c s h k (d, e, ds) = (char c d, ap (◌∷◌ c) e, (h, subst (OpensNothing c) e k, ds))

on_line : (c : ℕ) (s : Chars) → Splits text s → Splits line_comment s → Splits line_comment (c ∷ s)
on_line c s (d, e, ds) more = go more (Bool-cases (c == b'\n'))
  where
    go :
        Splits line_comment s
        → ((c == b'\n') ≡ true) ⊎ ((c == b'\n') ≡ false)
        → Splits line_comment (c ∷ s)
    go more (inl n) =
        let feed : c ≡ b'\n' = (==_iff c b'\n').0 n in inr ([], d, rw (feed, e) refl, tt, ds)
    go (inl h) (inr n) = inl ((λ f. ground arith), h)
    go (inr (body, d', e', h, ds')) (inr n) =
        inr (c ∷ body, d', ap (◌∷◌ c) e', ((λ f. ground arith), h), ds')

on_string :
    (escaped : Bool) (c : ℕ) (s : Chars)
    → Splits text s
    → Splits (in_string (not escaped && c == b'\\')) s
    → Splits (in_string escaped) (c ∷ s)
on_string escaped c s (d, e, ds) more = go more (Bool-cases (not escaped && c == b'"'))
  where
    go :
        Splits (in_string (not escaped && c == b'\\')) s
        → ((not escaped && c == b'"') ≡ true) ⊎ ((not escaped && c == b'"') ≡ false)
        → Splits (in_string escaped) (c ∷ s)
    go more (inl q) =
        let quote : c ≡ b'"' = ground arith in inr ([], d, rw (quote, e) refl, ground arith, ds)
    go (inl h) (inr q) = inl ((λ f. ground arith), h)
    go (inr (body, d', e', h, ds')) (inr q) =
        inr (c ∷ body, d', ap (◌∷◌ c) e', ((λ f. ground arith), h), ds')

on_block :
    (previous c : ℕ) (s : Chars)
    → Splits text s
    → Splits (block_comment c) s
    → Splits (block_comment previous) (c ∷ s)
on_block previous c s (d, e, ds) more = go more (Bool-cases (previous == b'*' && c == b'/'))
  where
    go :
        Splits (block_comment c) s
        → ((previous == b'*' && c == b'/') ≡ true) ⊎ ((previous == b'*' && c == b'/') ≡ false)
        → Splits (block_comment previous) (c ∷ s)
    go more (inl q) =
        let slash : c ≡ b'/' = ground arith in inr ([], d, rw (slash, e) refl, ground arith, ds)
    go (inl h) (inr q) = inl ((λ f g. ground arith), h)
    go (inr (body, d', e', h, ds')) (inr q) =
        inr (c ∷ body, d', ap (◌∷◌ c) e', ((λ f g. ground arith), h), ds')

splits : (m : Mode) (s : Chars) → Splits m s
splits text [] = (end, refl, tt)
splits text (c ∷ []) = go (Bool-cases (c == b'"'))
  where
    go : ((c == b'"') ≡ true) ⊎ ((c == b'"') ≡ false) → Splits text (c ∷ [])
    go (inl q) =
        subst (λ (x : ℕ). Splits text (x ∷ [])) (sym ((==_iff c b'"').0 q))
          (open_string [], refl, tt)
    go (inr q) = as_char c [] (λ f. ground arith) tt (end, refl, tt)
splits text (c ∷ d ∷ s) =
    go (splits (in_string false) (d ∷ s)) (splits line_comment s) (splits (block_comment 0) s)
      (splits text (d ∷ s)) (Bool-cases (c == b'"')) (Bool-cases (c == b'/'))
      (Bool-cases (d == b'/')) (Bool-cases (d == b'*'))
  where
    Test : ℕ → ℕ → Type 0
    Test x y = ((x == y) ≡ true) ⊎ ((x == y) ≡ false)

    go :
        Splits (in_string false) (d ∷ s)
        → Splits line_comment s
        → Splits (block_comment 0) s
        → Splits text (d ∷ s)
        → Test c b'"'
        → Test c b'/'
        → Test d b'/'
        → Test d b'*'
        → Splits text (c ∷ d ∷ s)
    go string line_ block_ more (inl q) v w x = rw ((==_iff c b'"').0 q) (as_string (d ∷ s) string)
    go string line_ block_ more (inr q) (inl v) (inl w) x =
        rw ((==_iff c b'/').0 v, (==_iff d b'/').0 w) (as_line s line_)
    go string line_ block_ more (inr q) (inl v) (inr w) (inl x) =
        rw ((==_iff c b'/').0 v, (==_iff d b'*').0 x) (as_block s block_)
    go string line_ block_ more (inr q) (inl v) (inr w) (inr x) =
        as_char c (d ∷ s) (λ f. ground arith) (λ f. ((λ g. ground arith), (λ g. ground arith))) more
    go string line_ block_ more (inr q) (inr v) w x =
        as_char c (d ∷ s) (λ f. ground arith) (λ f. ground arith) more
splits line_comment [] = inl tt
splits line_comment (c ∷ s) = on_line c s (splits text s) (splits line_comment s)
splits (in_string escaped) [] = inl tt
splits (in_string escaped) (c ∷ s) =
    on_string escaped c s (splits text s) (splits (in_string (not escaped && c == b'\\')) s)
splits (block_comment previous) [] = inl tt
splits (block_comment previous) (c ∷ s) =
    on_block previous c s (splits text s) (splits (block_comment c) s)

-- Every text is a document, and one text is what stripping makes of another exactly when it is that
-- document without its comments: strings and all other characters stay, a block comment goes, a line
-- comment goes up to its line feed, and a comment that is left open goes to the end.
pub strip_json_comments_strips :
    (input output : Chars)
    → (strip_json_comments input ≡ output)
      ↔ ((d : Document) × (input ≡ written d) × IsDocument d × (output ≡ without_comments d))
unfolding strip_json_comments
strip_json_comments_strips input output = (strips (splits text input), stripped)
  where
    Stripped : Type 0
    Stripped = (d : Document) × (input ≡ written d) × IsDocument d × (output ≡ without_comments d)

    strips : Splits text input → strip_json_comments input ≡ output → Stripped
    strips (d, e, ds) h = (d, e, ds, sym h ∙ ap strip_json_comments e ∙ strip-written d ds)

    stripped : Stripped → strip_json_comments input ≡ output
    stripped (d, e, ds, same) = ap strip_json_comments e ∙ strip-written d ds ∙ sym same
