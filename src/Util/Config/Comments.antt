-- ===== src/Util/Config/Comments.antt =====
-- `strip_json_comments` of src/util/config.rs against a description of texts as documents: characters,
-- strings and comments, of which the last string or comment may be left open.
use skin_get_be_rust.Prelude.{
  ℕ, ◌≡◌, ◌≢◌, ◌⊎◌, refl, ap, ◌∙◌, Bool, true, false, not, ◌&&◌, [], ◌∷◌, ◌++◌, ==_iff, ◌==◌,
  Bool-cases, inl, inr, arith,
}
use skin_get_be_rust.Prelude.Text.{Chars}
use skin_get_be_rust.Util.Config.{text, line_comment, in_string, block_comment, strip}

-- A block holds what is between its opening and its last slash.
pub data Document : Type 0 where
  end : Document
  char : ℕ → Document → Document
  quoted line block : (body : Chars) → Document → Document
  open_string open_line open_block : (body : Chars) → Document

abbrev pub written : Document → Chars
written end = []
written (char c d) = c ∷ written d
written (quoted body d) = b'"' ∷ body ++ (b'"' ∷ written d)
written (line body d) = b'/' ∷ b'/' ∷ body ++ (b'\n' ∷ written d)
written (block body d) = b'/' ∷ b'*' ∷ body ++ (b'/' ∷ written d)
written (open_string body) = b'"' ∷ body
written (open_line body) = b'/' ∷ b'/' ∷ body
written (open_block body) = b'/' ∷ b'*' ∷ body

-- The document without its comments; a line comment's line feed stays.
abbrev pub without_comments : Document → Chars
without_comments end = []
without_comments (char c d) = c ∷ without_comments d
without_comments (quoted body d) = b'"' ∷ body ++ (b'"' ∷ without_comments d)
without_comments (line body d) = b'\n' ∷ without_comments d
without_comments (block body d) = without_comments d
without_comments (open_string body) = b'"' ∷ body
without_comments (open_line body) = []
without_comments (open_block body) = []

-- Every quote in the text is escaped; `escaped` tells whether a backslash escapes what is next.
abbrev pub NoQuote : (escaped : Bool) → Chars → Type 0
NoQuote escaped [] = Unit
NoQuote escaped (c ∷ s) = (c ≡ b'"' → escaped ≡ true) × NoQuote (not escaped && c == b'\\') s

-- And no escape is left open at its end.
abbrev pub IsQuoted : (escaped : Bool) → Chars → Type 0
IsQuoted escaped [] = escaped ≡ false
IsQuoted escaped (c ∷ s) = (c ≡ b'"' → escaped ≡ true) × IsQuoted (not escaped && c == b'\\') s

abbrev pub NoNewline : Chars → Type 0
NoNewline [] = Unit
NoNewline (c ∷ s) = (c ≢ b'\n') × NoNewline s

-- No star with a slash behind it, after the character `previous`.
abbrev pub NoClose : (previous : ℕ) → Chars → Type 0
NoClose previous [] = Unit
NoClose previous (c ∷ s) = (previous ≡ b'*' → c ≢ b'/') × NoClose c s

-- And a star at the end.
abbrev pub IsBlock : (previous : ℕ) → Chars → Type 0
IsBlock previous [] = previous ≡ b'*'
IsBlock previous (c ∷ s) = (previous ≡ b'*' → c ≢ b'/') × IsBlock c s

-- A character in front of a text opens no comment.
abbrev pub OpensNothing : ℕ → Chars → Type 0
OpensNothing c [] = Unit
OpensNothing c (d ∷ s) = c ≡ b'/' → (d ≢ b'/') × (d ≢ b'*')

-- A character opens neither a string nor a comment, and a string or comment ends where it first can.
abbrev pub IsDocument : Document → Type 0
IsDocument end = Unit
IsDocument (char c d) = (c ≢ b'"') × OpensNothing c (written d) × IsDocument d
IsDocument (quoted body d) = IsQuoted false body × IsDocument d
IsDocument (line body d) = NoNewline body × IsDocument d
IsDocument (block body d) = IsBlock 0 body × IsDocument d
IsDocument (open_string body) = NoQuote false body
IsDocument (open_line body) = NoNewline body
IsDocument (open_block body) = NoClose 0 body

pub strip-quote : (s : Chars) → strip text (b'"' ∷ s) ≡ b'"' ∷ strip (in_string false) s
unfolding strip
strip-quote [] = refl
strip-quote (d ∷ s) = refl

-- A character that opens nothing stays.
pub strip-plain :
    (c : ℕ) (s : Chars)
    → (c == b'"') ≡ false
    → (c == b'/') ≡ false
    → strip text (c ∷ s) ≡ c ∷ strip text s
unfolding strip
strip-plain c [] h k = refl
strip-plain c (d ∷ s) h k = rw (h, k) refl

strip-char :
    (c : ℕ) (s : Chars) → c ≢ b'"' → OpensNothing c s → strip text (c ∷ s) ≡ c ∷ strip text s
unfolding strip
strip-char c [] h k = refl
strip-char c (d ∷ s) h k = go (Bool-cases (c == b'/'))
  where
    not_quote : (c == b'"') ≡ false
    not_quote = ground arith

    go :
        ((c == b'/') ≡ true) ⊎ ((c == b'/') ≡ false)
        → strip text (c ∷ d ∷ s) ≡ c ∷ strip text (d ∷ s)
    go (inr other) = strip-plain c (d ∷ s) not_quote other
    go (inl slash) =
        let (no_line, no_block) = k ((==_iff c b'/').0 slash) in
        let first : (d == b'/') ≡ false = ground arith in
        let second : (d == b'*') ≡ false = ground arith in rw (not_quote, slash, first, second) refl

strip-IsQuoted :
    (escaped : Bool) (body s : Chars)
    → IsQuoted escaped body
    → strip (in_string escaped) (body ++ (b'"' ∷ s)) ≡ body ++ (b'"' ∷ strip text s)
unfolding strip
strip-IsQuoted escaped [] s h = rw h refl
strip-IsQuoted escaped (c ∷ body) s (no_end, h) =
    let more : (not escaped && c == b'"') ≡ false = ground (arith, no_end) in
    rw more (ap (◌∷◌ c) (strip-IsQuoted (not escaped && c == b'\\') body s h))

strip-NoQuote :
    (escaped : Bool) (body : Chars) → NoQuote escaped body → strip (in_string escaped) body ≡ body
unfolding strip
strip-NoQuote escaped [] h = refl
strip-NoQuote escaped (c ∷ body) (no_end, h) =
    let more : (not escaped && c == b'"') ≡ false = ground (arith, no_end) in
    rw more (ap (◌∷◌ c) (strip-NoQuote (not escaped && c == b'\\') body h))

strip-line :
    (body s : Chars)
    → NoNewline body
    → strip line_comment (body ++ (b'\n' ∷ s)) ≡ b'\n' ∷ strip text s
unfolding strip
strip-line [] s h = refl
strip-line (c ∷ body) s (other, h) =
    let more : (c == b'\n') ≡ false = ground arith in rw more (strip-line body s h)

strip-NoNewline : (body : Chars) → NoNewline body → strip line_comment body ≡ []
unfolding strip
strip-NoNewline [] h = refl
strip-NoNewline (c ∷ body) (other, h) =
    let more : (c == b'\n') ≡ false = ground arith in rw more (strip-NoNewline body h)

strip-IsBlock :
    (previous : ℕ) (body s : Chars)
    → IsBlock previous body
    → strip (block_comment previous) (body ++ (b'/' ∷ s)) ≡ strip text s
unfolding strip
strip-IsBlock previous [] s h = rw h refl
strip-IsBlock previous (c ∷ body) s (no_end, h) =
    let more : (previous == b'*' && c == b'/') ≡ false = ground (arith, no_end) in
    rw more (strip-IsBlock c body s h)

strip-NoClose :
    (previous : ℕ) (body : Chars) → NoClose previous body → strip (block_comment previous) body ≡ []
unfolding strip
strip-NoClose previous [] h = refl
strip-NoClose previous (c ∷ body) (no_end, h) =
    let more : (previous == b'*' && c == b'/') ≡ false = ground (arith, no_end) in
    rw more (strip-NoClose c body h)

pub strip-written : (d : Document) → IsDocument d → strip text (written d) ≡ without_comments d
unfolding strip
strip-written end h = refl
strip-written (char c d) (h, k, ds) = strip-char c (written d) h k ∙ ap (◌∷◌ c) (strip-written d ds)
strip-written (quoted body d) (h, ds) =
    strip-quote (body ++ (b'"' ∷ written d))
    ∙ ap (◌∷◌ b'"') (strip-IsQuoted false body (written d) h)
    ∙ ap (λ (s : Chars). b'"' ∷ body ++ (b'"' ∷ s)) (strip-written d ds)
strip-written (line body d) (h, ds) =
    strip-line body (written d) h ∙ ap (◌∷◌ b'\n') (strip-written d ds)
strip-written (block body d) (h, ds) = strip-IsBlock 0 body (written d) h ∙ strip-written d ds
strip-written (open_string body) h = strip-quote body ∙ ap (◌∷◌ b'"') (strip-NoQuote false body h)
strip-written (open_line body) h = strip-NoNewline body h
strip-written (open_block body) h = strip-NoClose 0 body h
