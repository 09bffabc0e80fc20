-- ===== src/Util/Config/Written.antt =====
-- The file that src/util/config.rs writes, as `strip_json_comments` reads it back: the JSON object alone.
use skin_get_be_rust.Prelude.{
  ℕ, zero, suc, ◌/◌, ◌%◌, ◌<◌, min, ◌≡◌, refl, ap, ◌∙◌, false, [], ◌∷◌, ◌++◌, append_assoc, ltb,
  arith, Bool-cases, inl, inr,
}
use skin_get_be_rust.Prelude.Text.{Chars, codes}
use skin_get_be_rust.Prelude.Decimal.{digit, decimal_onto, decimal}
use skin_get_be_rust.Util.Config.{
  Config, escape_char, escape_json_string, upto_version, upto_protocol, upto_port, upto_addr,
  upto_savemode, upto_end, format_config_with_comments, text, in_string, strip, strip_json_comments,
}
use skin_get_be_rust.Util.Config.Escape.{escape_char-Escaped}
use skin_get_be_rust.Util.Config.Comments.{strip-plain}

-- The file's text without the comments: an empty line is left where each stood.
abbrev pub plain_document : Config → Chars
plain_document config =
    codes "{\n  \n  \"version\": \""
    ++ (escape_json_string config.version
        ++ (codes "\",\n  \n  \"protocol\": "
            ++ (decimal config.protocol
                ++ (codes ",\n  \n  \"port\": "
                    ++ (decimal config.port
                        ++ (codes ",\n  \n  \"bind_addr\": \""
                            ++ (escape_json_string config.bind_addr
                                ++ (codes "\",\n  \n  \"savemode\": "
                                    ++ (decimal (min config.savemode 2) ++ codes "\n}\n")))))))))

-- A string literal stays as it is, whatever is in the value.
strip-escape_char :
    (c : ℕ) (s : Chars)
    → strip (in_string false) (escape_char c ++ s) ≡ escape_char c ++ strip (in_string false) s
unfolding strip
strip-escape_char c s = elim (escape_char-Escaped c) [
  | inl (e, q, b) ↦ rw (e, q, b) refl
  | inr (x, e) ↦ rw e refl
]

strip-escape_json_string :
    (value s : Chars)
    → strip (in_string false) (escape_json_string value ++ s)
      ≡ escape_json_string value ++ strip (in_string false) s
unfolding escape_json_string
strip-escape_json_string [] s = refl
strip-escape_json_string (c ∷ value) s =
    rw
      (
        append_assoc (escape_char c) (escape_json_string value) s,
        append_assoc (escape_char c) (escape_json_string value) (strip (in_string false) s),
      )
      (strip-escape_char c (escape_json_string value ++ s)
        ∙ ap (λ (x : Chars). escape_char c ++ x) (strip-escape_json_string value s))

strip-digit : (d : ℕ) (s : Chars) → d < 10 → strip text (digit d ∷ s) ≡ digit d ∷ strip text s
strip-digit d s h = strip-plain (digit d) s (ground arith) (ground arith)

strip-decimal_onto :
    (fuel n : ℕ) (tail s rest : Chars)
    → strip text (tail ++ s) ≡ tail ++ rest
    → strip text (decimal_onto fuel n tail ++ s) ≡ decimal_onto fuel n tail ++ rest
unfolding decimal_onto
strip-decimal_onto zero n tail s rest h = h
strip-decimal_onto (suc fuel) n tail s rest h = elim (Bool-cases (ltb n 10)) [
  | inl small ↦
      let less : n < 10 = ground arith in
      rw small (strip-digit n (tail ++ s) less ∙ ap (◌∷◌ (digit n)) h)
  | inr large ↦ rw large (
      strip-decimal_onto fuel (n / 10) (digit (n % 10) ∷ tail) s rest
        (strip-digit (n % 10) (tail ++ s) (omega arith) ∙ ap (◌∷◌ (digit (n % 10))) h))
]

strip-decimal : (n : ℕ) (s : Chars) → strip text (decimal n ++ s) ≡ decimal n ++ strip text s
strip-decimal n s = strip-decimal_onto (suc n) n [] s (strip text s) refl

-- The literal pieces.
strip-upto_version :
    (s : Chars)
    → strip text (upto_version ++ s) ≡ codes "{\n  \n  \"version\": \"" ++ strip (in_string false) s
unfolding strip
strip-upto_version [] = refl
strip-upto_version (c ∷ s) = refl

strip-upto_protocol :
    (s : Chars)
    → strip (in_string false) (upto_protocol ++ s)
      ≡ codes "\",\n  \n  \"protocol\": " ++ strip text s
unfolding strip
strip-upto_protocol [] = refl
strip-upto_protocol (c ∷ s) = refl

strip-upto_port :
    (s : Chars) → strip text (upto_port ++ s) ≡ codes ",\n  \n  \"port\": " ++ strip text s
unfolding strip
strip-upto_port [] = refl
strip-upto_port (c ∷ s) = refl

strip-upto_addr :
    (s : Chars)
    → strip text (upto_addr ++ s) ≡ codes ",\n  \n  \"bind_addr\": \"" ++ strip (in_string false) s
unfolding strip
strip-upto_addr [] = refl
strip-upto_addr (c ∷ s) = refl

strip-upto_savemode :
    (s : Chars)
    → strip (in_string false) (upto_savemode ++ s)
      ≡ codes "\",\n  \n  \"savemode\": " ++ strip text s
unfolding strip
strip-upto_savemode [] = refl
strip-upto_savemode (c ∷ s) = refl

strip-upto_end : strip text upto_end ≡ codes "\n}\n"
unfolding strip
strip-upto_end = refl

onto : (pre x y : Chars) → x ≡ y → pre ++ x ≡ pre ++ y
onto pre x y e = ap (λ (z : Chars). pre ++ z) e

-- The second half of the file, from the port on.
abbrev from_port : Config → Chars
from_port config =
    decimal config.port
    ++ (upto_addr
        ++ (escape_json_string config.bind_addr
            ++ (upto_savemode ++ (decimal (min config.savemode 2) ++ upto_end))))

abbrev plain_from_port : Config → Chars
plain_from_port config =
    decimal config.port
    ++ (codes ",\n  \n  \"bind_addr\": \""
        ++ (escape_json_string config.bind_addr
            ++ (codes "\",\n  \n  \"savemode\": "
                ++ (decimal (min config.savemode 2) ++ codes "\n}\n"))))

strip-from_port : (config : Config) → strip text (from_port config) ≡ plain_from_port config
strip-from_port config =
    strip-decimal config.port (upto_addr ++ addr)
    ∙ onto (decimal config.port) (strip text (upto_addr ++ addr))
        (codes ",\n  \n  \"bind_addr\": \"" ++ plain_addr)
        (strip-upto_addr addr
          ∙ onto (codes ",\n  \n  \"bind_addr\": \"") (strip (in_string false) addr) plain_addr (
              strip-escape_json_string config.bind_addr (upto_savemode ++ mode)
              ∙ onto (escape_json_string config.bind_addr)
                  (strip (in_string false) (upto_savemode ++ mode))
                  (codes "\",\n  \n  \"savemode\": " ++ plain_mode)
                  (strip-upto_savemode mode
                    ∙ onto (codes "\",\n  \n  \"savemode\": ") (strip text mode) plain_mode (
                        strip-decimal (min config.savemode 2) upto_end
                        ∙ onto (decimal (min config.savemode 2)) (strip text upto_end)
                            (codes "\n}\n") strip-upto_end))))
  where
    mode : Chars
    mode = decimal (min config.savemode 2) ++ upto_end

    plain_mode : Chars
    plain_mode = decimal (min config.savemode 2) ++ codes "\n}\n"

    addr : Chars
    addr = escape_json_string config.bind_addr ++ (upto_savemode ++ mode)

    plain_addr : Chars
    plain_addr =
        escape_json_string config.bind_addr ++ (codes "\",\n  \n  \"savemode\": " ++ plain_mode)

-- A written file, whatever texts the configuration holds, is stripped to the JSON object with the four
-- comment lines left empty.
pub strip_json_comments-format_config_with_comments :
    (config : Config)
    → strip_json_comments (format_config_with_comments config) ≡ plain_document config
unfolding strip_json_comments format_config_with_comments
strip_json_comments-format_config_with_comments config =
    strip-upto_version version
    ∙ onto (codes "{\n  \n  \"version\": \"") (strip (in_string false) version) plain_version (
        strip-escape_json_string config.version (upto_protocol ++ protocol)
        ∙ onto (escape_json_string config.version)
            (strip (in_string false) (upto_protocol ++ protocol))
            (codes "\",\n  \n  \"protocol\": " ++ plain_protocol)
            (strip-upto_protocol protocol
              ∙ onto (codes "\",\n  \n  \"protocol\": ") (strip text protocol) plain_protocol (
                  strip-decimal config.protocol (upto_port ++ from_port config)
                  ∙ onto (decimal config.protocol) (strip text (upto_port ++ from_port config))
                      (codes ",\n  \n  \"port\": " ++ plain_from_port config)
                      (strip-upto_port (from_port config)
                        ∙ onto (codes ",\n  \n  \"port\": ") (strip text (from_port config))
                            (plain_from_port config) (strip-from_port config)))))
  where
    protocol : Chars
    protocol = decimal config.protocol ++ (upto_port ++ from_port config)

    plain_protocol : Chars
    plain_protocol =
        decimal config.protocol ++ (codes ",\n  \n  \"port\": " ++ plain_from_port config)

    version : Chars
    version = escape_json_string config.version ++ (upto_protocol ++ protocol)

    plain_version : Chars
    plain_version =
        escape_json_string config.version ++ (codes "\",\n  \n  \"protocol\": " ++ plain_protocol)
