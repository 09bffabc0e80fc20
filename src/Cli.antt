-- ===== src/Cli.antt =====
-- src/cli.rs: the options, the level of the log, and arguments that start with a slash. The reading of the
-- options from the arguments is the clap crate's.
use skin_get_be_rust.Prelude.{
  ℕ, Bool, leb, List, [], ◌∷◌, map, Option, none, some, ◌==◌, if◌then◌else◌,
}
use skin_get_be_rust.Prelude.Text.{Chars}
use skin_get_be_rust.Prelude.Decimal.{magnitude, below}

-- `Cli`
pub record Cli : Type 0 where
  pub config : Bool
  pub filter : Option Chars
  pub logs : Option ℕ
  pub debug : Bool

abbrev pub level_or : Option ℕ → ℕ → ℕ
level_or none level = level
level_or (some level) other_level = level

abbrev pub log_level : Cli → ℕ
log_level cli = level_or cli.logs (if cli.debug then 3 else 2)

-- `value.parse::<u8>()`
abbrev pub parse_u8 : Chars → Option ℕ
parse_u8 [] = none
parse_u8 (c ∷ s) = below 256 (if c == b'+' then magnitude s else magnitude (c ∷ s))

-- None stands for the error.
abbrev pub up_to_four : Option ℕ → Option ℕ
up_to_four none = none
up_to_four (some level) = if leb level 4 then some level else none

unfoldable pub parse_log_level : Chars → Option ℕ
parse_log_level value = up_to_four (parse_u8 value)

-- `/flag` becomes `--flag`; a lone slash stays.
abbrev pub normalize_arg : Chars → Chars
normalize_arg [] = []
normalize_arg (c ∷ []) = c ∷ []
normalize_arg (c ∷ d ∷ s) = if c == b'/' then b'-' ∷ b'-' ∷ d ∷ s else c ∷ d ∷ s

unfoldable pub normalize_args : List Chars → List Chars
normalize_args args = map normalize_arg args
