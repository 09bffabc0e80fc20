-- ===== src/Util/Config.antt =====
-- src/util/config.rs: the configuration, its file with comments, and what loading it normalises. The JSON
-- reader of serde and the disk are parameters; log output is left out.
pub mod Comments
pub mod Documents
pub mod Escape
pub mod Written
pub mod Load
use skin_get_be_rust.Prelude.{
  ℕ, zero, suc, ◌+◌, min, Bool, true, false, not, ◌&&◌, ◌||◌, List, [], ◌∷◌, ◌++◌, Option, none,
  some, ltb, ◌==◌, if◌then◌else◌,
}
use skin_get_be_rust.Prelude.Text.{Chars, codes, chars_beq, is_empty, trim_start}
use skin_get_be_rust.Prelude.Decimal.{decimal}
use skin_get_be_rust.Error.{Result, ok, err}
use skin_get_be_rust.Bedrock.Version.{get_latest_protocol, get_latest_version, Fallbacks}

-- `Config`
pub record Config : Type 0 where
  pub version : Chars
  pub protocol : ℕ
  pub port : ℕ
  pub bind_addr : Chars
  pub savemode : ℕ

abbrev pub default : Config
default = record {
  version = codes "1.26.21";
  protocol = 975;
  port = 19132;
  bind_addr = codes "0.0.0.0";
  savemode = 2;
}

-- The derived `PartialEq`.
abbrev pub config_beq : Config → Config → Bool
config_beq a b =
    chars_beq a.version b.version
    && a.protocol == b.protocol
    && a.port == b.port
    && chars_beq a.bind_addr b.bind_addr
    && a.savemode == b.savemode

-- `version.trim().is_empty()`: the end of a text is trimmed to nothing only when its start is.
abbrev pub is_blank : Chars → Bool
is_blank version = is_empty (trim_start version)

unfoldable pub normalize_supported_version : Fallbacks → Config → Config
normalize_supported_version fallbacks config =
    if config.protocol == 0 || is_blank config.version
    then record {
      version = if is_blank config.version then get_latest_version fallbacks else config.version;
      protocol = if config.protocol == 0 then get_latest_protocol fallbacks else config.protocol;
      port = config.port;
      bind_addr = config.bind_addr;
      savemode = min config.savemode 2;
    }
    else if ltb 2 config.savemode
    then record config { savemode = 2 }
    else config

abbrev pub escape_char : ℕ → Chars
escape_char c =
    if c == b'"'
    then b'\\' ∷ b'"' ∷ []
    else if c == b'\\'
    then b'\\' ∷ b'\\' ∷ []
    else if c == b'\n'
    then b'\\' ∷ b'n' ∷ []
    else if c == b'\r'
    then b'\\' ∷ b'r' ∷ []
    else if c == b'\t'
    then b'\\' ∷ b't' ∷ []
    else c ∷ []

unfoldable pub escape_json_string : Chars → Chars
escape_json_string [] = []
escape_json_string (c ∷ value) = escape_char c ++ escape_json_string value

-- The literal pieces of `format_config_with_comments`, between its placeholders.
abbrev pub upto_version : Chars
upto_version =
    codes "{\n  // Minecraft Bedrock version string shown in the server list.\n  \"version\": \""

abbrev pub upto_protocol : Chars
upto_protocol =
    codes
      "\",\n  // Bedrock protocol number. Keep this aligned with the client version.\n  \"protocol\": "

abbrev pub upto_port : Chars
upto_port = codes ",\n  // UDP port to listen on.\n  \"port\": "

abbrev pub upto_addr : Chars
upto_addr =
    codes
      ",\n  // Local bind address. 0.0.0.0 listens on all network interfaces.\n  \"bind_addr\": \""

abbrev pub upto_savemode : Chars
upto_savemode =
    codes
      "\",\n  // Skin save mode: 0 = do not save, 1 = overwrite, 2 = save as numbered new files.\n  \"savemode\": "

abbrev pub upto_end : Chars
upto_end = codes "\n}\n"

unfoldable pub format_config_with_comments : Config → Chars
format_config_with_comments config =
    upto_version
    ++ (escape_json_string config.version
        ++ (upto_protocol
            ++ (decimal config.protocol
                ++ (upto_port
                    ++ (decimal config.port
                        ++ (upto_addr
                            ++ (escape_json_string config.bind_addr
                                ++ (upto_savemode
                                    ++ (decimal (min config.savemode 2) ++ upto_end)))))))))

-- Where the loop of `strip_json_comments` stands: `in_string` and `escaped`, or inside one of the two
-- inner loops.
pub data Mode : Type 0 where
  text line_comment : Mode
  in_string : (escaped : Bool) → Mode
  block_comment : (previous : ℕ) → Mode

unfoldable pub strip : Mode → Chars → Chars
strip text [] = []
strip text (c ∷ []) = c ∷ []
strip text (c ∷ d ∷ s) =
    let quoted = strip (in_string false) (d ∷ s) in
    let line = strip line_comment s in
    let block = strip (block_comment 0) s in
    let more = strip text (d ∷ s) in
    if c == b'"'
    then c ∷ quoted
    else if c == b'/' && d == b'/'
    then line
    else if c == b'/' && d == b'*'
    then block
    else c ∷ more
strip line_comment [] = []
strip line_comment (c ∷ s) =
    let end = strip text s in
    let more = strip line_comment s in if c == b'\n' then c ∷ end else more
strip (in_string escaped) [] = []
strip (in_string escaped) (c ∷ s) =
    let end = strip text s in
    let more = strip (in_string (not escaped && c == b'\\')) s in
    if not escaped && c == b'"' then c ∷ end else c ∷ more
strip (block_comment previous) [] = []
strip (block_comment previous) (c ∷ s) =
    let end = strip text s in
    let more = strip (block_comment c) s in if previous == b'*' && c == b'/' then end else more

unfoldable pub strip_json_comments : Chars → Chars
strip_json_comments input = strip text input

-- What the manager calls of the disk and of serde. `file` is the text of the configuration file, if it is
-- there; a write that fails may have changed it.
pub record Outside : Type 0 where
  pub create_dir_all : Result (Unit {0})
  pub read_to_string : Chars → Result Chars
  pub write : Chars → Option Chars → Result (Unit {0}) × Option Chars
  pub from_str : Chars → Result Config

module _ (o : Outside) (fallbacks : Fallbacks) where
  abbrev pub in_directory :
      {A : Type 0}
      → Result (Unit {0})
      → Option Chars
      → Result A × Option Chars
      → Result A × Option Chars
  in_directory (err e) file later = (err e, file)
  in_directory (ok done) file later = later

  -- `ConfigManager::save`
  unfoldable pub save : Config → Option Chars → Result (Unit {0}) × Option Chars
  save config file =
      in_directory o.create_dir_all file (o.write (format_config_with_comments config) file)

  abbrev pub saved : Config → Result (Unit {0}) × Option Chars → Result Config × Option Chars
  saved config (err e, file) = (err e, file)
  saved config (ok done, file) = (ok config, file)

  abbrev pub of_parsed : Option Chars → Result Config → Result Config × Option Chars
  of_parsed file (err e) = (err e, file)
  of_parsed file (ok config) =
      if not (config_beq (normalize_supported_version fallbacks config) config)
      then saved (normalize_supported_version fallbacks config)
          (save (normalize_supported_version fallbacks config) file)
      else (ok config, file)

  abbrev pub of_content : Option Chars → Result Chars → Result Config × Option Chars
  of_content file (err e) = (err e, file)
  of_content file (ok content) = of_parsed file (o.from_str (strip_json_comments content))

  abbrev pub of_file : Option Chars → Result Config × Option Chars
  of_file none = saved default (save default none)
  of_file (some content) = of_content (some content) (o.read_to_string content)

  -- `ConfigManager::load`
  unfoldable pub load : Option Chars → Result Config × Option Chars
  load file = in_directory o.create_dir_all file (of_file file)
