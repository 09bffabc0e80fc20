-- ===== src/Util/Config/Load.antt =====
-- What `ConfigManager::load` of src/util/config.rs returns.
use skin_get_be_rust.Prelude.{
  ◌≤◌, ◌≡◌, ◌⊎◌, refl, ◌∙◌, Bool, true, false, Option, none, some, ltb, ◌==◌, arith, Bool-cases,
  inl, inr,
}
use skin_get_be_rust.Prelude.Text.{Chars, chars_beq_iff, trim_start}
use skin_get_be_rust.Error.{Result, ok, err}
use skin_get_be_rust.Bedrock.Version.{Fallbacks, get_latest_protocol, get_latest_version, max_entry}
use skin_get_be_rust.Util.Config.{
  Config, default, config_beq, is_blank, normalize_supported_version, Outside, in_directory, save,
  saved, of_parsed, of_content, of_file, load, strip_json_comments, format_config_with_comments,
}
use skin_get_be_rust.Util.Config.Written.{
  plain_document, strip_json_comments-format_config_with_comments,
}
use mathlib.Core.Path.{subst}

-- A configuration that the server can run on.
pub record IsNormal (config : Config) : Type 0 where
  pub protocol : (config.protocol == 0) ≡ false
  pub version : is_blank config.version ≡ false
  pub savemode : config.savemode ≤ 2

latest_is_usable :
    (fallbacks : Fallbacks)
    → ((get_latest_protocol fallbacks == 0) ≡ false)
      × (is_blank (get_latest_version fallbacks) ≡ false)
unfolding get_latest_protocol get_latest_version max_entry trim_start
latest_is_usable fallbacks = (refl, refl)

normalize_supported_version-IsNormal :
    (fallbacks : Fallbacks) (config : Config)
    → IsNormal (normalize_supported_version fallbacks config)
unfolding normalize_supported_version
normalize_supported_version-IsNormal fallbacks config =
    go (Bool-cases (config.protocol == 0)) (Bool-cases (is_blank config.version))
      (Bool-cases (ltb 2 config.savemode))
  where
    usable :
        ((get_latest_protocol fallbacks == 0) ≡ false)
        × (is_blank (get_latest_version fallbacks) ≡ false)
    usable = latest_is_usable fallbacks

    Test : Bool → Type 0
    Test b = (b ≡ true) ⊎ (b ≡ false)

    go :
        Test (config.protocol == 0)
        → Test (is_blank config.version)
        → Test (ltb 2 config.savemode)
        → IsNormal (normalize_supported_version fallbacks config)
    go (inl p) (inl v) m = record {
      protocol = rw p usable.0;
      version = rw (p, v) usable.1;
      savemode = rw p (omega arith);
    }
    go (inl p) (inr v) m = record {
      protocol = rw p usable.0;
      version = rw (p, v) v;
      savemode = rw p (omega arith);
    }
    go (inr p) (inl v) m = record {
      protocol = rw (p, v) p;
      version = rw (p, v) usable.1;
      savemode = rw (p, v) (omega arith);
    }
    go (inr p) (inr v) (inl m) = record {
      protocol = rw (p, v, m) p;
      version = rw (p, v, m) v;
      savemode = rw (p, v, m) (omega arith);
    }
    go (inr p) (inr v) (inr m) = record {
      protocol = rw (p, v, m) p;
      version = rw (p, v, m) v;
      savemode = rw (p, v, m) (ground arith);
    }

default-IsNormal : IsNormal default
unfolding trim_start
default-IsNormal = record { protocol = refl; version = refl; savemode = omega arith }

IsNormal-fixed :
    (fallbacks : Fallbacks) (config : Config)
    → IsNormal config
    → normalize_supported_version fallbacks config ≡ config
unfolding normalize_supported_version
IsNormal-fixed fallbacks config n =
    let low : ltb 2 config.savemode ≡ false = (let h = n.savemode in ground arith) in
    rw (n.protocol, n.version, low) refl

config_beq_sound : (a b : Config) → config_beq a b ≡ true → a ≡ b
config_beq_sound a b h =
    let version : a.version ≡ b.version = (chars_beq_iff a.version b.version).0 (ground arith) in
    let bind_addr : a.bind_addr ≡ b.bind_addr =
      (chars_beq_iff a.bind_addr b.bind_addr).0 (ground arith) in
    let protocol : a.protocol ≡ b.protocol = ground arith in
    let port : a.port ≡ b.port = ground arith in
    let savemode : a.savemode ≡ b.savemode = ground arith in
    λ i. record {
      version = version i;
      protocol = protocol i;
      port = port i;
      bind_addr = bind_addr i;
      savemode = savemode i;
    }

config_beq_refl : (c : Config) → config_beq c c ≡ true
config_beq_refl c = ground (
  arith,
  (chars_beq_iff c.version c.version).1 refl,
  (chars_beq_iff c.bind_addr c.bind_addr).1 refl,
)

-- Whatever the disk and the JSON reader do, a configuration that `load` returns has a protocol, a version
-- that is not blank and a save mode up to 2, and is returned as it is by another normalisation.
pub load-IsNormal :
    (o : Outside) (fallbacks : Fallbacks) (file : Option Chars) (config : Config)
    → (load o fallbacks file).0 ≡ ok config
    → IsNormal config × (normalize_supported_version fallbacks config ≡ config)
unfolding load
load-IsNormal o fallbacks file config h =
    let n = directory o.create_dir_all h in (n, IsNormal-fixed fallbacks config n)
  where
    written :
        (c : Config) (w : Result (Unit {0}) × Option Chars)
        → IsNormal c
        → (saved o fallbacks c w).0 ≡ ok config
        → IsNormal config
    written c (err e, left) n k = cc
    written c (ok done, left) n k = let same : c ≡ config = cc in subst IsNormal same n

    parsed : (c : Result Config) → (of_parsed o fallbacks file c).0 ≡ ok config → IsNormal config
    parsed (err e) k = cc
    parsed (ok c) k = elim (Bool-cases (config_beq (normalize_supported_version fallbacks c) c)) [
      | inl same ↦
          let e : normalize_supported_version fallbacks c ≡ c =
            config_beq_sound (normalize_supported_version fallbacks c) c same in
          let f : ◌≡◌ {A = Result Config} (ok c) (ok config) = rw same at k in
          let g : c ≡ config = cc f in
          subst IsNormal (e ∙ g) (normalize_supported_version-IsNormal fallbacks c)
      | inr other ↦
          written (normalize_supported_version fallbacks c)
            (save o fallbacks (normalize_supported_version fallbacks c) file)
            (normalize_supported_version-IsNormal fallbacks c) (rw other at k)
    ]

    content : (c : Result Chars) → (of_content o fallbacks file c).0 ≡ ok config → IsNormal config
    content (err e) k = cc
    content (ok c) k = parsed (o.from_str (strip_json_comments c)) k

    found : (f : Option Chars) → f ≡ file → (of_file o fallbacks f).0 ≡ ok config → IsNormal config
    found none e k = written default (save o fallbacks default none) default-IsNormal k
    found (some c) e k = content (o.read_to_string c) (
        subst (λ (f : Option Chars). (of_content o fallbacks f (o.read_to_string c)).0 ≡ ok config)
          e k)

    directory :
        (d : Result (Unit {0}))
        → (in_directory o fallbacks d file (of_file o fallbacks file)).0 ≡ ok config
        → IsNormal config
    directory (err e) k = cc
    directory (ok done) k = found file refl k

-- A usable configuration that is saved is loaded again as it was, and the file stays as written: on a disk
-- that takes the text and gives it back, with a JSON reader that reads the object in the text.
pub load-save :
    (o : Outside) (fallbacks : Fallbacks) (config : Config) (file : Option Chars)
    → o.create_dir_all ≡ ok tt
    → ((content : Chars) → o.write content file ≡ (ok tt, some content))
    → ((content : Chars) → o.read_to_string content ≡ ok content)
    → o.from_str (plain_document config) ≡ ok config
    → IsNormal config
    → load o fallbacks (save o fallbacks config file).1
      ≡ (ok config, (save o fallbacks config file).1)
unfolding load save
load-save o fallbacks config file made taken given reads n =
    let content : Chars = format_config_with_comments config in
    let stripped = strip_json_comments-format_config_with_comments config in
    let fixed = IsNormal-fixed fallbacks config n in
    let same : config_beq config config ≡ true = config_beq_refl config in
    rw (made, taken content, given content, stripped, reads, fixed, same) refl
