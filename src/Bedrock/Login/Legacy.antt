-- ===== src/Bedrock/Login/Legacy.antt =====
-- `extract_legacy_login_fields` of src/bedrock/login.rs, which reads a count of tokens from the cursor on.
-- The random number in a missing name is an argument.
use skin_get_be_rust.Prelude.{
  ℕ, zero, suc, ◌%◌, Bool, true, false, ◌&&◌, List, [], ◌∷◌, ◌++◌, Option, none, some,
  if◌then◌else◌,
}
use skin_get_be_rust.Prelude.Text.{Chars, codes, trim, trim_matches}
use skin_get_be_rust.Prelude.Decimal.{decimal}
use skin_get_be_rust.Error.{Result, ok, err}
use skin_get_be_rust.Buffer.{Buffer, M, ◌>>=◌, return, read_bytes}
use skin_get_be_rust.Buffer.VarInt.{read_var_int}
use skin_get_be_rust.Crypto.Jwt.{Encodings, quote, ok_only, get_payload, parse_auth_chain}
use skin_get_be_rust.Bedrock.Skin.{Bytes}
use skin_get_be_rust.Bedrock.Login.{ok_bytes, payloads_or_empty}
use skin_get_be_rust.Bedrock.Login.Metadata.{or_next, first_key}

abbrev pub is_set : {A : Type 0} → Option A → Bool
is_set none = false
is_set (some a) = true

abbrev pub itself : Option Chars → Option Chars
itself o = o

abbrev pub legacy_name_keys : List Chars
legacy_name_keys = codes "displayName" ∷ codes "extraData.displayName" ∷ codes "username" ∷ []

abbrev pub legacy_skin_keys : List Chars
legacy_skin_keys =
    codes "SkinData"
    ∷ codes "skinData"
    ∷ codes "Skin"
    ∷ codes "skin"
    ∷ codes "SkinImage"
    ∷ codes "textures"
    ∷ []

module _ (e : Encodings) where
  abbrev pub text_payload : Result Chars → List Chars
  text_payload (err x) = []
  text_payload (ok token) = ok_only (get_payload e token)

  -- One token; one that is no text or does not decode is passed over.
  abbrev pub read_token : M (List Chars)
  read_token =
      read_var_int >>= λ len. read_bytes len >>= λ bytes. return (text_payload (e.from_utf8 bytes))

  unfoldable pub read_tokens : (count : ℕ) → List Chars → M (List Chars)
  read_tokens zero payloads b = (ok payloads, b)
  read_tokens (suc count) payloads b =
      (read_token >>= λ more. read_tokens count (payloads ++ more)) b

  abbrev pub ok_text : Result Chars × Buffer → Option Chars × Buffer
  ok_text (ok s, b) = (some s, b)
  ok_text (err x, b) = (none, b)

  unfoldable pub client_data : Buffer → Option Chars × Buffer
  client_data b =
      ok_text ((read_var_int >>= λ len. read_bytes len >>= λ bytes c. (e.from_utf8 bytes, c)) b)

  abbrev pub chained : Option Chars → List Chars
  chained none = []
  chained (some cd) = payloads_or_empty (parse_auth_chain e cd)

  unfoldable pub decode_skin_bytes : Chars → Option Bytes
  decode_skin_bytes val =
      or_next (ok_bytes (e.url_safe_no_pad (trim (trim_matches quote val))))
        (ok_bytes (e.standard (trim (trim_matches quote val))))

  abbrev pub decoded : Option Chars → Option Bytes
  decoded none = none
  decoded (some val) = decode_skin_bytes val

  -- The payloads, until both are found; a later skin replaces an earlier one.
  unfoldable pub scan_payloads :
      List Chars → Option Chars → Option Bytes → Option Chars × Option Bytes
  scan_payloads [] username skin = (username, skin)
  scan_payloads (payload ∷ payloads) username skin =
      let named = or_next username (first_key itself payload legacy_name_keys) in
      let skinned = or_next (first_key decoded payload legacy_skin_keys) skin in
      let later = scan_payloads payloads named skinned in
      if is_set skinned && is_set named then (named, skinned) else later

  unfoldable pub scan_chain : List Chars → Option Bytes
  scan_chain [] = none
  scan_chain (payload ∷ payloads) =
      or_next (first_key decoded payload legacy_skin_keys) (scan_chain payloads)

  abbrev pub name_or_number : Option Chars → ℕ → Chars
  name_or_number none random = codes "player_" ++ decimal (random % 10_000)
  name_or_number (some name) random = name

  abbrev pub with_name : Chars → Option Bytes → Option (Chars × Bytes)
  with_name name none = none
  with_name name (some skin) = some (name, skin)

  abbrev pub found_in : Option Chars → ℕ → Option Chars × Option Bytes → Option (Chars × Bytes)
  found_in cd random (username, skin) =
      with_name (name_or_number username random) (or_next skin (scan_chain (chained cd)))

  abbrev pub with_client_data :
      List Chars → ℕ → Option Chars × Buffer → Option (Chars × Bytes) × Buffer
  with_client_data payloads random (cd, b) =
      (found_in cd random (scan_payloads (payloads ++ chained cd) none none), b)

  abbrev pub with_tokens : ℕ → Result (List Chars) × Buffer → Option (Chars × Bytes) × Buffer
  with_tokens random (err x, b) = (none, b)
  with_tokens random (ok payloads, b) = with_client_data payloads random (client_data b)

  unfoldable pub extract_legacy_login_fields : ℕ → Buffer → Option (Chars × Bytes) × Buffer
  extract_legacy_login_fields random b =
      with_tokens random ((read_var_int >>= λ count. read_tokens count []) b)
