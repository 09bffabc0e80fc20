-- ===== src/Bedrock/Login/Metadata.antt =====
-- src/bedrock/login.rs: what is picked out of the payloads of a login: the player's name and the metadata.
use skin_get_be_rust.Prelude.{
  ℕ, zero, suc, Bool, false, not, ◌||◌, List, [], ◌∷◌, Option, none, some, length, ◌==◌,
  if◌then◌else◌,
}
use skin_get_be_rust.Prelude.Text.{Chars, codes, chars_beq, is_empty, count, byte_len}
use skin_get_be_rust.Prelude.Decimal.{ℤ, parse_i32}
use skin_get_be_rust.Error.{Result, ok, err}
use skin_get_be_rust.Crypto.Jwt.{Encodings, dot, next_token, get_payload, get_json_value}
use skin_get_be_rust.Bedrock.Skin.{sanitize_component}

-- `LoginMetadata`
pub record LoginMetadata : Type 0 where
  pub xuid : Option Chars
  pub device_os : Option ℤ
  pub device_model : Option Chars
  pub playfab_id : Option Chars
  pub client_random_id : Option Chars
  pub skin_geometry : Option Chars
  pub geometry_data_engine_version : Option Chars
  pub animation_data : Option Chars
  pub cape_data : Option Chars

-- The first result among the keys, and then among the payloads.
abbrev pub or_next : {A : Type 0} → Option A → Option A → Option A
or_next none later = later
or_next (some a) later = some a

abbrev pub first_key : {A : Type 0} → (Option Chars → Option A) → Chars → List Chars → Option A
first_key pick payload [] = none
first_key pick payload (key ∷ keys) =
    or_next (pick (get_json_value payload key)) (first_key pick payload keys)

abbrev pub first_payload :
    {A : Type 0} → (Option Chars → Option A) → List Chars → List Chars → Option A
first_payload pick [] keys = none
first_payload pick (payload ∷ payloads) keys =
    or_next (first_key pick payload keys) (first_payload pick payloads keys)

abbrev pub sanitized : Option Chars → Option Chars
sanitized none = none
sanitized (some value) = if not (is_empty value) then some (sanitize_component value) else none

abbrev pub parsed_i32 : Option Chars → Option ℤ
parsed_i32 none = none
parsed_i32 (some value) = parse_i32 value

unfoldable pub extract_string : List Chars → List Chars → Option Chars
extract_string payloads keys = first_payload sanitized payloads keys

unfoldable pub extract_i32 : List Chars → List Chars → Option ℤ
extract_i32 payloads keys = first_payload parsed_i32 payloads keys

unfoldable pub collect_metadata : List Chars → LoginMetadata
collect_metadata payloads = record {
  xuid = extract_string payloads (codes "XUID" ∷ codes "xuid" ∷ []);
  device_os = extract_i32 payloads (codes "DeviceOS" ∷ codes "device_os" ∷ []);
  device_model = extract_string payloads (codes "DeviceModel" ∷ codes "device_model" ∷ []);
  playfab_id = extract_string payloads (codes "PlayFabId" ∷ codes "playfabId" ∷ []);
  client_random_id = extract_string payloads (codes "ClientRandomId" ∷ codes "clientRandomId" ∷ []);
  skin_geometry =
      extract_string payloads
        (codes "SkinGeometryData" ∷ codes "SkinGeometry" ∷ codes "geometryData" ∷ []);
  geometry_data_engine_version =
      extract_string payloads
        (codes "geometryDataEngineVersion" ∷ codes "GeometryDataEngineVersion" ∷ []);
  animation_data = extract_string payloads (codes "animationData" ∷ codes "AnimationData" ∷ []);
  cape_data = extract_string payloads (codes "capeData" ∷ codes "CapeData" ∷ []);
}

abbrev pub name_keys : List Chars
name_keys = codes "xname" ∷ codes "ThirdPartyName" ∷ codes "displayName" ∷ []

abbrev pub unknown_player : Chars
unknown_player = codes "UnknownPlayer"

abbrev pub was_seen : Chars → List Chars → Bool
was_seen token [] = false
was_seen token (other ∷ seen) = chars_beq token other || was_seen token seen

abbrev pub name_in : Result Chars → Option Chars
name_in (err e) = none
name_in (ok payload) = first_key sanitized payload name_keys

abbrev pub name_or : Option Chars → Chars → Chars
name_or none later = later
name_or (some name) later = name

module _ (e : Encodings) where
  -- One round; `k` is the next one, on the tokens seen and the text behind this token.
  abbrev pub name_step : (List Chars → Chars → Chars) → List Chars → Option (Chars × Chars) → Chars
  name_step k seen none = unknown_player
  name_step k seen (some (token, rest)) =
      if byte_len token == 50 || not (count dot token == 2)
      then k seen rest
      else if was_seen token seen
      then k seen rest
      else name_or (name_in (get_payload e token)) (k (token ∷ seen) rest)

  unfoldable pub name_loop : (fuel : ℕ) → List Chars → Chars → Chars
  name_loop zero seen s = unknown_player
  name_loop (suc fuel) seen s = name_step (name_loop fuel) seen (next_token s)

  -- Each round takes two characters at least, so there are rounds enough.
  unfoldable pub extract_player_name : Chars → Chars
  extract_player_name chain_json = name_loop (suc (length chain_json)) [] chain_json
