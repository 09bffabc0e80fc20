-- ===== src/Bedrock/Version.antt =====
-- src/bedrock/version.rs: the versions by protocol number, and the fallback for the others. The three
-- global cells are a record that the calls take and return; log output is left out.
pub mod Latest
use skin_get_be_rust.Prelude.{
  ℕ, zero, suc, ◌%◌, ◌^◌, Bool, List, [], ◌∷◌, Option, none, some, ltb, ◌==◌, ◌||◌, false,
  if◌then◌else◌,
}
use skin_get_be_rust.Prelude.Map.{Map, lookup, nat_eq}
use skin_get_be_rust.Prelude.Text.{Chars, codes, is_empty}

-- `PROTOCOL_MAP`
abbrev pub protocol_map : Map ℕ Chars
protocol_map =
    (70, codes "0.14.3")
    ∷ (82, codes "0.15.6")
    ∷ (100, codes "1.0.0")
    ∷ (422, codes "1.16.201")
    ∷ (428, codes "1.16.210")
    ∷ (431, codes "1.16.220")
    ∷ (440, codes "1.17.0")
    ∷ (448, codes "1.17.10")
    ∷ (465, codes "1.17.30")
    ∷ (471, codes "1.17.40")
    ∷ (475, codes "1.18.0")
    ∷ (486, codes "1.18.11")
    ∷ (503, codes "1.18.30")
    ∷ (527, codes "1.19.1")
    ∷ (534, codes "1.19.10")
    ∷ (544, codes "1.19.20")
    ∷ (545, codes "1.19.21")
    ∷ (554, codes "1.19.30")
    ∷ (557, codes "1.19.40")
    ∷ (560, codes "1.19.50")
    ∷ (567, codes "1.19.60")
    ∷ (568, codes "1.19.63")
    ∷ (575, codes "1.19.70")
    ∷ (582, codes "1.19.80")
    ∷ (589, codes "1.20.0")
    ∷ (594, codes "1.20.10")
    ∷ (618, codes "1.20.30")
    ∷ (622, codes "1.20.40")
    ∷ (630, codes "1.20.50")
    ∷ (649, codes "1.20.61")
    ∷ (662, codes "1.20.71")
    ∷ (671, codes "1.20.80")
    ∷ (685, codes "1.21.0")
    ∷ (686, codes "1.21.2")
    ∷ (712, codes "1.21.20")
    ∷ (729, codes "1.21.30")
    ∷ (748, codes "1.21.42")
    ∷ (766, codes "1.21.50")
    ∷ (776, codes "1.21.60")
    ∷ (786, codes "1.21.70")
    ∷ (800, codes "1.21.80")
    ∷ (818, codes "1.21.90")
    ∷ (819, codes "1.21.93")
    ∷ (827, codes "1.21.100")
    ∷ (844, codes "1.21.111")
    ∷ (859, codes "1.21.120")
    ∷ (860, codes "1.21.124")
    ∷ (898, codes "1.21.130")
    ∷ (924, codes "1.26.0")
    ∷ (944, codes "1.26.10")
    ∷ (975, codes "1.26.21")
    ∷ (1001, codes "26.35")
    ∷ (2168, codes "26.44")
    ∷ (2169, codes "26.45")
    ∷ (2193, codes "26.52")
    ∷ (2225, codes "26.60")
    ∷ []

-- `FALLBACK_VERSION`, `FALLBACK_PROTOCOL` and `WARNED_UNKNOWN`.
pub record Fallbacks : Type 0 where
  pub version : Chars
  pub protocol : ℕ
  pub warned : List ℕ

abbrev pub initial : Fallbacks
initial = record { version = []; protocol = 0; warned = [] }

-- `max_by_key` on the protocol: the later of two equal ones.
unfoldable pub max_entry : ℕ × Chars → Map ℕ Chars → ℕ × Chars
max_entry best [] = best
max_entry best (entry ∷ entries) =
    let keep = max_entry best entries in
    let take_ = max_entry entry entries in if ltb entry.0 best.0 then keep else take_

abbrev pub latest_of : Map ℕ Chars → Option (ℕ × Chars)
latest_of [] = none
latest_of (entry ∷ entries) = some (max_entry entry entries)

abbrev pub protocol_or : ℕ → Option (ℕ × Chars) → ℕ
protocol_or fallback none = fallback
protocol_or fallback (some (k, v)) = k % 2 ^ 16

abbrev pub version_or : Chars → Option (ℕ × Chars) → Chars
version_or fallback none = fallback
version_or fallback (some (k, v)) = v

unfoldable pub get_latest_protocol : Fallbacks → ℕ
get_latest_protocol fallbacks = protocol_or fallbacks.protocol (latest_of protocol_map)

unfoldable pub get_latest_version : Fallbacks → Chars
get_latest_version fallbacks = version_or fallbacks.version (latest_of protocol_map)

abbrev pub set_fallback_version : Chars → Fallbacks → Fallbacks
set_fallback_version v fallbacks = record fallbacks { version = v }

abbrev pub set_fallback_protocol : ℕ → Fallbacks → Fallbacks
set_fallback_protocol p fallbacks = record fallbacks { protocol = p }

abbrev pub member : ℕ → List ℕ → Bool
member p [] = false
member p (q ∷ qs) = q == p || member p qs

-- `warned.insert(protocol)`
abbrev pub warn_once : ℕ → Fallbacks → Fallbacks
warn_once protocol fallbacks =
    if member protocol fallbacks.warned
    then fallbacks
    else record fallbacks { warned = protocol ∷ fallbacks.warned }

abbrev pub fallback_version : Fallbacks → Chars
fallback_version fallbacks =
    if is_empty fallbacks.version then get_latest_version fallbacks else fallbacks.version

abbrev pub resolved : ℕ → Fallbacks → Option Chars → Chars × Fallbacks
resolved protocol fallbacks (some v) = (v, fallbacks)
resolved protocol fallbacks none =
    (fallback_version (warn_once protocol fallbacks), warn_once protocol fallbacks)

unfoldable pub resolve_version : ℕ → Fallbacks → Chars × Fallbacks
resolve_version protocol fallbacks = resolved protocol fallbacks (lookup protocol protocol_map)
