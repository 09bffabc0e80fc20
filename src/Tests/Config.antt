-- ===== src/Tests/Config.antt =====
-- Runs of the configuration and of the version table.
use skin_get_be_rust.Prelude.{◌≡◌, ◌↔◌, refl, [], ◌∷◌, none, some}
use skin_get_be_rust.Prelude.Map.{lookup, nat_eq}
use skin_get_be_rust.Prelude.Text.{Chars, codes}
use skin_get_be_rust.Error.{ok}
use skin_get_be_rust.Bedrock.Version.{Fallbacks, initial, set_fallback_version, resolve_version}
use skin_get_be_rust.Util.Config.{
  default, Outside, load, save, strip, strip_json_comments, normalize_supported_version,
}
use skin_get_be_rust.Util.Config.Comments.{Document, written, IsDocument, without_comments}
use skin_get_be_rust.Util.Config.Documents.{strip_json_comments_strips}
use skin_get_be_rust.Util.Config.Load.{IsNormal, load-IsNormal, load-save}

abbrev fallbacks : Fallbacks
fallbacks = set_fallback_version (codes "1.0.0") initial

unknown : resolve_version 7 fallbacks ≡ (codes "1.0.0", record fallbacks { warned = 7 ∷ [] })
unfolding resolve_version lookup
unknown = refl

abbrev commented : Chars
commented = codes "{\"a\": \"//x\" /* b */} // c"

stripped : strip_json_comments commented ≡ codes "{\"a\": \"//x\" } "
unfolding strip_json_comments strip
stripped = refl

strip_json_comments_strips_example :
    (strip_json_comments commented ≡ codes "{\"a\": \"//x\" } ") ↔ (
      (d : Document) × (commented ≡ written d)
      × IsDocument d
      × (codes "{\"a\": \"//x\" } " ≡ without_comments d))
strip_json_comments_strips_example =
    strip_json_comments_strips commented (codes "{\"a\": \"//x\" } ")

-- A disk that takes and gives every text, and a reader that answers with the default configuration.
abbrev disk : Outside
disk = record {
  create_dir_all = ok tt;
  read_to_string = λ content. ok content;
  write = λ content file. (ok tt, some content);
  from_str = λ content. ok default;
}

missing_loads : (load disk fallbacks none).0 ≡ ok default
unfolding load save
missing_loads = refl

load-IsNormal_example : IsNormal default × (normalize_supported_version fallbacks default ≡ default)
load-IsNormal_example = load-IsNormal disk fallbacks none default missing_loads

default-IsNormal : IsNormal default
default-IsNormal = (load-IsNormal disk fallbacks none default missing_loads).0

load-save_example :
    load disk fallbacks (save disk fallbacks default none).1
    ≡ (ok default, (save disk fallbacks default none).1)
load-save_example =
    load-save disk fallbacks default none refl (λ content. refl) (λ content. refl) refl
      default-IsNormal
