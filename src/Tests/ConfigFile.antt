-- ===== src/Tests/ConfigFile.antt =====
-- The checks of an xpc.yaml with one immutable field.
use cross_validate.Base.{String, true, false, [], ◌∷◌, some, ◌≡◌, refl, Memᴰ, string_eq, All}
use cross_validate.Base.Int.{pos}
use cross_validate.Config.Immutable.{ImmutableFieldEntry, field_of, resolve_immutable_fields}
use cross_validate.Config.Immutable.Overlay.{has_field}
use cross_validate.Config.Validate.{
  Config, validate, refused, reserved_for_core, with_version, current_version, looks_like_version,
}
use cross_validate.Config.Validate.Accepted.{validate-IsGoodConfig, IsGoodEntry, IsGoodKind}
use cross_validate.Config.Validate.Resolved.{validate-has_field}

abbrev entry : String → ImmutableFieldEntry
entry gvk = record { gvk = gvk; paths = "spec.size" ∷ []; reason = ""; suppress = false }

abbrev config : String → Config
config gvk = record {
  version = pos 0;
  immutable_fields = entry gvk ∷ [];
  state_bearing_kinds = record { append = []; suppress = [] };
}

versions :
    (looks_like_version "v1beta2" ≡ true)
    × (looks_like_version "v1beta" ≡ false)
    × (looks_like_version "apps" ≡ false)
unfolding looks_like_version
versions = (refl, refl, refl)

ungrouped : validate (config "apps/Deployment") ≡ refused (reserved_for_core 0 "apps/Deployment")
unfolding validate
ungrouped = refl

validate-IsGoodConfig_example :
    (with_version (config "v1/ConfigMap") ≡ with_version (config "v1/ConfigMap"))
    × ((current_version ≡ current_version)
        × All IsGoodEntry (entry "v1/ConfigMap" ∷ [])
        × All IsGoodKind []
        × All IsGoodKind [])
unfolding validate
validate-IsGoodConfig_example =
    validate-IsGoodConfig (config "v1/ConfigMap") (with_version (config "v1/ConfigMap")) refl

validate-has_field_example :
    has_field
      (resolve_immutable_fields (some (entry "v1/ConfigMap" ∷ [])) [])
      (field_of (entry "v1/ConfigMap") "spec.size")
    ≡ true
unfolding validate
validate-has_field_example =
    validate-has_field (config "v1/ConfigMap") (with_version (config "v1/ConfigMap")) []
      (entry "v1/ConfigMap") "spec.size" refl (Memᴰ.head refl) refl (Memᴰ.head refl)
