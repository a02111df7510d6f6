-- ===== src/Tests/Config.antt =====
-- pkg/config: overlays on small registries.
use cross_validate.Base.{true, false, some, [], ◌∷◌, ◌≡◌, refl}
use cross_validate.Types.World.{GroupKind, ImmutableField}
use cross_validate.Config.Bypass.{BypassKeyConfig}
use cross_validate.Config.StateBearing.{contains_state_bearing, resolve_state_bearing_kinds}
use cross_validate.Config.StateBearing.Overlay.{contains-resolve_state_bearing_kinds}
use cross_validate.Config.Immutable.{ImmutableFieldEntry, resolve_immutable_fields, split_gvk}
use cross_validate.Config.Immutable.Overlay.{has_field, has_field-resolve_immutable_fields}

abbrev user_keys : BypassKeyConfig
user_keys = record { primary = "acme.io/ok"; aliases = "xpc.io/ok" ∷ "acme.io/ok" ∷ [] }

abbrev bucket : GroupKind
bucket = record { group = "s3.aws.upbound.io"; kind = "Bucket" }

-- The bucket is appended and suppressed.
contains-resolve_state_bearing_kinds_example :
    contains_state_bearing
      (resolve_state_bearing_kinds
        (some (record { append = bucket ∷ []; suppress = bucket ∷ [] }))
        (bucket ∷ []))
      bucket
    ≡ true
contains-resolve_state_bearing_kinds_example =
    contains-resolve_state_bearing_kinds (record { append = bucket ∷ []; suppress = bucket ∷ [] })
      (bucket ∷ []) bucket

abbrev engine_field : ImmutableField
engine_field = record {
  group = "rds.aws.upbound.io";
  kind = "Cluster";
  field_path = "spec.engine";
  reason = "";
}

abbrev no_engine : ImmutableFieldEntry
no_engine = record {
  gvk = "rds.aws.upbound.io/v1beta1/Cluster";
  paths = "spec.engine" ∷ [];
  reason = "";
  suppress = true;
}

has_field-resolve_immutable_fields_example :
    has_field (resolve_immutable_fields (some (no_engine ∷ [])) (engine_field ∷ [])) engine_field
    ≡ false
unfolding split_gvk
has_field-resolve_immutable_fields_example =
    has_field-resolve_immutable_fields (no_engine ∷ []) (engine_field ∷ []) engine_field refl
