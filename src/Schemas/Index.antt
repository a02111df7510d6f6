-- ===== src/Schemas/Index.antt =====
-- pkg/schemas/index.go and pkg/ir/field_validation.go: the schemas of a World by API version and kind,
-- and the validation of its resources.
pub mod Conforming
use cross_validate.Base.{
  ℕ, String, Bool, true, not, ◌&&◌, ◌||◌, Option, none, some, List, [], ◌∷◌, ◌++◌, map,
  if◌then◌else◌, ◌==◌, Eq, string_eq, ◌≡◌, ◌↔◌, arith, eq_iff, is_empty, ◌>>=◌,
}
use cross_validate.Base.Texts.{text}
use cross_validate.Base.Maps.{lookup, insert}
use cross_validate.Types.Locations.{SourceLocation}
use cross_validate.Types.World.{ResourceInfo}
use cross_validate.Types.Values.{Value, Raw}
use cross_validate.Schemas.{validate_manifest}
use cross_validate.Schemas.Facts.{FieldFact, ViolationKind}

pub record CrdVersion : Type 0 where
  pub name : String
  pub served : Bool
  pub storage : Bool
  pub referenceable : Bool
  pub schema_digest : String

-- `CRDInfo`, for CRDs and for XRDs, with the fields that are read
pub record CrdInfo : Type 0 where
  pub group : String
  pub kind : String
  pub versions : List CrdVersion

pub record SchemaInfo : Type 0 where
  pub digest : String
  pub schema : Raw

pub record SchemaKey : Type 0 where
  pub api_version : String
  pub kind : String

abbrev pub schema_key_eq : SchemaKey → SchemaKey → Bool
schema_key_eq a b = a.api_version == b.api_version && a.kind == b.kind

pub schema_key_eq_iff : (a b : SchemaKey) → (schema_key_eq a b ≡ true) ↔ (a ≡ b)
schema_key_eq_iff a b = (
  λ h. ground (arith, eq_iff a.api_version b.api_version, eq_iff a.kind b.kind),
  λ h. ground (arith, eq_iff a.api_version b.api_version, eq_iff a.kind b.kind),
)

instance abbrev pub schema_key_instance : Eq SchemaKey
schema_key_instance = record { beq = schema_key_eq; beq_iff = schema_key_eq_iff }

abbrev pub SchemaIndex : Type 0
SchemaIndex = List (SchemaKey × Raw)

-- The fields of the World that the index is built from, and the built index, if there is one.
pub record SchemaWorld : Type 0 where
  pub xrds : List CrdInfo
  pub crds : List CrdInfo
  pub schemas : List (String × SchemaInfo)
  pub schema_index : Option SchemaIndex

abbrev pub key_of_version : CrdInfo → CrdVersion → SchemaKey
key_of_version crd v = record {
  api_version = text (crd.group ∷ "/" ∷ v.name ∷ []);
  kind = crd.kind;
}

-- The conditions of the two loops on a version.
abbrev pub is_xrd_version : CrdVersion → Bool
is_xrd_version v = not (not v.referenceable || v.schema_digest == "")

abbrev pub is_crd_version : CrdVersion → Bool
is_crd_version v = not (v.schema_digest == "") && not (not v.served && not v.storage)

module _ (admits : CrdVersion → Bool) (schemas : List (String × SchemaInfo)) where
  pub index_versions : CrdInfo → SchemaIndex → List CrdVersion → SchemaIndex
  unfolding lookup insert
  index_versions crd out [] = out
  index_versions crd out (v ∷ vs) =
      index_versions crd
        (if admits v
          then elim (lookup v.schema_digest schemas) [
            | none ↦ out
            | some si ↦ insert (key_of_version crd v) si.schema out
          ]
          else out)
        vs

  pub index_infos : SchemaIndex → List CrdInfo → SchemaIndex
  unfolding index_versions
  index_infos out [] = out
  index_infos out (crd ∷ crds) = index_infos (index_versions crd out crd.versions) crds

-- `BuildSchemaIndex`, and the World with the index kept in it
unfoldable pub build_schema_index : SchemaWorld → SchemaIndex × SchemaWorld
unfolding index_infos
build_schema_index w = elim w.schema_index [
  | some index ↦ (index, w)
  | none ↦
      let index =
        index_infos is_crd_version w.schemas (index_infos is_xrd_version w.schemas [] w.xrds)
          w.crds in
      (
        index,
        record { xrds = w.xrds; crds = w.crds; schemas = w.schemas; schema_index = some index },
      )
]

pub record ResourceFieldFact : Type 0 where
  pub api_version : String
  pub kind : String
  pub namespace : String
  pub name : String
  pub path : String
  pub violation : ViolationKind
  pub message : String
  pub source : SourceLocation

abbrev pub resource_field_fact : ResourceInfo → FieldFact → ResourceFieldFact
resource_field_fact res fact = record {
  api_version = res.api_version;
  kind = res.kind;
  namespace = res.namespace;
  name = res.name;
  path = fact.path;
  violation = fact.violation;
  message = fact.message;
  source = res.source;
}

abbrev pub resource_key : ResourceInfo → SchemaKey
resource_key res = record { api_version = res.api_version; kind = res.kind }

module _ (beyond : ℕ → Bool) (quote : String → String) (show : Value → String) where
  -- The round of a resource; `none` is a panic.
  pub validate_resource : SchemaIndex → ResourceInfo → Option (List ResourceFieldFact)
  unfolding lookup validate_manifest
  validate_resource index res = elim (lookup (resource_key res) index) [
    | none ↦ some []
    | some schema ↦ validate_manifest beyond quote show schema res.raw >>= λ facts.
        some (map (resource_field_fact res) facts)
  ]

  pub validate_resources : SchemaIndex → List ResourceInfo → Option (List ResourceFieldFact)
  unfolding validate_resource
  validate_resources index [] = some []
  validate_resources index (res ∷ rest) = validate_resource index res >>= λ facts.
      validate_resources index rest >>= λ more. some (facts ++ more)

  -- `EnrichFieldValidation`, what it appends to `ResourceFieldFacts`
  unfoldable pub enrich_field_validation :
      SchemaWorld → List ResourceInfo → Option (List ResourceFieldFact)
  unfolding validate_resources build_schema_index
  enrich_field_validation w resources =
      let index = (build_schema_index w).0 in
      if is_empty index then some [] else validate_resources index resources
