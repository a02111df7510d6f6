-- ===== src/Types/World.antt =====
-- The records of pkg/types/types.go, with the fields that the modelled passes read, and the
-- annotation keys that silence a rule.
use cross_validate.Base.{
  String, Bool, true, false, ◌&&◌, Option, none, some, List, [], ◌==◌, Eq, string_eq, ◌≡◌, ◌↔◌,
  arith, eq_iff, any,
}
use cross_validate.Base.Maps.{lookup}
pub use cross_validate.Types.Locations.{SourceLocation}
pub use cross_validate.Types.Argo.{ArgoDestination, ArgoApplication}
use cross_validate.Types.Values.{Value, Fields, Raw, get, as_string}

pub data Severity : Type 0 where
  error warning info satisfied : Severity

pub record ObligationRef : Type 0 where
  pub id : String
  pub category : String
  pub generator : String

pub record Diagnostic : Type 0 where
  pub code : String
  pub severity : Severity
  pub message : String
  pub source : SourceLocation
  pub detail : String
  pub fix : String
  pub obligation : Option ObligationRef

pub record ResourceInfo : Type 0 where
  pub api_version : String
  pub kind : String
  pub name : String
  pub namespace : String
  pub annotations : List (String × String)
  pub source : SourceLocation
  pub raw : Raw
  pub owning_app : String

pub record World : Type 0 where
  pub resources : List ResourceInfo
  pub argo_apps : List ArgoApplication

pub record GroupKind : Type 0 where
  pub group : String
  pub kind : String

pub record ImmutableField : Type 0 where
  pub group : String
  pub kind : String
  pub field_path : String
  pub reason : String

-- `gk.Group == group && gk.Kind == kind`
abbrev pub group_kind_eq : GroupKind → GroupKind → Bool
group_kind_eq a b = a.group == b.group && a.kind == b.kind

pub group_kind_eq_iff : (a b : GroupKind) → (group_kind_eq a b ≡ true) ↔ (a ≡ b)
group_kind_eq_iff a b = (
  λ h. ground (arith, eq_iff a.group b.group, eq_iff a.kind b.kind),
  λ h. ground (arith, eq_iff a.group b.group, eq_iff a.kind b.kind),
)

instance abbrev pub group_kind_instance : Eq GroupKind
group_kind_instance = record { beq = group_kind_eq; beq_iff = group_kind_eq_iff }

-- `[]string` where nil (`none`) and an empty list differ for the reader.
pub record BypassKeySet : Type 0 where
  pub allow_delete : Option (List String)
  pub allow_immutable_change : Option (List String)

pub data BypassSlot : Type 0 where
  allow_delete allow_immutable_change : BypassSlot

-- A range over a nil slice makes no round.
abbrev pub or_empty {ℓ} : {A : Type ℓ} → Option (List A) → List A
or_empty none = []
or_empty (some xs) = xs

pub keys_for : BypassKeySet → BypassSlot → List String
keys_for s allow_delete = or_empty s.allow_delete
keys_for s allow_immutable_change = or_empty s.allow_immutable_change

-- A text under a key, `""` where the key is missing: `m[k]` on `map[string]string`.
unfoldable pub text_at : String → List (String × String) → String
unfolding lookup
text_at k m = elim (lookup k m) [ none ↦ "" | some v ↦ v ]

abbrev pub is_text : String → Option Value → Bool
is_text t none = false
is_text t (some v) = elim (as_string v) [ none ↦ false | some s ↦ s == t ]

-- `BypassKeySet.Has`
unfoldable pub has_key : BypassKeySet → List (String × String) → BypassSlot → Bool
unfolding keys_for text_at
has_key s annotations slot = any (λ k. text_at k annotations == "true") (keys_for s slot)

-- `BypassKeySet.HasRaw`
unfoldable pub has_raw : BypassKeySet → Fields → BypassSlot → Bool
unfolding keys_for get
has_raw s annotations slot = any (λ k. is_text "true" (get k annotations)) (keys_for s slot)
