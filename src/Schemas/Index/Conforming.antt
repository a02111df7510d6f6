-- ===== src/Schemas/Index/Conforming.antt =====
-- Which schema a resource is validated against, and when a World has no field facts.
use cross_validate.Base.{
  ℕ, String, Bool, Option, none, some, List, [], ◌∷◌, ◌++◌, map, flat_map, collect, if◌then◌else◌,
  string_eq, ◌≡◌, ◌↔◌, Memᴰ, refl, sym, ap, ◌∙◌, subst, Bool-cases, Option-cases, inl, inr,
  is_empty, ◌>>=◌,
}
use mathlib.Core.Option
use mathlib.Core.Path.{fun_ext}
use mathlib.Core.List.Memᴰ
use cross_validate.Base.Maps.{lookup, insert, lookup-insert, last_value, last_value-append}
use cross_validate.Types.World.{ResourceInfo}
use cross_validate.Types.Values.{Value, Fields, Raw}
use cross_validate.Schemas.{unwrapped, validate_manifest}
use cross_validate.Schemas.Manifests.{RootConforms, validate_manifest-RootConforms}
use cross_validate.Schemas.Index.{
  CrdVersion, CrdInfo, SchemaInfo, SchemaKey, schema_key_instance, SchemaIndex, SchemaWorld,
  key_of_version, is_xrd_version, is_crd_version, index_versions, index_infos, build_schema_index,
  resource_field_fact, resource_key, validate_resource, validate_resources, enrich_field_validation,
}

-- The entry of a version that is admitted and whose schema is known.
abbrev pub entry_of :
    (CrdVersion → Bool)
    → List (String × SchemaInfo)
    → CrdInfo
    → CrdVersion
    → Option (SchemaKey × Raw)
entry_of admits schemas crd v =
    if admits v
    then (lookup v.schema_digest schemas >>= λ si. some (key_of_version crd v, si.schema))
    else none

abbrev pub entries_of :
    (CrdVersion → Bool) → List (String × SchemaInfo) → List CrdInfo → List (SchemaKey × Raw)
entries_of admits schemas = flat_map (λ crd. collect (entry_of admits schemas crd) crd.versions)

module _ (admits : CrdVersion → Bool) (schemas : List (String × SchemaInfo)) where
  lookup-index_versions :
      (k : SchemaKey) (crd : CrdInfo) (out : SchemaIndex) (vs : List CrdVersion)
      → lookup k (index_versions admits schemas crd out vs)
        ≡ last_value k (lookup k out) (collect (entry_of admits schemas crd) vs)
  unfolding index_versions
  lookup-index_versions k crd out [] = refl
  lookup-index_versions k crd out (v ∷ vs) = elim (Bool-cases (admits v)) [
    | inr refused ↦ rw refused (lookup-index_versions k crd out vs)
    | inl admitted ↦ elim (Option-cases (lookup v.schema_digest schemas)) [
      | inl unknown ↦ rw (admitted, unknown) (lookup-index_versions k crd out vs)
      | inr (si, known) ↦
          rw (admitted, known)
            (lookup-index_versions k crd (insert (key_of_version crd v) si.schema out) vs
              ∙ ap (λ o. last_value k o (collect (entry_of admits schemas crd) vs))
                  (lookup-insert (key_of_version crd v) k si.schema out))
    ]
  ]

  lookup-index_infos :
      (k : SchemaKey) (out : SchemaIndex) (crds : List CrdInfo)
      → lookup k (index_infos admits schemas out crds)
        ≡ last_value k (lookup k out) (entries_of admits schemas crds)
  unfolding index_infos flat_map
  lookup-index_infos k out [] = refl
  lookup-index_infos k out (crd ∷ crds) =
      lookup-index_infos k (index_versions admits schemas crd out crd.versions) crds
      ∙ ap (λ o. last_value k o (entries_of admits schemas crds))
          (lookup-index_versions k crd out crd.versions)
      ∙ sym (
          last_value-append k (lookup k out) (collect (entry_of admits schemas crd) crd.versions)
            (entries_of admits schemas crds))

-- The schema of a key: that of the last CRD version of the key, or else of the last XRD version.
abbrev pub schema_of : SchemaWorld → SchemaKey → Option Raw
schema_of w k =
    last_value k (last_value k none (entries_of is_xrd_version w.schemas w.xrds))
      (entries_of is_crd_version w.schemas w.crds)

lookup-build_schema_index :
    (w : SchemaWorld) (k : SchemaKey)
    → w.schema_index ≡ none
    → lookup k (build_schema_index w).0 ≡ schema_of w k
unfolding build_schema_index lookup
lookup-build_schema_index w k fresh = rw fresh (
    lookup-index_infos is_crd_version w.schemas k (index_infos is_xrd_version w.schemas [] w.xrds)
      w.crds
    ∙ ap (λ o. last_value k o (entries_of is_crd_version w.schemas w.crds))
        (lookup-index_infos is_xrd_version w.schemas k [] w.xrds))

map-nil {ℓ κ} :
    {A : Type ℓ} {B : Type κ} (o : Option (List A)) (f : A → B)
    → (o >>= λ xs. some (map f xs)) ≡ some []
    → o ≡ some []
map-nil none f e = absurd (Option.none-ne-some _ e)
map-nil (some []) f e = refl
map-nil (some (x ∷ xs)) f e = let nil_again : f x ∷ map f xs ≡ [] = Option.some_inj.0 e in cc

some-nil {ℓ} :
    {B : Type ℓ} (xs : List B) (o : Option (List B))
    → (o >>= λ ys. some (xs ++ ys)) ≡ some []
    → (xs ≡ []) × (o ≡ some [])
some-nil [] none e = absurd (Option.none-ne-some _ e)
some-nil [] (some ys) e = (refl, e)
some-nil (x ∷ xs) none e = absurd (Option.none-ne-some _ e)
some-nil (x ∷ xs) (some ys) e = let nil_again : x ∷ (xs ++ ys) ≡ [] = Option.some_inj.0 e in cc

both-nil {ℓ} :
    {B : Type ℓ} (o p : Option (List B))
    → (o >>= λ xs. p >>= λ ys. some (xs ++ ys)) ≡ some []
    → (o ≡ some []) × (p ≡ some [])
both-nil none p e = absurd (Option.none-ne-some _ e)
both-nil (some xs) p e = let (none_here, rest) = some-nil xs p e in (ap some none_here, rest)

module _ (beyond : ℕ → Bool) (quote : String → String) (show : Value → String) where
  -- What an index asks of a resource.
  abbrev pub Fits : Option Raw → ResourceInfo → Type 0
  Fits known res =
      (schema raw : Fields)
      → known ≡ some (some schema)
      → res.raw ≡ some raw
      → RootConforms beyond (unwrapped schema) raw

  validated :
      (schema : Raw) (res : ResourceInfo)
      → ((validate_manifest beyond quote show schema res.raw >>= λ facts.
            some (map (resource_field_fact res) facts))
          ≡ some [])
        ↔ Fits (some schema) res
  unfolding validate_manifest
  validated none res = (λ e s r q. cc, λ h. refl)
  validated (some schema) res = elim (Option-cases res.raw) [
    | inl absent ↦ (λ e s r q given. cc, λ h. rw absent refl)
    | inr (raw, there) ↦
        let (sound, complete) = validate_manifest-RootConforms beyond quote show schema raw in
        (
          λ e s r q given.
              let none_left =
                map-nil (validate_manifest beyond quote show (some schema) (some raw))
                  (resource_field_fact res) (rw there at e) in
              let same = Option.some_inj.0 (Option.some_inj.0 q) in
              let here = Option.some_inj.0 (sym there ∙ given) in
              subst (λ t. RootConforms beyond (unwrapped t) r) same
                (subst (λ t. RootConforms beyond (unwrapped schema) t) here (sound none_left)),
          λ h. rw (there, complete (h schema raw refl there)) refl,
        )
  ]

  validate_resource-Fits :
      (index : SchemaIndex) (res : ResourceInfo)
      → (validate_resource beyond quote show index res ≡ some [])
        ↔ Fits (lookup (resource_key res) index) res
  unfolding validate_resource
  validate_resource-Fits index res = elim (Option-cases (lookup (resource_key res) index)) [
    | inl unknown ↦ rw (unknown, validate_resource) (λ e s r q. cc, λ h. refl)
    | inr (schema, known) ↦ rw (known, validate_resource) (validated schema res)
  ]

  validate_resources-Fits :
      (index : SchemaIndex) (resources : List ResourceInfo)
      → (validate_resources beyond quote show index resources ≡ some [])
        ↔ ((res : ResourceInfo) → Memᴰ res resources → Fits (lookup (resource_key res) index) res)
  unfolding validate_resources
  validate_resources-Fits index [] = (λ e res m. absurd (Memᴰ.not-nil m), λ h. refl)
  validate_resources-Fits index (first ∷ rest) =
      let (here_of, of_here) = validate_resource-Fits index first in
      let (later_of, of_later) = validate_resources-Fits index rest in
      (
        λ e res m.
            let (here, later) =
              both-nil (validate_resource beyond quote show index first)
                (validate_resources beyond quote show index rest) e in
            elim (Memᴰ.cases_cons m) [
              | inl same ↦
                  subst (λ r. Fits (lookup (resource_key r) index) r) (sym same) (here_of here)
              | inr behind ↦ later_of later res behind
            ],
        λ h.
            rw
              (
                of_here (h first (Memᴰ.head refl)),
                of_later (λ res m. h res (Memᴰ.tail m)),
                validate_resources,
              )
              refl,
      )

  -- The early return for an empty index changes nothing.
  by_index :
      (index : SchemaIndex) (resources : List ResourceInfo)
      → ((if is_empty index then some [] else validate_resources beyond quote show index resources)
          ≡ some [])
        ↔ ((res : ResourceInfo) → Memᴰ res resources → Fits (lookup (resource_key res) index) res)
  unfolding lookup
  by_index [] resources = (λ e res m schema raw q. cc, λ h. refl)
  by_index (entry ∷ more) resources = validate_resources-Fits (entry ∷ more) resources

  -- Of a World whose index has not been built, the validation gives no field fact, and does not panic, exactly if each resource that has a manifest conforms to the schema of its API version and kind, if there is one: the schema of the last CRD version of that name that is served or stored, or else that of the last XRD version that is referenceable, served or not, among the versions whose digest has a schema.
  pub enrich_field_validation-Fits :
      (w : SchemaWorld) (resources : List ResourceInfo)
      → w.schema_index ≡ none
      → (enrich_field_validation beyond quote show w resources ≡ some [])
        ↔ ((res : ResourceInfo) → Memᴰ res resources → Fits (schema_of w (resource_key res)) res)
  unfolding enrich_field_validation
  enrich_field_validation-Fits w resources fresh =
      subst
        (λ (schemas : SchemaKey → Option Raw).
          (enrich_field_validation beyond quote show w resources ≡ some [])
          ↔ ((res : ResourceInfo) → Memᴰ res resources → Fits (schemas (resource_key res)) res))
        (fun_ext (λ k. lookup-build_schema_index w k fresh))
        (by_index (build_schema_index w).0 resources)
