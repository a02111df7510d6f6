-- ===== src/Plan/Diff/Index.antt =====
-- What the index of a world holds under an identity.
use cross_validate.Base.{
  Option, none, some, List, [], ◌∷◌, if◌then◌else◌, ◌==◌, ◌≡◌, refl, ◌∙◌, arith, Bool-cases, inl,
  inr,
}
use cross_validate.Base.Maps.{lookup, insert, last_of, or_else, IsMap, insert-IsMap, lookup-insert}
use cross_validate.Types.World.{ResourceInfo, ArgoApplication, World}
use cross_validate.Plan.Diff.{
  ResourceIdentity, identity_instance, identity_eq, Index, resource_identity, index_resources,
  index_by_identity, application_identity, indexed_resource, indexed_application, index_copies,
  index_applications, index_all,
}

abbrev pub map_option {ℓ κ} : {A : Type ℓ} {B : Type κ} → (A → B) → Option A → Option B
map_option f none = none
map_option f (some a) = some (f a)

lookup-index_resources :
    (id : ResourceIdentity) (out : List (ResourceIdentity × ResourceInfo)) (rs : List ResourceInfo)
    → lookup id (index_resources out rs) ≡ last_of resource_identity id (lookup id out) rs
unfolding index_resources
lookup-index_resources id out [] = refl
lookup-index_resources id out (r ∷ rs) =
    lookup-index_resources id (insert (resource_identity r) r out) rs
    ∙ rw (lookup-insert (resource_identity r) id r out)

lookup-index_copies :
    (id : ResourceIdentity) (m : List (ResourceIdentity × ResourceInfo))
    → lookup id (index_copies m) ≡ map_option indexed_resource (lookup id m)
unfolding lookup index_copies
lookup-index_copies id [] = refl
lookup-index_copies id ((j, r) ∷ m) = elim (Bool-cases (identity_eq j id)) [
  | inl same ↦ rw same
  | inr other ↦ rw other (lookup-index_copies id m)
]

last_of-or_else {ℓ} :
    {A : Type ℓ} (identity : A → ResourceIdentity) (id : ResourceIdentity) (known : Option A)
    (xs : List A)
    → last_of identity id known xs ≡ or_else (last_of identity id none xs) known
last_of-or_else identity id known [] = refl
last_of-or_else identity id known (x ∷ xs) = elim (Bool-cases (identity_eq (identity x) id)) [
  | inl same ↦ rw same (
      last_of-or_else identity id (some x) xs
      ∙ rw (last_of-or_else identity id (some x) xs)
          (or_else_some (last_of identity id none xs) x known))
  | inr other ↦ rw other (last_of-or_else identity id known xs)
]
  where
    or_else_some :
        {A : Type ℓ} (o : Option A) (a : A) (k : Option A)
        → or_else o (some a) ≡ or_else (or_else o (some a)) k
    or_else_some none a k = refl
    or_else_some (some b) a k = refl

map_option-or_else {ℓ κ} :
    {A : Type ℓ} {B : Type κ} (f : A → B) (o k : Option A) (out : Option B)
    → or_else (map_option f (or_else o k)) out
      ≡ or_else (map_option f o) (or_else (map_option f k) out)
map_option-or_else f none k out = refl
map_option-or_else f (some a) k out = refl

lookup-index_applications :
    (id : ResourceIdentity) (out : Index) (apps : List ArgoApplication)
    → lookup id (index_applications out apps)
      ≡ or_else
          (map_option indexed_application (last_of application_identity id none apps))
          (lookup id out)
unfolding index_applications
lookup-index_applications id out [] = refl
lookup-index_applications id out (app ∷ apps) =
    lookup-index_applications id (insert (application_identity app) (indexed_application app) out)
      apps
    ∙ rw
        (
          lookup-insert (application_identity app) id (indexed_application app) out,
          last_of-or_else application_identity id
              (if application_identity app == id then some app else none) apps,
          map_option-or_else,
        )
        (elim (Bool-cases (identity_eq (application_identity app) id)) [
          | inl same ↦ rw same
          | inr other ↦ rw other
        ])

-- The index finds under an identity the last Application that has it, or else the last resource.
pub lookup-index_all :
    (id : ResourceIdentity) (w : World)
    → lookup id (index_all w)
      ≡ or_else
          (map_option indexed_application (last_of application_identity id none w.argo_apps))
          (map_option indexed_resource (last_of resource_identity id none w.resources))
unfolding index_all index_by_identity lookup
lookup-index_all id w =
    lookup-index_applications id _ w.argo_apps
    ∙ rw (
      lookup-index_copies id (index_resources [] w.resources),
      lookup-index_resources id [] w.resources,
    )

index_resources-IsMap :
    (out : List (ResourceIdentity × ResourceInfo)) (rs : List ResourceInfo)
    → IsMap out
    → IsMap (index_resources out rs)
unfolding index_resources
index_resources-IsMap out [] h = h
index_resources-IsMap out (r ∷ rs) h =
    index_resources-IsMap (insert (resource_identity r) r out) rs (insert-IsMap _ r out h)

index_copies-IsMap : (m : List (ResourceIdentity × ResourceInfo)) → IsMap m → IsMap (index_copies m)
unfolding index_copies
index_copies-IsMap [] h = tt
index_copies-IsMap ((id, r) ∷ m) h =
    (rw (lookup-index_copies id m) (ground arith), index_copies-IsMap m h.1)

index_applications-IsMap :
    (out : Index) (apps : List ArgoApplication) → IsMap out → IsMap (index_applications out apps)
unfolding index_applications
index_applications-IsMap out [] h = h
index_applications-IsMap out (app ∷ apps) h =
    index_applications-IsMap (insert (application_identity app) (indexed_application app) out) apps
      (insert-IsMap _ _ out h)

pub index_all-IsMap : (w : World) → IsMap (index_all w)
unfolding index_all index_by_identity
index_all-IsMap w =
    index_applications-IsMap _ w.argo_apps
      (index_copies-IsMap _ (index_resources-IsMap [] w.resources tt))
