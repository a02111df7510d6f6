-- ===== src/Plan/Diff/Order.antt =====
-- The order of the three lists of the delta.
use cross_validate.Base.{
  String, Bool, true, false, not, ◌&&◌, Option, some, List, [], ◌∷◌, All, collect, if◌then◌else◌,
  ◌==◌, string_eq, eq_iff, ◌≡◌, ◌⊎◌, sym, ap, subst, arith, inl, inr, Bool-cases, Option-cases,
}
use cross_validate.Base.Maps.{lookup, has, IsMap}
use cross_validate.Base.Sorting.{sort_by}
use cross_validate.Base.Sorting.Strict.{Pairwise, IsChain, sort_by-IsChain}
use cross_validate.Base.Texts.{str_lt, str_lt_asymm, str_lt_total, by_text_asymm}
use cross_validate.Types.World.{World}
use cross_validate.Plan.Diff.{
  ResourceIdentity, identity_instance, identity_eq_iff, ResourceChange, IndexedResource, Index,
  index_all, removed_round, modified_round, added_round, change_less, diff,
}
use cross_validate.Plan.Diff.Classes.{removed_round_iff, added_round_iff, modified_round_iff}
use cross_validate.Plan.Diff.Index.{index_all-IsMap}

-- The order of a dictionary whose letters are texts: the first two that differ decide.
abbrev pub Precedes : List String → List String → Type 0
Precedes [] ts = ⊥
Precedes (s ∷ ss) [] = ⊥
Precedes (s ∷ ss) (t ∷ ts) = (str_lt s t ≡ true) ⊎ ((s ≡ t) × Precedes ss ts)

abbrev pub written : ResourceIdentity → List String
written id = id.app_name ∷ id.api_version ∷ id.kind ∷ id.namespace ∷ id.name ∷ []

-- By application, then API version, kind, namespace and name.
abbrev pub ComesBefore : ResourceChange → ResourceChange → Type 0
ComesBefore c d = Precedes (written c.identity) (written d.identity)

abbrev Apart : ResourceChange → ResourceChange → Type 0
Apart c d = (c.identity == d.identity) ≡ false

Apart-sym : (c d : ResourceChange) → Apart c d → Apart d c
Apart-sym c d h =
    ground (arith, identity_eq_iff c.identity d.identity, identity_eq_iff d.identity c.identity)

by_text :
    (s t : String) (r : Bool)
    → (if not (s == t) then str_lt s t else r) ≡ true
    → (str_lt s t ≡ true) ⊎ ((s ≡ t) × (r ≡ true))
by_text s t r h = elim (Bool-cases (s == t)) [
  | inl same ↦ inr ((eq_iff s t).0 same, ground arith)
  | inr other ↦ inl (ground arith)
]

change_less-ComesBefore : (c d : ResourceChange) → change_less c d ≡ true → ComesBefore c d
unfolding change_less
change_less-ComesBefore c d h =
    let a = c.identity in
    let b = d.identity in
    elim (by_text a.app_name b.app_name _ h) [
      | inl app ↦ inl app
      | inr (e1, h1) ↦ inr (
        e1,
        elim (by_text a.api_version b.api_version _ h1) [
          | inl version ↦ inl version
          | inr (e2, h2) ↦ inr (
            e2,
            elim (by_text a.kind b.kind _ h2) [
              | inl kind ↦ inl kind
              | inr (e3, h3) ↦ inr (
                e3,
                elim (by_text a.namespace b.namespace _ h3) [
                  | inl namespace ↦ inl namespace
                  | inr (e4, name) ↦ inr (e4, inl name)
                ],
              )
            ],
          )
        ],
      )
    ]

change_less_asymm : (c d : ResourceChange) → change_less c d ≡ true → change_less d c ≡ false
unfolding change_less
change_less_asymm c d =
    let a = c.identity in
    let b = d.identity in
    by_text_asymm a.app_name b.app_name _ _ (
      by_text_asymm a.api_version b.api_version _ _ (
        by_text_asymm a.kind b.kind _ _
          (by_text_asymm a.namespace b.namespace _ _ (str_lt_asymm a.name b.name))))

-- One step of the comparison, where the texts or the rest differ.
by_text_total :
    (s t : String) (r r' same : Bool)
    → (r' ≡ false → same ≡ false → r ≡ true)
    → (if not (t == s) then str_lt t s else r') ≡ false
    → (s == t && same) ≡ false
    → (if not (s == t) then str_lt s t else r) ≡ true
by_text_total s t r r' same h k other = ground (arith, eq_iff s t, eq_iff t s, str_lt_total s t)

app_first :
    (version kind namespace name app : Bool)
    → (version && (kind && (namespace && (name && app)))) ≡ false
    → (app && (version && (kind && (namespace && name)))) ≡ false
app_first true true true true app h = ground arith
app_first false kind namespace name app h = ground arith
app_first true false namespace name app h = ground arith
app_first true true false name app h = ground arith
app_first true true true false app h = ground arith

change_less_total :
    (c d : ResourceChange) → change_less d c ≡ false → Apart c d → change_less c d ≡ true
unfolding change_less
change_less_total c d h apart =
    let a = c.identity in
    let b = d.identity in
    by_text_total a.app_name b.app_name _ _ _
      (by_text_total a.api_version b.api_version _ _ _ (
        by_text_total a.kind b.kind _ _ _ (
          by_text_total a.namespace b.namespace _ _ _
            (λ less other. str_lt_total a.name b.name other less))))
      h
      (app_first (a.api_version == b.api_version) (a.kind == b.kind) (a.namespace == b.namespace)
        (a.name == b.name) (a.app_name == b.app_name) apart)

-- The changes that a range over an index collects have distinct identities.
module _ (f : ResourceIdentity × IndexedResource → Option ResourceChange)
    (keeps : (id : ResourceIdentity) (res : IndexedResource) (c : ResourceChange)
      → f (id, res) ≡ some c
      → c.identity ≡ id) where
  collect-Apart :
      (c : ResourceChange) (m : Index) → has c.identity m ≡ false → All (Apart c) (collect f m)
  unfolding lookup
  collect-Apart c [] h = tt
  collect-Apart c ((j, res) ∷ m) h = elim (Bool-cases (j == c.identity)) [
    | inl same ↦ let there : true ≡ false = rw (same, lookup) at h in cc
    | inr other ↦
        let missing : has c.identity m ≡ false = rw (other, lookup) at h in
        elim (Option-cases (f (j, res))) [
          | inl skipped ↦ rw skipped (collect-Apart c m missing)
          | inr (d, found) ↦
              let key : d.identity ≡ j = keeps j res d found in
              let apart : Apart d c = rw key other in
              rw found (Apart-sym d c apart, collect-Apart c m missing)
        ]
  ]

  collect-Pairwise : (m : Index) → IsMap m → Pairwise Apart (collect f m)
  collect-Pairwise [] h = tt
  collect-Pairwise ((id, res) ∷ m) h = elim (Option-cases (f (id, res))) [
    | inl skipped ↦ rw skipped (collect-Pairwise m h.1)
    | inr (c, found) ↦
        let missing : has c.identity m ≡ false =
          subst (λ k. has k m ≡ false) (sym (keeps id res c found)) h.0 in
        rw found (collect-Apart c m missing, collect-Pairwise m h.1)
  ]

  sorted-IsChain : (m : Index) → IsMap m → IsChain ComesBefore (sort_by change_less (collect f m))
  sorted-IsChain m h =
      sort_by-IsChain change_less Apart Apart-sym ComesBefore
        (λ c d less apart. change_less-ComesBefore c d (change_less_total c d less apart))
        change_less_asymm (collect f m) (collect-Pairwise m h)

removed_keeps :
    (head : Index) (id : ResourceIdentity) (base : IndexedResource) (c : ResourceChange)
    → removed_round head (id, base) ≡ some c
    → c.identity ≡ id
removed_keeps head id base c e = ap (λ d. d.identity) ((removed_round_iff head id base c).0 e).1

added_keeps :
    (base : Index) (id : ResourceIdentity) (head : IndexedResource) (c : ResourceChange)
    → added_round base (id, head) ≡ some c
    → c.identity ≡ id
added_keeps base id head c e = ap (λ d. d.identity) ((added_round_iff base id head c).0 e).1

modified_keeps :
    (head : Index) (id : ResourceIdentity) (base : IndexedResource) (c : ResourceChange)
    → modified_round head (id, base) ≡ some c
    → c.identity ≡ id
modified_keeps head id base c e =
    let (res, found, other, same) = (modified_round_iff head id base c).0 e in
    ap (λ d. d.identity) same

-- In each list of the delta the identity of a change comes strictly before that of the next, by application, then API version, kind, namespace and name; so no identity is listed twice.
pub diff-IsChain :
    (base head : World)
    → IsChain ComesBefore (diff base head).added
      × IsChain ComesBefore (diff base head).removed
      × IsChain ComesBefore (diff base head).modified
unfolding diff
diff-IsChain base head =
    let b = index_all base in
    let h = index_all head in
    (
      sorted-IsChain (added_round b) (added_keeps b) h (index_all-IsMap head),
      sorted-IsChain (removed_round h) (removed_keeps h) b (index_all-IsMap base),
      sorted-IsChain (modified_round h) (modified_keeps h) b (index_all-IsMap base),
    )
