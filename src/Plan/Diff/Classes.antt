-- ===== src/Plan/Diff/Classes.antt =====
-- Which changes `Diff` lists in which class.
use cross_validate.Base.{
  false, Option, none, some, Memᴰ, ◌≡◌, ◌↔◌, arith, Bool-cases, Option-cases, inl, inr, collect,
  mem-collect, collect-mem,
}
use cross_validate.Base.Maps.{lookup, IsMap, mem-of_lookup, lookup-of_mem}
use cross_validate.Base.Sorting.{sort_by, mem_of_sort_by, mem-sort_by}
use cross_validate.Types.Values.{raw_equal}
use cross_validate.Types.World.{World}
use cross_validate.Plan.Diff.{
  ResourceIdentity, identity_instance, ResourceChange, IndexedResource, Index, index_all,
  removed_change, added_change, modified_change, removed_round, modified_round, added_round,
  change_less, diff,
}
use cross_validate.Plan.Diff.Index.{index_all-IsMap}

-- A listed change comes from an entry of a map, and each entry that gives a change is listed.
module _ (f : ResourceIdentity × IndexedResource → Option ResourceChange) (m : Index)
    (map : IsMap m) where
  listed_iff :
      (Q : ResourceIdentity → IndexedResource → Type 0) (c : ResourceChange)
      → ((id : ResourceIdentity) (res : IndexedResource) → (f (id, res) ≡ some c) ↔ Q id res)
      → Memᴰ c (sort_by change_less (collect f m))
        ↔ ((id : ResourceIdentity) × (res : IndexedResource) × (lookup id m ≡ some res) × Q id res)
  listed_iff Q c gives = (
    λ mem.
        let ((id, res), entry, e) = mem-collect f m (mem_of_sort_by change_less _ mem) in
        (id, res, lookup-of_mem id m map entry, (gives id res).0 e),
    λ (id, res, found, q).
        mem-sort_by change_less _ (collect-mem f (mem-of_lookup id m found) ((gives id res).1 q)),
  )

-- What the other index says of an entry of the one, and the change that is listed for it.
abbrev pub Gone : Index → ResourceIdentity → IndexedResource → ResourceChange → Type 0
Gone head id base c = (lookup id head ≡ none) × (c ≡ removed_change id base)

abbrev pub New : Index → ResourceIdentity → IndexedResource → ResourceChange → Type 0
New base id head c = (lookup id base ≡ none) × (c ≡ added_change id head)

pub removed_round_iff :
    (head : Index) (id : ResourceIdentity) (base : IndexedResource) (c : ResourceChange)
    → (removed_round head (id, base) ≡ some c) ↔ Gone head id base c
unfolding removed_round
removed_round_iff head id base c =
    (λ e. (ground arith, ground arith), λ e. ground (arith, e.0, e.1))

pub added_round_iff :
    (base : Index) (id : ResourceIdentity) (head : IndexedResource) (c : ResourceChange)
    → (added_round base (id, head) ≡ some c) ↔ New base id head c
unfolding added_round
added_round_iff base id head c = (λ e. (ground arith, ground arith), λ e. ground (arith, e.0, e.1))

abbrev pub Changed : Index → ResourceIdentity → IndexedResource → ResourceChange → Type 0
Changed head id base c =
    (res : IndexedResource) × (lookup id head ≡ some res)
    × (raw_equal base.raw res.raw ≡ false)
    × (c ≡ modified_change id base res)

pub modified_round_iff :
    (head : Index) (id : ResourceIdentity) (base : IndexedResource) (c : ResourceChange)
    → (modified_round head (id, base) ≡ some c) ↔ Changed head id base c
unfolding modified_round
modified_round_iff head id base c = (
  λ e. elim (Option-cases (lookup id head)) [
    | inl missing ↦ let gone : none ≡ some c = rw (missing, modified_round) at e in cc
    | inr (res, found) ↦ elim (Bool-cases (raw_equal base.raw res.raw)) [
      | inl same ↦ let gone : none ≡ some c = rw (found, same, modified_round) at e in cc
      | inr other ↦
          let kept : some (modified_change id base res) ≡ some c =
            rw (found, other, modified_round) at e in
          (res, found, other, cc)
    ]
  ],
  λ (res, found, other, e). rw (found, other, modified_round) (cc),
)

module _ (base head : World) where
  -- A change is listed as removed exactly when its identity is in the base's index and not in the
  -- head's, as added exactly when it is the other way round, and as modified exactly when both
  -- indexes have it with manifests that are not deeply equal; each change carries the sources and
  -- the manifests of the two indexes.
  pub diff_classes :
      (c : ResourceChange)
      → (Memᴰ c (diff base head).removed ↔ (
          (id : ResourceIdentity) × (res : IndexedResource) × (lookup id (index_all base)
            ≡ some res)
          × Gone (index_all head) id res c))
        × (Memᴰ c (diff base head).added ↔ (
            (id : ResourceIdentity) × (res : IndexedResource) × (lookup id (index_all head)
              ≡ some res)
            × New (index_all base) id res c))
        × (Memᴰ c (diff base head).modified ↔ (
            (id : ResourceIdentity) × (res : IndexedResource) × (lookup id (index_all base)
              ≡ some res)
            × Changed (index_all head) id res c))
  unfolding diff
  diff_classes c =
      let b = index_all base in
      let h = index_all head in
      (
        listed_iff (removed_round h) b (index_all-IsMap base) (λ id res. Gone h id res c) c
            (λ id res. removed_round_iff h id res c),
        listed_iff (added_round b) h (index_all-IsMap head) (λ id res. New b id res c) c
            (λ id res. added_round_iff b id res c),
        listed_iff (modified_round h) b (index_all-IsMap base) (λ id res. Changed h id res c) c
            (λ id res. modified_round_iff h id res c),
      )
