-- ===== src/Ir/Extract/Registry.antt =====
-- The loops of the extractors against a plain search of the registry.
use cross_validate.Base.{
  List, [], ◌∷◌, ◌++◌, map, flat_map, collect, select, ◌==◌, ◌≡◌, refl, sym, ap, ◌∙◌, Bool-cases,
  inl, inr, eq_of_beq,
}
use mathlib.Core.List.{append-nil, append_assoc}
use mathlib.Core.Path.{fun_ext}
use cross_validate.Base.Maps.{lookup, insert, lookup-insert}
use cross_validate.Types.World.{ResourceInfo, GroupKind, group_kind_instance, or_empty}
use cross_validate.Types.Facts.{LateInitMapping, SelectorMapping, CanonicalFormMapping}
use cross_validate.Ir.Paths.{walk_path}
use cross_validate.Ir.Extract.{
  resource_gk, index_rows, extract_rows, late_init_key, late_init_rows, late_init_usage,
  extract_late_init_usages, selector_key, selector_rows, selector_usage, extract_selector_usages,
  canonical_key, canonical_rows, canonical_usage, extract_canonical_form_usages,
}

module _ {ℓ} {A : Type ℓ} (key : A → GroupKind) where
  abbrev pub rows_for : GroupKind → List A → List A
  rows_for k = select (λ m. key m == k)

  lookup-index_rows :
      (k : GroupKind) (index : List (GroupKind × List A)) (ms : List A)
      → or_empty (lookup k (index_rows key index ms)) ≡ or_empty (lookup k index) ++ rows_for k ms
  unfolding index_rows
  lookup-index_rows k index [] = sym (append-nil (or_empty (lookup k index)))
  lookup-index_rows k index (m ∷ ms) =
      lookup-index_rows k (insert (key m) (or_empty (lookup (key m) index) ++ m ∷ []) index) ms
      ∙ elim (Bool-cases (key m == k)) [
        | inl same ↦
            let here : key m ≡ k = eq_of_beq (key m) k same in
            rw
              (
                lookup-insert (key m) k (or_empty (lookup (key m) index) ++ m ∷ []) index,
                same,
                here,
              )
              (append_assoc (or_empty (lookup k index)) (m ∷ []) (rows_for k ms))
        | inr other ↦
            rw (lookup-insert (key m) k (or_empty (lookup (key m) index) ++ m ∷ []) index, other)
              refl
      ]

  extract_rows-select {κ} :
      {B : Type κ} (rows : ResourceInfo → A → List B) (registry : List A)
      (resources : List ResourceInfo)
      → extract_rows key rows registry resources
        ≡ flat_map (λ res. flat_map (rows res) (rows_for (resource_gk res) registry)) resources
  unfolding extract_rows
  extract_rows-select rows registry resources =
      ap (λ f. flat_map (λ res. flat_map (rows res) (f (resource_gk res))) resources)
        (fun_ext (λ k. lookup-index_rows k [] registry))

-- For each resource in turn, each row of the registry of its group and kind, in the registry's order, gives a late-init usage for each hit of the row's path, a selector usage for each hit of its selector path, and a canonical-form usage for each hit that is a text and not "".
pub extract_usages-registry :
    (late_inits : List LateInitMapping) (selectors : List SelectorMapping)
    (canonicals : List CanonicalFormMapping) (resources : List ResourceInfo)
    → (extract_late_init_usages late_inits resources
        ≡ flat_map
            (λ res.
              flat_map
                (λ m. map (late_init_usage res) (walk_path res.raw m.field_path))
                (select (λ m. late_init_key m == resource_gk res) late_inits))
            resources)
      × (extract_selector_usages selectors resources
          ≡ flat_map
              (λ res.
                flat_map
                  (λ m. map (selector_usage res m) (walk_path res.raw m.selector_path))
                  (select (λ m. selector_key m == resource_gk res) selectors))
              resources)
      × (extract_canonical_form_usages canonicals resources
          ≡ flat_map
              (λ res.
                flat_map
                  (λ m. collect (canonical_usage res m) (walk_path res.raw m.field_path))
                  (select (λ m. canonical_key m == resource_gk res) canonicals))
              resources)
unfolding extract_late_init_usages extract_selector_usages extract_canonical_form_usages
    late_init_rows selector_rows canonical_rows
extract_usages-registry late_inits selectors canonicals resources = (
  extract_rows-select late_init_key late_init_rows late_inits resources,
  extract_rows-select selector_key selector_rows selectors resources,
  extract_rows-select canonical_key canonical_rows canonicals resources,
)
