-- ===== src/Schemas/Manifests.antt =====
-- `ValidateManifest` against the description of what a schema admits.
use cross_validate.Base.{ℕ, String, Bool, some, [], ◌≡◌, ap, ◌↔◌, inl, inr, Memᴰ, Option-cases}
use mathlib.Core.Option
use cross_validate.Types.Values.{Value, obj, Fields, get, entries}
use cross_validate.Schemas.{
  fields_size, walk_properties, walk_field, is_structural, unwrapped, validate_root,
  validate_manifest,
}
use cross_validate.Schemas.Facts.{get_nested_map}
use cross_validate.Schemas.Empty.{HasRequired, IsClosed, check_required-empty, unknown_facts-empty}
use cross_validate.Schemas.Properties.{walk_properties-empty}
use cross_validate.Schemas.Parts.{three_parts}
use cross_validate.Schemas.Conforms.{Conforms}
use cross_validate.Schemas.Decided.{walk_field-Conforms}

-- What the root of a schema admits: all required names, properties that conform, and no other key but
-- the structural ones if the root has properties and forbids others.
abbrev pub RootConforms : (beyond : ℕ → Bool) → Fields → Fields → Type 0
RootConforms beyond root raw =
    HasRequired root raw
    × ((props : Fields)
        → get_nested_map root "properties" ≡ some props
        → IsClosed is_structural root raw
          × ((sub : Fields) (name : String) (w : Value)
              → Memᴰ (name, obj sub) (entries props)
              → get name raw ≡ some w
              → Conforms beyond sub w))

module _ (beyond : ℕ → Bool) (quote : String → String) (show : Value → String) where
  root-conforms :
      (root raw : Fields)
      → (validate_root beyond quote show root raw (get_nested_map root "properties") ≡ some [])
        ↔ RootConforms beyond root raw
  unfolding validate_root
  root-conforms root raw = elim (Option-cases (get_nested_map root "properties")) [
    | inl without ↦
        let required = check_required-empty beyond quote show root raw "" in
        (
          (λ e. (required.0 (Option.some_inj.0 (rw without at e)), λ props given. cc)),
          λ h. rw without (ap some (required.1 h.0)),
        )
    | inr (props, given) ↦
        let walk = walk_field beyond quote show (fields_size root) in
        let three = three_parts (walk_properties walk "" (some props) raw) _ _ in
        let required = check_required-empty beyond quote show root raw "" in
        let closed = unknown_facts-empty beyond quote show is_structural "" root raw in
        let known = walk_properties-empty walk (Conforms beyond) root raw "" (λ path sub v lt.
          walk_field-Conforms beyond quote show (fields_size root) path sub v lt) in
        (
          (λ e.
              let (r, c, k) = three.0 (rw given at e) in
              (
                required.0 r,
                λ props' given'.
                    (closed.0 c, λ sub name w. known.0 (rw given k) props' sub name w given'),
              )),
          λ (r, rest). rw given (
              three.1 (
                required.1 r,
                closed.1 (rest props given).0,
                rw given at
                    (known.1 (λ props' sub name w given'. (rest props' given').1 sub name w)),
              )),
        )
  ]

  -- `ValidateManifest` gives no fact, and does not panic, exactly for a manifest that conforms to the schema: all required names are there, a value has its type, is in its enum, and its properties and elements conform, and no other key is there if the schema forbids it, except that the root exempts the structural keys and, without properties, all keys.
  pub validate_manifest-RootConforms :
      (schema raw : Fields)
      → (validate_manifest beyond quote show (some schema) (some raw) ≡ some [])
        ↔ RootConforms beyond (unwrapped schema) raw
  unfolding validate_manifest
  validate_manifest-RootConforms schema raw = root-conforms (unwrapped schema) raw
