-- ===== src/Schemas/Properties.antt =====
-- When the loop over the properties gives no fact.
use cross_validate.Base.{
  ◌<◌, String, Option, some, [], string_eq, ◌≡◌, refl, sym, ap, subst, ◌∙◌, ◌↔◌, inl, inr, Memᴰ,
  Option-cases,
}
use mathlib.Core.Option
use cross_validate.Types.Values.{Value, obj, Fields, get, entries, as_map}
use cross_validate.Schemas.{fields_size, Walk, walk_property, walk_properties}
use cross_validate.Schemas.Facts.{get_nested_map, sub_path}
use cross_validate.Schemas.Empty.{each_facts-empty}
use cross_validate.Schemas.Conforms.{property-size}

as_map-obj : (v : Value) (fs : Fields) → as_map v ≡ some fs → v ≡ obj fs
as_map-obj (obj gs) fs e = ap obj (Option.some_inj.0 e)
as_map-obj v fs e = cc

-- The parts of a value, checked by `C`.
abbrev pub Properties : (Fields → Value → Type 0) → Fields → Option Fields → Type 0
Properties C fs found =
    (props sub : Fields) (name : String) (w : Value)
    → found ≡ some props
    → Memᴰ (name, obj sub) (entries props)
    → get name fs ≡ some w
    → C sub w

-- `walk` decides `C` on the schemas in `schema`.
abbrev pub Decides : Walk → (Fields → Value → Type 0) → Fields → Type 0
Decides walk C schema =
    (path : String) (sub : Fields) (v : Value)
    → fields_size sub < fields_size schema
    → (walk path sub v ≡ some []) ↔ C sub v

walk_property-empty :
    (walk : Walk) (C : Fields → Value → Type 0) (schema fs : Fields) (path name : String)
    (declared : Value)
    → Decides walk C schema
    → ((sub : Fields) → declared ≡ obj sub → fields_size sub < fields_size schema)
    → (walk_property walk path fs (name, declared) ≡ some [])
      ↔ ((sub : Fields) (w : Value) → declared ≡ obj sub → get name fs ≡ some w → C sub w)
walk_property-empty walk C schema fs path name declared decides smaller =
    elim (Option-cases (as_map declared)) [
      | inl other ↦ (
        (λ e sub w same found. let map : as_map declared ≡ some sub = ap as_map same in cc),
        λ h. rw (other, walk_property) refl,
      )
      | inr (sub, is_map) ↦ elim (Option-cases (get name fs)) [
        | inl absent ↦ ((λ e sub w same found. cc), λ h. rw (is_map, absent, walk_property) refl)
        | inr (w, found) ↦
            let declares = as_map-obj declared sub is_map in
            let step = decides (sub_path path name) sub w (smaller sub declares) in
            (
              (λ e sub' w' same found'.
                  let ok : C sub w = step.0 (rw (is_map, found, walk_property) at e) in
                  let s : sub ≡ sub' = Option.some_inj.0 (sym is_map ∙ ap as_map same) in
                  let t : w ≡ w' = Option.some_inj.0 (sym found ∙ found') in rw s at (rw t at ok)),
              λ h. rw (is_map, found, walk_property) (step.1 (h sub w declares found)),
            )
      ]
    ]

pub walk_properties-empty :
    (walk : Walk) (C : Fields → Value → Type 0) (schema fs : Fields) (path : String)
    → Decides walk C schema
    → (walk_properties walk path (get_nested_map schema "properties") fs ≡ some [])
      ↔ Properties C fs (get_nested_map schema "properties")
walk_properties-empty walk C schema fs path decides =
    elim (Option-cases (get_nested_map schema "properties")) [
      | inl without ↦ ((λ e props sub name w given m found. cc), λ h. rw without refl)
      | inr (props, given) ↦
          let all = each_facts-empty (walk_property walk path fs) (entries props) in
          (
            (λ e props' sub name w given' m found.
                let same : props' ≡ props = Option.some_inj.0 (sym given' ∙ given) in
                let m' : Memᴰ (name, obj sub) (entries props) =
                  subst (λ p. Memᴰ (name, obj sub) (entries p)) same m in
                (walk_property-empty walk C schema fs path name (obj sub) decides (λ sub' eq.
                    property-size schema props sub' name given
                      (subst (λ d. Memᴰ (name, d) (entries props)) eq m'))).0
                  (all.0 (rw given at e) (name, obj sub) m') sub w refl found),
            λ h. rw given (
                all.1 (λ (name, declared) m.
                  (walk_property-empty walk C schema fs path name declared decides (λ sub' eq.
                      property-size schema props sub' name given
                        (subst (λ d. Memᴰ (name, d) (entries props)) eq m))).1
                    (λ sub w eq found.
                      h props sub name w given (subst (λ d. Memᴰ (name, d) (entries props)) eq m)
                        found))),
          )
    ]
