-- ===== src/Schemas/Conforms.antt =====
-- A description of the values that a schema admits, without paths, messages and order, and the size of
-- the schemas in a schema.
use cross_validate.Base.{
  ℕ, suc, ◌<◌, String, Bool, true, false, some, string_eq, ◌≡◌, ap, ◌⊎◌, inl, inr, Memᴰ, arith,
  Option-cases,
}
use mathlib.Core.List.Memᴰ
use mathlib.Core.Option
use cross_validate.Base.Maps.{lookup, mem-of_lookup}
use cross_validate.Types.Values.{
  Value, obj, arr, Fields, end, field, Items, get, entries, elems, as_map,
}
use cross_validate.Schemas.{size, fields_size}
use cross_validate.Schemas.Scalars.{json_type, is_null}
use cross_validate.Schemas.Facts.{schema_type, get_nested_map}
use cross_validate.Schemas.Empty.{HasRequired, IsClosed}
use cross_validate.Schemas.Enums.{InEnum}

-- The value is of the schema's type, an integer also of the type number; null and a schema without a type pass.
abbrev pub HasType : (beyond : ℕ → Bool) → Fields → Value → Type 0
HasType beyond schema v =
    (schema_type schema ≡ "")
    ⊎ ((is_null v ≡ true)
        ⊎ ((json_type beyond v ≡ schema_type schema)
            ⊎ ((json_type beyond v ≡ "integer") × (schema_type schema ≡ "number"))))

pub data Conforms (beyond : ℕ → Bool) : Fields → Value → Type 0 where
  conforms :
      (schema : Fields) (v : Value) (has_type : HasType beyond schema v) (in_enum : InEnum schema v)
      (shape : (fs : Fields)
        → schema_type schema ≡ "object"
        → v ≡ obj fs
        → HasRequired schema fs × IsClosed (λ _. false) schema fs)
      (properties : (fs props sub : Fields) (name : String) (w : Value)
        → schema_type schema ≡ "object"
        → v ≡ obj fs
        → get_nested_map schema "properties" ≡ some props
        → Memᴰ (name, obj sub) (entries props)
        → get name fs ≡ some w
        → Conforms beyond sub w)
      (elements : (vs : Items) (items : Fields) (w : Value)
        → schema_type schema ≡ "array"
        → v ≡ arr vs
        → get_nested_map schema "items" ≡ some items
        → Memᴰ w (elems vs)
        → Conforms beyond items w)
      → Conforms beyond schema v

-- The schemas in a schema are smaller.
size-mem :
    (k : String) (v : Value) (fs : Fields) → Memᴰ (k, v) (entries fs) → size v < fields_size fs
unfolding size
size-mem k v end m = absurd (Memᴰ.not-nil m)
size-mem k v (field j w fs) m = elim (Memᴰ.cases_cons m) [
  | inl same ↦ let here : size v ≡ size w = ap (λ e. size e.1) same in omega arith
  | inr later ↦ let ih = size-mem k v fs later in omega arith
]

as_map-size : (v : Value) (fs : Fields) → as_map v ≡ some fs → size v ≡ suc (fields_size fs)
unfolding size
as_map-size (obj gs) fs e = ap (λ x. suc (fields_size x)) (Option.some_inj.0 e)
as_map-size v fs e = cc

pub nested-size :
    (schema sub : Fields) (key : String)
    → get_nested_map schema key ≡ some sub
    → fields_size sub < fields_size schema
unfolding get
nested-size schema sub key e = elim (Option-cases (lookup key (entries schema))) [
  | inl absent ↦ cc
  | inr (v, found) ↦
      let as_sub : as_map v ≡ some sub = rw found at e in
      let eq = as_map-size v sub as_sub in
      let lt = size-mem key v schema (mem-of_lookup key (entries schema) found) in omega arith
]

pub property-size :
    (schema props sub : Fields) (name : String)
    → get_nested_map schema "properties" ≡ some props
    → Memᴰ (name, obj sub) (entries props)
    → fields_size sub < fields_size schema
unfolding size
property-size schema props sub name e m =
    let a = nested-size schema props "properties" e in
    let b = size-mem name (obj sub) props m in omega arith
