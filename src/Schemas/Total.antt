-- ===== src/Schemas/Total.antt =====
-- The validation ends without a panic where the enums of the schema hold scalars only.
use cross_validate.Base.{
  ℕ, zero, suc, ◌<◌, String, Bool, true, false, Option, none, some, List, [], ◌∷◌, ◌++◌,
  if◌then◌else◌, ◌==◌, string_eq, ◌≡◌, refl, subst, inl, inr, ◌>>=◌, Memᴰ, arith, Bool-cases,
  Option-cases,
}
use cross_validate.Base.Texts.{text}
use cross_validate.Ir.Paths.{itoa}
use cross_validate.Types.Values.{
  Value, null, bool, int, float, str, obj, arr, Fields, get, entries, as_map, as_list, Raw,
}
use cross_validate.Schemas.{
  fields_size, Walk, walk_property, walk_properties, walk_items, walk_array, walk_object,
  walk_parts, walk_field, unwrapped, validate_root, validate_manifest,
}
use cross_validate.Schemas.Scalars.{equal_scalar, same_interface, is_null}
use cross_validate.Schemas.Facts.{
  schema_type, enum_of, has_wrong_type, get_nested_map, sub_path, each_facts, enum_matched,
  enum_passed, applied_enum,
}
use cross_validate.Schemas.Empty.{Facts}
use cross_validate.Schemas.Enums.{is_container, then_some}
use cross_validate.Schemas.Conforms.{nested-size, property-size}

abbrev pub Returns {ℓ} : {A : Type ℓ} → Option A → Type ℓ
Returns {A} o = (a : A) × (o ≡ some a)

-- No enum of the schema or of a schema in it holds a map or a list.
pub data HasScalarEnums : Fields → Type 0 where
  scalar_enums :
      (schema : Fields)
      (here : (enum : List Value) (e : Value)
        → enum_of schema ≡ some enum
        → Memᴰ e enum
        → is_container e ≡ false)
      (properties : (props sub : Fields) (name : String)
        → get_nested_map schema "properties" ≡ some props
        → Memᴰ (name, obj sub) (entries props)
        → HasScalarEnums sub)
      (elements : (items : Fields)
        → get_nested_map schema "items" ≡ some items
        → HasScalarEnums items)
      → HasScalarEnums schema

Returns-bind {ℓ κ} :
    {A : Type ℓ} {B : Type κ} (o : Option A) (f : A → Option B)
    → Returns o
    → ((a : A) → Returns (f a))
    → Returns (o >>= f)
Returns-bind o f (a, e) h = rw e (h a)

Returns-if {ℓ} :
    {A : Type ℓ} (b : Bool) (o p : Option A) → Returns o → Returns p → Returns (if b then o else p)
Returns-if true o p ho hp = ho
Returns-if false o p ho hp = hp

Returns-elim {ℓ κ} :
    {A : Type ℓ} {B : Type κ} (o : Option A) (f : A → Option B) (p : Option B)
    → ((a : A) → Returns (f a))
    → Returns p
    → Returns (elim o [ some a ↦ f a | none ↦ p ])
Returns-elim none f p hf hp = hp
Returns-elim (some a) f p hf hp = hf a

scalar-equal_scalar : (e v : Value) → is_container e ≡ false → Returns (equal_scalar e v)
unfolding equal_scalar
scalar-equal_scalar e v h = then_some (same_interface e v) _ (same e h)
  where
    same : (e : Value) → is_container e ≡ false → (b : Bool) × (same_interface e v ≡ some b)
    same null h = (_, refl)
    same (bool a) h = (_, refl)
    same (int a) h = (_, refl)
    same (float a) h = (_, refl)
    same (str a) h = (_, refl)
    same (obj a) h = cc
    same (arr a) h = cc

each_facts-Returns {ℓ} :
    {A : Type ℓ} (f : A → Option Facts) (xs : List A)
    → ((x : A) → Memᴰ x xs → Returns (f x))
    → Returns (each_facts f xs)
each_facts-Returns f [] h = ([], refl)
each_facts-Returns f (x ∷ xs) h = Returns-bind (f x) _ (h x (Memᴰ.head refl)) (λ facts.
    Returns-bind (each_facts f xs) _ (each_facts-Returns f xs (λ y m. h y (Memᴰ.tail m)))
      (λ more. (facts ++ more, refl)))

-- `walk` returns on the smaller schemas with scalar enums.
abbrev ReturnsBelow : Walk → Fields → Type 0
ReturnsBelow walk schema =
    (path : String) (sub : Fields) (v : Value)
    → fields_size sub < fields_size schema
    → HasScalarEnums sub
    → Returns (walk path sub v)

walk_items-Returns :
    (walk : Walk) (path : String) (items : Fields)
    → ((p : String) (v : Value) → Returns (walk p items v))
    → (i : ℕ) (vs : List Value) → Returns (walk_items walk path items i vs)
walk_items-Returns walk path items h i [] = ([], refl)
walk_items-Returns walk path items h i (v ∷ vs) =
    Returns-bind (walk (text (path ∷ "[" ∷ itoa i ∷ "]" ∷ [])) items v) _ (h _ v) (λ facts.
      Returns-bind (walk_items walk path items (suc i) vs) _
        (walk_items-Returns walk path items h (suc i) vs) (λ more. (facts ++ more, refl)))

walk_property-Returns :
    (walk : Walk) (path : String) (fs : Fields) (name : String) (declared : Value)
    → ((p : String) (sub : Fields) (v : Value) → declared ≡ obj sub → Returns (walk p sub v))
    → Returns (walk_property walk path fs (name, declared))
walk_property-Returns walk path fs name (obj sub) h = elim (Option-cases (get name fs)) [
  | inl absent ↦ rw (absent, walk_property) ([], refl)
  | inr (w, found) ↦ rw (found, walk_property) (h (sub_path path name) sub w refl)
]
walk_property-Returns walk path fs name declared h = ([], refl)

walk_properties-Returns :
    (walk : Walk) (path : String) (schema fs : Fields)
    → ReturnsBelow walk schema
    → HasScalarEnums schema
    → Returns (walk_properties walk path (get_nested_map schema "properties") fs)
walk_properties-Returns walk path schema fs below (scalar_enums _ here properties elements) =
    elim (Option-cases (get_nested_map schema "properties")) [
      | inl without ↦ rw without ([], refl)
      | inr (props, given) ↦ rw given (
          each_facts-Returns (walk_property walk path fs) (entries props) (λ (name, declared) m.
            walk_property-Returns walk path fs name declared (λ p sub v same.
              let member = subst (λ d. Memᴰ (name, d) (entries props)) same m in
              below p sub v (property-size schema props sub name given member)
                (properties props sub name given member))))
    ]

walk_array-Returns :
    (walk : Walk) (path : String) (schema : Fields) (vs : Option (List Value))
    → ReturnsBelow walk schema
    → HasScalarEnums schema
    → Returns (walk_array walk path vs (get_nested_map schema "items"))
walk_array-Returns walk path schema none below h = ([], refl)
walk_array-Returns walk path schema (some vs) below (scalar_enums _ here properties elements) =
    elim (Option-cases (get_nested_map schema "items")) [
      | inl without ↦ rw without ([], refl)
      | inr (items, given) ↦ rw given (
          walk_items-Returns walk path items
            (λ p v. below p items v (nested-size schema items "items" given) (elements items given))
            zero vs)
    ]

module _ (beyond : ℕ → Bool) (quote : String → String) (show : Value → String) where
  enum_matched-Returns :
      (enum : List Value) (v : Value)
      → ((e : Value) → Memᴰ e enum → is_container e ≡ false)
      → Returns (enum_matched beyond quote show enum v)
  unfolding enum_matched
  enum_matched-Returns [] v h = (false, refl)
  enum_matched-Returns (e ∷ es) v h =
      Returns-bind (equal_scalar e v) _ (scalar-equal_scalar e v (h e (Memᴰ.head refl))) (λ same.
        Returns-if same (some true) (enum_matched beyond quote show es v) (true, refl)
          (enum_matched-Returns es v (λ d m. h d (Memᴰ.tail m))))

  enum_passed-Returns :
      (schema : Fields) (v : Value)
      → HasScalarEnums schema
      → Returns (enum_passed beyond quote show (applied_enum beyond quote show schema v) v)
  enum_passed-Returns schema v (scalar_enums _ here properties elements) =
      elim (Bool-cases (is_null v)) [
        | inl nothing ↦ rw nothing (none, refl)
        | inr other ↦ elim (Option-cases (enum_of schema)) [
          | inl without ↦ rw (other, without) (none, refl)
          | inr (enum, given) ↦
              rw (other, given)
                (Returns-bind (enum_matched beyond quote show enum v) _
                  (enum_matched-Returns enum v (λ e m. here enum e given m))
                  (λ same.
                    Returns-if same (some none) (some (some enum)) (none, refl) (some enum, refl)))
        ]
      ]

  walk_parts-Returns :
      (walk : Walk) (path : String) (schema : Fields) (v : Value)
      → ReturnsBelow walk schema
      → HasScalarEnums schema
      → Returns (walk_parts beyond quote show walk path schema v)
  unfolding walk_parts
  walk_parts-Returns walk path schema v below h =
      Returns-if (schema_type schema == "object") _ _ (object (as_map v)) (
        Returns-if (schema_type schema == "array") _ _
          (walk_array-Returns walk path schema (as_list v) below h) ([], refl))
    where
      object : (o : Option Fields) → Returns (walk_object beyond quote show walk path schema o)
      object none = ([], refl)
      object (some fs) =
          Returns-bind (walk_properties walk path (get_nested_map schema "properties") fs) _
            (walk_properties-Returns walk path schema fs below h) (λ known. (_, refl))

  walk_field-Returns :
      (fuel : ℕ) (path : String) (schema : Fields) (v : Value)
      → fields_size schema < fuel
      → HasScalarEnums schema
      → Returns (walk_field beyond quote show fuel path schema v)
  unfolding walk_field
  walk_field-Returns zero path schema v lt h = absurd (omega arith)
  walk_field-Returns (suc fuel) path schema v lt h =
      Returns-if (has_wrong_type beyond quote show schema v) _ _ (_, refl)
        (Returns-bind (enum_passed beyond quote show (applied_enum beyond quote show schema v) v) _
          (enum_passed-Returns schema v h)
          (λ failed.
            Returns-elim failed _ _ (λ enum. (_, refl))
              (walk_parts-Returns (walk_field beyond quote show fuel) path schema v
                (λ path' sub w lt' h'. walk_field-Returns fuel path' sub w (omega arith) h') h)))

  -- Where no enum of the schema holds a map or a list, the validation of any manifest ends with a list of facts: the fuel is enough, and no comparison panics.
  pub validate_manifest-Returns :
      (schema : Fields) (raw : Raw)
      → HasScalarEnums (unwrapped schema)
      → Returns (validate_manifest beyond quote show (some schema) raw)
  unfolding validate_manifest validate_root
  validate_manifest-Returns schema none h = ([], refl)
  validate_manifest-Returns schema (some raw) h =
      let root = unwrapped schema in
      let known =
        walk_properties-Returns (walk_field beyond quote show (fields_size root)) "" root raw
          (λ path sub v lt h'. walk_field-Returns (fields_size root) path sub v lt h') h in
      elim (Option-cases (get_nested_map root "properties")) [
        | inl without ↦ rw without (_, refl)
        | inr (props, given) ↦ rw given (
            Returns-bind
              (walk_properties (walk_field beyond quote show (fields_size root)) "" (some props)
                raw)
              _ (rw given at known) (λ facts. (_, refl)))
      ]
