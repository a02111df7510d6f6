-- ===== src/Schemas/Parts.antt =====
-- When the switch of `walkField` gives no fact.
use cross_validate.Base.{
  ℕ, zero, String, Bool, false, Option, none, some, [], ◌++◌, ◌==◌, string_eq, ◌≡◌, ◌≢◌, refl, sym,
  ap, subst, ◌∙◌, ◌↔◌, inl, inr, ◌>>=◌, Memᴰ, eq_iff, Bool-cases, Option-cases,
}
use mathlib.Core.Option
use cross_validate.Types.Values.{Value, obj, arr, Fields, Items, elems, as_map, as_list}
use cross_validate.Schemas.{Walk, walk_properties, walk_array, walk_object, walk_parts}
use cross_validate.Schemas.Facts.{schema_type, get_nested_map}
use cross_validate.Schemas.Empty.{
  Facts, append-empty, walk_items-empty, check_required-empty, unknown_facts-empty, HasRequired,
  IsClosed,
}
use cross_validate.Schemas.Conforms.{nested-size}
use cross_validate.Schemas.Properties.{Properties, Decides, walk_properties-empty}

-- What `walk_parts` checks.
abbrev pub Parts : (Fields → Value → Type 0) → Fields → Value → Type 0
Parts C schema v =
    ((fs : Fields)
      → schema_type schema ≡ "object"
      → v ≡ obj fs
      → HasRequired schema fs
        × IsClosed (λ _. false) schema fs
        × Properties C fs (get_nested_map schema "properties"))
    × ((vs : Items) (items : Fields) (w : Value)
        → schema_type schema ≡ "array"
        → v ≡ arr vs
        → get_nested_map schema "items" ≡ some items
        → Memᴰ w (elems vs)
        → C items w)

pub three_parts :
    (o : Option Facts) (a b : Facts)
    → ((o >>= λ known. some (a ++ (known ++ b))) ≡ some []) ↔ ((a ≡ []) × (b ≡ []) × (o ≡ some []))
three_parts none a b = ((λ e. cc), λ h. cc)
three_parts (some known) a b = (
  (λ e.
      let (x, rest) = append-empty a (known ++ b) (Option.some_inj.0 e) in
      let (y, z) = append-empty known b rest in (x, z, ap some y)),
  λ (x, z, y). let y' = Option.some_inj.0 y in λ i. some (x i ++ (y' i ++ z i)),
)

walk_array-empty :
    (walk : Walk) (C : Fields → Value → Type 0) (schema : Fields) (path : String) (vs : Items)
    → Decides walk C schema
    → (walk_array walk path (some (elems vs)) (get_nested_map schema "items") ≡ some []) ↔ (
        (items : Fields) (w : Value)
        → get_nested_map schema "items" ≡ some items
        → Memᴰ w (elems vs)
        → C items w)
walk_array-empty walk C schema path vs decides =
    elim (Option-cases (get_nested_map schema "items")) [
      | inl without ↦ ((λ e items w given m. cc), λ h. rw without refl)
      | inr (items, given) ↦
          let all =
            walk_items-empty walk path items (C items)
              (λ p v. decides p items v (nested-size schema items "items" given)) zero (elems vs) in
          (
            (λ e items' w given' m.
                subst (λ s. C s w) (Option.some_inj.0 (sym given ∙ given'))
                  (all.0 (rw given at e) w m)),
            λ h. rw given (all.1 (λ w m. h items w given m)),
          )
    ]

module _ (beyond : ℕ → Bool) (quote : String → String) (show : Value → String) where
  walk_object-empty :
      (walk : Walk) (C : Fields → Value → Type 0) (schema fs : Fields) (path : String)
      → Decides walk C schema
      → (walk_object beyond quote show walk path schema (some fs) ≡ some []) ↔ (
          HasRequired schema fs
          × IsClosed (λ _. false) schema fs
          × Properties C fs (get_nested_map schema "properties"))
  walk_object-empty walk C schema fs path decides =
      let three =
        three_parts (walk_properties walk path (get_nested_map schema "properties") fs) _ _ in
      let required = check_required-empty beyond quote show schema fs path in
      let closed = unknown_facts-empty beyond quote show (λ _. false) path schema fs in
      let known = walk_properties-empty walk C schema fs path decides in
      (
        (λ e. let (r, c, k) = three.0 e in (required.0 r, closed.0 c, known.0 k)),
        λ (r, c, k). three.1 (required.1 r, closed.1 c, known.1 k),
      )

  not_type :
      (schema : Fields) (t : String) → (schema_type schema == t) ≡ false → schema_type schema ≢ t
  not_type schema t h e = let same = (eq_iff (schema_type schema) t).1 e in cc

  not_both : (schema : Fields) → schema_type schema ≡ "object" → schema_type schema ≢ "array"
  not_both schema e e' = let same = (eq_iff "object" "array").1 (sym e ∙ e') in cc

  walk_parts-obj :
      (walk : Walk) (C : Fields → Value → Type 0) (schema fs : Fields) (path : String)
      → Decides walk C schema
      → (walk_parts beyond quote show walk path schema (obj fs) ≡ some []) ↔ Parts C schema (obj fs)
  unfolding walk_parts
  walk_parts-obj walk C schema fs path decides =
      elim (Bool-cases (schema_type schema == "object")) [
        | inl is_object ↦
            let object = walk_object-empty walk C schema fs path decides in
            (
              (λ e. (
                (λ fs' t same.
                    subst
                      (λ v.
                        HasRequired schema v
                        × IsClosed (λ _. false) schema v
                        × Properties C v (get_nested_map schema "properties"))
                      (obj_inj same) (object.0 (rw is_object at e))),
                λ vs items w t same. cc,
              )),
              λ h.
                  rw is_object
                    (object.1 (h.0 fs ((eq_iff (schema_type schema) "object").0 is_object) refl)),
            )
        | inr other ↦ (
          (λ e.
              ((λ fs' t same. absurd (not_type schema "object" other t)), λ vs items w t same. cc)),
          λ h. elim (Bool-cases (schema_type schema == "array")) [
            | inl is_array ↦ rw (other, is_array) refl
            | inr neither ↦ rw (other, neither) refl
          ],
        )
      ]
    where
      obj_inj : {fs fs' : Fields} → obj fs ≡ obj fs' → fs ≡ fs'
      obj_inj same = Option.some_inj.0 (ap as_map same)

  walk_parts-arr :
      (walk : Walk) (C : Fields → Value → Type 0) (schema : Fields) (vs : Items) (path : String)
      → Decides walk C schema
      → (walk_parts beyond quote show walk path schema (arr vs) ≡ some []) ↔ Parts C schema (arr vs)
  unfolding walk_parts
  walk_parts-arr walk C schema vs path decides =
      elim (Bool-cases (schema_type schema == "object")) [
        | inl is_object ↦ (
          (λ e. (
            (λ fs' t same. cc),
            λ vs' items w t same.
                absurd (not_both schema ((eq_iff (schema_type schema) "object").0 is_object) t),
          )),
          λ h. rw is_object refl,
        )
        | inr other ↦ elim (Bool-cases (schema_type schema == "array")) [
          | inl is_array ↦
              let array = walk_array-empty walk C schema path vs decides in
              (
                (λ e. (
                  (λ fs' t same. cc),
                  λ vs' items w t same given m.
                      array.0 (rw (other, is_array) at e) items w given
                        (subst (λ xs. Memᴰ w xs) (Option.some_inj.0 (ap as_list (sym same))) m),
                )),
                λ h.
                    rw (other, is_array)
                      (array.1 (λ items w given m.
                        h.1 vs items w ((eq_iff (schema_type schema) "array").0 is_array) refl given
                          m)),
              )
          | inr neither ↦ (
            (λ e. (
              (λ fs' t same. cc),
              λ vs' items w t same. absurd (not_type schema "array" neither t),
            )),
            λ h. rw (other, neither) refl,
          )
        ]
      ]

  walk_parts-scalar :
      (walk : Walk) (C : Fields → Value → Type 0) (schema : Fields) (v : Value) (path : String)
      → as_map v ≡ none
      → as_list v ≡ none
      → (walk_parts beyond quote show walk path schema v ≡ some []) ↔ Parts C schema v
  unfolding walk_parts
  walk_parts-scalar walk C schema v path h k = (
    (λ e. (
      (λ fs t same. let map : as_map v ≡ some fs = ap as_map same in cc),
      λ vs items w t same. let list : as_list v ≡ some (elems vs) = ap as_list same in cc,
    )),
    λ parts. elim (Bool-cases (schema_type schema == "object")) [
      | inl is_object ↦ rw (is_object, h) refl
      | inr other ↦ elim (Bool-cases (schema_type schema == "array")) [
        | inl is_array ↦ rw (other, is_array, k) refl
        | inr neither ↦ rw (other, neither) refl
      ]
    ],
  )

  pub walk_parts-empty :
      (walk : Walk) (C : Fields → Value → Type 0) (schema : Fields) (v : Value) (path : String)
      → Decides walk C schema
      → (walk_parts beyond quote show walk path schema v ≡ some []) ↔ Parts C schema v
  walk_parts-empty walk C schema (obj fs) path decides =
      walk_parts-obj walk C schema fs path decides
  walk_parts-empty walk C schema (arr vs) path decides =
      walk_parts-arr walk C schema vs path decides
  walk_parts-empty walk C schema v path decides = walk_parts-scalar walk C schema v path refl refl
