-- ===== src/AppSet/Generators/Combined.antt =====
-- The parameter sets of matrix and merge generators in terms of those of their first two generators.
use cross_validate.Base.{
  Bool, sym, ℕ, ◌+◌, ◌*◌, String, Option, none, some, List, [], ◌∷◌, map, length, get_elem?, ◌≡◌,
  refl, ◌∙◌, ap, ◌>>=◌, string_eq,
}
use cross_validate.Base.Lists.Places.{
  get_elem?-All, get_elem?-map, length-map, get_elem?-flat_map, length-flat_map,
}
use cross_validate.Base.Maps.{lookup, IsMap, last_of, or_else}
use cross_validate.Types.Argo.{
  Params, ArgoAppSetGenerator, generator, Generators, cons, ArgoAppSetGitGenerator,
  ArgoApplicationSet,
}
use cross_validate.AppSet.Generators.{
  ExpansionContext, put_all, cross_params, merge_key, index_params, merge_found, merge_params,
  expand_generator,
}
use cross_validate.AppSet.Generators.Lookups.{
  lookup-put_all, lookup-put_missing, lookup-index_params, or_else-none,
}
use cross_validate.AppSet.Generators.Maps.{
  AreMaps, ElementsAreMaps, FixturesAreMaps, expand_generator-AreMaps, params_of,
}

lookup-copy : (k : String) (p : Params) → IsMap p → lookup k (put_all p []) ≡ lookup k p
unfolding lookup
lookup-copy k p h = lookup-put_all k p [] h ∙ or_else-none (lookup k p)

-- What `p` holds: the entries of the first, and else those of the second.
abbrev pub IsOverlay : Params → Params → Params → Type 0
IsOverlay p first second = (k : String) → lookup k p ≡ or_else (lookup k first) (lookup k second)

cross_params-at :
    (left right : List Params) (i j : ℕ) {ap bp : Params}
    → AreMaps left
    → AreMaps right
    → get_elem? left i ≡ some ap
    → get_elem? right j ≡ some bp
    → (p : Params) × ((get_elem? (cross_params left right) (i * length right + j) ≡ some p)
        × IsOverlay p bp ap)
unfolding cross_params
cross_params-at left right i j {ap} {bp} hl hr e e' = (
  put_all bp (put_all ap []),
  (
    get_elem?-flat_map (λ a. map (λ b. put_all b (put_all a [])) right) (length right)
        (λ a. length-map _ right) left i j e (get_elem?-map _ right j e'),
    λ k.
        lookup-put_all k bp (put_all ap []) (get_elem?-All IsMap right j hr e')
        ∙ map_right (lookup k bp) (lookup-copy k ap (get_elem?-All IsMap left i hl e)),
  ),
)
  where
    map_right : (o : Option String) {q r : Option String} → q ≡ r → or_else o q ≡ or_else o r
    map_right o same = λ i. or_else o (same i)

-- The partner of a left parameter set: the last right one with its merge key.
abbrev pub partner : List String → List Params → Params → Option Params
partner keys right ap = last_of (λ bp. merge_key bp keys) (merge_key ap keys) none right

merge_params-at :
    (keys : List String) (left right : List Params) (i : ℕ) {ap : Params}
    → AreMaps left
    → get_elem? left i ≡ some ap
    → (p : Params) × ((get_elem? (merge_params keys left right) i ≡ some p)
        × ((k : String)
            → lookup k p ≡ or_else (lookup k ap) (partner keys right ap >>= λ bp. lookup k bp)))
unfolding merge_params lookup
merge_params-at keys left right i {ap} h e =
    let index = index_params keys right [] in
    (
      merge_found (lookup (merge_key ap keys) index) (put_all ap []),
      (
        get_elem?-map _ left i e,
        λ k.
            found k (lookup (merge_key ap keys) index) (get_elem?-All IsMap left i h e)
            ∙ rw (lookup-index_params (merge_key ap keys) keys right []) refl,
      ),
    )
  where
    found :
        (k : String) (o : Option Params)
        → IsMap ap
        → lookup k (merge_found o (put_all ap [])) ≡ or_else (lookup k ap) (o >>= λ bp. lookup k bp)
    found k none h = lookup-copy k ap h ∙ sym (or_else-none (lookup k ap))
    found k (some bp) h =
        lookup-put_missing k bp (put_all ap []) ∙ ap_left (lookup k bp) (lookup-copy k ap h)
      where
        ap_left : (o : Option String) {q r : Option String} → q ≡ r → or_else q o ≡ or_else r o
        ap_left o same = λ j. or_else (same j) o

length-cross_params :
    (left right : List Params) → length (cross_params left right) ≡ length left * length right
unfolding cross_params
length-cross_params left right = length-flat_map _ (length right) (λ ap. length-map _ right) left

module _ (glob : String → Option (List String)) (is_dir : String → Bool) (quote : String → String)
    (set : ArgoApplicationSet) (ctx : ExpansionContext) (a b : ArgoAppSetGenerator)
    (more other : Generators) (elements : List Params) (selector : Params)
    (git : Option ArgoAppSetGitGenerator) (fixtures : FixturesAreMaps ctx)
    (maps_a : ElementsAreMaps a) (maps_b : ElementsAreMaps b) where
  abbrev params : ArgoAppSetGenerator → List Params
  params g = params_of glob is_dir quote set ctx g

  -- A matrix generator of two generators or more gives one parameter set for each pair of a set of the first generator and a set of the second, in the order of the pairs; it has the entries of both, those of the second where both have a key. Elements and fixtures are taken to have no key twice.
  pub expand_generator-matrix :
      (keys : List String)
      → (let gen = generator "matrix" elements selector git (cons a (cons b more)) other keys in
          (length (params gen) ≡ length (params a) * length (params b))
          × ((i j : ℕ) (ap bp : Params)
              → get_elem? (params a) i ≡ some ap
              → get_elem? (params b) j ≡ some bp
              → (p : Params) × ((get_elem? (params gen) (i * length (params b) + j) ≡ some p)
                  × IsOverlay p bp ap)))
  unfolding expand_generator
  expand_generator-matrix keys = (
    length-cross_params (params a) (params b),
    λ i j ap bp.
        cross_params-at (params a) (params b) i j
          (expand_generator-AreMaps glob is_dir quote set ctx a maps_a fixtures)
          (expand_generator-AreMaps glob is_dir quote set ctx b maps_b fixtures),
  )

  -- A merge generator of two generators or more with a merge key gives one parameter set for each set of the first generator, in their order; it has the entries of that set, and under the other keys those of the last set of the second generator with the same merge key, if there is one. Elements and fixtures are taken to have no key twice.
  pub expand_generator-merge :
      (key : String) (keys : List String)
      → (let gen =
            generator "merge" elements selector git other (cons a (cons b more)) (key ∷ keys) in
          (length (params gen) ≡ length (params a))
          × ((i : ℕ) (ap : Params)
              → get_elem? (params a) i ≡ some ap
              → (p : Params) × ((get_elem? (params gen) i ≡ some p)
                  × ((k : String)
                      → lookup k p
                        ≡ or_else
                            (lookup k ap)
                            (partner (key ∷ keys) (params b) ap >>= λ bp. lookup k bp)))))
  unfolding expand_generator merge_params
  expand_generator-merge key keys = (
    length-map _ (params a),
    λ i ap.
        merge_params-at (key ∷ keys) (params a) (params b) i
          (expand_generator-AreMaps glob is_dir quote set ctx a maps_a fixtures),
  )
