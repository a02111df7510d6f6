-- ===== src/Config/Immutable/Overlay.antt =====
-- Which fields the overlay leaves in the registry.
use cross_validate.Base.{
  String, Bool, true, false, some, List, [], ◌∷◌, if◌then◌else◌, ◌==◌, string_eq, ◌||◌, ◌&&◌, not,
  any, ◌≡◌, refl, sym, ◌∙◌, arith, Bool-cases, inl, inr, eq_iff,
}
use cross_validate.Types.World.{ImmutableField}
use cross_validate.Config.Immutable.{
  ImmutableFieldEntry, same_field, remove_immutable, upsert_immutable, field_of, suppress_paths,
  suppressions, append_paths, additions, resolve_immutable_fields,
}

-- The registry has the field `k`: its group, kind and path.
abbrev pub has_field : List ImmutableField → ImmutableField → Bool
has_field fields k = any (λ f. same_field f k) fields

-- The entry names the field `k`, by a path that is not "" (`named`) or by any path.
abbrev pub covers : ImmutableFieldEntry → ImmutableField → Bool
covers e k = any (λ path. same_field (field_of e path) k) e.paths

same_field_sym : (f g : ImmutableField) → same_field f g ≡ same_field g f
same_field_sym f g = ground (
  arith,
  eq_iff f.group g.group,
  eq_iff g.group f.group,
  eq_iff f.kind g.kind,
  eq_iff g.kind f.kind,
  eq_iff f.field_path g.field_path,
  eq_iff g.field_path f.field_path,
)

-- Fields that are the same are the same as all others.
same_field_cong : (f g k : ImmutableField) → same_field f g ≡ true → same_field f k ≡ same_field g k
same_field_cong f g k h = rw (group, kind, path)
  where
    group : f.group ≡ g.group
    group = ground (arith, eq_iff f.group g.group)

    kind : f.kind ≡ g.kind
    kind = ground (arith, eq_iff f.kind g.kind)

    path : f.field_path ≡ g.field_path
    path = ground (arith, eq_iff f.field_path g.field_path)

same_field_trans_false :
    (f e k : ImmutableField)
    → same_field f e ≡ false
    → same_field e k ≡ true
    → same_field f k ≡ false
same_field_trans_false f e k other same =
    same_field_sym f k ∙ sym (same_field_cong e k f same) ∙ same_field_sym e f ∙ other

or_or_self : (a b : Bool) → (a || b) ≡ (a || b || a)
or_or_self a b = ground arith

and_not_or : (a b : Bool) → (b && not a) ≡ ((a || b) && not a)
and_not_or a b = ground arith

has_field-remove :
    (fields : List ImmutableField) (e k : ImmutableField)
    → has_field (remove_immutable fields e) k ≡ (has_field fields k && not (same_field e k))
has_field-remove [] e k = refl
has_field-remove (f ∷ fs) e k = elim (Bool-cases (same_field f e)) [
  | inl gone ↦
      rw (gone, has_field-remove fs e k, same_field_cong f e k gone)
        (and_not_or (same_field e k) (has_field fs k))
  | inr kept ↦ elim (Bool-cases (same_field e k)) [
    | inl same ↦ rw (kept, has_field-remove fs e k, same_field_trans_false f e k kept same)
    | inr other ↦ rw (kept, has_field-remove fs e k, other) (ground arith)
  ]
]

has_field-upsert :
    (fields : List ImmutableField) (e k : ImmutableField)
    → has_field (upsert_immutable fields e) k ≡ (has_field fields k || same_field e k)
unfolding upsert_immutable
has_field-upsert [] e k = ground arith
has_field-upsert (f ∷ fs) e k = elim (Bool-cases (same_field f e)) [
  | inl old ↦ elim (Bool-cases (e.reason == "")) [
    | inl blank ↦
        rw (old, blank, same_field_cong f e k old) (or_or_self (same_field e k) (has_field fs k))
    | inr given ↦
        rw (old, given, same_field_cong f e k old) (or_or_self (same_field e k) (has_field fs k))
  ]
  | inr new ↦ rw (new, has_field-upsert fs e k) (ground arith)
]

has_field-suppress_paths :
    (out : List ImmutableField) (e : ImmutableFieldEntry) (paths : List String) (k : ImmutableField)
    → has_field (suppress_paths out e paths) k
      ≡ (has_field out k && not (any (λ path. same_field (field_of e path) k) paths))
unfolding suppress_paths
has_field-suppress_paths out e [] k = ground arith
has_field-suppress_paths out e (path ∷ paths) k =
    rw
      (
        has_field-suppress_paths (remove_immutable out (field_of e path)) e paths k,
        has_field-remove out (field_of e path) k,
      )
      (and_not_not (has_field out k) (same_field (field_of e path) k) _)
  where
    and_not_not : (a b c : Bool) → (a && not b && not c) ≡ (a && not (b || c))
    and_not_not a b c = ground arith

has_field-suppressions :
    (out : List ImmutableField) (es : List ImmutableFieldEntry) (k : ImmutableField)
    → has_field (suppressions out es) k
      ≡ (has_field out k && not (any (λ e. e.suppress && covers e k) es))
unfolding suppressions
has_field-suppressions out [] k = ground arith
has_field-suppressions out (e ∷ es) k =
    rw
      (
        has_field-suppressions (if e.suppress then suppress_paths out e e.paths else out) es k,
        when e.suppress,
      )
      (ground arith)
  where
    when :
        (b : Bool)
        → has_field (if b then suppress_paths out e e.paths else out) k
          ≡ (has_field out k && not (b && covers e k))
    when true = has_field-suppress_paths out e e.paths k
    when false = ground arith

has_field-append_paths :
    (out : List ImmutableField) (e : ImmutableFieldEntry) (paths : List String) (k : ImmutableField)
    → (k.field_path == "") ≡ false
    → has_field (append_paths out e paths) k
      ≡ (has_field out k || any (λ path. same_field (field_of e path) k) paths)
unfolding append_paths
has_field-append_paths out e [] k named = ground arith
has_field-append_paths out e (path ∷ paths) k named = elim (Bool-cases (path == "")) [
  | inl blank ↦ rw (blank, has_field-append_paths out e paths k named, blank_field blank) refl
  | inr full ↦
      rw
        (
          full,
          has_field-append_paths (upsert_immutable out (field_of e path)) e paths k named,
          has_field-upsert out (field_of e path) k,
        )
        (ground arith)
]
  where
    blank_field : (path == "") ≡ true → same_field (field_of e path) k ≡ false
    blank_field h =
        let same : path ≡ "" = (eq_iff path "").0 h in
        ground (arith, eq_iff path k.field_path, eq_iff k.field_path "")

has_field-additions :
    (out : List ImmutableField) (es : List ImmutableFieldEntry) (k : ImmutableField)
    → (k.field_path == "") ≡ false
    → has_field (additions out es) k
      ≡ (has_field out k || any (λ e. not e.suppress && covers e k) es)
unfolding additions
has_field-additions out [] k named = ground arith
has_field-additions out (e ∷ es) k named =
    rw
      (
        has_field-additions (if e.suppress then out else append_paths out e e.paths) es k named,
        unless e.suppress,
      )
      (ground arith)
  where
    unless :
        (b : Bool)
        → has_field (if b then out else append_paths out e e.paths) k
          ≡ (has_field out k || not b && covers e k)
    unless true = ground arith
    unless false = has_field-append_paths out e e.paths k named

-- A field with a path that is not "" is in the resolved registry exactly when an entry without
-- `suppress` names it, or it is a built-in that no entry with `suppress` names.
pub has_field-resolve_immutable_fields :
    (entries : List ImmutableFieldEntry) (builtins : List ImmutableField) (k : ImmutableField)
    → (k.field_path == "") ≡ false
    → has_field (resolve_immutable_fields (some entries) builtins) k ≡ (
        any (λ e. not e.suppress && covers e k) entries
        || has_field builtins k && not (any (λ e. e.suppress && covers e k) entries))
unfolding resolve_immutable_fields
has_field-resolve_immutable_fields entries builtins k named =
    rw
      (
        has_field-additions (suppressions builtins entries) entries k named,
        has_field-suppressions builtins entries k,
      )
      (ground arith)
