-- ===== src/Config/StateBearing/Overlay.antt =====
-- Which kinds the overlay leaves in the allowlist.
use cross_validate.Base.{
  some, List, [], ◌∷◌, ◌++◌, if◌then◌else◌, ◌||◌, ◌&&◌, not, ◌≡◌, refl, arith, Bool-cases, inl, inr,
}
use cross_validate.Types.World.{GroupKind, group_kind_eq, group_kind_eq_iff, group_kind_instance}
use cross_validate.Config.StateBearing.{
  StateBearingKindsConfig, contains_state_bearing, remove_state_bearing, suppress_kinds,
  append_kinds, resolve_state_bearing_kinds,
}

contains-remove :
    (kinds : List GroupKind) (e k : GroupKind)
    → contains_state_bearing (remove_state_bearing kinds e) k
      ≡ (contains_state_bearing kinds k && not (group_kind_eq e k))
contains-remove [] e k = refl
contains-remove (x ∷ xs) e k = ground (
  arith,
  contains-remove xs e k,
  group_kind_eq_iff x e,
  group_kind_eq_iff x k,
  group_kind_eq_iff e k,
)

contains-append :
    (xs ys : List GroupKind) (k : GroupKind)
    → contains_state_bearing (xs ++ ys) k
      ≡ (contains_state_bearing xs k || contains_state_bearing ys k)
contains-append [] ys k = refl
contains-append (x ∷ xs) ys k = ground (arith, contains-append xs ys k)

contains-suppress_kinds :
    (out es : List GroupKind) (k : GroupKind)
    → contains_state_bearing (suppress_kinds out es) k
      ≡ (contains_state_bearing out k && not (contains_state_bearing es k))
unfolding suppress_kinds
contains-suppress_kinds out [] k = ground arith
contains-suppress_kinds out (e ∷ es) k =
    rw (contains-suppress_kinds (remove_state_bearing out e) es k, contains-remove out e k)
      (ground arith)

contains-append_one :
    (out : List GroupKind) (e k : GroupKind)
    → contains_state_bearing (if contains_state_bearing out e then out else out ++ e ∷ []) k
      ≡ (contains_state_bearing out k || group_kind_eq e k)
contains-append_one out e k = elim (Bool-cases (contains_state_bearing out e)) [
  | inl old ↦ rw old (elim (Bool-cases (group_kind_eq e k)) [
    | inl same ↦ let one : e ≡ k = (group_kind_eq_iff e k).0 same in rw (same, ← one, old)
    | inr other ↦ rw other (ground arith)
  ])
  | inr new ↦ rw new (rw (contains-append out (e ∷ []) k) (ground arith))
]

contains-append_kinds :
    (out es : List GroupKind) (k : GroupKind)
    → contains_state_bearing (append_kinds out es) k
      ≡ (contains_state_bearing out k || contains_state_bearing es k)
unfolding append_kinds
contains-append_kinds out [] k = ground arith
contains-append_kinds out (e ∷ es) k =
    rw
      (
        contains-append_kinds (if contains_state_bearing out e then out else out ++ e ∷ []) es k,
        contains-append_one out e k,
      )
      (ground arith)

-- A kind is in the resolved allowlist exactly when the overlay appends it, or it is a default that
-- the overlay does not suppress. So a kind that is both appended and suppressed is in.
pub contains-resolve_state_bearing_kinds :
    (cfg : StateBearingKindsConfig) (defaults : List GroupKind) (k : GroupKind)
    → contains_state_bearing (resolve_state_bearing_kinds (some cfg) defaults) k ≡ (
        contains_state_bearing cfg.append k
        || contains_state_bearing defaults k && not (contains_state_bearing cfg.suppress k))
unfolding resolve_state_bearing_kinds
contains-resolve_state_bearing_kinds cfg defaults k =
    rw
      (
        contains-append_kinds (suppress_kinds defaults cfg.suppress) cfg.append k,
        contains-suppress_kinds defaults cfg.suppress k,
      )
      (ground arith)
