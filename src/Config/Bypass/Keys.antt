-- ===== src/Config/Bypass/Keys.antt =====
-- The keys that `mergeBypass` gives.
use cross_validate.Base.{
  String, false, some, List, [], ◌∷◌, ◌++◌, if◌then◌else◌, ◌==◌, string_eq, ◌||◌, not, ◌≡◌, refl,
  arith, eq_iff, Bool-cases, inl, inr,
}
use mathlib.Core.List.{head?}
use cross_validate.Config.Names.{contains_string, add_name, add_names}
use cross_validate.Config.Names.Sets.{IsNameSet, add_names-IsNameSet, contains_string-add_names}
use cross_validate.Config.Bypass.{BypassKeyConfig, chosen_primary, merge_bypass}

abbrev first_keys : String → List String
first_keys primary = if not (primary == "") then primary ∷ [] else []

first_keys-IsNameSet : (p : String) → IsNameSet (first_keys p)
first_keys-IsNameSet p = elim (Bool-cases (p == "")) [
  | inl blank ↦ rw blank tt
  | inr named ↦ rw named (named, refl, tt)
]

contains_string-first_keys :
    (p t : String) → (t == "") ≡ false → contains_string (first_keys p) t ≡ (p == t)
contains_string-first_keys p t named = ground (arith, eq_iff p "", eq_iff p t, eq_iff t "")

module _ (builtin : String) (aliases : List String) (user : BypassKeyConfig) where
  -- The keys hold no "" and no repetition, and a text that is not "" is among them exactly when it is
  -- the primary key that was chosen, a built-in alias or an alias of the user.
  pub merge_bypass_keys :
      IsNameSet (merge_bypass builtin aliases user)
      × ((t : String)
          → (t == "") ≡ false
          → contains_string (merge_bypass builtin aliases user) t ≡ (
              chosen_primary builtin user == t
              || contains_string aliases t
              || contains_string user.aliases t))
  unfolding merge_bypass
  merge_bypass_keys =
      let primary = chosen_primary builtin user in
      (
        add_names-IsNameSet _ user.aliases
            (add_names-IsNameSet _ aliases (first_keys-IsNameSet primary)),
        λ t named. rw (
          contains_string-add_names (add_names (first_keys primary) aliases) user.aliases t named,
          contains_string-add_names (first_keys primary) aliases t named,
          contains_string-first_keys primary t named,
        ),
      )

add_name-head :
    (p : String) (out : List String) (s : String)
    → (rest : List String) × (add_name (p ∷ out) s ≡ p ∷ rest)
add_name-head p out s = elim (Bool-cases (s == "")) [
  | inl blank ↦ (out, rw blank)
  | inr named ↦ elim (Bool-cases (contains_string (p ∷ out) s)) [
    | inl old ↦ (out, rw (named, old))
    | inr new ↦ (out ++ s ∷ [], rw (named, new))
  ]
]

add_names-head :
    (p : String) (out ss : List String) → (rest : List String) × (add_names (p ∷ out) ss ≡ p ∷ rest)
unfolding add_names
add_names-head p out [] = (out, refl)
add_names-head p out (s ∷ ss) =
    let (more, e) = add_name-head p out s in
    let (rest, same) = add_names-head p more ss in (rest, rw e same)

-- The primary key that was chosen stands first, unless it is "".
pub merge_bypass-head :
    (builtin : String) (aliases : List String) (user : BypassKeyConfig)
    → (chosen_primary builtin user == "") ≡ false
    → head? (merge_bypass builtin aliases user) ≡ some (chosen_primary builtin user)
unfolding merge_bypass
merge_bypass-head builtin aliases user named =
    let primary = chosen_primary builtin user in
    let (more, e) = add_names-head primary [] aliases in
    let (rest, same) = add_names-head primary more user.aliases in rw (named, e, same)
