-- ===== src/Audit/Merkle.antt =====
-- What the root of `computeMerkleRoot` commits to.
use cross_validate.Base.{
  ℕ, zero, suc, ◌≤◌, String, some, List, [], ◌∷◌, ◌++◌, length, ◌≡◌, refl, sym, ap, ◌∙◌, arith,
}
use mathlib.Core.List.{append_assoc, append-nil}
use cross_validate.Base.Texts.{text}
use cross_validate.Audit.{hash_bytes, next_level, climb_levels, compute_merkle_root}

-- A tree over leaf digests. A `twin` stands for the odd last node of a level.
pub data Tree : Type 0 where
  leaf : String → Tree
  node : Tree → Tree → Tree
  twin : Tree → Tree

abbrev pub fringe : Tree → List String
fringe (leaf s) = s ∷ []
fringe (node t u) = fringe t ++ fringe u
fringe (twin t) = fringe t

abbrev fringes : List Tree → List String
fringes [] = []
fringes (t ∷ ts) = fringe t ++ fringes ts

abbrev pair_up : List Tree → List Tree
pair_up [] = []
pair_up (t ∷ []) = twin t ∷ []
pair_up (t ∷ u ∷ ts) = node t u ∷ pair_up ts

fringes-pair_up : (ts : List Tree) → fringes (pair_up ts) ≡ fringes ts
fringes-pair_up [] = refl
fringes-pair_up (t ∷ []) = refl
fringes-pair_up (t ∷ u ∷ ts) =
    append_assoc (fringe t) (fringe u) _
    ∙ ap (λ r. fringe t ++ (fringe u ++ r)) (fringes-pair_up ts)

abbrev leaves : List String → List Tree
leaves [] = []
leaves (s ∷ ss) = leaf s ∷ leaves ss

fringes-leaves : (ss : List String) → fringes (leaves ss) ≡ ss
fringes-leaves [] = refl
fringes-leaves (s ∷ ss) = ap (λ r. s ∷ r) (fringes-leaves ss)

length-leaves : (ss : List String) → length (leaves ss) ≡ length ss
length-leaves [] = omega arith
length-leaves (s ∷ ss) = omega (arith, length-leaves ss)

length-pair_up : (ts : List Tree) → length (pair_up ts) ≤ length ts
length-pair_up [] = omega arith
length-pair_up (t ∷ []) = omega arith
length-pair_up (t ∷ u ∷ ts) = let ih = length-pair_up ts in omega arith

module _ (sha256_hex : String → String) where
  -- The digest of a tree: an inner node hashes the texts of its children, a twin its child's twice.
  abbrev pub digest : Tree → String
  digest (leaf s) = s
  digest (node t u) = hash_bytes sha256_hex (text (digest t ∷ digest u ∷ []))
  digest (twin t) = hash_bytes sha256_hex (text (digest t ∷ digest t ∷ []))

  abbrev digests : List Tree → List String
  digests [] = []
  digests (t ∷ ts) = digest t ∷ digests ts

  digests-pair_up : (ts : List Tree) → digests (pair_up ts) ≡ next_level sha256_hex (digests ts)
  unfolding next_level
  digests-pair_up [] = refl
  digests-pair_up (t ∷ []) = refl
  digests-pair_up (t ∷ u ∷ ts) = ap (λ r. digest (node t u) ∷ r) (digests-pair_up ts)

  digests-leaves : (ss : List String) → digests (leaves ss) ≡ ss
  digests-leaves [] = refl
  digests-leaves (s ∷ ss) = ap (λ r. s ∷ r) (digests-leaves ss)

  climb_levels_tree :
      (fuel : ℕ) (t : Tree) (ts : List Tree)
      → length ts ≤ fuel
      → (root : Tree) × (climb_levels sha256_hex fuel (digests (t ∷ ts)) ≡ some (digest root))
        × (fringe root ≡ fringes (t ∷ ts))
  unfolding climb_levels
  climb_levels_tree zero t [] enough = (t, refl, sym (append-nil (fringe t)))
  climb_levels_tree (suc fuel) t [] enough = (t, refl, sym (append-nil (fringe t)))
  climb_levels_tree zero t (u ∷ ts) enough = absurd (omega arith)
  climb_levels_tree (suc fuel) t (u ∷ ts) enough =
      let shorter = length-pair_up ts in
      let (root, run, same) = climb_levels_tree fuel (node t u) (pair_up ts) (omega arith) in
      (
        root,
        ap (climb_levels sha256_hex fuel) (sym (digests-pair_up (t ∷ u ∷ ts))) ∙ run,
        same ∙ fringes-pair_up (t ∷ u ∷ ts),
      )

  -- On one leaf or more the loops end, and the root is the digest of a tree whose leaves are the
  -- given ones, in their order.
  pub compute_merkle_root_tree :
      (first : String) (rest : List String)
      → (root : Tree) × (compute_merkle_root sha256_hex (first ∷ rest) ≡ some (digest root))
        × (fringe root ≡ first ∷ rest)
  unfolding compute_merkle_root
  compute_merkle_root_tree first rest =
      let fuel = length (first ∷ rest) in
      let (root, run, same) =
        climb_levels_tree fuel (leaf first) (leaves rest) (omega (arith, length-leaves rest)) in
      (
        root,
        ap (climb_levels sha256_hex fuel) (sym (digests-leaves (first ∷ rest))) ∙ run,
        same ∙ fringes-leaves (first ∷ rest),
      )
