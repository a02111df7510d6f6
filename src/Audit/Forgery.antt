-- ===== src/Audit/Forgery.antt =====
-- What `Verify` checks of a proof, and what it does not.
use cross_validate.Base.{
  String, Option, none, some, List, [], ◌∷◌, map, ◌==◌, string_eq, collect, ◌≡◌, refl, ap, ◌∙◌,
  arith, ◌++◌, Option-cases, inl, inr,
}
use cross_validate.Base.Maps.{lookup}
use cross_validate.Base.Sorting.{sort_by}
use cross_validate.Base.Texts.{str_lt}
use cross_validate.Audit.{
  ProofMetadata, Judgment, Subtree, Proof, keys_of, sorted_digests, hash_bytes, run_leaf,
  compute_merkle_root, root_or_blank, merkle_tree, verify,
}

-- Other judgments in a subtree, under the digest of the old ones.
abbrev replace_judgments : (Subtree → List Judgment) → Subtree → Subtree
replace_judgments f st = record st { judgments = f st }

abbrev replace_all : (Subtree → List Judgment) → List (String × Subtree) → List (String × Subtree)
replace_all f [] = []
replace_all f ((k, st) ∷ m) = (k, replace_judgments f st) ∷ replace_all f m

-- A proof with other judgments in all its subtrees and nothing else changed.
abbrev pub forge : (Subtree → List Judgment) → Proof → Proof
forge f p = record p {
  rule_subtrees = replace_all f p.rule_subtrees;
  resource_subtrees = replace_all f p.resource_subtrees;
}

module _ (f : Subtree → List Judgment) where
  keys_of-replace_all : (m : List (String × Subtree)) → keys_of (replace_all f m) ≡ keys_of m
  keys_of-replace_all [] = refl
  keys_of-replace_all ((k, st) ∷ m) = ap (λ ks. k ∷ ks) (keys_of-replace_all m)

  abbrev map_subtree : Option Subtree → Option Subtree
  map_subtree none = none
  map_subtree (some st) = some (replace_judgments f st)

  lookup-replace_all :
      (id : String) (m : List (String × Subtree))
      → lookup id (replace_all f m) ≡ map_subtree (lookup id m)
  unfolding lookup
  lookup-replace_all id [] = refl
  lookup-replace_all id ((k, st) ∷ m) = ground (arith, lookup-replace_all id m)

  digests-collect :
      (m : List (String × Subtree)) (ids : List String)
      → map (λ st. st.digest) (collect (λ id. lookup id (replace_all f m)) ids)
        ≡ map (λ st. st.digest) (collect (λ id. lookup id m) ids)
  digests-collect m [] = refl
  digests-collect m (id ∷ ids) = elim (Option-cases (lookup id m)) [
    | inl missing ↦ rw (lookup-replace_all id m, missing) (digests-collect m ids)
    | inr (st, found) ↦
        rw (lookup-replace_all id m, found) (ap (λ ds. st.digest ∷ ds) (digests-collect m ids))
  ]

  sorted_digests-replace_all :
      (m : List (String × Subtree)) → sorted_digests (replace_all f m) ≡ sorted_digests m
  unfolding sorted_digests
  sorted_digests-replace_all m =
      rw (keys_of-replace_all m) (digests-collect m (sort_by str_lt (keys_of m)))

module _ (sha256_hex : String → String) (marshal : ProofMetadata → String) where
  merkle_tree-forge :
      (f : Subtree → List Judgment) (p : Proof)
      → merkle_tree sha256_hex marshal (forge f p) ≡ merkle_tree sha256_hex marshal p
  unfolding merkle_tree
  merkle_tree-forge f p =
      ap (λ ds. with_digests p ds (sorted_digests (forge f p).resource_subtrees))
        (sorted_digests-replace_all f p.rule_subtrees)
      ∙ ap (λ ds. with_digests p (sorted_digests p.rule_subtrees) ds)
          (sorted_digests-replace_all f p.resource_subtrees)
    where
      with_digests : Proof → List String → List String → List String × Option String
      with_digests q rules resources =
          let leaves =
            hash_bytes sha256_hex (marshal q.metadata) ∷ run_leaf sha256_hex q.run
            ++ rules
            ++ resources in
          (leaves, compute_merkle_root sha256_hex leaves)

  -- `Verify` gives the same answer whatever judgments stand in the subtrees of a proof, if their
  -- digests are left.
  pub verify-forge :
      (f : Subtree → List Judgment) (p : Proof)
      → verify sha256_hex marshal (forge f p) ≡ verify sha256_hex marshal p
  unfolding verify
  verify-forge f p = ap (λ t. root_or_blank (t.1) == p.root_digest) (merkle_tree-forge f p)
