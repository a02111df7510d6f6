-- ===== src/Tests/Audit.antt =====
-- pkg/audit with a function in place of SHA-256 that keeps its input.
use cross_validate.Base.{String, true, none, some, [], ◌∷◌, ◌≡◌, refl}
use cross_validate.Types.World.{Diagnostic, error}
use cross_validate.Ir.Paths.{itoa}
use cross_validate.Audit.{
  ProofMetadata, Proof, compute_merkle_root, generate, verify, verify_inclusion,
}
use cross_validate.Audit.Merkle.{Tree, fringe, digest, compute_merkle_root_tree}
use cross_validate.Audit.Inclusion.{verify_inclusion-generate}
use cross_validate.Audit.Forgery.{forge, verify-forge}

abbrev plain : String → String
plain s = s

abbrev no_json : ProofMetadata → String
no_json m = m.ir_digest

abbrev violation : Diagnostic
violation = record {
  code = "XPC004";
  severity = error;
  message = "no policy";
  source = record { file = "a.yaml"; line = 7; column = 1 };
  detail = "";
  fix = "";
  obligation = none;
}

abbrev log : Proof
log = generate plain no_json (violation ∷ []) none "ir" "snapshot" "rules" "2026-05-01T00:00:00Z"

-- Three leaves and the same with the last one twice have one root.
odd_and_doubled :
    compute_merkle_root plain ("a" ∷ "b" ∷ "c" ∷ [])
    ≡ compute_merkle_root plain ("a" ∷ "b" ∷ "c" ∷ "c" ∷ [])
unfolding compute_merkle_root
odd_and_doubled = refl

compute_merkle_root_tree_example :
    (root : Tree) × (compute_merkle_root plain ("a" ∷ "b" ∷ "c" ∷ []) ≡ some (digest plain root))
    × (fringe root ≡ "a" ∷ "b" ∷ "c" ∷ [])
compute_merkle_root_tree_example = compute_merkle_root_tree plain "a" ("b" ∷ "c" ∷ [])

verify_inclusion-generate_example : verify_inclusion log "XPC004" "a.yaml:7" ≡ true
unfolding itoa
verify_inclusion-generate_example =
    verify_inclusion-generate plain no_json (violation ∷ []) none "ir" "snapshot" "rules"
      "2026-05-01T00:00:00Z" "XPC004" "a.yaml:7"

verify-forge_example : verify plain no_json (forge (λ st. []) log) ≡ verify plain no_json log
verify-forge_example = verify-forge plain no_json (λ st. []) log

-- A hash that is the same for all texts, and a log with the metadata of `log` and no subtrees.
abbrev flat : String → String
flat s = "0000000000000000000000000000000000000000000000000000000000000000"

abbrev bare : Proof
bare = record {
  version = 4;
  root_digest = "sha256:0000000000000000000000000000000000000000000000000000000000000000";
  metadata = log.metadata;
  run = none;
  rule_subtrees = [];
  resource_subtrees = [];
  tree = [];
}
