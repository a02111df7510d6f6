-- ===== src/Audit.antt =====
-- pkg/audit/proof.go: the audit log of a run, its Merkle tree and its verification.
-- SHA-256 with its hexadecimal text, and the JSON of the metadata, are parameters.
pub mod Merkle
pub mod Binding
pub mod Groups
pub mod Inclusion
pub mod Forgery
use cross_validate.Base.{
  ℕ, zero, suc, String, Bool, true, false, not, Option, none, some, List, [], ◌∷◌, ◌++◌, map,
  if◌then◌else◌, ◌==◌, string_eq, length, any, collect,
}
use cross_validate.Base.Maps.{lookup, insert}
use cross_validate.Base.Sorting.{sort_by}
use cross_validate.Base.Texts.{str_lt}
use cross_validate.Types.World.{SourceLocation, Severity, Diagnostic, ObligationRef, or_empty}
use cross_validate.Ir.Paths.{itoa}
use cross_validate.Base.Texts.{text}
use cross_validate.Config.Names.{contains_string}

pub record RunSummary : Type 0 where
  pub total_obligations : ℕ
  pub satisfied : ℕ
  pub violated : ℕ
  pub obligation_ids : List String

pub record ProofMetadata : Type 0 where
  pub ir_digest : String
  pub snapshot_digest : String
  pub kernel_version : String
  pub ruleset_version : String
  pub ruleset_digest : String
  pub timestamp : String

pub record Judgment : Type 0 where
  pub status : String
  pub rule_id : String
  pub resource : String
  pub message : String
  pub obligation_id : String
  pub category : String
  pub generator : String
  pub digest : String

-- `RuleSubtree` and `ResourceSubtree`; the key is the rule's ID or the resource's key.
pub record Subtree : Type 0 where
  pub key : String
  pub digest : String
  pub judgments : List Judgment

pub record Proof : Type 0 where
  pub version : ℕ
  pub root_digest : String
  pub metadata : ProofMetadata
  pub run : Option RunSummary
  pub rule_subtrees : List (String × Subtree)
  pub resource_subtrees : List (String × Subtree)
  pub tree : List String

-- `KnownRuleIDs`
abbrev pub known_rule_ids : List String
known_rule_ids =
    "XPC000" ∷ "XPC001" ∷ "XPC002" ∷ "XPC003" ∷ "XPC004" ∷ "XPC005" ∷ "XPC006" ∷ "XPC007" ∷ "XPC008"
    ∷ "XPC009" ∷ "XPC010" ∷ "XPC011" ∷ "XPC012" ∷ "XPC013" ∷ "XPC014" ∷ "XPC.A.resource-field-valid"
    ∷ "XPC.D.kind-whitelisted" ∷ "XPC.E.appset-finalizer-without-preserve"
    ∷ "XPC.E.late-init-needs-ignore-diff" ∷ "XPC.E.prod-appset-autosync"
    ∷ "XPC.E.selector-needs-ignore-diff" ∷ "XPC.E.ssa-managementpolicies-nondefault"
    ∷ "XPC.E.ssa-managementpolicies-observe" ∷ "XPC.E.ssa-managementpolicies-partial"
    ∷ "XPC.H.appset-unsupported-generator" ∷ "XPC.H.composition-renders" ∷ "XPC.H.helm-renders"
    ∷ "XPC.H.kustomize-renders" ∷ "XPC.H.render-deterministic" ∷ "XPC.H.values-ref-remote"
    ∷ "XPC.H.values-ref-unknown" ∷ "XPC.H.values-well-typed" ∷ "XPC.P.cascade-risk"
    ∷ "XPC.P.destructive-delete" ∷ "XPC.P.immutable-change" ∷ "XPC.S.crossplane-state-needs-orphan"
    ∷ []

abbrev ended_by : String → List String → List String
ended_by sep [] = []
ended_by sep (s ∷ ss) = s ∷ sep ∷ ended_by sep ss

-- `ruleGroups[j.RuleID] = append(ruleGroups[j.RuleID], j)`, and the same for resources.
pub group :
    (Judgment → String)
    → List (String × List Judgment)
    → List Judgment
    → List (String × List Judgment)
unfolding lookup insert
group of groups [] = groups
group of groups (j ∷ js) =
    group of (insert (of j) (or_empty (lookup (of j) groups) ++ j ∷ []) groups) js

abbrev pub keys_of {ℓ} : {A : Type ℓ} → List (String × A) → List String
keys_of [] = []
keys_of ((k, _) ∷ m) = k ∷ keys_of m

-- The rule IDs that are observed but not known are added.
pub add_observed : List String → List String → List String
add_observed ids [] = ids
add_observed ids (id ∷ observed) =
    add_observed (if not (contains_string ids id) then ids ++ id ∷ [] else ids) observed

-- `range` over the keys of a map, sorted, with the subtree of each
pub sorted_digests : List (String × Subtree) → List String
unfolding sort_by str_lt lookup
sorted_digests m = map (λ st. st.digest) (collect (λ id. lookup id m) (sort_by str_lt (keys_of m)))

abbrev pub location : Diagnostic → String
location d = text (d.source.file ∷ ":" ∷ itoa d.source.line ∷ [])

abbrev status_of : Severity → String
status_of Severity.error = "error"
status_of Severity.warning = "warning"
status_of _ = "ok"

abbrev obligation_text : (ObligationRef → String) → Option ObligationRef → String
obligation_text of none = ""
obligation_text of (some o) = of o

abbrev pub root_or_blank : Option String → String
root_or_blank none = ""
root_or_blank (some root) = root

module _ (sha256_hex : String → String) where
  -- `hashBytes`
  abbrev pub hash_bytes : String → String
  hash_bytes bytes = text ("sha256:" ∷ sha256_hex bytes ∷ [])

  -- The rounds of the inner loop of `computeMerkleRoot`; an odd last node is hashed with itself.
  pub next_level : List String → List String
  next_level [] = []
  next_level (a ∷ []) = hash_bytes (text (a ∷ a ∷ [])) ∷ []
  next_level (a ∷ b ∷ rest) = hash_bytes (text (a ∷ b ∷ [])) ∷ next_level rest

  -- The outer loop; `none` out of fuel.
  pub climb_levels : ℕ → List String → Option String
  unfolding next_level
  climb_levels fuel [] = some (hash_bytes "empty")
  climb_levels fuel (root ∷ []) = some root
  climb_levels zero (a ∷ b ∷ rest) = none
  climb_levels (suc fuel) (a ∷ b ∷ rest) = climb_levels fuel (next_level (a ∷ b ∷ rest))

  -- `computeMerkleRoot`; each level is shorter than the one below.
  unfoldable pub compute_merkle_root : List String → Option String
  unfolding climb_levels
  compute_merkle_root leaves = climb_levels (length leaves) leaves

  -- `hashJudgment`
  pub hash_judgment : Judgment → String
  hash_judgment j = hash_bytes (
      text (
        j.status ∷ "|" ∷ j.rule_id ∷ "|" ∷ j.resource ∷ "|" ∷ j.message ∷ "|" ∷ j.obligation_id
        ∷ "|" ∷ j.category ∷ "|" ∷ j.generator ∷ []))

  -- `hashRunSummary`
  pub hash_run_summary : RunSummary → String
  unfolding itoa sort_by str_lt
  hash_run_summary s = hash_bytes (
      text (
        itoa s.total_obligations
        ∷ "|"
        ∷ itoa s.satisfied
        ∷ "|"
        ∷ itoa s.violated
        ∷ "|"
        ∷ ended_by "|" (sort_by str_lt s.obligation_ids)))

  -- `hashRuleSubtree` and `hashResourceSubtree`
  pub hash_subtree : String → List Judgment → String
  hash_subtree key js = hash_bytes (text (key ∷ map (λ j. j.digest) js))

  abbrev pub run_leaf : Option RunSummary → List String
  run_leaf none = []
  run_leaf (some s) = hash_run_summary s ∷ []

  -- One round of the loop over the diagnostics.
  pub judgment_of : Diagnostic → Judgment
  unfolding itoa hash_judgment
  judgment_of d =
      let j : Judgment = record {
        status = status_of d.severity;
        rule_id = d.code;
        resource = location d;
        message = d.message;
        obligation_id = obligation_text (λ o. o.id) d.obligation;
        category = obligation_text (λ o. o.category) d.obligation;
        generator = obligation_text (λ o. o.generator) d.obligation;
        digest = "";
      } in
      record j { digest = hash_judgment j }

  pub subtree_of : List (String × List Judgment) → String → Subtree
  unfolding lookup hash_subtree
  subtree_of groups key =
      let js = or_empty (lookup key groups) in
      record { key = key; digest = hash_subtree key js; judgments = js }

  -- The loops that fill a map of subtrees.
  pub fill :
      List (String × List Judgment)
      → List (String × Subtree)
      → List String
      → List (String × Subtree)
  unfolding insert subtree_of
  fill groups out [] = out
  fill groups out (key ∷ keys) = fill groups (insert key (subtree_of groups key) out) keys

module _ (sha256_hex : String → String) (marshal : ProofMetadata → String) where
  -- `merkleTree`: the leaves and the root
  unfoldable pub merkle_tree : Proof → List String × Option String
  unfolding sorted_digests compute_merkle_root hash_run_summary
  merkle_tree p =
      let leaves =
        hash_bytes sha256_hex (marshal p.metadata) ∷ run_leaf sha256_hex p.run
        ++ sorted_digests p.rule_subtrees
        ++ sorted_digests p.resource_subtrees in
      (leaves, compute_merkle_root sha256_hex leaves)

  -- `GenerateWithRulesetDigest`, at the time `now`
  pub generate :
      List Diagnostic
      → Option RunSummary
      → (ir_digest snapshot_digest ruleset_digest now : String) → Proof
  unfolding judgment_of group add_observed fill merkle_tree sort_by str_lt
  generate diags summary ir_digest snapshot_digest ruleset_digest now =
      let judgments = map (judgment_of sha256_hex) diags in
      let rule_groups = group (λ j. j.rule_id) [] judgments in
      let rule_ids = sort_by str_lt (add_observed known_rule_ids (keys_of rule_groups)) in
      let resource_groups = group (λ j. j.resource) [] judgments in
      let p : Proof = record {
        version = 4;
        root_digest = "";
        metadata = record {
          ir_digest = ir_digest;
          snapshot_digest = snapshot_digest;
          kernel_version = "0.1.0";
          ruleset_version = "2026.04";
          ruleset_digest = ruleset_digest;
          timestamp = now;
        };
        run = summary;
        rule_subtrees = fill sha256_hex rule_groups [] rule_ids;
        resource_subtrees = fill sha256_hex resource_groups [] (keys_of resource_groups);
        tree = [];
      } in
      record p { tree = (merkle_tree p).0; root_digest = root_or_blank ((merkle_tree p).1) }

  -- `Verify`
  unfoldable pub verify : Proof → Bool
  unfolding merkle_tree
  verify p = root_or_blank ((merkle_tree p).1) == p.root_digest

abbrev pub includes : String → Option Subtree → Bool
includes resource none = false
includes resource (some st) = any (λ j. j.resource == resource) st.judgments

-- `VerifyInclusion`
pub verify_inclusion : Proof → String → String → Bool
unfolding lookup
verify_inclusion p rule_id resource = includes resource (lookup rule_id p.rule_subtrees)
