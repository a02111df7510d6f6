-- ===== src/Lib.antt =====
-- Verification of xpc, a checker of Crossplane and Argo CD manifests.
--
-- The program loads manifests into a World (pkg/types), checks it with a kernel of rules, compares two
-- worlds (pkg/plan), lets a register of accepted risks suppress findings (pkg/waiver), writes an audit
-- log of a run (pkg/audit), simulates the sync waves of an Application (pkg/trajectory) and finds the
-- commit at which a rule starts to fire (pkg/bisect). Loading expands ApplicationSets into Applications,
-- derives facts about the resources and validates manifests against the schemas of their kinds (pkg/ir,
-- pkg/schemas); the judgments of the
-- kernel become the result of a run (pkg/checker). The overlays of xpc.yaml (pkg/config) give the rules
-- their registries and annotation keys.
--
-- Parts and their files:
--   Types, Types/Values, Types/World, Types/Argo, Types/Facts: pkg/types/types.go and the decoded YAML values with
--     reflect.DeepEqual. Records have the fields that the modelled passes read.
--   Ir/Paths: WalkPath, parsePath, walkSegments and ReadPath of pkg/ir/path_walk.go.
--   Ir/Groups: groupFromAPIVersion and ParseSyncWave.
--   Ir/Enrich: EnrichTrajectoryData, ReEnrich, ensureKnobDefaults and extractSSAMPConflicts of
--     pkg/ir/trajectory_extract.go, on a World with its knobs and facts (Ir/Enrich/State, Types/Facts).
--   Ir/Extract, Ir/Indices, Ir/Pods, Ir/Leaves: the other extractors of that file. Ir/Extract has the
--     selector, late-init and canonical-form usages, Ir/Extract/Adoption the deletion policies and the
--     adoption by external name, Ir/Indices specializeIndices, Ir/Pods the mounts, service accounts and
--     RBAC, and Ir/Leaves the fixed points.
--   Ir/Owners: findRepoRoot, sourcePathCwd, pathUnder, resolveOwner, buildOwnerPrefixes and
--     enrichOwningApp of pkg/ir/builder.go, and pkg/ir/values_ref.go.
--   Config/Names, Config/Bypass, Config/StateBearing, Config/Immutable: the resolvers of
--     pkg/config/resolve.go with the registry of pkg/ir/state_bearing_registry.go.
--   Config/Validate: validate and looksLikeVersion of pkg/config/load.go.
--   AppSet/Template: substituteTemplate of pkg/ir/appset_template.go.
--   AppSet/Generators, AppSet/Instantiate: expandGenerator, instantiateTemplate and ExpandAppSet of
--     pkg/ir/appset_expand.go, with the functions they call.
--   Plan/Diff: Diff, indexAll, argoAppVirtualRaw and sortChanges of pkg/plan/diff.go. `removed_round`,
--     `modified_round` and `added_round` are the rounds of its two loops.
--   Plan/Manifest, Plan/Destructive, Plan/ImmutableChange: R26 and R27 of pkg/plan/r26.go and r27.go,
--     with the texts of their diagnostics. Plan/Destructive/Agreed sets R26 beside the facts of pkg/ir.
--   Plan/Comment: ParseCommentSpec and inferAutoTarget of pkg/plan/comment.go; the environment is an
--     argument, and an error is its sentinel without the text.
--   Waiver: Set.Apply, Set.Validate, Waiver.matches and Waiver.expired of pkg/waiver/waiver.go; its
--     children have the dates, the file paths and the proofs.
--   Bisect: ValidateRuleCode and Run of pkg/bisect/bisect.go.
--   Audit: GenerateWithRulesetDigest, merkleTree, computeMerkleRoot, Verify and VerifyInclusion of
--     pkg/audit/proof.go.
--   Trajectory: Simulate, simulateApp and scopeToApp of pkg/trajectory/simulate.go, on the sync waves
--     of an Application.
--   Schemas: ValidateManifest and walkField of pkg/schemas/validate_manifest.go; Schemas/Scalars and
--     Schemas/Facts have the functions they call, Schemas/Conforms the description they are compared with.
--   Schemas/Index: BuildSchemaIndex of pkg/schemas/index.go and EnrichFieldValidation of
--     pkg/ir/field_validation.go.
--   Checker: buildRunResult and obligationRefForCode of pkg/checker/bridge.go.
--   Tests: the theorems at concrete inputs, and runs of the functions.
--   Base: numbers, lists, maps, sorting and texts that the parts share.
--
-- Conventions. A Go map is an association list in the order of insertion, so a result that depends on
-- the order of a range depends on that order here too. A nil map or slice is `none` where the code
-- tells it from an empty one. A Go int is a natural number or a ℤ; strconv.Atoi keeps its 64-bit
-- range. sort.Slice is a stable insertion sort. A float64 is its 64 bits. A run-time panic is `none`.
-- A decoded YAML value is null, a boolean, an integer of 64 bits with a sign, a float, a text, a list or
-- a map whose keys are texts. Timestamps, integers past int64 and maps with other keys are left out, so
-- the unsigned and the "unknown" case of jsonType do not arise.
--
-- Bounds and fuel. `Bisect.search` runs on fuel for the number of commits, which its loop cannot
-- exceed since each round makes the range smaller; `Audit.climb_levels` on fuel for the number of
-- leaves, since each level is shorter than the one below; `AppSet.Template.render` on fuel for the length
-- of the template, since a round passes two pairs of braces; `Schemas.walk_field` on fuel for the size of
-- the schema, since it goes on with a schema inside it; `Ir.Owners.root_from` on fuel for the length of the
-- directory, since filepath.Dir makes a path shorter until it is "." or "/".
--
-- Parameters: git and the check of a worktree (Bisect.Repository), SHA-256 and the JSON of the
-- metadata (Audit), the registry of immutable fields and the verb %v (Plan/ImmutableChange),
-- filepath.Glob, os.Stat and the verb %q (AppSet/Generators), the verbs %q and %v and the conversion of a
-- float past int64 (Schemas). The tables of the registries in pkg/ir are an argument (Ir/Enrich), and so
-- are os.Stat and filepath.Abs (Ir.Owners.FileSystem).
--
-- Not modelled: the Shen kernel (kernel, internal/shenfull), cmd/xpc, and the I/O of loaders,
-- renderers, snapshots and reports; of pkg/ir the rest of the builder, the contents
-- of the registries and the checks of Compositions; of pkg/checker the S-expressions that the
-- bridge writes for the kernel and reads from it; of pkg/plan the runner, the output and the posting
-- of comments; of pkg/schemas the fetcher; of pkg/config the decoding of YAML.
pub mod Base
pub mod Types
pub mod Ir
pub mod Config
pub mod AppSet
pub mod Plan
pub mod Waiver
pub mod Bisect
pub mod Audit
pub mod Schemas
pub mod Checker
pub mod Trajectory
pub mod Tests
