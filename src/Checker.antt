-- ===== src/Checker.antt =====
-- pkg/checker/bridge.go and result.go: the result of a run from the decoded judgments of the kernel.
pub mod Tally
pub mod Obligations
use cross_validate.Base.{
  ℕ, zero, suc, String, Bool, true, false, not, Option, none, some, List, [], ◌∷◌, ◌++◌, length,
  if◌then◌else◌, ◌==◌, string_eq,
}
use cross_validate.Base.Texts.{text, str_lt}
use cross_validate.Base.Sorting.{sort_by}
use cross_validate.Base.Maps.{lookup, insert}
use cross_validate.Types.World.{
  Diagnostic, ObligationRef, Severity, error, warning, info, satisfied,
}

-- The table of `obligationRefForCode`: a category and a generator for each code.
abbrev pub obligation_table : List (String × (String × String))
obligation_table =
    ("XPC001", ("C", "version-coherence"))
    ∷ ("XPC002", ("J", "conversion-cost-opt-in"))
    ∷ ("XPC003", ("B", "comp-xrd-ref"))
    ∷ ("XPC004", ("B", "pipeline-fn-ref"))
    ∷ ("XPC005", ("B", "patch-compat"))
    ∷ ("XPC006", ("F", "trajectory-wave-order"))
    ∷ ("XPC007", ("G", "cross-app-label-tracking"))
    ∷ ("XPC008", ("C", "crossplane-machinery-placement"))
    ∷ ("XPC009", ("F", "trajectory-bootstrap"))
    ∷ ("XPC010", ("K", "secret-source-sink"))
    ∷ ("XPC011", ("L", "api-deprecation-calendar"))
    ∷ ("XPC012", ("F", "no-dangling-mount"))
    ∷ ("XPC014", ("F", "no-rbac-regression"))
    ∷ []

-- `obligationRefForCode`
unfoldable pub obligation_ref_for_code : String → Option ObligationRef
unfolding lookup
obligation_ref_for_code code = elim (lookup code obligation_table) [
  | none ↦ none
  | some (category, generator) ↦ some record {
    id = text ("XPC." ∷ category ∷ "." ∷ generator ∷ []);
    category = category;
    generator = generator;
  }
]

-- `RunResult` without the timings.
pub record RunResult : Type 0 where
  pub diagnostics : List Diagnostic
  pub total_obligations : ℕ
  pub satisfied : ℕ
  pub violated : ℕ
  pub obligation_ids : List String

-- The variables of the loop of `buildRunResult`.
pub record Tallied : Type 0 where
  pub seen : List (String × Bool)
  pub ids : List String
  pub visible : List Diagnostic
  pub satisfied : ℕ
  pub violated : ℕ

abbrev id_or : String → Option ObligationRef → String
id_or fallback none = fallback
id_or fallback (some o) = if not (o.id == "") then o.id else fallback

pub obligation_id : Diagnostic → String
obligation_id d = id_or (text ("XPC." ∷ d.code ∷ [])) d.obligation

-- `seen[id]`
pub is_seen : List (String × Bool) → String → Bool
unfolding lookup
is_seen seen id = elim (lookup id seen) [ none ↦ false | some b ↦ b ]

abbrev pub is_satisfied : Severity → Bool
is_satisfied satisfied = true
is_satisfied _ = false

abbrev pub is_error : Severity → Bool
is_error error = true
is_error _ = false

-- The first half of a round: a new ID is noted.
pub note_id : String → Tallied → Tallied
unfolding is_seen insert
note_id id t =
    if not (is_seen t.seen id)
    then record t { seen = insert id true t.seen; ids = t.ids ++ id ∷ [] }
    else t

-- The second half: the counts and the visible diagnostics.
pub note_diagnostic : Diagnostic → Tallied → Tallied
note_diagnostic d t =
    if is_satisfied d.severity then record t { satisfied = suc t.satisfied } else record t {
      visible = t.visible ++ d ∷ [];
      violated = if is_error d.severity then suc t.violated else t.violated;
    }

pub tally : Tallied → List Diagnostic → Tallied
unfolding note_id note_diagnostic obligation_id
tally t [] = t
tally t (d ∷ ds) = tally (note_diagnostic d (note_id (obligation_id d) t)) ds

abbrev pub nothing_tallied : Tallied
nothing_tallied = record { seen = []; ids = []; visible = []; satisfied = 0; violated = 0 }

-- `buildRunResult`
unfoldable pub build_run_result : List Diagnostic → RunResult
unfolding tally sort_by str_lt
build_run_result all =
    let t = tally nothing_tallied all in
    record {
      diagnostics = t.visible;
      total_obligations = length (sort_by str_lt t.ids);
      satisfied = t.satisfied;
      violated = t.violated;
      obligation_ids = sort_by str_lt t.ids;
    }
