-- ===== src/Tests/Checker.antt =====
-- pkg/checker on a violated, a satisfied and an unclassified judgment.
use cross_validate.Base.{
  ◌+◌, ◌≤◌, String, List, [], ◌∷◌, length, select, any, if◌then◌else◌, ◌==◌, string_eq, ◌≡◌, refl,
}
use cross_validate.Base.Texts.{str_lt}
use cross_validate.Base.Sorting.{IsSorted}
use cross_validate.Types.World.{Diagnostic, Severity, error, satisfied}
use cross_validate.Plan.Diff.{no_source}
use cross_validate.Checker.{build_run_result, obligation_ref_for_code, obligation_id}
use cross_validate.Checker.Tally.{build_run_result-bounds, count, is_visible, violates}
use cross_validate.Checker.Obligations.{build_run_result-ids, same_as}

abbrev judgment : String → Severity → Diagnostic
judgment code severity = record {
  code = code;
  severity = severity;
  message = "";
  source = no_source;
  detail = "";
  fix = "";
  obligation = obligation_ref_for_code code;
}

abbrev judgments : List Diagnostic
judgments =
    judgment "XPC003" error
    ∷ judgment "XPC003" satisfied
    ∷ judgment "Q.new" error
    ∷ judgment "XPC001" satisfied
    ∷ []

ids :
    (build_run_result judgments).obligation_ids
    ≡ "XPC.B.comp-xrd-ref" ∷ "XPC.C.version-coherence" ∷ "XPC.Q.new" ∷ []
unfolding build_run_result obligation_ref_for_code
ids = refl

build_run_result-bounds_example :
    ((build_run_result judgments).diagnostics ≡ select is_visible judgments)
    × ((build_run_result judgments).satisfied + length (build_run_result judgments).diagnostics ≡ 4)
    × ((build_run_result judgments).violated
        ≡ count violates (build_run_result judgments).diagnostics)
    × ((build_run_result judgments).violated ≤ length (build_run_result judgments).diagnostics)
build_run_result-bounds_example = build_run_result-bounds judgments

build_run_result-ids_example :
    IsSorted str_lt (build_run_result judgments).obligation_ids
    × ((id : String)
        → count (same_as id) (build_run_result judgments).obligation_ids
          ≡ (if any (λ d. obligation_id d == id) judgments then 1 else 0))
    × ((build_run_result judgments).total_obligations
        ≡ length (build_run_result judgments).obligation_ids)
build_run_result-ids_example = build_run_result-ids judgments
