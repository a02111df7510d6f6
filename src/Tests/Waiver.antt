-- ===== src/Tests/Waiver.antt =====
-- pkg/waiver: a register with a waiver and one behind it.
use cross_validate.Base.{
  String, not, none, some, List, [], ◌∷◌, ◌++◌, ◌≡◌, refl, arith, Memᴰ, select,
}
use cross_validate.Types.World.{Diagnostic, warning}
use cross_validate.Waiver.{
  Waiver, WaiverSet, matches, match_from, unused_diagnostic, apply, validate_from,
}
use cross_validate.Waiver.Dates.{Date, parse_date}
use cross_validate.Waiver.Apply.{is_suppressed, apply_findings}
use cross_validate.Waiver.Notices.{apply_notices, apply_shadowed}
use cross_validate.Waiver.Discipline.{validated_waiver}

abbrev accepted : String → String → Waiver
accepted name expires = record {
  rule = "XPC004";
  file = "apps/a.yaml";
  kind = "";
  name = name;
  reason = "accepted";
  expires_at = expires;
}

abbrev register : WaiverSet
register = record {
  waivers = accepted "" "2030-01-01" ∷ accepted "" "2031-01-01" ∷ [];
  source = ".xpc/waivers.yaml";
}

abbrev finding : String → Diagnostic
finding file = record {
  code = "XPC004";
  severity = warning;
  message = "bucket has no policy";
  source = record { file = file; line = 3; column = 1 };
  detail = "";
  fix = "";
  obligation = none;
}

abbrev findings : List Diagnostic
findings = finding "./apps/a.yaml" ∷ finding "apps/b.yaml" ∷ []

abbrev today : Date
today = record { year = 2026; month = 5; day = 1 }

leap_day : parse_date "2024-02-29" ≡ some (record { year = 2024; month = 2; day = 29 })
unfolding parse_date
leap_day = refl

no_leap_day : parse_date "2023-02-29" ≡ none
unfolding parse_date
no_leap_day = refl

apply_findings_example :
    ((apply register findings today).waived
      ≡ select (is_suppressed register.waivers today) findings)
    × (notices : List Diagnostic) × ((apply register findings today).active
        ≡ select (λ d. not (is_suppressed register.waivers today d)) findings ++ notices)
apply_findings_example = apply_findings register findings today

apply_notices_example :
    Memᴰ
      (unused_diagnostic register.source (accepted "" "2031-01-01"))
      (apply register findings today).active
unfolding matches match_from
apply_notices_example = (apply_notices register findings today 1 refl).0 refl

apply_shadowed_example :
    Memᴰ
      (unused_diagnostic register.source (accepted "" "2031-01-01"))
      (apply register findings today).active
unfolding matches
apply_shadowed_example =
    apply_shadowed register findings today 1 0 (accepted "" "2031-01-01") (accepted "" "2030-01-01")
      refl refl (omega arith) (λ d m. m)

validated_waiver_example : (finding "./apps/a.yaml").code ≡ "XPC004"
unfolding validate_from matches
validated_waiver_example =
    (validated_waiver register.waivers (accepted "" "2030-01-01") (finding "./apps/a.yaml") today
      refl (Memᴰ.head refl) refl).0
