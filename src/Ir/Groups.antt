-- ===== src/Ir/Groups.antt =====
-- API groups and sync waves, pkg/ir/trajectory_extract.go, pkg/ir/builder.go and pkg/plan/r26.go.
use cross_validate.Base.{String, Option, none, some, List, string_eq}
use cross_validate.Base.Maps.{lookup}
use cross_validate.Base.Int.{ℤ, pos}
use cross_validate.Base.Texts.{cut_at, atoi}

-- `groupFromAPIVersion` of both packages: what stands before the first "/", else "". In pkg/plan
-- this is a loop over the characters, in pkg/ir `strings.SplitN(s, "/", 2)`.
unfoldable pub group_from_api_version : String → String
unfolding cut_at
group_from_api_version v = elim (cut_at b'/' v) [ none ↦ "" | some (group, _) ↦ group ]

abbrev or_zero : Option ℤ → ℤ
or_zero none = pos 0
or_zero (some n) = n

-- `ParseSyncWave`
unfoldable pub parse_sync_wave : List (String × String) → ℤ
unfolding lookup atoi
parse_sync_wave annotations = elim (lookup "argocd.argoproj.io/sync-wave" annotations) [
  | none ↦ pos 0
  | some wave ↦ or_zero (atoi wave)
]
