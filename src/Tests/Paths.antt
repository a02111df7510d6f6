-- ===== src/Tests/Paths.antt =====
-- pkg/ir/path_walk.go on small manifests.
use cross_validate.Base.{some, [], ◌∷◌, ◌≡◌, refl, arith}
use cross_validate.Types.Values.{str, arr, obj, nil, cons, end, field, Raw}
use cross_validate.Ir.Paths.{walk_path, read_path}
use cross_validate.Ir.Paths.Dotted.{NoBracket, walk_path-eq-read_path}

abbrev rules : Raw
rules = some (
    field "spec"
      (obj (
        field "rules"
          (arr (
            cons (obj (field "port" (str "80") end))
              (cons (obj (field "port" (str "443") end)) nil)))
          (field "host" (str "a.b") end)))
      end)

walk_path_wildcard :
    walk_path rules "spec.rules[*].port"
    ≡ record { path = "spec.rules[0].port"; value = str "80" }
      ∷ record { path = "spec.rules[1].port"; value = str "443" }
      ∷ []
unfolding walk_path
walk_path_wildcard = refl

walk_path_negative : walk_path rules "spec.rules[-1].port" ≡ []
unfolding walk_path
walk_path_negative = refl

unbracketed : NoBracket "spec.host"
unbracketed = (
  omega arith,
  (
    omega arith,
    (
      omega arith,
      (omega arith, (omega arith, (omega arith, (omega arith, (omega arith, (omega arith, tt)))))),
    ),
  ),
)

walk_path-eq-read_path_example :
    walk_path rules "spec.host" ≡ record { path = "spec.host"; value = str "a.b" } ∷ []
unfolding read_path
walk_path-eq-read_path_example = walk_path-eq-read_path rules "spec.host" unbracketed
