-- ===== src/Audit/Binding.antt =====
-- What a log that `Verify` accepts commits to: two logs with one root.
use cross_validate.Base.{String, List, [], ◌∷◌, string_eq, ◌≡◌, ◌≢◌}
use mathlib.Core.Option
use cross_validate.Base.Cuts.{size}

-- "sha256:" and 64 digits.
abbrev pub IsDigest : String → Type 0
IsDigest s = size s ≡ 71

-- Two texts with one hash.
abbrev pub Collision : (String → String) → Type 0
Collision hash = (a : String) × (b : String) × (a ≢ b) × (hash a ≡ hash b)

first_of : List String → String
first_of [] = ""
first_of (s ∷ _) = s

rest_of : List String → List String
rest_of [] = []
rest_of (_ ∷ ss) = ss
