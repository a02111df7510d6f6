-- ===== src/Types/Locations.antt =====
-- `SourceLocation` of pkg/types/types.go.
use cross_validate.Base.{ℕ, String}

pub record SourceLocation : Type 0 where
  pub file : String
  pub line : ℕ
  pub column : ℕ
