-- ===== src/Float.antt =====
-- Metric values. Go's float64 arithmetic is a parameter: the store only adds, compares, divides by a
-- row count and renders the absence of rows as NaN. No law of it is assumed.
use facetta.Prelude.{ℕ, Bool}

pub record Float64 (F : Type 0) : Type 0 where
  pub zero : F
  pub nan : F
  pub add : F → F → F
  pub lt : F → F → Bool
  pub div : F → F → F
  pub of_count : ℕ → F
