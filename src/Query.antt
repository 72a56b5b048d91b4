-- ===== src/Query.antt =====
-- query.go and scratch.go: conditions, resolved plans, and the workspace of one query.
pub mod Resolve
pub mod Expand
pub mod Plan
pub mod Match
pub mod Sweep
pub mod Groups
pub mod Scan
use facetta.Prelude.{
  ℕ, suc, ◌+◌, Bool, false, true, Option, none, List, [], ◌∷◌, ◌++◌, take, drop, length,
}
use facetta.Prelude.Int.{ℤ}
use facetta.Prelude.Maps.{Str}

pub record Range : Type 0 where
  pub min : ℤ
  pub max : ℤ

pub record Cond : Type 0 where
  pub dim : Str
  pub value : Str
  pub in_values : List Str
  pub range : Option Range

pub record GroupPlan : Type 0 where
  pub cond_off : ℕ
  pub cond_n : ℕ
  pub ins_off : ℕ
  pub ins_n : ℕ
  pub rng_off : ℕ
  pub rng_n : ℕ
  pub lo : ℕ
  pub hi : ℕ
  pub scan : Bool
  pub dead : Bool
  pub base_possible : Bool

-- `groupPlan{basePossible: true}`
abbrev pub fresh_plan : GroupPlan
fresh_plan = record {
  cond_off = 0;
  cond_n = 0;
  ins_off = 0;
  ins_n = 0;
  rng_off = 0;
  rng_n = 0;
  lo = 0;
  hi = 0;
  scan = false;
  dead = false;
  base_possible = true;
}

-- `off` and `n` are int32 in the source, for fewer than 2^31 values in the pool.
pub record InWindow : Type 0 where
  pub dim : ℕ
  pub off : ℕ
  pub n : ℕ

pub record RangeWindow : Type 0 where
  pub dim : ℕ
  pub min : ℤ
  pub max : ℤ

-- One base candidate row interval [lo, hi).
pub record Iv : Type 0 where
  pub lo : ℕ
  pub hi : ℕ

-- The pools that plans point into. Of the capacities only that of `ivs` is read by the code.
pub record QueryScratch : Type 0 where
  pub plans : List GroupPlan
  pub ivs : List Iv
  pub ivs_cap : ℕ
  pub cond_dims : List ℕ
  pub cond_ids : List ℕ
  pub in_wins : List InWindow
  pub in_pool : List ℕ
  pub r_wins : List RangeWindow

-- `pool[off : off+n]`
abbrev pub slice {ℓ} : {A : Type ℓ} → List A → ℕ → ℕ → List A
slice pool off n = take n (drop off pool)

-- `qs.ivs = qs.ivs[:len(qs.ivs)+1]; qs.ivs[len(qs.ivs)-1] = x`
unfoldable pub push_iv : QueryScratch → Iv → QueryScratch
push_iv qs x = record qs { ivs = qs.ivs ++ x ∷ [] }
