-- ===== src/Scratch.antt =====
-- scratch.go: the measure of a query that routes it to the stack or to the pool, and the room that
-- either gives to row intervals.
pub mod Pool
pub mod Room
use facetta.Prelude.{
  ℕ, ◌+◌, ◌*◌, ◌/◌, Bool, true, false, ◌&&◌, Option, none, some, List, [], ◌∷◌, length, ltb, leb,
  ◌==◌, if◌then◌else◌,
}
use facetta.Query.{Cond, Range, QueryScratch}

abbrev pub fast_groups : ℕ
fast_groups = 16

abbrev pub fast_conds : ℕ
fast_conds = 32

abbrev pub fast_ivs : ℕ
fast_ivs = fast_groups

abbrev pub fast_in_conds : ℕ
fast_in_conds = 16

abbrev pub fast_in_ids : ℕ
fast_in_ids = 128

abbrev pub fast_ranges : ℕ
fast_ranges = 16

abbrev pub fast_aggs : ℕ
fast_aggs = 16

abbrev pub expansion_ivs : ℕ
expansion_ivs = 4096

-- `1 << 20`
abbrev pub iv_demand_cap : ℕ
iv_demand_cap = 1_048_576

-- The loop of `groupIvDemand` from the demand so far.
pub demand_from : ℕ → List Cond → ℕ
demand_from demand [] = demand
demand_from demand (c ∷ g) =
    let n = length c.in_values in
    let more = demand_from (if n == 0 then demand else demand * n) g in
    if ltb 0 n && ltb (iv_demand_cap / n) demand then iv_demand_cap else more

pub group_iv_demand : List Cond → ℕ
unfolding demand_from
group_iv_demand g = demand_from 1 g

pub record QueryShape : Type 0 where
  pub groups : ℕ
  pub conds : ℕ
  pub in_conds : ℕ
  pub in_vals : ℕ
  pub ranges : ℕ
  pub aggs : ℕ
  pub iv_demand : ℕ

pub measure_at : QueryShape → Cond → Option Range → QueryShape
measure_at sh c (some r) = record sh { ranges = sh.ranges + 1 }
measure_at sh c none =
    if ltb 0 (length c.in_values)
    then record sh { in_conds = sh.in_conds + 1; in_vals = sh.in_vals + length c.in_values }
    else record sh { conds = sh.conds + 1 }

pub measure_cond : QueryShape → Cond → QueryShape
unfolding measure_at
measure_cond sh c = measure_at sh c c.range

pub measure_conds : QueryShape → List Cond → QueryShape
unfolding measure_cond
measure_conds sh [] = sh
measure_conds sh (c ∷ g) = measure_conds (measure_cond sh c) g

pub measure_groups : QueryShape → List (List Cond) → QueryShape
unfolding measure_conds
measure_groups sh [] = sh
measure_groups sh (g ∷ gs) =
    let sh' = measure_conds sh g in
    measure_groups (record sh' { iv_demand = sh'.iv_demand + group_iv_demand g }) gs

unfoldable pub measure_shape : List (List Cond) → ℕ → QueryShape
unfolding measure_groups
measure_shape groups aggs =
    measure_groups
      (record {
        groups = length groups;
        conds = 0;
        in_conds = 0;
        in_vals = 0;
        ranges = 0;
        aggs = aggs;
        iv_demand = 0;
      })
      groups

pub fits : QueryShape → Bool
fits sh =
    if ltb 0 sh.in_conds && ltb fast_ivs sh.iv_demand
    then false
    else leb sh.groups fast_groups
      && leb sh.conds fast_conds
      && leb sh.in_conds fast_in_conds
      && leb sh.in_vals fast_in_ids
      && leb sh.ranges fast_ranges
      && leb sh.aggs fast_aggs

-- `grow`: the capacity of a slice of capacity `old` after a request for `n`
pub grow : ℕ → ℕ → ℕ
grow old n = if ltb old n then n else old

-- The capacity of `ivs` in a pooled scratch whose slice had capacity `old`.
pub pooled_ivs : ℕ → QueryShape → ℕ
unfolding grow
pooled_ivs old sh = grow old (if ltb 0 sh.in_conds then sh.groups + expansion_ivs else sh.groups)

unfoldable pub empty_scratch : ℕ → QueryScratch
empty_scratch cap = record {
  plans = [];
  ivs = [];
  ivs_cap = cap;
  cond_dims = [];
  cond_ids = [];
  in_wins = [];
  in_pool = [];
  r_wins = [];
}

-- The workspace of a query; `old` is the capacity that the pool's slice happens to have.
unfoldable pub route : ℕ → QueryShape → QueryScratch
unfolding pooled_ivs empty_scratch fits
route old sh = empty_scratch (if fits sh then fast_ivs else pooled_ivs old sh)
