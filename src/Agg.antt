-- ===== src/Agg.antt =====
-- agg.go: the requested aggregates, their accumulators, and `QueryAggs`.
use facetta.Prelude.{
  ℕ, suc, ◌+◌, Bool, ◌||◌, not, Option, none, some, List, [], ◌∷◌, length, get_or, map, ltb, ◌==◌,
  if◌then◌else◌,
}
use facetta.Prelude.Int.{ℤ}
use facetta.Prelude.Maps.{Str, eqb_str}
use facetta.Schema.{Schema, Config, dim_index}
use facetta.Result.{
  Result, ok, err, bad_agg_count, unknown_agg_op, distinct_takes_no_metric, unknown_dimension,
  only_distinct_takes_dim, count_takes_no_metric, unknown_metric, ◌>>=◌,
}
use facetta.Float.{Float64}
use facetta.Bitmap.{bit_get, bit_set, make_bitmap}
use facetta.Dict.{len}
use facetta.Snapshot.{Row}
use facetta.View.{View, dict_at}
use facetta.Stats.{Counters}
use facetta.Query.{Cond, QueryScratch}
use facetta.Query.Match.{id_at}
use facetta.Query.Sweep.{query_clock, fold_matched}
use facetta.Query.Groups.{plan_groups}

-- `AggOp` is a uint8; `resolveAggs` refuses other values.
abbrev pub agg_sum : ℕ
agg_sum = 0

abbrev pub agg_count : ℕ
agg_count = 1

abbrev pub agg_min : ℕ
agg_min = 2

abbrev pub agg_max : ℕ
agg_max = 3

abbrev pub agg_avg : ℕ
agg_avg = 4

abbrev pub agg_distinct : ℕ
agg_distinct = 5

pub record Agg : Type 0 where
  pub metric : Str
  pub dim : Str
  pub op : ℕ

-- A resolved column: `mets[j]` and `ddims[j]`, where `none` is -1.
pub record Column : Type 0 where
  pub op : ℕ
  pub met : Option ℕ
  pub ddim : Option ℕ

pub metric_index : ℕ → Str → List Str → Option ℕ
metric_index m name [] = none
metric_index m name (s ∷ ss) = if eqb_str s name then some m else metric_index (suc m) name ss

or_unknown_dim : Str → ℕ → Option ℕ → Result Column
or_unknown_dim dim op none = err (unknown_dimension dim)
or_unknown_dim dim op (some di) = ok (record { op = op; met = none; ddim = some di })

or_unknown_metric : Str → ℕ → Option ℕ → Result Column
or_unknown_metric metric op none = err (unknown_metric metric)
or_unknown_metric metric op (some mi) = ok (record { op = op; met = some mi; ddim = none })

pub resolve_agg : Schema → Agg → Result Column
unfolding or_unknown_dim or_unknown_metric metric_index
resolve_agg sc a =
    if ltb agg_distinct a.op
    then err (unknown_agg_op a.op)
    else if a.op == agg_distinct
    then if not (eqb_str a.metric [])
      then err (distinct_takes_no_metric a.metric)
      else or_unknown_dim a.dim a.op (dim_index sc a.dim)
    else if not (eqb_str a.dim [])
    then err (only_distinct_takes_dim a.dim)
    else if a.op == agg_count
    then if not (eqb_str a.metric [])
      then err (count_takes_no_metric a.metric)
      else ok (record { op = a.op; met = none; ddim = none })
    else or_unknown_metric a.metric a.op (metric_index 0 a.metric sc.metrics)

pub resolve_each : Schema → List Agg → Result (List Column)
unfolding resolve_agg
resolve_each sc [] = ok []
resolve_each sc (a ∷ aggs) = do c ← resolve_agg sc a; cs ← resolve_each sc aggs; ok (c ∷ cs)

unfoldable pub resolve_aggs : Schema → List Agg → Result (List Column)
unfolding resolve_each
resolve_aggs sc aggs = if length aggs == 0 then err bad_agg_count else resolve_each sc aggs

-- An accumulator `acc[j]` with the bitmap `bms[j]` of the ids seen.
pub record Acc (F : Type 0) : Type 0 where
  pub acc : F
  pub bms : List ℕ

-- The accumulators and the number of matched rows.
abbrev pub Folded : Type 0 → Type 0
Folded F = List (Acc F) × ℕ

module _ {F : Type 0} ⦃fl : Float64 F⦄ where
  fold_distinct : ℕ → Acc F → Acc F
  fold_distinct id a =
      if bit_get a.bms id
      then a
      else record { acc = fl.add a.acc (fl.of_count 1); bms = bit_set a.bms id }

  fold_metric : ℕ → Bool → F → F → F
  fold_metric op first v acc =
      if (op == agg_sum) || (op == agg_avg)
      then fl.add acc v
      else if op == agg_min
      then (if first || fl.lt v acc then v else acc)
      else if op == agg_max
      then (if first || fl.lt acc v then v else acc)
      else acc

  fold_met : Column → Bool → Row F → Acc F → Option ℕ → Acc F
  unfolding fold_metric
  fold_met c first row a none = a
  fold_met c first row a (some mi) = record a {
    acc = fold_metric c.op first (get_or row.mets mi fl.zero) a.acc;
  }

  pub fold_column : Column → Bool → Row F → Acc F → Acc F
  unfolding fold_distinct fold_met
  fold_column c first row a = elim c.ddim [
    | some d ↦ fold_distinct (id_at row.ids d) a
    | none ↦ fold_met c first row a c.met
  ]

  -- `foldAgg`: one matched row into the accumulators
  pub fold_agg : List Column → Bool → Row F → List (Acc F) → List (Acc F)
  unfolding fold_column
  fold_agg (c ∷ cs) first row (a ∷ accs) = fold_column c first row a ∷ fold_agg cs first row accs
  fold_agg cs first row accs = accs

  pub fold_row : List Column → Row F → Folded F → Folded F
  unfolding fold_agg
  fold_row cs row (accs, rows) = (fold_agg cs (rows == 0) row accs, suc rows)

  new_acc : View F → Column → Acc F
  new_acc v c = record {
    acc = fl.zero;
    bms = elim c.ddim [
      | none ↦ []
      | some d ↦ make_bitmap (len (dict_at v.base.dicts d) + len (dict_at v.extras d))
    ];
  }

  pub new_accs : View F → List Column → List (Acc F)
  unfolding new_acc
  new_accs v cs = map (new_acc v) cs

  -- The output of one column over `rows` matched rows.
  pub finish : Column → ℕ → Acc F → F
  finish c rows a =
      if c.op == agg_count
      then fl.of_count rows
      else if (c.op == agg_sum) || (c.op == agg_distinct)
      then a.acc
      else if rows == 0
      then fl.nan
      else if c.op == agg_avg
      then fl.div a.acc (fl.of_count rows)
      else a.acc

  pub finish_all : List Column → ℕ → List (Acc F) → List F
  unfolding finish
  finish_all (c ∷ cs) rows (a ∷ accs) = finish c rows a ∷ finish_all cs rows accs
  finish_all cs rows accs = []

  aggregated :
      View F → List Column → ℤ → Result QueryScratch × Counters → Result (List F) × Counters
  unfolding fold_row new_accs finish_all
  aggregated v cs now (err e, c) = (err e, c)
  aggregated v cs now (ok qs, c) =
      let (accs, rows) = fold_matched v (query_clock v now) qs (fold_row cs) (new_accs v cs, 0) in
      (ok (finish_all cs rows accs), c)

  resolved_aggs :
      Schema
      → Config
      → View F
      → List (List Cond)
      → QueryScratch
      → ℤ
      → Counters
      → Result (List Column)
      → Result (List F) × Counters
  unfolding aggregated
  resolved_aggs sc cfg v groups qs now c (err e) = (err e, c)
  resolved_aggs sc cfg v groups qs now c (ok cs) =
      aggregated v cs now (plan_groups sc cfg v groups qs c)

  -- `queryAggs`
  unfoldable pub query_aggs :
      Schema
      → Config
      → View F
      → List Agg
      → List (List Cond)
      → QueryScratch
      → ℤ
      → Counters
      → Result (List F) × Counters
  unfolding resolved_aggs resolve_aggs
  query_aggs sc cfg v aggs groups qs now c =
      resolved_aggs sc cfg v groups qs now c (resolve_aggs sc aggs)
