-- ===== src/GroupBy.antt =====
-- groupby.go: `queryGroupBy`. The rows of `skeys` and `saggs`, which the source keeps flat with a
-- fixed stride, are lists here; the result is flat as in the source.
pub mod Visit
pub mod Output
use facetta.Prelude.{
  ℕ, zero, suc, ◌+◌, ◌%◌, ◌^◌, Bool, true, false, ◌&&◌, ◌||◌, Option, none, some, List, [], ◌∷◌,
  ◌++◌, map, length, get_or, set, ltb, ◌==◌, if◌then◌else◌,
}
use facetta.Prelude.Int.{ℤ}
use facetta.Prelude.Maps.{Str, eqb_str, find, put, str_eq}
use facetta.Prelude.Sort.{sort_by}
use facetta.Schema.{Schema, Config, dim_index}
use facetta.Result.{Result, ok, err, bad_by_dims, unknown_dimension, duplicate_group_by, ◌>>=◌}
use facetta.Float.{Float64}
use facetta.Snapshot.{Row}
use facetta.View.{View, id_key, dim_string}
use facetta.Stats.{Counters}
use facetta.Query.{Cond, QueryScratch}
use facetta.Query.Match.{id_at}
use facetta.Query.Sweep.{query_clock, fold_matched}
use facetta.Query.Groups.{plan_groups}
use facetta.Agg.{Agg, Column, agg_sum, agg_count, agg_min, agg_max, agg_avg, resolve_aggs}

-- `dkey`: a distinct column, a group and an id, in a uint8, an int32 (its low 32 bits) and a uint32
pub record DKey : Type 0 where
  pub c : ℕ
  pub g : ℕ
  pub id : ℕ

pub make_dkey : ℕ → ℕ → ℕ → DKey
make_dkey j g id = record { c = j % 2 ^ 8; g = g % 2 ^ 32; id = id }

pub eqb_dkey : DKey → DKey → Bool
eqb_dkey a b = (a.c == b.c) && (a.g == b.g) && (a.id == b.id)

-- `res.dset[k]`
pub in_dset : DKey → List DKey → Bool
unfolding eqb_dkey
in_dset k [] = false
in_dset k (x ∷ dset) = eqb_dkey x k || in_dset k dset

pub among : ℕ → List ℕ → Bool
among d [] = false
among d (x ∷ xs) = (x == d) || among d xs

or_unknown : Str → Option ℕ → Result ℕ
or_unknown name none = err (unknown_dimension name)
or_unknown name (some d) = ok d

-- The loop over `by`, behind the dimensions `seen`.
pub by_each : Schema → List ℕ → List Str → Result (List ℕ)
unfolding or_unknown among
by_each sc seen [] = ok []
by_each sc seen (name ∷ names) = do
  d ← or_unknown name (dim_index sc name)
  let rest = by_each sc (d ∷ seen) names
  if among d seen then err (duplicate_group_by name) else (rest >>= (λ ds. ok (d ∷ ds)))

unfoldable pub by_dims : Schema → List Str → Result (List ℕ)
unfolding by_each
by_dims sc by =
    if (length by == 0) || ltb (length sc.dims) (length by)
    then err bad_by_dims
    else by_each sc [] by

-- `res` without its scratch of sorted output.
pub record Grouping (F : Type 0) : Type 0 where
  pub idx : List (Str × ℕ)
  pub dset : List DKey
  pub skeys : List (List Str)
  pub saggs : List (List F)
  pub cnt : List ℕ

pub record GroupedResult (F : Type 0) : Type 0 where
  pub n : ℕ
  pub keys : List Str
  pub aggs : List F

-- `kb`, the packed ids of the grouped dimensions
pub group_key : List ℕ → List ℕ → Str
group_key by ids = id_key (map (id_at ids) by)

-- The seen ids with that of a distinct column of dimension `ddim`.
pub mark_seen : ℕ → ℕ → List ℕ → Option ℕ → List DKey → List DKey
unfolding make_dkey
mark_seen j g ids none dset = dset
mark_seen j g ids (some d) dset = make_dkey j g (id_at ids d) ∷ dset

-- The distinct columns enter their first id.
pub first_ids : ℕ → ℕ → List Column → List ℕ → List DKey → List DKey
unfolding mark_seen
first_ids j g [] ids dset = dset
first_ids j g (c ∷ cs) ids dset = first_ids (suc j) g cs ids (mark_seen j g ids c.ddim dset)

module _ {F : Type 0} ⦃fl : Float64 F⦄ where
  first_value : Row F → Option ℕ → Option ℕ → F
  first_value row (some d) met = fl.of_count 1
  first_value row none (some mi) = get_or row.mets mi fl.zero
  first_value row none none = fl.zero

  -- The accumulator that the first row of a group starts.
  pub first_agg : Row F → Column → F
  unfolding first_value
  first_agg row c = first_value row c.ddim c.met

  -- `switch aggs[j].Op` for the metric value `m`
  pub more_metric : ℕ → F → F → F
  more_metric op m x =
      if (op == agg_sum) || (op == agg_avg)
      then fl.add x m
      else if op == agg_min
      then (if fl.lt m x then m else x)
      else if op == agg_max
      then (if fl.lt x m then m else x)
      else x

  pub more_value : ℕ → ℕ → Row F → ℕ → List DKey → F → Option ℕ → Option ℕ → List DKey × F
  unfolding more_metric make_dkey in_dset
  more_value j g row op dset x (some d) met =
      let k = make_dkey j g (id_at row.ids d) in
      if in_dset k dset then (dset, x) else (k ∷ dset, fl.add x (fl.of_count 1))
  more_value j g row op dset x none (some mi) =
      (dset, more_metric op (get_or row.mets mi fl.zero) x)
  more_value j g row op dset x none none = (dset, x)

  -- Column `j` of a later row of group `g`.
  pub more_agg : ℕ → ℕ → Row F → Column → List DKey → F → List DKey × F
  unfolding more_value
  more_agg j g row c dset x = more_value j g row c.op dset x c.ddim c.met

  pub more_aggs : ℕ → ℕ → Row F → List Column → List DKey → List F → List DKey × List F
  unfolding more_agg
  more_aggs j g row (c ∷ cs) dset (x ∷ xs) =
      let (dset₁, x') = more_agg j g row c dset x in
      let (dset₂, xs') = more_aggs (suc j) g row cs dset₁ xs in (dset₂, x' ∷ xs')
  more_aggs j g row cs dset xs = (dset, xs)

  pub open_group : View F → List ℕ → List Column → Row F → Str → Grouping F → Grouping F
  unfolding first_ids first_agg
  open_group v by cs row kb st =
      let g = length st.cnt in
      record {
        idx = put kb g st.idx;
        dset = first_ids 0 g cs row.ids st.dset;
        skeys = st.skeys ++ map (λ d. dim_string v d (id_at row.ids d)) by ∷ [];
        saggs = st.saggs ++ map (first_agg row) cs ∷ [];
        cnt = st.cnt ++ 1 ∷ [];
      }

  pub join_group : List Column → Row F → ℕ → Grouping F → Grouping F
  unfolding more_aggs
  join_group cs row g st =
      let (dset, xs) = more_aggs 0 g row cs st.dset (get_or st.saggs g []) in
      record st {
        dset = dset;
        saggs = set st.saggs g xs;
        cnt = set st.cnt g (suc (get_or st.cnt g 0));
      }

  pub visit_found : View F → List ℕ → List Column → Row F → Str → Option ℕ → Grouping F → Grouping F
  unfolding open_group join_group
  visit_found v by cs row kb none st = open_group v by cs row kb st
  visit_found v by cs row kb (some g) st = join_group cs row g st

  pub visit : View F → List ℕ → List Column → Row F → Grouping F → Grouping F
  unfolding visit_found group_key
  visit v by cs row st =
      visit_found v by cs row (group_key by row.ids) (find (group_key by row.ids) st.idx) st

  -- The reset of `res`.
  pub no_groups : Grouping F
  no_groups = record { idx = []; dset = []; skeys = []; saggs = []; cnt = [] }

  -- The count and average columns of one group.
  pub finish_group : List Column → ℕ → List F → List F
  finish_group (c ∷ cs) n (x ∷ xs) =
      (if c.op == agg_count
        then fl.of_count n
        else if c.op == agg_avg
        then fl.div x (fl.of_count n)
        else x)
      ∷ finish_group cs n xs
  finish_group cs n xs = xs

  pub finish_groups : List Column → List ℕ → List (List F) → List (List F)
  unfolding finish_group
  finish_groups cs (n ∷ cnt) (xs ∷ saggs) = finish_group cs n xs ∷ finish_groups cs cnt saggs
  finish_groups cs cnt saggs = saggs

-- `<` of Go strings
pub ltb_str : Str → Str → Bool
ltb_str s [] = false
ltb_str [] (b ∷ t) = true
ltb_str (a ∷ s) (b ∷ t) = if a == b then ltb_str s t else ltb a b

-- The comparison of `sort.Slice`: the first differing key decides.
pub keys_before : List Str → List Str → Bool
unfolding ltb_str
keys_before (a ∷ ka) (b ∷ kb) =
    let rest = keys_before ka kb in if eqb_str a b then rest else ltb_str a b
keys_before ka kb = false

-- The rows of a flat slice behind one another.
pub flatten {ℓ} : {A : Type ℓ} → List (List A) → List A
flatten [] = []
flatten (l ∷ ls) = l ++ flatten ls

module _ {F : Type 0} where
  -- A group of the output: its keys and its aggregates.
  pub entries : List (List Str) → List (List F) → List (List Str × List F)
  entries (ks ∷ skeys) (xs ∷ saggs) = (ks, xs) ∷ entries skeys saggs
  entries skeys saggs = []

  pub group_before : List Str × List F → List Str × List F → Bool
  unfolding keys_before
  group_before a b = keys_before a.0 b.0

  -- `res.Keys`, `res.Aggs` and `res.N` from the groups in the order of `res.ord`.
  pub output : ℕ → List (List Str × List F) → GroupedResult F
  unfolding flatten
  output n es = record {
    n = n;
    keys = flatten (map (λ e. e.0) es);
    aggs = flatten (map (λ e. e.1) es);
  }

module _ {F : Type 0} ⦃fl : Float64 F⦄ where
  pub sorted_entries : List Column → Grouping F → List (List Str × List F)
  unfolding entries group_before finish_groups
  sorted_entries cs st = sort_by group_before (entries st.skeys (finish_groups cs st.cnt st.saggs))

  -- The groups of the rows that a planned query matches.
  unfoldable pub grouping : View F → ℤ → List ℕ → List Column → QueryScratch → Grouping F
  unfolding visit no_groups
  grouping v now by cs qs = fold_matched v (query_clock v now) qs (visit v by cs) no_groups

  grouped :
      View F
      → ℤ
      → List ℕ
      → List Column
      → Result QueryScratch × Counters
      → Result (GroupedResult F) × Counters
  unfolding grouping sorted_entries output
  grouped v now by cs (err e, c) = (err e, c)
  grouped v now by cs (ok qs, c) =
      let st = grouping v now by cs qs in (ok (output (length st.cnt) (sorted_entries cs st)), c)

  grouped_by :
      Schema
      → Config
      → View F
      → List (List Cond)
      → QueryScratch
      → ℤ
      → Counters
      → List Column
      → Result (List ℕ)
      → Result (GroupedResult F) × Counters
  unfolding grouped
  grouped_by sc cfg v groups qs now c cs (err e) = (err e, c)
  grouped_by sc cfg v groups qs now c cs (ok by) =
      grouped v now by cs (plan_groups sc cfg v groups qs c)

  grouped_aggs :
      Schema
      → Config
      → View F
      → List Str
      → List (List Cond)
      → QueryScratch
      → ℤ
      → Counters
      → Result (List Column)
      → Result (GroupedResult F) × Counters
  unfolding grouped_by by_dims
  grouped_aggs sc cfg v by groups qs now c (err e) = (err e, c)
  grouped_aggs sc cfg v by groups qs now c (ok cs) =
      grouped_by sc cfg v groups qs now c cs (by_dims sc by)

  -- `queryGroupBy`
  unfoldable pub query_group_by :
      Schema
      → Config
      → View F
      → List Str
      → List Agg
      → List (List Cond)
      → QueryScratch
      → ℤ
      → Counters
      → Result (GroupedResult F) × Counters
  unfolding grouped_aggs
  query_group_by sc cfg v by aggs groups qs now c =
      grouped_aggs sc cfg v by groups qs now c (resolve_aggs sc aggs)
