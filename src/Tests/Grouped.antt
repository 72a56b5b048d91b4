-- ===== src/Tests/Grouped.antt =====
-- Concrete grouped queries.
use facetta.GroupBy.Output.Keyed.{AreGrouped}
use facetta.Prelude.{ℕ, ◌≡◌, refl, none, some, List, [], ◌∷◌, arith}
use facetta.Prelude.Int.{pos}
use facetta.Prelude.Maps.{bytes}
use facetta.Prelude.Sort.{sort_by}
use facetta.Prelude.Search.{search}
use facetta.Result.{ok}
use facetta.Schema.{dim_index, is_int}
use facetta.Bitmap.{bit_get, bit_set, make_bitmap}
use facetta.Dict.{str, lookup, len, new_dict}
use facetta.Keys.{pack_key, bit_len}
use facetta.Snapshot.{new_dicts}
use facetta.Strconv.{format_int}
use facetta.Stats.{zero_counters}
use facetta.View.{dim_string, new_view, lookup_id, id_key, empty_delta}
use facetta.Query.{fresh_plan, QueryScratch, push_iv}
use facetta.Query.Expand.{full_scan, plan_expand}
use facetta.Query.Groups.{plan_groups, plan_each}
use facetta.Query.Match.{base_matched, match_base, match_eqs}
use facetta.Query.Plan.{plan}
use facetta.Query.Resolve.{resolve_conds}
use facetta.Query.Sweep.{query_clock, fold_matched, sort_ivs}
use facetta.Scratch.{measure_shape, route, empty_scratch}
use facetta.Agg.{Agg, Column, agg_sum, agg_count, agg_distinct, resolve_aggs}
use facetta.GroupBy.{GroupedResult, grouping, query_group_by, by_dims}
use facetta.GroupBy.Visit.Alone.{alone, outcome, column_of}
use facetta.GroupBy.Visit.Reference.{grouping-alone}
use facetta.GroupBy.Output.Layout.{Run, query_group_by-Run}
use facetta.Tests.{shop, limits, shop_view, whole_numbers}

abbrev columns : List Column
columns =
    record { op = agg_sum; met = some 0; ddim = none }
    ∷ record { op = agg_distinct; met = none; ddim = some 0 }
    ∷ record { op = agg_count; met = none; ddim = none }
    ∷ []

abbrev wanted : List Agg
wanted =
    record { metric = bytes "sales"; dim = []; op = agg_sum }
    ∷ record { metric = []; dim = bytes "color"; op = agg_distinct }
    ∷ record { metric = []; dim = []; op = agg_count }
    ∷ []

abbrev by_size : GroupedResult ℕ
by_size = record { n = 2; keys = bytes "40" ∷ bytes "41" ∷ []; aggs = 14 ∷ 2 ∷ 2 ∷ 8 ∷ 1 ∷ 1 ∷ [] }

group_by_test :
    (query_group_by shop limits shop_view
      (bytes "size" ∷ [])
      wanted
      ([] ∷ [])
      (route 0 (measure_shape ([] ∷ []) 3))
      (pos 20)
      zero_counters).0
    ≡ ok by_size
unfolding query_group_by by_dims plan resolve_conds dim_index is_int lookup_id lookup new_view
    new_dicts new_dict search pack_key route measure_shape fold_matched len sort_by plan_each
    plan_groups query_clock sort_ivs empty_scratch empty_delta full_scan plan_expand base_matched
    match_base match_eqs bit_get bit_len push_iv make_bitmap bit_set resolve_aggs grouping id_key
    dim_string str format_int
group_by_test = refl

-- A plan without conditions over all rows.
abbrev every_row : QueryScratch
every_row = record (empty_scratch 1) {
  plans = record fresh_plan { lo = 0; hi = 3 } ∷ [];
  ivs = record { lo = 0; hi = 3 } ∷ [];
}

grouping-alone_example :
    column_of (id_key (0 ∷ [])) 1 (grouping shop_view (pos 20) (1 ∷ []) columns every_row)
    ≡ outcome (
        fold_matched shop_view
          (query_clock shop_view (pos 20))
          every_row
          (alone
            (1 ∷ [])
            (id_key (0 ∷ []))
            (record { op = agg_distinct; met = none; ddim = some 0 }))
          none)
unfolding grouping fold_matched new_view empty_delta query_clock base_matched match_base match_eqs
    bit_get empty_scratch new_dicts new_dict id_key dim_string str len
grouping-alone_example =
    grouping-alone shop_view (1 ∷ []) columns (id_key (0 ∷ [])) 1
      (record { op = agg_distinct; met = none; ddim = some 0 }) refl (omega arith) (pos 20)
      every_row (omega arith)

query_group_by-Run_example :
    (run : Run shop limits shop_view
      ([] ∷ [])
      (route 0 (measure_shape ([] ∷ []) 3))
      (pos 20)
      zero_counters
      (by_dims shop (bytes "size" ∷ []))
      (resolve_aggs shop wanted)
      by_size)
    × AreGrouped shop (bytes "size" ∷ []) run.dims
query_group_by-Run_example =
    query_group_by-Run shop limits shop_view ([] ∷ []) (route 0 (measure_shape ([] ∷ []) 3))
      (pos 20) zero_counters (bytes "size" ∷ []) wanted by_size group_by_test
