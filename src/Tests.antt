-- ===== src/Tests.antt =====
-- Concrete tables, on which the theorems of the other modules are applied.
pub mod Grouped
pub mod Files
pub mod Pooled
pub mod Updates
pub mod Scanned
use Prim.Native.Nat.{min}
use mathlib.Core.Path.{subst}
use facetta.Agg.{agg_distinct, query_aggs}
use facetta.Bitmap.{bit_get, bit_set, make_bitmap}
use facetta.Bitmap.Laws.{bit_get-bit_set}
use facetta.Codec.{Hashes, FloatBits}
use facetta.Dict.{Dict, len, lookup, lookup_n, new_dict, get_or_add, get_or_add_n}
use facetta.Dict.Laws.{IsDict-new_dict, InternedStr, InternedVal, get_or_add_lem, get_or_add_n_lem}
use facetta.Float.{Float64}
use facetta.Keys.{bit_len, dict_bits, total, compute_shifts, pack_key, key_span_top}
use facetta.Keys.Widths.{Below, prefix_interval}
use facetta.Prelude.{
  ◌/◌, ◌%◌, ◌^◌, ℕ, zero, suc, ◌+◌, ◌≤◌, ◌<◌, ◌≡◌, ◌↔◌, refl, Bool, true, false, ◌&&◌, not, none,
  some, List, [], ◌∷◌, length, take, get_elem?, get_or, ltb, ◌==◌, arith, if◌then◌else◌,
}
use facetta.Prelude.Int.{pos}
use facetta.Prelude.Maps.{Str, bytes}
use facetta.Prelude.Search.{search}
use facetta.Prelude.Sort.{sort_by}
use facetta.Query.{push_iv, Cond, GroupPlan, QueryScratch, fresh_plan, slice}
use facetta.Query.Expand.{full_scan, plan_expand, prefix_rows}
use facetta.Query.Expand.Room.{plan_expand_room}
use facetta.Query.Expand.Rows.{prefix_rows_iff}
use facetta.Query.Groups.{plan_groups, query_groups, plan_each}
use facetta.Query.Groups.Room.{plan_each-route}
use facetta.Query.Match.{base_matched, match_base, match_eqs, match_one_in}
use facetta.Query.Match.Probe.{AscendingIds, match_one_in-linear_probe}
use facetta.Query.Plan.{plan, all_base, plan_prefix}
use facetta.Query.Plan.Prefix.{searched, plan_prefix_lossless}
use facetta.Query.Resolve.{resolve_conds}
use facetta.Query.Sweep.{query_clock, fold_matched, sweep, sort_ivs, scan_rows}
use facetta.Query.Sweep.Budget.{tick, sweep-scan_rows}
use facetta.Query.Sweep.Cover.{covered, fold_if}
use facetta.Query.Sweep.Sorted.{sweep-sort_ivs}
use facetta.Result.{Result, ok, err}
use facetta.Schema.{is_int, seen, Schema, Record, Config, dim_string, dim_int, validate, dim_index}
use facetta.Scratch.{group_iv_demand, iv_demand_cap, measure_shape, route, empty_scratch}
use facetta.Scratch.Room.{candidates, group_iv_demand-min}
use facetta.Snapshot.{
  Row, Snapshot, empty_snapshot, new_dicts, make_snapshot, expire_milli, row_expired,
}
use facetta.Snapshot.Build.{build_from_records, intern, intern_records}
use facetta.Snapshot.WellFormed.{IsBase}
use facetta.Stats.{stats, Counters, zero_counters}
use facetta.Store.{
  over_cap, ttl_cutoff, sync_position, Store, new_store, compact, replace_all, apply,
}
use facetta.Store.Reach.{applies, compacts, after, created, called, IsStore, Reachable-IsStore}
use facetta.Store.Swap.{IsMerge, Outcome, compact-Outcome, replace_all-Outcome}
use facetta.Strconv.{parse_int}
use facetta.View.{
  empty_delta, max_updated, lookup_id, id_key, View, new_view, find_row, tuple_matches,
}
use facetta.View.Apply.{apply_delta}
use facetta.View.Apply.Batch.{apply_delta-IsDelta, apply_delta-base}
use facetta.View.Apply.Index.{IsDelta, IsDelta-empty_delta}
use facetta.View.Find.{find_row_sound, find_row_complete}
use facetta.View.Merge.{dropped_base, dead_row, zip_rows}
use facetta.View.Merge.Zip.{count_if, Ascending, zip_rows-Ascending, count_if-zip_rows}

abbrev pub shop : Schema
shop = record {
  dims =
      record { name = bytes "color"; dim_type = dim_string }
      ∷ record { name = bytes "size"; dim_type = dim_int }
      ∷ [];
  index_dims = 2;
  metrics = bytes "sales" ∷ [];
}

abbrev pub sale : Str → Str → ℕ → ℕ → Record ℕ
sale color size sales day = record {
  dims = color ∷ size ∷ [];
  metrics = sales ∷ [];
  updated_at = pos day;
  expire_at = none;
}

abbrev pub sales : List (Record ℕ)
sales =
    sale (bytes "red") (bytes "40") 5 1
    ∷ sale (bytes "blue") (bytes "41") 7 2
    ∷ sale (bytes "green") (bytes "40") 9 3
    ∷ sale (bytes "blue") (bytes "41") 8 4
    ∷ []

abbrev pub row : ℕ → ℕ → ℕ → ℕ → Row ℕ
row color size sales day = record {
  ids = color ∷ size ∷ [];
  mets = sales ∷ [];
  updated = pos day;
  expire = pos 0;
}

abbrev pub colors : Dict
colors = record {
  numeric = false;
  ids = (bytes "green", 2) ∷ (bytes "blue", 1) ∷ (bytes "red", 0) ∷ [];
  strs = bytes "red" ∷ bytes "blue" ∷ bytes "green" ∷ [];
  ids_n = [];
  vals = [];
}

abbrev pub sizes : Dict
sizes = record {
  numeric = true;
  ids = [];
  strs = [];
  ids_n = (pos 41, 1) ∷ (pos 40, 0) ∷ [];
  vals = pos 40 ∷ pos 41 ∷ [];
}

-- What `buildFromRecords` makes of the sales.
abbrev pub table : Snapshot ℕ
table = record {
  dicts = colors ∷ sizes ∷ [];
  rows = row 0 0 5 1 ∷ row 1 1 8 4 ∷ row 2 0 9 3 ∷ [];
  keys = 0 ∷ 3 ∷ 4 ∷ [];
  shifts = 1 ∷ 0 ∷ [];
  max_updated = pos 4;
  min_updated = pos 1;
  min_expire = pos 0;
}

pub built_test : build_from_records shop sales (pos 0) (pos 10) ≡ ok table
unfolding build_from_records intern_records intern parse_int get_or_add get_or_add_n new_dict
    new_dicts make_snapshot compute_shifts pack_key len expire_milli row_expired sort_by
built_test = refl

table-ascending :
    (i j : ℕ) → i ≤ j → j < length table.keys → get_or table.keys i 0 ≤ get_or table.keys j 0
table-ascending zero j le lt = omega arith
table-ascending (suc i) zero le lt = absurd (omega arith)
table-ascending (suc zero) (suc zero) le lt = omega arith
table-ascending (suc zero) (suc (suc zero)) le lt = omega arith
table-ascending (suc zero) (suc (suc (suc j))) le lt = absurd (omega arith)
table-ascending (suc (suc i)) (suc zero) le lt = absurd (omega arith)
table-ascending (suc (suc zero)) (suc (suc zero)) le lt = omega arith
table-ascending (suc (suc zero)) (suc (suc (suc j))) le lt = absurd (omega arith)
table-ascending (suc (suc (suc i))) (suc (suc zero)) le lt = absurd (omega arith)
table-ascending (suc (suc (suc i))) (suc (suc (suc j))) le lt = absurd (omega arith)

abbrev IsTableRow : Row ℕ → Type 0
IsTableRow r = Below (3 ∷ 2 ∷ []) r.ids × (length r.ids ≡ 2)

table_rows : (r : ℕ) (x : Row ℕ) → get_elem? table.rows r ≡ some x → IsTableRow x
table_rows zero x h =
    let same : row 0 0 5 1 ≡ x = cc h in
    subst IsTableRow same ((omega arith, (omega arith, tt)), omega arith)
table_rows (suc zero) x h =
    let same : row 1 1 8 4 ≡ x = cc h in
    subst IsTableRow same ((omega arith, (omega arith, tt)), omega arith)
table_rows (suc (suc zero)) x h =
    let same : row 2 0 9 3 ≡ x = cc h in
    subst IsTableRow same ((omega arith, (omega arith, tt)), omega arith)
table_rows (suc (suc (suc r))) x h = cc

pub table-IsBase : IsBase shop table
unfolding compute_shifts len pack_key
table-IsBase = record {
  shifted = refl;
  keyed = refl;
  ascending = table-ascending;
  in_dicts = λ r x h. (table_rows r x h).0;
  whole = λ r x h. omega (arith, (table_rows r x h).1);
  sized = refl;
  full = λ r x h. (table_rows r x h).1;
}

prefix_interval_example :
    ((pack_key (1 ∷ 0 ∷ []) (1 ∷ []) ≤ pack_key (1 ∷ 0 ∷ []) (take 2 (1 ∷ 1 ∷ [])))
      × (pack_key (1 ∷ 0 ∷ []) (take 2 (1 ∷ 1 ∷ []))
          ≤ key_span_top (pack_key (1 ∷ 0 ∷ []) (1 ∷ [])) (get_or (1 ∷ 0 ∷ []) 0 0)))
    ↔ (take {A = ℕ} 1 (1 ∷ 1 ∷ []) ≡ 1 ∷ [])
unfolding compute_shifts
prefix_interval_example =
    prefix_interval (3 ∷ 2 ∷ []) 2 (1 ∷ 0 ∷ []) (1 ∷ 1 ∷ []) 1 [] refl
      (omega arith, (omega arith, tt)) (omega arith, tt) (omega arith) (omega arith)

prefix_rows_iff_example :
    ((prefix_rows table (1 ∷ [])).lo ≤ 1) × (1 < (prefix_rows table (1 ∷ [])).hi)
    ↔ (take {A = ℕ} 1 (1 ∷ 1 ∷ []) ≡ 1 ∷ [])
unfolding len
prefix_rows_iff_example =
    prefix_rows_iff shop table table-IsBase 1 [] 1 (row 1 1 8 4) (omega arith, tt) (omega arith)
      refl

abbrev pub pinned : GroupPlan
pinned = record fresh_plan { cond_n = 1 }

abbrev pub blue_only : QueryScratch
blue_only = record (empty_scratch 1) { cond_dims = 0 ∷ []; cond_ids = 1 ∷ [] }

plan_prefix_lossless_example :
    (match_base
        (plan_prefix table (searched shop (0 ∷ []) (1 ∷ [])) pinned blue_only).0
        (plan_prefix table (searched shop (0 ∷ []) (1 ∷ [])) pinned blue_only).1
        1
        (1 ∷ 1 ∷ [])
      ≡ match_eqs (0 ∷ []) (1 ∷ []) (1 ∷ 1 ∷ []))
    × (match_eqs (0 ∷ []) (1 ∷ []) (1 ∷ 1 ∷ []) ≡ true
        → covered 1 (plan_prefix table (searched shop (0 ∷ []) (1 ∷ [])) pinned blue_only).1.ivs
          ≡ true)
unfolding all_base len empty_scratch
plan_prefix_lossless_example =
    plan_prefix_lossless shop table table-IsBase (0 ∷ []) (1 ∷ []) pinned blue_only 1 (row 1 1 8 4)
      refl (omega arith)
      (record {
        alive = refl;
        possible = refl;
        unscanned = refl;
        dims_view = refl;
        ids_view = refl;
      })
      refl

abbrev pub tens : List ℕ
tens = 10 ∷ 20 ∷ 30 ∷ 40 ∷ []

-- A visit that collects the rows in reverse.
collect : ℕ → ℕ → List ℕ → List ℕ
collect r a seen = a ∷ seen

sweep-sort_ivs_example :
    sweep collect tens 0 (sort_ivs (record { lo = 2; hi = 4 } ∷ record { lo = 0; hi = 3 } ∷ [])) []
    ≡ fold_if collect
        (λ r. covered r (record { lo = 2; hi = 4 } ∷ record { lo = 0; hi = 3 } ∷ []))
        0
        tens
        []
sweep-sort_ivs_example =
    sweep-sort_ivs collect tens (record { lo = 2; hi = 4 } ∷ record { lo = 0; hi = 3 } ∷ []) []

sweep-scan_rows_example :
    sweep tick tens 0 (record { lo = 0; hi = 3 } ∷ record { lo = 2; hi = 4 } ∷ []) 0
    ≡ 0 + scan_rows 0 (record { lo = 0; hi = 3 } ∷ record { lo = 2; hi = 4 } ∷ [])
sweep-scan_rows_example =
    sweep-scan_rows tens 0 (record { lo = 0; hi = 3 } ∷ record { lo = 2; hi = 4 } ∷ []) 0
      (omega arith, (omega arith, tt))

find_row-sound_example :
    (x : Row ℕ) × (get_elem? table.rows 1 ≡ some x) × (tuple_matches x.ids (1 ∷ 1 ∷ []) ≡ true)
unfolding find_row pack_key search tuple_matches
find_row-sound_example = find_row_sound shop table table-IsBase (1 ∷ 1 ∷ []) 1 refl

find_row-complete_example : (q : ℕ) × (find_row shop table (1 ∷ 1 ∷ []) ≡ some q)
unfolding tuple_matches
find_row-complete_example =
    find_row_complete shop table table-IsBase (1 ∷ 1 ∷ []) 1 (row 1 1 8 4) refl refl (omega arith)

abbrev pub old_rows : List (ℕ × (Bool × Row ℕ))
old_rows = (0, (false, row 0 0 5 1)) ∷ (3, (true, row 1 1 8 4)) ∷ []

abbrev pub new_rows : List (ℕ × Row ℕ)
new_rows = (3, row 1 1 6 5) ∷ []

big_sale : ℕ × Row ℕ → Bool
big_sale (k, r) = ltb 4 (get_or r.mets 0 0)

zip_rows-Ascending_example : Ascending (zip_rows (pos 0) (pos 10) old_rows new_rows)
zip_rows-Ascending_example =
    zip_rows-Ascending (pos 0) (pos 10) old_rows new_rows ((omega arith, tt), (tt, tt)) (tt, tt)

count_if-zip_rows_example :
    count_if big_sale (zip_rows (pos 0) (pos 10) old_rows new_rows)
    ≡ count_if (λ b. not (dropped_base (pos 0) (pos 10) b.1) && big_sale (b.0, b.1.1)) old_rows
      + count_if (λ d. not (dead_row (pos 0) (pos 10) d.1) && big_sale d) new_rows
count_if-zip_rows_example = count_if-zip_rows (pos 0) (pos 10) big_sale old_rows new_rows

get_or_add_lem_example :
    InternedStr
      (new_dict false)
      (get_or_add (new_dict false) (bytes "red")).0
      (bytes "red")
      (get_or_add (new_dict false) (bytes "red")).1
unfolding new_dict
get_or_add_lem_example =
    get_or_add_lem (new_dict false) (IsDict-new_dict false) (bytes "red") (omega arith)

get_or_add_n_lem_example :
    InternedVal
      (new_dict true)
      (get_or_add_n (new_dict true) (pos 40)).0
      (pos 40)
      (get_or_add_n (new_dict true) (pos 40)).1
unfolding new_dict
get_or_add_n_lem_example =
    get_or_add_n_lem (new_dict true) (IsDict-new_dict true) (pos 40) (omega arith)

two-ascending : AscendingIds (slice (9 ∷ 2 ∷ 5 ∷ 7 ∷ []) 1 2)
two-ascending zero zero le lt = omega arith
two-ascending zero (suc zero) le lt = omega arith
two-ascending zero (suc (suc j)) le lt = absurd (omega arith)
two-ascending (suc i) zero le lt = absurd (omega arith)
two-ascending (suc zero) (suc zero) le lt = omega arith
two-ascending (suc i) (suc (suc j)) le lt = absurd (omega arith)
two-ascending (suc (suc i)) (suc zero) le lt = absurd (omega arith)

match_one_in-linear_probe_example :
    (match_one_in (record { dim = 0; off = 1; n = 2 }) (9 ∷ 2 ∷ 5 ∷ 7 ∷ []) 5 ≡ true) ↔ (
      (i : ℕ) × (i < length {A = ℕ} (slice (9 ∷ 2 ∷ 5 ∷ 7 ∷ []) 1 2))
      × (get_or {A = ℕ} (slice (9 ∷ 2 ∷ 5 ∷ 7 ∷ []) 1 2) i 0 ≡ 5))
match_one_in-linear_probe_example =
    match_one_in-linear_probe (record { dim = 0; off = 1; n = 2 }) (9 ∷ 2 ∷ 5 ∷ 7 ∷ []) 5
      two-ascending

abbrev pub blue_or_red : List Cond
blue_or_red =
    record {
      dim = bytes "color";
      value = [];
      in_values = bytes "blue" ∷ bytes "red" ∷ [];
      range = none;
    }
    ∷ []

group_iv_demand-min_example :
    group_iv_demand blue_or_red ≡ min (candidates blue_or_red) iv_demand_cap
group_iv_demand-min_example = group_iv_demand-min blue_or_red

abbrev pub limits : Config
limits = record {
  ttl = pos 0;
  max_rows = pos 2;
  max_scan_rows = pos 0;
  dict_compact_interval = pos 0;
}

abbrev pub empty_store : Store ℕ
empty_store = record {
  sc = shop;
  cfg = limits;
  view = new_view shop (empty_snapshot shop);
  counters = zero_counters;
  cap_blocked = false;
  last_dict_compact = pos 0;
}

-- A checksum, and numbers that are their own bits.
pub checksum : List ℕ → ℕ
checksum [] = 0
checksum (b ∷ bs) = (b + checksum bs) % 2 ^ 32

pub checksum-lt : (bs : List ℕ) → checksum bs < 2 ^ 32
unfolding checksum
checksum-lt [] = omega arith
checksum-lt (b ∷ bs) = omega arith

instance abbrev pub sums : Hashes
sums = record { crc = checksum; fnv = checksum }

instance abbrev pub whole_bits : FloatBits ℕ
whole_bits = record { to_bits = λ n. n; of_bits = λ n. n }

abbrev sold_store : Store ℕ
sold_store = (apply empty_store sales (pos 10)).0

compact-Outcome_example :
    (r : Result (Snapshot ℕ)) × IsMerge sold_store (pos 20) (pos 20) (pos 20) r
    × Outcome sold_store r (compact sold_store (pos 20) (pos 20) (pos 20))
compact-Outcome_example = compact-Outcome sold_store (pos 20) (pos 20) (pos 20)

replace_all-Outcome_example :
    Outcome empty_store
      (build_from_records shop sales (ttl_cutoff limits (pos 20)) (pos 0))
      (replace_all empty_store sales (pos 20) (pos 20))
replace_all-Outcome_example = replace_all-Outcome empty_store sales (pos 20) (pos 20)

Reachable-IsStore_example :
    IsStore
      (after (after empty_store (applies sales (pos 10))) (compacts (pos 20) (pos 20) (pos 20)))
unfolding new_store validate seen
Reachable-IsStore_example =
    Reachable-IsStore shop limits
      (after (after empty_store (applies sales (pos 10))) (compacts (pos 20) (pos 20) (pos 20)))
      (called (after empty_store (applies sales (pos 10))) (compacts (pos 20) (pos 20) (pos 20))
        (called empty_store (applies sales (pos 10)) (created empty_store refl)))

bit_get-bit_set_example :
    bit_get (bit_set (0 ∷ 0 ∷ []) 70) 70 ≡ (if 70 == 70 then true else bit_get (0 ∷ 0 ∷ []) 70)
bit_get-bit_set_example = bit_get-bit_set (0 ∷ 0 ∷ []) 70 70 (omega arith)

abbrev pub shop_view : View ℕ
shop_view = new_view shop table

abbrev pub late_sale : List (Record ℕ)
late_sale = sale (bytes "blue") (bytes "41") 3 9 ∷ []

abbrev pub view_of : Result (View ℕ × ℕ) → View ℕ
view_of (ok (v, dropped)) = v
view_of (err e) = shop_view

abbrev pub late_view : View ℕ
late_view = view_of (apply_delta shop shop_view late_sale (pos 0) false)

pub late_view_lem : apply_delta shop shop_view late_sale (pos 0) false ≡ ok (late_view, 0)
unfolding apply_delta new_view new_dicts new_dict parse_int lookup lookup_n len find_row pack_key
    search id_key expire_milli tuple_matches make_bitmap bit_set
late_view_lem = refl

apply_delta-IsDelta_example : IsDelta late_view.delta
unfolding new_view
apply_delta-IsDelta_example =
    apply_delta-IsDelta shop (pos 0) false shop_view late_view late_sale 0 IsDelta-empty_delta
      late_view_lem

abbrev pub scratch_of : Result QueryScratch × Counters → QueryScratch
scratch_of (ok qs, c) = qs
scratch_of (err e, c) = empty_scratch 0

abbrev pub two_groups : List (List Cond)
two_groups = blue_or_red ∷ [] ∷ []

abbrev pub planned_out : QueryScratch
planned_out =
    scratch_of
      (plan_each shop shop_view two_groups (route 0 (measure_shape two_groups 0)) zero_counters)

abbrev pub counters_out : Counters
counters_out =
    (plan_each shop shop_view two_groups (route 0 (measure_shape two_groups 0)) zero_counters).1

planned_lem :
    plan_each shop shop_view two_groups (route 0 (measure_shape two_groups 0)) zero_counters
    ≡ (ok planned_out, counters_out)
unfolding plan_each route measure_shape plan resolve_conds dim_index lookup_id len search pack_key
    is_int lookup new_view
planned_lem = refl

plan_each-route_example : length planned_out.ivs ≤ (route 0 (measure_shape two_groups 0)).ivs_cap
plan_each-route_example =
    plan_each-route shop shop_view two_groups 0 0 planned_out zero_counters counters_out planned_lem

abbrev pub in_scratch : QueryScratch
in_scratch = record (empty_scratch 3) {
  in_wins = record { dim = 0; off = 0; n = 2 } ∷ [];
  in_pool = 0 ∷ 1 ∷ [];
}

abbrev pub in_plan : GroupPlan
in_plan = record fresh_plan { ins_n = 1 }

plan_expand_room_example :
    (length (plan_expand shop table in_plan in_scratch 1).1.ivs + 1 ≤ in_scratch.ivs_cap)
    × ((plan_expand shop table in_plan in_scratch 1).1.ivs_cap ≡ in_scratch.ivs_cap)
unfolding empty_scratch
plan_expand_room_example = plan_expand_room table shop in_plan in_scratch 1 (omega arith)

instance abbrev pub whole_numbers : Float64 ℕ
whole_numbers = record {
  zero = 0;
  nan = 0;
  add = λ a b. a + b;
  lt = ltb;
  div = λ a b. a / b;
  of_count = λ n. n;
}

query_test :
    (query_groups shop limits shop_view two_groups
      (route 0 (measure_shape two_groups 0))
      (pos 20)
      zero_counters).0
    ≡ ok (22 ∷ [])
unfolding query_groups plan resolve_conds dim_index is_int lookup_id lookup new_view new_dicts
    new_dict search pack_key route measure_shape fold_matched len sort_by plan_each plan_groups
    query_clock sort_ivs empty_scratch empty_delta full_scan plan_expand base_matched match_base
    match_eqs bit_get bit_len push_iv
query_test = refl

aggs_test :
    (query_aggs shop limits shop_view
      (record { metric = []; dim = bytes "size"; op = agg_distinct } ∷ [])
      (blue_or_red ∷ [])
      (route 0 (measure_shape two_groups 1))
      (pos 20)
      zero_counters).0
    ≡ ok (2 ∷ [])
unfolding query_aggs plan resolve_conds dim_index is_int lookup_id lookup new_view new_dicts
    new_dict search pack_key route measure_shape fold_matched len sort_by plan_each plan_groups
    query_clock sort_ivs empty_scratch empty_delta full_scan plan_expand base_matched match_base
    match_eqs bit_get bit_len push_iv make_bitmap bit_set
aggs_test = refl

stats_test : (stats shop shop_view zero_counters).index_key_bits ≡ 3
unfolding stats total dict_bits new_view new_dicts len new_dict
stats_test = refl

sync_test : sync_position (replace_all empty_store sales (pos 20) (pos 20)).0 ≡ none
unfolding sync_position max_updated ttl_cutoff over_cap replace_all build_from_records
    intern_records new_dicts parse_int compute_shifts len get_or_add new_dict get_or_add_n
    make_snapshot sort_by pack_key row_expired expire_milli new_view empty_snapshot total
    empty_delta
sync_test = refl
