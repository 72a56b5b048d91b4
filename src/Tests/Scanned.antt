-- ===== src/Tests/Scanned.antt =====
-- A planned query with an IN condition on an index dimension, over a built snapshot, and a batch with
-- a new value.
use facetta.Prelude.{ℕ, zero, suc, ◌+◌, ◌^◌, ◌<◌, ◌≡◌, refl, false, [], ◌∷◌, get_or, length, arith}
use facetta.Prelude.Int.{pos}
use facetta.Prelude.Maps.{str_eq, int_eq}
use facetta.Prelude.Search.{search}
use facetta.Result.{ok}
use facetta.Schema.{dim_index, is_int}
use facetta.Strconv.{parse_int}
use facetta.Bitmap.{make_bitmap, bit_set}
use facetta.Dict.{lookup, lookup_n, len, new_dict}
use facetta.Keys.{pack_key}
use facetta.Snapshot.{Row, new_dicts, expire_milli, track_rows}
use facetta.Snapshot.Build.Decoded.{build_from_records-IsDecoded}
use facetta.Stats.{Counters, zero_counters}
use facetta.View.{new_view, lookup_id, dict_at, find_row, tuple_matches, id_key}
use facetta.Query.{QueryScratch}
use facetta.Query.Groups.{plan_groups, plan_each}
use facetta.Query.Plan.{plan}
use facetta.Query.Resolve.{resolve_conds}
use facetta.Query.Scan.Answer.{answer, fold_matched-answer}
use facetta.Query.Scan.Built.{fold_matched-built}
use facetta.Query.Scan.Meaning.{IsDecoded}
use facetta.Query.Scan.Whole.{scan_all, fold_matched-scan_all}
use facetta.Query.Sweep.{query_clock, fold_matched}
use facetta.Scratch.{empty_scratch}
use facetta.View.Apply.{apply_delta}
use facetta.View.Apply.Decoded.{apply_delta-IsDecoded}
use facetta.View.Apply.Index.{IsDelta-empty_delta}
use facetta.Tests.{
  shop, limits, shop_view, table, table-IsBase, blue_or_red, scratch_of, late_sale, sales,
  built_test, late_view, late_view_lem,
}

abbrev scanned_out : QueryScratch
scanned_out =
    scratch_of
      (plan_groups shop limits shop_view (blue_or_red ∷ []) (empty_scratch 16) zero_counters)

abbrev counted_out : Counters
counted_out =
    (plan_groups shop limits shop_view (blue_or_red ∷ []) (empty_scratch 16) zero_counters).1

abbrev add_sales : Row ℕ → ℕ → ℕ
add_sales row n = n + get_or row.mets 0 0

scanned_lem :
    plan_groups shop limits shop_view (blue_or_red ∷ []) (empty_scratch 16) zero_counters
    ≡ (ok scanned_out, counted_out)
unfolding plan_groups empty_scratch plan_each plan resolve_conds dim_index lookup_id len search
    pack_key is_int lookup new_view
scanned_lem = refl

table_few : (d : ℕ) → d < 2 → len (dict_at table.dicts d) < 2 ^ 32
unfolding len
table_few zero lt = omega arith
table_few (suc zero) lt = omega arith
table_few (suc (suc d)) lt = absurd (omega arith)

fold_matched-scan_all_example :
    fold_matched shop_view (query_clock shop_view (pos 20)) scanned_out add_sales 0
    ≡ scan_all shop_view (query_clock shop_view (pos 20)) scanned_out add_sales 0
unfolding new_view
fold_matched-scan_all_example =
    fold_matched-scan_all shop shop_view table-IsBase limits (blue_or_red ∷ []) 16 zero_counters
      counted_out scanned_out (query_clock shop_view (pos 20)) add_sales 0 table_few scanned_lem

build_from_records-IsDecoded_example :
    IsDecoded shop (new_view shop table) × (length (new_view shop table).extras ≡ 2)
build_from_records-IsDecoded_example =
    build_from_records-IsDecoded shop sales (pos 0) (pos 10) table (omega arith) built_test
      table_few

shop_view-IsDecoded : IsDecoded shop shop_view
shop_view-IsDecoded =
    (build_from_records-IsDecoded shop sales (pos 0) (pos 10) table (omega arith) built_test
      table_few).0

fold_matched-answer_example :
    fold_matched shop_view (query_clock shop_view (pos 20)) scanned_out add_sales 0
    ≡ answer shop shop_view (pos 20) (blue_or_red ∷ []) add_sales 0
unfolding new_view track_rows
fold_matched-answer_example =
    fold_matched-answer shop shop_view shop_view-IsDecoded limits (blue_or_red ∷ []) 16
      zero_counters counted_out scanned_out (pos 20) add_sales 0 IsDelta-empty_delta refl
      scanned_lem

fold_matched-built_example :
    fold_matched shop_view (query_clock shop_view (pos 20)) scanned_out add_sales 0
    ≡ answer shop shop_view (pos 20) (blue_or_red ∷ []) add_sales 0
fold_matched-built_example =
    fold_matched-built shop sales (pos 0) (pos 10) table limits (blue_or_red ∷ []) 16 zero_counters
      counted_out scanned_out (pos 20) add_sales 0 (omega arith) built_test table_few scanned_lem

late_view_few :
    (d : ℕ)
    → d < 2
    → len (dict_at late_view.base.dicts d) + len (dict_at late_view.extras d) < 2 ^ 32
unfolding apply_delta new_view new_dicts new_dict parse_int lookup lookup_n len find_row pack_key
    search id_key expire_milli tuple_matches make_bitmap bit_set
late_view_few zero lt = omega arith
late_view_few (suc zero) lt = omega arith
late_view_few (suc (suc d)) lt = absurd (omega arith)

apply_delta-IsDecoded_example : IsDecoded shop late_view × (length late_view.extras ≡ 2)
unfolding new_view new_dicts
apply_delta-IsDecoded_example =
    apply_delta-IsDecoded shop (pos 0) false shop_view late_view late_sale 0 shop_view-IsDecoded
      refl late_view_lem late_view_few
