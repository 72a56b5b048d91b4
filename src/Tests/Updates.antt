-- ===== src/Tests/Updates.antt =====
-- Concrete upserts and expansions.
use facetta.Prelude.{
  ◌≡◌, refl, false, true, ◌&&◌, ◌||◌, none, some, List, [], ◌∷◌, if◌then◌else◌, arith,
}
use facetta.Prelude.Int.{pos}
use facetta.Prelude.Maps.{find, str_eq, eqb_str}
use facetta.Keys.{bit_len}
use facetta.View.{new_view, id_key, find_row}
use facetta.View.Apply.{upsert_tuple, newer_at, is_none}
use facetta.View.Apply.Index.{IsDelta-empty_delta}
use facetta.View.Apply.Latest.{latest, accept, upsert_tuple-latest, NoOlder, apply_delta-NoOlder}
use facetta.Query.Expand.{Cover, affordable, is_some, expand_over}
use facetta.Query.Expand.Odometer.{all_combinations, emit_each, expand_over-emit_each}
use facetta.Query.{fresh_plan}
use facetta.Scratch.{empty_scratch}
use facetta.Snapshot.WellFormed.{IsBase}
use facetta.Snapshot.Build.Base.{build_from_records-IsBase}
use facetta.View.Apply.Raised.{IsRaised, apply_delta-IsRaised}
use facetta.Tests.{sales, built_test, shop, table, shop_view, late_sale, late_view, late_view_lem}

apply_delta-NoOlder_example : NoOlder shop_view.delta late_view.delta
unfolding new_view
apply_delta-NoOlder_example =
    apply_delta-NoOlder shop (pos 0) false shop_view late_view late_sale 0 IsDelta-empty_delta
      late_view_lem

apply_delta-IsRaised_example : IsRaised shop_view.delta late_view.delta late_sale
apply_delta-IsRaised_example =
    apply_delta-IsRaised shop (pos 0) false shop_view late_view late_sale 0 late_view_lem

upsert_tuple-latest_example :
    latest
      (upsert_tuple shop shop_view true false
        (1 ∷ 1 ∷ [])
        (3 ∷ [])
        (pos 9)
        (pos 0)
        0
        (find (id_key (1 ∷ 1 ∷ [])) shop_view.delta.index)).0.delta
      (id_key (1 ∷ 1 ∷ []))
    ≡ (if eqb_str (id_key (1 ∷ 1 ∷ [])) (id_key (1 ∷ 1 ∷ []))
        then accept
            (newer_at shop_view.base.rows (pos 9) (find_row shop shop_view.base (1 ∷ 1 ∷ []))
              || (false && is_none (find_row shop shop_view.base (1 ∷ 1 ∷ []))))
            (record { mets = 3 ∷ []; updated = pos 9; expire = pos 0 })
            (latest shop_view.delta (id_key (1 ∷ 1 ∷ [])))
        else latest shop_view.delta (id_key (1 ∷ 1 ∷ [])))
unfolding new_view
upsert_tuple-latest_example =
    upsert_tuple-latest shop shop_view true false (1 ∷ 1 ∷ []) (3 ∷ []) (pos 9) (pos 0) 0
      (id_key (1 ∷ 1 ∷ [])) IsDelta-empty_delta

abbrev blue_sizes : List Cover
blue_sizes = record { eq = some 1; cand = [] } ∷ record { eq = none; cand = 0 ∷ 1 ∷ [] } ∷ []

expand_over-emit_each_example :
    expand_over table blue_sizes fresh_plan (empty_scratch 4)
    ≡ emit_each table (all_combinations blue_sizes) fresh_plan (empty_scratch 4)
unfolding affordable is_some bit_len
expand_over-emit_each_example =
    expand_over-emit_each table 100 4 blue_sizes (record { eq = some 1; cand = [] })
      (record { eq = none; cand = 0 ∷ 1 ∷ [] } ∷ []) fresh_plan (empty_scratch 4) refl

build_from_records-IsBase_example : IsBase shop table
build_from_records-IsBase_example =
    build_from_records-IsBase shop sales (pos 0) (pos 10) table (omega arith) built_test
