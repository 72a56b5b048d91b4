-- ===== src/GroupBy/Output/Layout.antt =====
-- groupby.go: the result of `queryGroupBy`, its order and its layout.
use mathlib.Core.Path.{subst}
use facetta.Prelude.{
  ℕ, suc, ◌*◌, ◌≡◌, refl, sym, ap, ◌∙◌, Bool, true, some, List, [], ◌∷◌, length, map, take, drop,
  get_elem?, get_elem?-map, arith,
}
use facetta.Prelude.Int.{ℤ}
use facetta.Prelude.Maps.{Str, str_eq}
use facetta.Prelude.Sort.{sort_by}
use facetta.Schema.{Schema, Config}
use facetta.Result.{Result, ok, err, ok_inj}
use facetta.Float.{Float64}
use facetta.View.{View}
use facetta.Stats.{Counters}
use facetta.Query.{Cond, QueryScratch}
use facetta.Query.Groups.{plan_groups}
use facetta.Agg.{Agg, Column, resolve_aggs}
use facetta.View.Merge.Zip.{count_if}
use facetta.GroupBy.{
  Grouping, GroupedResult, grouping, finish_group, finish_groups, entries, group_before,
  sorted_entries, output, flatten, grouped, grouped_by, grouped_aggs, by_dims, query_group_by,
}
use facetta.GroupBy.Output.{
  InOrder, InOrder-sort_by, count_if-sort_by, keys_before_asym, take-flatten,
}
use facetta.Prelude.All.{All, All-get_elem?, All-sort_by}
use facetta.GroupBy.Output.Keyed.{IsKeyed, grouping-IsKeyed, AreGrouped, by_dims-AreGrouped}
use facetta.GroupBy.Output.Rectangle.{Wide, IsRectangular, grouping-IsRectangular}

module _ {F : Type 0} ⦃fl : Float64 F⦄ where
  -- A group of the output with a key per grouped dimension and an aggregate per column.
  abbrev Fits : ℕ → ℕ → List Str × List F → Type 0
  Fits nb na e = (length e.0 ≡ nb) × (length e.1 ≡ na)

  length-finish_group :
      (cs : List Column) (n : ℕ) (xs : List F) → length (finish_group cs n xs) ≡ length xs
  unfolding finish_group
  length-finish_group [] n xs = refl
  length-finish_group (c ∷ cs) n [] = refl
  length-finish_group (c ∷ cs) n (x ∷ xs) = ap suc (length-finish_group cs n xs)

  entries-Fits :
      (nb na : ℕ) (cs : List Column) (skeys : List (List Str)) (saggs : List (List F))
      (cnt : List ℕ)
      → All (Wide nb) skeys
      → All (Wide na) saggs
      → All (Fits nb na) (entries skeys (finish_groups cs cnt saggs))
  unfolding entries finish_groups
  entries-Fits nb na cs [] saggs cnt h h' = tt
  entries-Fits nb na cs (ks ∷ skeys) [] [] h h' = tt
  entries-Fits nb na cs (ks ∷ skeys) [] (n ∷ cnt) h h' = tt
  entries-Fits nb na cs (ks ∷ skeys) (xs ∷ saggs) [] h h' =
      ((h.0, h'.0), entries-Fits nb na cs skeys saggs [] h.1 h'.1)
  entries-Fits nb na cs (ks ∷ skeys) (xs ∷ saggs) (n ∷ cnt) h h' =
      ((h.0, length-finish_group cs n xs ∙ h'.0), entries-Fits nb na cs skeys saggs cnt h.1 h'.1)

  length-entries :
      (cs : List Column) (skeys : List (List Str)) (saggs : List (List F)) (cnt : List ℕ)
      → length skeys ≡ length cnt
      → length saggs ≡ length cnt
      → length (entries skeys (finish_groups cs cnt saggs)) ≡ length cnt
  unfolding entries finish_groups
  length-entries cs [] saggs cnt h h' = h
  length-entries cs (ks ∷ skeys) [] cnt h h' = absurd (omega arith)
  length-entries cs (ks ∷ skeys) (xs ∷ saggs) [] h h' = absurd (omega arith)
  length-entries cs (ks ∷ skeys) (xs ∷ saggs) (n ∷ cnt) h h' =
      ap suc (length-entries cs skeys saggs cnt (omega arith) (omega arith))

count_if-true {ℓ} : {A : Type ℓ} (l : List A) → count_if (λ a. true) l ≡ length l
unfolding count_if
count_if-true [] = refl
count_if-true (a ∷ l) = omega (arith, count_if-true l)

module _ {F : Type 0} ⦃fl : Float64 F⦄ where
  -- The groups `es` in the order of the output, and where the flat slices hold them.
  pub record IsOutput (by : List ℕ) (cs : List Column) (st : Grouping F)
      (es : List (List Str × List F)) (res : GroupedResult F) : Type 0 where
    pub sorted : InOrder group_before es
    pub complete :
        (p : List Str × List F → Bool)
        → count_if p es ≡ count_if p (entries st.skeys (finish_groups cs st.cnt st.saggs))
    pub one_each : (res.n ≡ length es) × (res.n ≡ length st.cnt)
    pub keys_at :
        (i : ℕ) (e : List Str × List F)
        → get_elem? es i ≡ some e
        → take (length by) (drop (i * length by) res.keys) ≡ e.0
    pub aggs_at :
        (i : ℕ) (e : List Str × List F)
        → get_elem? es i ≡ some e
        → take (length cs) (drop (i * length cs) res.aggs) ≡ e.1

  All-map :
      {A : Type 0} (f : List Str × List F → List A) (w : ℕ) (es : List (List Str × List F))
      → All (λ e. length (f e) ≡ w) es
      → All (Wide w) (map f es)
  All-map f w [] h = tt
  All-map f w (e ∷ es) h = (h.0, All-map f w es h.1)

  All-first :
      (nb na : ℕ) (es : List (List Str × List F))
      → All (Fits nb na) es
      → All (λ e. length (e.0) ≡ nb) es
  All-first nb na [] h = tt
  All-first nb na (e ∷ es) h = (h.0.0, All-first nb na es h.1)

  All-second :
      (nb na : ℕ) (es : List (List Str × List F))
      → All (Fits nb na) es
      → All (λ e. length (e.1) ≡ na) es
  All-second nb na [] h = tt
  All-second nb na (e ∷ es) h = (h.0.1, All-second nb na es h.1)

  window :
      {A : Type 0} (f : List Str × List F → List A) (w : ℕ) (es : List (List Str × List F)) (i : ℕ)
      (e : List Str × List F)
      → All (λ e. length (f e) ≡ w) es
      → get_elem? es i ≡ some e
      → take w (drop (i * w) (flatten (map f es))) ≡ f e
  window f w es i e wide at =
      take-flatten w (map f es) i (f e)
        (λ k m h. All-get_elem? (Wide w) (map f es) k m (All-map f w es wide) h)
        (get_elem?-map f es i e at)

  output-IsOutput :
      (v : View F) (by : List ℕ) (cs : List Column) (st : Grouping F)
      → IsRectangular v by cs st
      → IsOutput by cs st (sorted_entries cs st) (output (length st.cnt) (sorted_entries cs st))
  unfolding sorted_entries output group_before
  output-IsOutput v by cs st h =
      let raw = entries st.skeys (finish_groups cs st.cnt st.saggs) in
      let es = sort_by group_before raw in
      let wide : All (Fits (length by) (length cs)) es =
        All-sort_by (Fits (length by) (length cs)) group_before raw
          (entries-Fits (length by) (length cs) cs st.skeys st.saggs st.cnt h.keys h.aggs) in
      let as_many : length st.cnt ≡ length es =
        sym (length-entries cs st.skeys st.saggs st.cnt h.as_many_keys h.as_many_aggs)
        ∙ sym (count_if-true raw)
        ∙ sym (count_if-sort_by group_before (λ e. true) raw)
        ∙ count_if-true es in
      record {
        sorted = InOrder-sort_by group_before (λ a b before. keys_before_asym a.0 b.0 before) raw;
        complete = λ p. count_if-sort_by group_before p raw;
        one_each = (as_many, refl);
        keys_at = λ i e at. window (λ e. e.0) (length by) es i e (All-first _ _ es wide) at;
        aggs_at = λ i e at. window (λ e. e.1) (length cs) es i e (All-second _ _ es wide) at;
      }

  module _ (sc : Schema) (cfg : Config) (v : View F) (groups : List (List Cond)) (qs : QueryScratch)
      (now : ℤ) (c : Counters) where
    -- The successful run: the columns, the grouped dimensions and the planned query.
    pub record Run (by : Result (List ℕ)) (cs : Result (List Column)) (res : GroupedResult F)
        : Type 0 where
      pub columns : List Column
      pub dims : List ℕ
      pub planned : QueryScratch
      pub resolved : cs ≡ ok columns
      pub chosen : by ≡ ok dims
      pub budgeted : (plan_groups sc cfg v groups qs c).0 ≡ ok planned
      pub printed :
          IsOutput dims columns
            (grouping v now dims columns planned)
            (sorted_entries columns (grouping v now dims columns planned))
            res
      pub keyed : IsKeyed v dims columns (grouping v now dims columns planned)

    grouped-Run :
        (by : List ℕ) (cs : List Column) (plans : Result QueryScratch × Counters)
        (res : GroupedResult F)
        → (plan_groups sc cfg v groups qs c).0 ≡ plans.0
        → (grouped v now by cs plans).0 ≡ ok res
        → Run (ok by) (ok cs) res
    unfolding grouped
    grouped-Run by cs (err e, c') res same h = cc
    grouped-Run by cs (ok planned, c') res same h = record {
      columns = cs;
      dims = by;
      planned = planned;
      resolved = refl;
      chosen = refl;
      budgeted = same;
      printed =
          subst
            (IsOutput by cs (grouping v now by cs planned)
              (sorted_entries cs (grouping v now by cs planned)))
            (ok_inj h)
            (output-IsOutput v by cs (grouping v now by cs planned)
              (grouping-IsRectangular v by cs now planned));
      keyed = grouping-IsKeyed v by cs now planned;
    }

    grouped_by-Run :
        (by : Result (List ℕ)) (cs : List Column) (res : GroupedResult F)
        → (grouped_by sc cfg v groups qs now c cs by).0 ≡ ok res
        → Run by (ok cs) res
    unfolding grouped_by
    grouped_by-Run (err e) cs res h = cc
    grouped_by-Run (ok by) cs res h =
        grouped-Run by cs (plan_groups sc cfg v groups qs c) res refl h

    grouped_aggs-Run :
        (by : List Str) (cs : Result (List Column)) (res : GroupedResult F)
        → (grouped_aggs sc cfg v by groups qs now c cs).0 ≡ ok res
        → Run (by_dims sc by) cs res
    unfolding grouped_aggs
    grouped_aggs-Run by (err e) res h = cc
    grouped_aggs-Run by (ok cs) res h = grouped_by-Run (by_dims sc by) cs res h

    -- If `QueryGroupBy` returns without error, then it planned the query and resolved its aggregates
    -- and dimensions; the dimensions are one or more, have the given names, and differ. Each group of
    -- the matched rows has the packed ids and the key strings of some row, and ids of which the index
    -- leads to no other group. The result holds each group exactly once, in the order of the key
    -- strings, with the keys and the aggregates of group `i` in the `i`-th windows of the two flat
    -- slices.
    pub query_group_by-Run :
        (by : List Str) (aggs : List Agg) (res : GroupedResult F)
        → (query_group_by sc cfg v by aggs groups qs now c).0 ≡ ok res
        → (run : Run (by_dims sc by) (resolve_aggs sc aggs) res) × AreGrouped sc by run.dims
    unfolding query_group_by
    query_group_by-Run by aggs res h =
        let run = grouped_aggs-Run by (resolve_aggs sc aggs) res h in
        (run, by_dims-AreGrouped sc by run.dims run.chosen)
