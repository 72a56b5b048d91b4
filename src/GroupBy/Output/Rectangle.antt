-- ===== src/GroupBy/Output/Rectangle.antt =====
-- groupby.go: the visits keep a key per grouped dimension and an accumulator per column.
use facetta.Prelude.{
  ℕ, suc, ◌≡◌, refl, ◌∙◌, Option, none, some, List, [], ◌∷◌, length, map, get_or, arith,
  length-append, length-map, length-set,
}
use facetta.Prelude.Int.{ℤ}
use facetta.Prelude.Maps.{Str, find, str_eq}
use facetta.Prelude.All.{All, All-append, All-set, All-get_or}
use facetta.Float.{Float64}
use facetta.Snapshot.{Row}
use facetta.View.{View, dim_string}
use facetta.Query.{QueryScratch}
use facetta.Query.Match.{id_at}
use facetta.Query.Sweep.{query_clock}
use facetta.Query.Sweep.Relate.{fold_matched_related}
use facetta.Agg.{Column}
use facetta.GroupBy.{
  Grouping, group_key, first_agg, more_aggs, open_group, join_group, visit_found, visit, no_groups,
  grouping,
}
use facetta.GroupBy.Visit.Values.{length-more_aggs}

abbrev pub Wide {ℓ} : {A : Type ℓ} → ℕ → List A → Type 0
Wide w l = length l ≡ w

module _ {F : Type 0} ⦃fl : Float64 F⦄ (v : View F) (by : List ℕ) (cs : List Column) where
  -- Each group has a key per grouped dimension and an accumulator per column.
  pub record IsRectangular (st : Grouping F) : Type 0 where
    pub keys : All (Wide (length by)) st.skeys
    pub aggs : All (Wide (length cs)) st.saggs
    pub as_many_keys : length st.skeys ≡ length st.cnt
    pub as_many_aggs : length st.saggs ≡ length st.cnt

  open_group-IsRectangular :
      (row : Row F) (kb : Str) (st : Grouping F)
      → IsRectangular st
      → IsRectangular (open_group v by cs row kb st)
  unfolding open_group
  open_group-IsRectangular row kb st h = record {
    keys = All-append (Wide (length by)) st.skeys _ h.keys (length-map by _);
    aggs = All-append (Wide (length cs)) st.saggs _ h.aggs (length-map cs (first_agg row));
    as_many_keys = omega (
      arith,
      h.as_many_keys,
      length-append st.skeys (map (λ d. dim_string v d (id_at row.ids d)) by ∷ []),
      length-append st.cnt (1 ∷ []),
    );
    as_many_aggs = omega (
      arith,
      h.as_many_aggs,
      length-append st.saggs (map (first_agg row) cs ∷ []),
      length-append st.cnt (1 ∷ []),
    );
  }

  join_group-IsRectangular :
      (row : Row F) (g : ℕ) (st : Grouping F)
      → IsRectangular st
      → IsRectangular (join_group cs row g st)
  unfolding join_group
  join_group-IsRectangular row g st h =
      let xs = get_or st.saggs g [] in
      let more = (more_aggs 0 g row cs st.dset xs).1 in
      let counted = length-set st.cnt g (suc (get_or st.cnt g 0)) in
      record {
        keys = h.keys;
        aggs = All-set (Wide (length cs)) st.saggs g more h.aggs (λ lt.
            length-more_aggs 0 g row cs st.dset xs
            ∙ All-get_or (Wide (length cs)) st.saggs g [] h.aggs lt);
        as_many_keys = omega (arith, h.as_many_keys, counted);
        as_many_aggs = omega (arith, h.as_many_aggs, counted, length-set st.saggs g more);
      }

  visit_found-IsRectangular :
      (row : Row F) (kb : Str) (found : Option ℕ) (st : Grouping F)
      → IsRectangular st
      → IsRectangular (visit_found v by cs row kb found st)
  unfolding visit_found
  visit_found-IsRectangular row kb none st h = open_group-IsRectangular row kb st h
  visit_found-IsRectangular row kb (some g) st h = join_group-IsRectangular row g st h

  visit-IsRectangular :
      (row : Row F) (st : Grouping F) → IsRectangular st → IsRectangular (visit v by cs row st)
  unfolding visit
  visit-IsRectangular row st h =
      visit_found-IsRectangular row (group_key by row.ids) (find (group_key by row.ids) st.idx) st h

  pub grouping-IsRectangular :
      (now : ℤ) (qs : QueryScratch) → IsRectangular (grouping v now by cs qs)
  unfolding grouping no_groups
  grouping-IsRectangular now qs =
      fold_matched_related v (query_clock v now) qs (λ st other. IsRectangular st) (visit v by cs)
        (λ (row : Row F) (u : Unit {0}). u) (λ row st other h. visit-IsRectangular row st h)
        no_groups tt (record { keys = tt; aggs = tt; as_many_keys = refl; as_many_aggs = refl })
