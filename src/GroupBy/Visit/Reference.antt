-- ===== src/GroupBy/Visit/Reference.antt =====
-- groupby.go: each group of `queryGroupBy` is what its own rows make of it.
use facetta.Prelude.{
  ℕ, suc, ◌^◌, ◌≤◌, ◌≡◌, refl, false, Option, none, some, List, [], ◌∷◌, length, get_or, get_elem?,
  arith, Bool-cases, inl, inr, length-append, length-set,
}
use facetta.Prelude.Int.{ℤ}
use facetta.Prelude.Maps.{Str, find, str_eq, eqb_str}
use facetta.Float.{Float64}
use facetta.Snapshot.{Row}
use facetta.View.{View}
use facetta.Agg.{Column}
use facetta.Query.{QueryScratch}
use facetta.Query.Sweep.{query_clock, fold_matched}
use facetta.Query.Sweep.Relate.{fold_matched_related}
use facetta.GroupBy.{
  Grouping, in_dset, open_group, join_group, visit_found, visit, group_key, no_groups, grouping,
}
use facetta.GroupBy.Visit.Alone.{
  Alone, alone_step, alone, outcome, column_at, column_of, IsGrouping, Same,
}
use facetta.GroupBy.Visit.Groups.{open_group-IsGrouping, join_group-IsGrouping}
use facetta.GroupBy.Visit.Steps.{open-Same, join_same, open_other, join_other}

module _ {F : Type 0} ⦃fl : Float64 F⦄ (v : View F) (by : List ℕ) (cs : List Column) (kb : Str)
    (j : ℕ) (c : Column) (at : get_elem? cs j ≡ some c) (few : length cs ≤ 2 ^ 8) where
  -- As long as the group numbers fit, the state is in order and agrees with the group alone.
  record Agrees (st : Grouping F) (t : Option (Alone F)) : Type 0 where
    grouping : IsGrouping (length cs) st
    same : Same kb j st t

  length-open_group :
      (row : Row F) (k : Str) (st : Grouping F)
      → length (open_group v by cs row k st).cnt ≡ suc (length st.cnt)
  unfolding open_group
  length-open_group row k st = omega (arith, length-append st.cnt (1 ∷ []))

  length-join_group :
      (row : Row F) (g : ℕ) (st : Grouping F) → length (join_group cs row g st).cnt ≡ length st.cnt
  unfolding join_group
  length-join_group row g st = length-set st.cnt g (suc (get_or st.cnt g 0))

  step-Same :
      (row : Row F) (st : Grouping F) (t : Option (Alone F)) (found : Option ℕ)
      → find kb st.idx ≡ found
      → length (visit_found v by cs row kb found st).cnt ≤ 2 ^ 32
      → IsGrouping (length cs) st
      → Same kb j st t
      → Same kb j (visit_found v by cs row kb found st) (alone_step c row t)
  unfolding visit_found alone_step
  step-Same row st none none e small inv h =
      open-Same v by cs row kb j c at few st inv e (omega (arith, length-open_group row kb st))
  step-Same row st none (some g) e small inv h = cc
  step-Same row st (some a) none e small inv h = cc (h.found)
  step-Same row st (some a) (some g) e small inv h =
      let equal : g ≡ h.g = cc (h.found) in
      rw equal (join_same v by cs row kb j c at few st inv a h)

  step_other :
      (row : Row F) (k : Str) (st : Grouping F) (t : Option (Alone F)) (found : Option ℕ)
      → eqb_str k kb ≡ false
      → find k st.idx ≡ found
      → length (visit_found v by cs row k found st).cnt ≤ 2 ^ 32
      → IsGrouping (length cs) st
      → Same kb j st t
      → Same kb j (visit_found v by cs row k found st) t
  unfolding visit_found
  step_other row k st t none other e small inv h =
      open_other v by cs row kb j c at few st inv k other t
        (omega (arith, length-open_group row k st)) h
  step_other row k st t (some g) other e small inv h =
      join_other v by cs row kb j c at few st inv k other t g
        (omega (arith, length-join_group row g st)) e h

  visit_found-IsGrouping :
      (row : Row F) (k : Str) (st : Grouping F) (found : Option ℕ)
      → find k st.idx ≡ found
      → length (visit_found v by cs row k found st).cnt ≤ 2 ^ 32
      → IsGrouping (length cs) st
      → IsGrouping (length cs) (visit_found v by cs row k found st)
  unfolding visit_found
  visit_found-IsGrouping row k st none e small inv =
      open_group-IsGrouping v by cs row k st inv (omega (arith, length-open_group row k st))
  visit_found-IsGrouping row k st (some g) e small inv =
      join_group-IsGrouping v by cs row k st inv g (inv.dense k g e)
        (omega (arith, length-join_group row g st))

  visit_found_mono :
      (row : Row F) (k : Str) (st : Grouping F) (found : Option ℕ)
      → length st.cnt ≤ length (visit_found v by cs row k found st).cnt
  unfolding visit_found
  visit_found_mono row k st none = omega (arith, length-open_group row k st)
  visit_found_mono row k st (some g) = omega (arith, length-join_group row g st)

  Tracks : Grouping F → Option (Alone F) → Type 0
  Tracks st t = length st.cnt ≤ 2 ^ 32 → Agrees st t

  visit-Tracks :
      (row : Row F) (st : Grouping F) (t : Option (Alone F))
      → Tracks st t
      → Tracks (visit v by cs row st) (alone by kb c row t)
  unfolding Tracks visit alone
  visit-Tracks row st t h small =
      let k = group_key by row.ids in
      let before = h (omega (arith, visit_found_mono row k st (find k st.idx))) in
      record {
        grouping = visit_found-IsGrouping row k st (find k st.idx) refl small before.grouping;
        same = elim (Bool-cases (eqb_str k kb)) [
          | inl own ↦
              let key : k ≡ kb = (str_eq.eqb_iff k kb).0 own in
              rw (own, key)
                (step-Same row st t (find kb st.idx) refl (rw key at small) before.grouping
                  before.same)
          | inr other ↦
              rw other
                (step_other row k st t (find k st.idx) other refl small before.grouping before.same)
        ];
      }

  no_groups-Tracks : Tracks no_groups none
  unfolding Tracks no_groups in_dset
  no_groups-Tracks small = record {
    grouping = record {
      dense = λ k g h. cc;
      apart = λ k k' g h h'. cc;
      full = refl;
      wide = λ g lt. absurd (omega arith);
      fresh = λ i g id le lt. refl;
    };
    same = refl;
  }

  column_at-eq :
      (st : Grouping F) (t : Option (Alone F)) → Same kb j st t → column_of kb j st ≡ outcome t
  unfolding column_of column_at outcome
  column_at-eq st none h = rw h refl
  column_at-eq st (some a) h = rw (h.found, column_at, h.value, h.count) refl

  -- For at most 256 aggregates and 2^32 groups: whatever rows a query matches and in whichever order
  -- the sweep visits them, the row count and the accumulator of column `j` in the group with the key
  -- `kb` are those of a computation that sees only the rows with this key and only this column, and
  -- there is no such group exactly if there are no such rows. In particular the groups and the
  -- distinct columns do not disturb one another.
  pub grouping-alone :
      (now : ℤ) (qs : QueryScratch)
      → length (grouping v now by cs qs).cnt ≤ 2 ^ 32
      → column_of kb j (grouping v now by cs qs)
        ≡ outcome (fold_matched v (query_clock v now) qs (alone by kb c) none)
  unfolding grouping Tracks
  grouping-alone now qs small =
      column_at-eq _ _
        (fold_matched_related v (query_clock v now) qs Tracks (visit v by cs) (alone by kb c)
          visit-Tracks no_groups none no_groups-Tracks small).same
