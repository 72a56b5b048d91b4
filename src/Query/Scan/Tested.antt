-- ===== src/Query/Scan/Tested.antt =====
-- query.go: the tests of a plan say what the conditions of its group say.
use mathlib.Core.Path.{subst}
use facetta.Prelude.{
  ℕ, ◌-◌, ◌≡◌, refl, sym, ap, ◌∙◌, Bool, true, ◌&&◌, ◌||◌, List, [], ◌∷◌, ◌++◌, length,
  length-append, ◌==◌, arith,
}
use facetta.Schema.{Schema}
use facetta.Result.{ok, >>=-eq-ok, ok_inj}
use facetta.View.{View}
use facetta.Query.{Cond, GroupPlan, fresh_plan, QueryScratch, InWindow, RangeWindow, slice}
use facetta.Query.Expand.Emitted.{full_scan-Writes}
use facetta.Query.Match.{match_delta, match_rest, match_eqs, match_ins, match_ranges}
use facetta.Query.Plan.{group_plan, plan_live, plan_resolved, plan}
use facetta.Query.Resolve.{Resolution, live, dead, resolve_conds}
use facetta.Query.Resolve.Windows.{slice-more}
use facetta.Query.Resolve.Outcome.{Outcome, resolve_conds-Outcome}
use facetta.Query.Scan.Pools.{ArePools}
use facetta.Query.Scan.Rows.{Writes-match_delta, Writes-match_rest}
use facetta.Query.Scan.Searched.{plan_rows-Achieves}
use facetta.Query.Scan.Planned.{group_plan-IsReady, view}
use facetta.Query.Scan.Meaning.{group_holds, IsViewRow, IsDecoded}
use facetta.Query.Scan.Told.{Means, Told, resolve_conds-Told}

slice_behind :
    {A : Type 0} (l l' new : List A) (off n : ℕ)
    → l' ≡ l ++ new
    → off ≡ length l
    → n ≡ length new
    → slice l' off n ≡ new
slice_behind l l' new off n e o m =
    ap (λ x. slice x off n) e ∙ ap (λ k. slice (l ++ new) k n) o ∙ slice-more l new n m

added : {A : Type 0} (l l' new : List A) → l' ≡ l ++ new → length l' - length l ≡ length new
added l l' new e = omega (arith, ap length e, length-append l new)

module _ {F : Type 0} (sc : Schema) (v : View F) (dec : IsDecoded sc v) where
  -- The IN and range tests run only if there are any; without any they would hold.
  skip_ins :
      (ws : List InWindow) (n : ℕ) (pool row : List ℕ)
      → n ≡ length ws
      → ((n == 0) || match_ins ws pool row) ≡ match_ins ws pool row
  unfolding match_ins
  skip_ins [] n pool row e = ground arith
  skip_ins (w ∷ ws) n pool row e = ground arith

  skip_ranges :
      (ws : List RangeWindow) (n : ℕ) (row : List ℕ)
      → n ≡ length ws
      → ((n == 0) || match_ranges ws v row) ≡ match_ranges ws v row
  unfolding match_ranges
  skip_ranges [] n row e = ground arith
  skip_ranges (w ∷ ws) n row e = ground arith

  -- The tests of a plan whose windows are set.
  tests-group_plan :
      (before qs : QueryScratch) (possible : Bool) (holds : List ℕ → Bool) (row : List ℕ)
      → ArePools (length sc.dims) before
      → Means sc v dec before qs holds
      → IsViewRow sc v row
      → (match_delta (group_plan v before qs possible) qs row
          && match_rest (group_plan v before qs possible) qs v row)
        ≡ holds row
  unfolding group_plan match_delta match_rest
  tests-group_plan before qs possible holds row pools m valid =
      let n = added before.cond_dims qs.cond_dims m.new_dims m.dims in
      let wins = added before.in_wins qs.in_wins m.new_wins m.wins in
      let ranges = added before.r_wins qs.r_wins m.new_ranges m.ranges in
      rw
        (
          slice_behind before.cond_dims qs.cond_dims m.new_dims (length before.cond_dims)
              (length qs.cond_dims - length before.cond_dims) m.dims refl n,
          slice_behind before.cond_ids qs.cond_ids m.new_ids (length before.cond_dims)
              (length qs.cond_dims - length before.cond_dims) m.ids (sym pools.paired)
              (n ∙ sym m.paired),
          slice_behind before.in_wins qs.in_wins m.new_wins (length before.in_wins)
              (length qs.in_wins - length before.in_wins) m.wins refl wins,
          slice_behind before.r_wins qs.r_wins m.new_ranges (length before.r_wins)
              (length qs.r_wins - length before.r_wins) m.ranges refl ranges,
          skip_ins m.new_wins (length qs.in_wins - length before.in_wins) qs.in_pool row wins,
          skip_ranges m.new_ranges (length qs.r_wins - length before.r_wins) row ranges,
        )
        (ground (arith, m.meaning row valid))

  -- What a row has to pass behind the planning of one group.
  abbrev pub tests : GroupPlan → QueryScratch → List ℕ → Bool
  tests p qs row = match_delta p qs row && match_rest p qs v row

  tests-plan_resolved :
      (before : QueryScratch) (reserve : ℕ) (r : Resolution) (holds : List ℕ → Bool) (row : List ℕ)
      → ArePools (length sc.dims) before
      → Outcome sc v before true r
      → Told sc v dec before holds r
      → IsViewRow sc v row
      → tests (plan_resolved sc v before reserve r).0 (plan_resolved sc v before reserve r).1 row
        ≡ holds row
  unfolding plan_resolved plan_live match_delta
  tests-plan_resolved before reserve (dead qs possible) holds row pools out told valid =
      sym (told row valid)
  tests-plan_resolved before reserve (live qs possible) holds row pools out told valid =
      let p = group_plan v before qs possible in
      let a =
        plan_rows-Achieves sc v dec.base p qs reserve _
          (λ d lt. let few = (dec.pairs d lt).few in omega arith)
          (group_plan-IsReady sc v dec.base before qs possible out)
          (view sc v dec.base before qs possible) in
      rw (Writes-match_delta v p qs _ _ a.writes row, Writes-match_rest v p qs _ _ a.writes row)
        (tests-group_plan before qs possible holds row pools told valid)

  tests-fresh_plan : (qs : QueryScratch) (row : List ℕ) → tests fresh_plan qs row ≡ true
  unfolding match_delta match_eqs match_rest
  tests-fresh_plan qs row = refl

  -- A row of the view passes the tests of the plan exactly if the conditions of the group hold of it.
  pub tests-plan :
      (g : List Cond) (qs qs' : QueryScratch) (reserve : ℕ) (p : GroupPlan) (row : List ℕ)
      → ArePools (length sc.dims) qs
      → plan sc v g qs reserve ≡ ok (p, qs')
      → IsViewRow sc v row
      → tests p qs' row ≡ group_holds sc v g row
  unfolding plan group_holds
  tests-plan [] qs qs' reserve p row pools h valid =
      let writes = full_scan-Writes v.base fresh_plan qs in
      subst (λ (x : GroupPlan × QueryScratch). tests x.0 x.1 row ≡ true) (ok_inj h)
        (rw
          (
            Writes-match_delta v fresh_plan qs _ _ writes row,
            Writes-match_rest v fresh_plan qs _ _ writes row,
          )
          (tests-fresh_plan qs row))
  tests-plan (c ∷ cs) qs qs' reserve p row pools h valid =
      let (r, e, last) = >>=-eq-ok (resolve_conds sc v qs true (c ∷ cs)) _ h in
      subst (λ (x : GroupPlan × QueryScratch). tests x.0 x.1 row ≡ group_holds sc v (c ∷ cs) row)
        (ok_inj last)
        (tests-plan_resolved qs reserve r (group_holds sc v (c ∷ cs)) row pools
          (resolve_conds-Outcome sc v qs true (c ∷ cs) r pools e)
          (resolve_conds-Told sc v dec qs true (c ∷ cs) r pools e) valid)
