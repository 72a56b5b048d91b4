-- ===== src/Query/Scan/Planned.antt =====
-- `plan` finds every row of the base that the resolved conditions of its group accept.
use facetta.Dict.{len}
use mathlib.Core.Path.{subst}
use facetta.Prelude.{
  ℕ, ◌-◌, ◌≤◌, ◌<◌, ◌≡◌, refl, ap, ◌∙◌, Bool, true, false, List, [], ◌∷◌, length, length-append,
  ◌==◌, arith, Bool-cases, inl, inr, ◌^◌,
}
use native.Mathlib.Nat.{le_refl}
use facetta.Schema.{Schema}
use facetta.Result.{ok, >>=-eq-ok, ok_inj}
use facetta.Dict.Intern.{get_elem?-lt-length}
use facetta.View.{View, dict_at}
use facetta.Snapshot.WellFormed.{IsBase}
use facetta.Query.{Cond, GroupPlan, fresh_plan, InWindow, QueryScratch, slice}
use facetta.Query.Expand.{full_scan}
use facetta.Query.Expand.Emitted.{full_scan-Writes, full_scan-swept}
use facetta.Query.Match.{match_delta, match_rest, match_ins}
use facetta.Query.Plan.{all_base, group_pins, group_plan, plan_live, plan_resolved, plan}
use facetta.Query.Plan.Prefix.{searched}
use facetta.Query.Resolve.{Resolution, live, dead, resolve_conds}
use facetta.Query.Resolve.Ivs.{SameIvs, resolve_conds-SameIvs, scratch_of}
use facetta.Query.Resolve.Windows.{slice-more}
use facetta.Query.Resolve.Outcome.{IsResolved, Outcome, resolve_conds-Outcome}
use facetta.Query.Sweep.Cover.{covered}
use facetta.Query.Scan.Pools.{Grown, Grown-refl, Grown-trans, ArePools, IsPlaced, All-slice, longer}
use facetta.Query.Scan.Rows.{
  FindsAll, Writes-IsPlaced, Writes-ArePools, Writes-Grown, matched_within,
}
use facetta.Query.Scan.Expanded.{base_row}
use facetta.Query.Scan.Searched.{unknown_eqs, IsReady, Achieves, eqs_of, plan_rows-Achieves}

module _ {F : Type 0} (sc : Schema) (v : View F) (inv : IsBase sc v.base) where
  some_windows :
      (ws : List InWindow) (pool ids : List ℕ) → match_ins ws pool ids ≡ false → 0 < length ws
  unfolding match_ins
  some_windows [] pool ids h = cc
  some_windows (w ∷ ws) pool ids h = omega arith

  rest_rejects :
      (p : GroupPlan) (qs : QueryScratch) (ids : List ℕ) (ws : List InWindow)
      → slice qs.in_wins p.ins_off p.ins_n ≡ ws
      → match_ins ws qs.in_pool ids ≡ false
      → 0 < p.ins_n
      → match_rest p qs v ids ≡ false
  unfolding match_rest
  rest_rejects p qs ids ws view rejects some_ins =
      let tested : (p.ins_n == 0) ≡ false = ground arith in rw (tested, view, rejects) refl

  -- The windows of the group as it stands behind the loop over its conditions.
  pub group_plan-IsReady :
      (before qs : QueryScratch) (possible : Bool)
      → IsResolved sc v before true qs possible
      → IsReady sc v inv (group_plan v before qs possible) qs
  unfolding group_plan match_delta match_rest match_ins
  group_plan-IsReady before qs possible h =
      let p = group_plan v before qs possible in
      let (more, e) = h.grown.more_wins in
      let n : length qs.in_wins - length before.in_wins ≡ length more =
        omega (arith, ap length e, length-append before.in_wins more) in
      record {
        alive = refl;
        unscanned = refl;
        pools = h.pools;
        known = λ on. ground arith;
        hopeless = λ r row at off m.
            let known = base_row sc v.base inv r row at in
            elim (Bool-cases possible) [
              | inl on ↦
                  let beyond : all_base v.base (slice qs.cond_dims p.cond_off p.cond_n)
                        (slice qs.cond_ids p.cond_off p.cond_n)
                      ≡ false =
                    ground arith in
                  let none =
                    unknown_eqs v.base (length sc.dims) (slice qs.cond_dims p.cond_off p.cond_n)
                      (slice qs.cond_ids p.cond_off p.cond_n) row.ids
                      (All-slice (λ d. d < length sc.dims) p.cond_off p.cond_n qs.cond_dims
                        h.pools.dims_in)
                      known beyond in
                  cc (none, eqs_of sc v inv p qs row.ids m)
              | inr cleared ↦
                  let rejects = h.absent row.ids cleared refl known in
                  rest_rejects p qs row.ids more
                    (ap (λ l. slice l (length before.in_wins) p.ins_n) e
                      ∙ slice-more before.in_wins more p.ins_n n)
                    rejects (omega (arith, n, some_windows more qs.in_pool row.ids rejects))
            ];
      }

  -- What planning one group does to a workspace.
  pub record IsPlanned (before : QueryScratch) (p : GroupPlan) (qs : QueryScratch) : Type 0 where
    pub grown : Grown before qs
    pub pools : ArePools (length sc.dims) qs
    pub placed : IsPlaced p qs
    pub more_rows : (r : ℕ) → covered r before.ivs ≡ true → covered r qs.ivs ≡ true
    pub same_plans : qs.plans ≡ before.plans
    pub finds : FindsAll v p qs

  group_plan-IsPlaced :
      (before qs : QueryScratch) (possible : Bool)
      → IsResolved sc v before true qs possible
      → IsPlaced (group_plan v before qs possible) qs
  unfolding group_plan
  group_plan-IsPlaced before qs possible h =
      let dims : length before.cond_dims ≤ length qs.cond_dims =
        longer before.cond_dims qs.cond_dims h.grown.more_dims (le_refl _) in
      let wins : length before.in_wins ≤ length qs.in_wins =
        longer before.in_wins qs.in_wins h.grown.more_wins (le_refl _) in
      let ranges : length before.r_wins ≤ length qs.r_wins =
        longer before.r_wins qs.r_wins h.grown.more_ranges (le_refl _) in
      record {
        dims_room = omega arith;
        ids_room = omega (arith, h.pools.paired);
        wins_room = omega arith;
        ranges_room = omega arith;
      }

  -- The rows of the earlier plans stay covered while the conditions are resolved.
  same_rows :
      (before qs : QueryScratch) (r : ℕ)
      → SameIvs before qs
      → covered r before.ivs ≡ true
      → covered r qs.ivs ≡ true
  same_rows before qs r same h = rw same.same_ivs h

  Achieves-IsPlanned :
      (before qs : QueryScratch) (p p' : GroupPlan) (qs' : QueryScratch)
      → Grown before qs
      → SameIvs before qs
      → ArePools (length sc.dims) qs
      → IsPlaced p qs
      → Achieves sc v inv p qs p' qs'
      → IsPlanned before p' qs'
  Achieves-IsPlanned before qs p p' qs' grown same pools placed a = record {
    grown = Grown-trans before qs qs' grown (Writes-Grown v p qs p' qs' a.writes);
    pools = Writes-ArePools v p qs p' qs' a.writes (length sc.dims) pools;
    placed = Writes-IsPlaced v p qs p' qs' a.writes placed;
    more_rows = λ r h. a.writes.more_rows r (same_rows before qs r same h);
    same_plans = ap (λ q. q.plans) a.writes.pools ∙ same.same_plans;
    finds = a.finds;
  }

  dead_plan :
      (qs : QueryScratch) (possible : Bool) (ids : List ℕ)
      → match_delta (record fresh_plan { dead = true; base_possible = possible }) qs ids ≡ false
  unfolding match_delta
  dead_plan qs possible ids = refl

  -- The prefix that `plan` searches for is that of the plan's own equality conditions.
  pub view :
      (before qs : QueryScratch) (possible : Bool)
      → group_pins sc before qs
        ≡ searched sc
            (slice qs.cond_dims
              (group_plan v before qs possible).cond_off
              (group_plan v before qs possible).cond_n)
            (slice qs.cond_ids
              (group_plan v before qs possible).cond_off
              (group_plan v before qs possible).cond_n)
  unfolding group_pins group_plan
  view before qs possible = refl

  plan_resolved-IsPlanned :
      (before : QueryScratch) (reserve : ℕ) (r : Resolution)
      → ((d : ℕ) → d < length sc.dims → len (dict_at v.base.dicts d) < 2 ^ 32)
      → Outcome sc v before true r
      → SameIvs before (scratch_of r)
      → IsPlanned before
          (plan_resolved sc v before reserve r).0
          (plan_resolved sc v before reserve r).1
  unfolding plan_resolved plan_live group_pins
  plan_resolved-IsPlanned before reserve (dead qs possible) few (grown, pools) same = record {
    grown = grown;
    pools = pools;
    placed = dead_placed qs possible;
    more_rows = λ r h. same_rows before qs r same h;
    same_plans = same.same_plans;
    finds = λ r row at m rest. cc (dead_plan qs possible row.ids, m);
  }
    where
      dead_placed :
          (qs : QueryScratch) (possible : Bool)
          → IsPlaced (record fresh_plan { dead = true; base_possible = possible }) qs
      dead_placed qs possible = record {
        dims_room = omega arith;
        ids_room = omega arith;
        wins_room = omega arith;
        ranges_room = omega arith;
      }
  plan_resolved-IsPlanned before reserve (live qs possible) few h same =
      let p = group_plan v before qs possible in
      Achieves-IsPlanned before qs p _ _ h.grown same h.pools
        (group_plan-IsPlaced before qs possible h)
        (plan_rows-Achieves sc v inv p qs reserve _ few (group_plan-IsReady before qs possible h)
          (view before qs possible))

  fresh_plan-IsPlaced : (qs : QueryScratch) → IsPlaced fresh_plan qs
  fresh_plan-IsPlaced qs = record {
    dims_room = omega arith;
    ids_room = omega arith;
    wins_room = omega arith;
    ranges_room = omega arith;
  }

  full_scan-Achieves :
      (qs : QueryScratch)
      → Achieves sc v inv fresh_plan qs
          (full_scan v.base fresh_plan qs).0
          (full_scan v.base fresh_plan qs).1
  unfolding full_scan
  full_scan-Achieves qs =
      let writes = full_scan-Writes v.base fresh_plan qs in
      record {
        writes = writes;
        finds = λ r row at m rest. record {
          matched = matched_within v fresh_plan qs _ _ writes r row.ids refl m refl;
          swept = full_scan-swept v.base r fresh_plan qs (get_elem?-lt-length v.base.rows r row at);
        };
      }

  -- A successful plan of a group finds every row of the base that its conditions accept, and takes
  -- nothing away from the plans before it.
  pub plan-IsPlanned :
      (g : List Cond) (qs qs' : QueryScratch) (reserve : ℕ) (p : GroupPlan)
      → ((d : ℕ) → d < length sc.dims → len (dict_at v.base.dicts d) < 2 ^ 32)
      → ArePools (length sc.dims) qs
      → plan sc v g qs reserve ≡ ok (p, qs')
      → IsPlanned qs p qs'
  unfolding plan
  plan-IsPlanned [] qs qs' reserve p few pools h =
      subst (λ (x : GroupPlan × QueryScratch). IsPlanned qs x.0 x.1) (ok_inj h)
        (Achieves-IsPlanned qs qs fresh_plan _ _ (Grown-refl qs)
          (record { same_ivs = refl; same_cap = refl; same_plans = refl }) pools
          (fresh_plan-IsPlaced qs) (full_scan-Achieves qs))
  plan-IsPlanned (c ∷ cs) qs qs' reserve p few pools h =
      let (r, e, last) = >>=-eq-ok (resolve_conds sc v qs true (c ∷ cs)) _ h in
      subst (λ (x : GroupPlan × QueryScratch). IsPlanned qs x.0 x.1) (ok_inj last)
        (plan_resolved-IsPlanned qs reserve r few
          (resolve_conds-Outcome sc v qs true (c ∷ cs) r pools e)
          (resolve_conds-SameIvs sc v qs true (c ∷ cs) r e))
