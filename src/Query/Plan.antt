-- ===== src/Query/Plan.antt =====
-- query.go: `plan` of one group of conditions.
pub mod Pins
pub mod Prefix
pub mod Room
use facetta.Prelude.{
  ℕ, ◌+◌, ◌-◌, Bool, true, false, ◌&&◌, not, Option, none, some, List, [], ◌∷◌, length, set,
  replicate, ltb, if◌then◌else◌,
}
use facetta.Schema.{Schema}
use facetta.Result.{Result, ok, err, ◌>>=◌}
use facetta.Dict.{len}
use facetta.Snapshot.{Snapshot}
use facetta.View.{View, dict_at}
use facetta.Query.{Cond, GroupPlan, fresh_plan, QueryScratch, slice, push_iv}
use facetta.Query.Resolve.{Resolution, live, dead, resolve_conds}
use facetta.Query.Expand.{plan_expand, full_scan, prefix_rows}

-- `has`/`pref`: the id that an equality condition pins a dimension to.
pub pin_eqs : List (Option ℕ) → List ℕ → List ℕ → List (Option ℕ)
pin_eqs pins (d ∷ ds) (id ∷ ids) = pin_eqs (set pins d (some id)) ds ids
pin_eqs pins ds ids = pins

-- `for k < sc.IndexDims && has[k]`: the ids of the pinned prefix
pub pinned_prefix : List (Option ℕ) → List ℕ
pinned_prefix (some id ∷ pins) = id ∷ pinned_prefix pins
pinned_prefix pins = []

unfoldable pub group_pins : Schema → QueryScratch → QueryScratch → List ℕ
unfolding pinned_prefix pin_eqs
group_pins sc before qs =
    let n = length qs.cond_dims - length before.cond_dims in
    pinned_prefix (
      pin_eqs (replicate sc.index_dims none) (slice qs.cond_dims (length before.cond_dims) n)
        (slice qs.cond_ids (length before.cond_dims) n))

module _ {F : Type 0} where
  -- No equality condition names a value that only the delta has.
  unfoldable pub all_base : Snapshot F → List ℕ → List ℕ → Bool
  all_base base (d ∷ ds) (id ∷ ids) = ltb id (len (dict_at base.dicts d)) && all_base base ds ids
  all_base base ds ids = true

  unfoldable pub plan_prefix :
      Snapshot F → List ℕ → GroupPlan → QueryScratch → GroupPlan × QueryScratch
  unfolding push_iv
  plan_prefix base [] p qs = full_scan base p qs
  plan_prefix base (id ∷ ids) p qs =
      let x = prefix_rows base (id ∷ ids) in
      (record p { lo = x.lo; hi = x.hi }, (if ltb x.lo x.hi then push_iv qs x else qs))

  -- The last part of `plan`, for the ids of the pinned prefix.
  unfoldable pub plan_rows :
      Schema → Snapshot F → List ℕ → GroupPlan → QueryScratch → ℕ → GroupPlan × QueryScratch
  unfolding plan_prefix
  plan_rows sc base ids p qs reserve =
      if not p.base_possible
      then (p, qs)
      else if ltb 0 p.ins_n
      then plan_expand sc base p qs reserve
      else plan_prefix base ids p qs

  -- The windows of the group, once its conditions are resolved.
  unfoldable pub group_plan : View F → QueryScratch → QueryScratch → Bool → GroupPlan
  unfolding all_base
  group_plan v before qs possible =
      let cond_n = length qs.cond_dims - length before.cond_dims in
      let dims = slice qs.cond_dims (length before.cond_dims) cond_n in
      let ids = slice qs.cond_ids (length before.cond_dims) cond_n in
      record fresh_plan {
        cond_off = length before.cond_dims;
        cond_n = cond_n;
        ins_off = length before.in_wins;
        ins_n = length qs.in_wins - length before.in_wins;
        rng_off = length before.r_wins;
        rng_n = length qs.r_wins - length before.r_wins;
        base_possible = possible && all_base v.base dims ids;
      }

  -- The part of `plan` behind the loop over the conditions.
  unfoldable pub plan_live :
      Schema → View F → QueryScratch → QueryScratch → Bool → ℕ → GroupPlan × QueryScratch
  unfolding plan_rows group_plan group_pins
  plan_live sc v before qs possible reserve =
      plan_rows sc v.base (group_pins sc before qs) (group_plan v before qs possible) qs reserve

  unfoldable pub plan_resolved :
      Schema → View F → QueryScratch → ℕ → Resolution → GroupPlan × QueryScratch
  unfolding plan_live
  plan_resolved sc v before reserve (dead qs possible) =
      (record fresh_plan { dead = true; base_possible = possible }, qs)
  plan_resolved sc v before reserve (live qs possible) = plan_live sc v before qs possible reserve

  unfoldable pub plan :
      Schema → View F → List Cond → QueryScratch → ℕ → Result (GroupPlan × QueryScratch)
  unfolding plan_resolved
  plan sc v [] qs reserve = ok (full_scan v.base fresh_plan qs)
  plan sc v (c ∷ cs) qs reserve = do
    r ← resolve_conds sc v qs true (c ∷ cs)
    ok (plan_resolved sc v qs reserve r)
