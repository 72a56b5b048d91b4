-- ===== src/Query/Groups/Room.antt =====
-- Planning the groups of a query stays within the capacity of its workspace.
use facetta.Prelude.{ℕ, ◌+◌, ◌≤◌, ◌≡◌, refl, ap, ◌∙◌, List, [], ◌∷◌, ◌++◌, length, arith}
use facetta.Schema.{Schema}
use facetta.Result.{Result, ok, err, ok_inj}
use facetta.View.{View}
use facetta.Stats.{Counters}
use facetta.Query.{Cond, GroupPlan, QueryScratch}
use facetta.Query.Plan.{plan}
use facetta.Query.Plan.Room.{plan-Leaves}
use facetta.Query.Groups.{count_scan, planned, plan_each}
use facetta.Scratch.{measure_shape, route}
use facetta.Scratch.Room.{route-groups, route-empty}

-- `planned` hands on only what a successful plan gave.
planned-eq-ok :
    (r : Result (GroupPlan × QueryScratch)) (c c' : Counters)
    (next : QueryScratch → Counters → Result QueryScratch × Counters) (out : QueryScratch)
    → planned r c next ≡ (ok out, c')
    → (p : GroupPlan) × (qs : QueryScratch) × (r ≡ ok (p, qs))
      × (next (record qs { plans = qs.plans ++ p ∷ [] }) (count_scan p c) ≡ (ok out, c'))
unfolding planned
planned-eq-ok (err e) c c' next out h = cc
planned-eq-ok (ok (p, qs)) c c' next out h = (p, qs, refl, h)

module _ {F : Type 0} where
  -- If the slice of intervals has a free slot for each group, then planning all groups never exceeds
  -- its capacity, and leaves the capacity as it is.
  pub plan_each_room :
      (sc : Schema) (v : View F) (groups : List (List Cond)) (qs out : QueryScratch)
      (c c' : Counters)
      → length qs.ivs + length groups ≤ qs.ivs_cap
      → plan_each sc v groups qs c ≡ (ok out, c')
      → (length out.ivs ≤ out.ivs_cap) × (out.ivs_cap ≡ qs.ivs_cap)
  unfolding plan_each
  plan_each_room sc v [] qs out c c' free h =
      let same : qs ≡ out = ok_inj (ap (λ x. x.0) h) in rw (← same) (omega arith, refl)
  plan_each_room sc v (g ∷ gs) qs out c c' free h =
      let (p, qs', e, rest) = planned-eq-ok (plan sc v g qs (length gs)) c c' _ out h in
      let one = plan-Leaves sc v g qs qs' (length gs) p (omega (arith, free)) e in
      let (few, same) =
        plan_each_room sc v gs (record qs' { plans = qs'.plans ++ p ∷ [] }) out (count_scan p c) c'
          (omega (arith, one.room, one.kept_cap)) rest in
      (few, same ∙ one.kept_cap)

  -- In the workspace that a query is routed to, planning its groups never makes the slice of
  -- intervals exceed the capacity that the workspace came with.
  pub plan_each-route :
      (sc : Schema) (v : View F) (groups : List (List Cond)) (old aggs : ℕ) (out : QueryScratch)
      (c c' : Counters)
      → plan_each sc v groups (route old (measure_shape groups aggs)) c ≡ (ok out, c')
      → length out.ivs ≤ (route old (measure_shape groups aggs)).ivs_cap
  plan_each-route sc v groups old aggs out c c' h =
      let (few, same) =
        plan_each_room sc v groups (route old (measure_shape groups aggs)) out c c'
          (omega (arith, route-empty old (measure_shape groups aggs), route-groups old aggs groups))
          h in
      omega (arith, few, same)
