-- ===== src/Query/Groups.antt =====
-- query.go: `planGroups` and `QueryGroups`.
pub mod Room
use facetta.Prelude.{
  ℕ, zero, suc, ◌+◌, Bool, true, false, ◌&&◌, List, [], ◌∷◌, ◌++◌, length, replicate, ltb, ◌==◌,
  if◌then◌else◌,
}
use facetta.Prelude.Int.{ℤ, pos, ltb_ℤ}
use facetta.Schema.{Schema, Config}
use facetta.Result.{Result, ok, err, bad_group_count, scan_budget, ◌>>=◌}
use facetta.Float.{Float64}
use facetta.Snapshot.{Row}
use facetta.View.{View}
use facetta.Stats.{Counters}
use facetta.Query.{Cond, GroupPlan, QueryScratch}
use facetta.Query.Plan.{plan}
use facetta.Query.Sweep.{sort_ivs, scan_rows, query_clock, fold_matched}

pub count_scan : GroupPlan → Counters → Counters
count_scan p c = if p.scan then record c { full_scans = c.full_scans + 1 } else c

unfoldable pub planned :
    Result (GroupPlan × QueryScratch)
    → Counters
    → (QueryScratch → Counters → Result QueryScratch × Counters)
    → Result QueryScratch × Counters
unfolding count_scan
planned (err e) c next = (err e, c)
planned (ok (p, qs)) c next = next (record qs { plans = qs.plans ++ p ∷ [] }) (count_scan p c)

module _ {F : Type 0} where
  -- The planning loop: an interval slot is reserved for each group still to come.
  unfoldable pub plan_each :
      Schema → View F → List (List Cond) → QueryScratch → Counters → Result QueryScratch × Counters
  unfolding planned
  plan_each sc v [] qs c = (ok qs, c)
  plan_each sc v (g ∷ gs) qs c =
      planned (plan sc v g qs (length gs)) c (λ qs' c'. plan_each sc v gs qs' c')

  -- `cfg.MaxScanRows > 0 && scanRows > cfg.MaxScanRows`
  pub over_budget : Config → View F → QueryScratch → Bool
  over_budget cfg v qs =
      ltb_ℤ (pos 0) cfg.max_scan_rows
      && ltb_ℤ cfg.max_scan_rows (pos (length v.delta.rows + scan_rows 0 qs.ivs))

  unfoldable pub budgeted :
      Config → View F → Result QueryScratch × Counters → Result QueryScratch × Counters
  unfolding over_budget
  budgeted cfg v (err e, c) = (err e, c)
  budgeted cfg v (ok qs, c) =
      let sorted = record qs { ivs = sort_ivs qs.ivs } in
      if over_budget cfg v sorted
      then (err scan_budget, record c { scan_budget_refusals = c.scan_budget_refusals + 1 })
      else (ok sorted, c)

  unfoldable pub plan_groups :
      Schema
      → Config
      → View F
      → List (List Cond)
      → QueryScratch
      → Counters
      → Result QueryScratch × Counters
  unfolding plan_each budgeted
  plan_groups sc cfg v groups qs c =
      if length groups == 0
      then (err bad_group_count, c)
      else budgeted cfg v (plan_each sc v groups qs c)

module _ {F : Type 0} ⦃fl : Float64 F⦄ where
  -- `for m := range dst { dst[m] += mets[m][r] }`
  pub add_mets : List F → List F → List F
  add_mets (a ∷ dst) (m ∷ mets) = fl.add a m ∷ add_mets dst mets
  add_mets dst mets = dst

  summed : Schema → View F → ℤ → Result QueryScratch × Counters → Result (List F) × Counters
  unfolding add_mets
  summed sc v now (err e, c) = (err e, c)
  summed sc v now (ok qs, c) = (
    ok (
        fold_matched v (query_clock v now) qs (λ row dst. add_mets dst row.mets)
          (replicate (length sc.metrics) fl.zero)),
    c,
  )

  -- `queryGroups` on a scratch, with the counters of the store.
  unfoldable pub query_groups :
      Schema
      → Config
      → View F
      → List (List Cond)
      → QueryScratch
      → ℤ
      → Counters
      → Result (List F) × Counters
  unfolding summed plan_groups
  query_groups sc cfg v groups qs now c = summed sc v now (plan_groups sc cfg v groups qs c)
