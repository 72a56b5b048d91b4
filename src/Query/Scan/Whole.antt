-- ===== src/Query/Scan/Whole.antt =====
-- query.go: a query visits exactly the rows that a scan over the whole table would take.
use facetta.Dict.{len}
use mathlib.Core.Path.{subst}
use facetta.Prelude.{
  ℕ, suc, ◌+◌, ◌≡◌, refl, sym, ap, ◌∙◌, Bool, true, false, ◌&&◌, ◌||◌, not, some, List, [], ◌∷◌,
  ◌++◌, length, get_elem?, ◌==◌, arith, Bool-cases, inl, inr, if◌then◌else◌, ◌^◌, ◌<◌,
}
use facetta.Prelude.All.{All, All-append}
use facetta.Schema.{Schema, Config}
use facetta.Result.{Result, ok, err}
use facetta.Bitmap.{bit_get}
use facetta.View.{View, dict_at}
use facetta.Stats.{Counters}
use facetta.Snapshot.{Row, row_expired}
use facetta.Snapshot.WellFormed.{IsBase}
use facetta.Query.{Cond, GroupPlan, QueryScratch, Iv}
use facetta.Query.Match.{base_matched, delta_matched, match_base, match_delta, match_rest}
use facetta.Query.Plan.{plan}
use facetta.Query.Sweep.{Clock, sort_ivs, base_visible, fold_base, fold_delta, fold_matched}
use facetta.Query.Sweep.Cover.{covered, fold_if}
use facetta.Query.Sweep.Sorted.{sweep-sort_ivs}
use facetta.Query.Groups.{planned, plan_each, over_budget, budgeted, plan_groups}
use facetta.Scratch.{empty_scratch}
use facetta.Query.Scan.Pools.{Grown, ArePools, IsPlaced}
use facetta.Query.Scan.Rows.{FindsAll, Grown-FindsAll, Grown-IsPlaced}
use facetta.Query.Scan.Planned.{IsPlanned, plan-IsPlanned}

module _ {F : Type 0} where
  -- The reference: whether a base row counts, by the tests that a delta row has to pass, with no
  -- regard to intervals, hulls or what the base may hold.
  unfoldable pub row_taken : View F → Clock → QueryScratch → ℕ → Row F → Bool
  row_taken v c qs r row =
      not (bit_get v.overridden r)
      && not (c.base_exp && row_expired row.expire c.now)
      && delta_matched qs.plans qs v row.ids

  -- All the rows of the base in their order, from row `r` on.
  unfoldable pub scan_base :
      {S : Type 0} → View F → Clock → QueryScratch → (Row F → S → S) → ℕ → List (Row F) → S → S
  scan_base v c qs f r [] s = s
  scan_base v c qs f r (row ∷ rows) s =
      scan_base v c qs f (suc r) rows (if row_taken v c qs r row then f row s else s)

  -- The whole table, base first.
  unfoldable pub scan_all : {S : Type 0} → View F → Clock → QueryScratch → (Row F → S → S) → S → S
  unfolding scan_base row_taken
  scan_all v c qs f s = fold_delta v c qs f v.delta.rows (scan_base v c qs f 0 v.base.rows s)

module _ {F : Type 0} (sc : Schema) (v : View F) (inv : IsBase sc v.base) where
  -- Every plan of the workspace is found and in place.
  pub record AreFound (qs : QueryScratch) : Type 0 where
    pub pools : ArePools (length sc.dims) qs
    pub plans : All (λ p. IsPlaced p qs × FindsAll v p qs) qs.plans

  plans_kept :
      (qs qs' : QueryScratch) (ps : List GroupPlan)
      → ArePools (length sc.dims) qs
      → Grown qs qs'
      → ((r : ℕ) → covered r qs.ivs ≡ true → covered r qs'.ivs ≡ true)
      → All (λ p. IsPlaced p qs × FindsAll v p qs) ps
      → All (λ p. IsPlaced p qs' × FindsAll v p qs') ps
  plans_kept qs qs' [] pools g more h = tt
  plans_kept qs qs' (p ∷ ps) pools g more h = (
    (
      Grown-IsPlaced v (length sc.dims) p qs qs' g pools h.0.0,
      Grown-FindsAll v (length sc.dims) p qs qs' g pools h.0.0 more h.0.1,
    ),
    plans_kept qs qs' ps pools g more h.1,
  )

  -- The plan of one group joins the workspace.
  pub with_plan :
      (qs qs' : QueryScratch) (p : GroupPlan)
      → AreFound qs
      → IsPlanned sc v inv qs p qs'
      → AreFound (record qs' { plans = qs'.plans ++ p ∷ [] })
  unfolding match_base match_delta match_rest
  with_plan qs qs' p h one =
      let done : QueryScratch = record qs' { plans = qs'.plans ++ p ∷ [] } in
      let old = plans_kept qs qs' qs.plans h.pools one.grown one.more_rows h.plans in
      let kept : All (λ q. IsPlaced q qs' × FindsAll v q qs') (qs'.plans ++ p ∷ []) =
        All-append (λ q. IsPlaced q qs' × FindsAll v q qs') qs'.plans p
          (subst (All (λ q. IsPlaced q qs' × FindsAll v q qs')) (sym one.same_plans) old)
          (one.placed, one.finds) in
      record {
        pools = record {
          paired = one.pools.paired;
          dims_in = one.pools.dims_in;
          windows = one.pools.windows;
        };
        plans = restored qs' (qs'.plans ++ p ∷ []) (qs'.plans ++ p ∷ []) kept;
      }
    where
      restored :
          (qs' : QueryScratch) (done ps : List GroupPlan)
          → All (λ q. IsPlaced q qs' × FindsAll v q qs') ps
          → All
              (λ q.
                IsPlaced q (record qs' { plans = done })
                × FindsAll v q (record qs' { plans = done }))
              ps
      restored qs' done [] h = tt
      restored qs' done (q ∷ ps) h = (
        (
          record {
            dims_room = h.0.0.dims_room;
            ids_room = h.0.0.ids_room;
            wins_room = h.0.0.wins_room;
            ranges_room = h.0.0.ranges_room;
          },
          λ r row at m m'.
              let f = h.0.1 r row at m m' in record { matched = f.matched; swept = f.swept },
        ),
        restored qs' done ps h.1,
      )

  abbrev FoundIfOk : Result QueryScratch × Counters → Type 0
  FoundIfOk (err e, c) = Unit
  FoundIfOk (ok qs, c) = AreFound qs

  plan_each-AreFound :
      (gs : List (List Cond)) (qs : QueryScratch) (c : Counters)
      → ((d : ℕ) → d < length sc.dims → len (dict_at v.base.dicts d) < 2 ^ 32)
      → AreFound qs
      → FoundIfOk (plan_each sc v gs qs c)
  unfolding plan_each
  plan_each-AreFound [] qs c few h = h
  plan_each-AreFound (g ∷ gs) qs c few h =
      by_plan (λ qs' c' h'. plan_each-AreFound gs qs' c' few h') (plan sc v g qs (length gs)) refl
    where
      by_plan :
          ((qs' : QueryScratch) (c' : Counters)
            → AreFound qs'
            → FoundIfOk (plan_each sc v gs qs' c'))
          → (r : Result (GroupPlan × QueryScratch)) → plan sc v g qs (length gs) ≡ r
          → FoundIfOk (planned r c (λ qs' c'. plan_each sc v gs qs' c'))
      by_plan later (err e) same = tt
      by_plan later (ok (p, qs')) same =
          later _ _
            (with_plan qs qs' p h (plan-IsPlanned sc v inv g qs qs' (length gs) p few h.pools same))

  row_counts :
      (cov mb md mr bm dm : Bool)
      → (mb ≡ true → md ≡ true)
      → (md ≡ true → mr ≡ true → (mb ≡ true) × (cov ≡ true))
      → (cov && bm) ≡ dm
      → (cov && ((mb && mr) || bm)) ≡ ((md && mr) || dm)
  row_counts cov mb true true bm dm narrower found ih =
      let (m, c) = found refl refl in rw (m, c) refl
  row_counts cov mb true false bm dm narrower found ih = ground (arith, ih)
  row_counts cov mb false mr bm dm narrower found ih = elim (Bool-cases mb) [
    | inl m ↦ cc (narrower m)
    | inr m ↦ rw m ih
  ]

  base_delta :
      (p : GroupPlan) (qs : QueryScratch) (r : ℕ) (ids : List ℕ)
      → match_base p qs r ids ≡ true
      → match_delta p qs ids ≡ true
  unfolding match_base match_delta
  base_delta p qs r ids m = ground arith

  matched_iff :
      (qs : QueryScratch) (ps : List GroupPlan) (r : ℕ) (row : Row F)
      → All (λ p. IsPlaced p qs × FindsAll v p qs) ps
      → get_elem? v.base.rows r ≡ some row
      → (covered r qs.ivs && base_matched ps qs v r row.ids) ≡ delta_matched ps qs v row.ids
  unfolding base_matched delta_matched
  matched_iff qs [] r row h at = ground arith
  matched_iff qs (p ∷ ps) r row h at =
      row_counts (covered r qs.ivs) (match_base p qs r row.ids) (match_delta p qs row.ids)
        (match_rest p qs v row.ids) (base_matched ps qs v r row.ids) (delta_matched ps qs v row.ids)
        (base_delta p qs r row.ids) (λ m m'. let f = h.0.1 r row at m m' in (f.matched, f.swept))
        (matched_iff qs ps r row h.1 at)

  -- The sort of the intervals is none of the matters of the tests.
  sorted_base :
      (qs : QueryScratch) (ivs : List Iv) (ps : List GroupPlan) (r : ℕ) (ids : List ℕ)
      → base_matched ps (record qs { ivs = ivs }) v r ids ≡ base_matched ps qs v r ids
  unfolding base_matched match_base match_rest
  sorted_base qs ivs [] r ids = refl
  sorted_base qs ivs (p ∷ ps) r ids = rw (sorted_base qs ivs ps r ids) refl

  pub sorted_delta :
      (qs : QueryScratch) (ivs : List Iv) (ps : List GroupPlan) (ids : List ℕ)
      → delta_matched ps (record qs { ivs = ivs }) v ids ≡ delta_matched ps qs v ids
  unfolding delta_matched match_delta match_rest
  sorted_delta qs ivs [] ids = refl
  sorted_delta qs ivs (p ∷ ps) ids = rw (sorted_delta qs ivs ps ids) refl

  module _ (c : Clock) (qs : QueryScratch) (ivs : List Iv) (found : AreFound qs) where
    visible_iff :
        (r : ℕ) (row : Row F)
        → get_elem? v.base.rows r ≡ some row
        → (covered r qs.ivs && base_visible v c (record qs { ivs = ivs }) r row)
          ≡ row_taken v c (record qs { ivs = ivs }) r row
    unfolding base_visible row_taken
    visible_iff r row at =
        rw (sorted_base qs ivs qs.plans r row.ids, sorted_delta qs ivs qs.plans row.ids)
          (ground (arith, matched_iff qs qs.plans r row found.plans at))

    module _ {S : Type 0} (f : Row F → S → S) where
      if_both :
          (a b t : Bool) (x s : S)
          → (a && b) ≡ t
          → (if a then (if b then x else s) else s) ≡ (if t then x else s)
      if_both a b t x s h = ground arith

      scan_suffix :
          (i : ℕ) (rows : List (Row F)) (s : S)
          → ((j : ℕ) (row : Row F)
              → get_elem? rows j ≡ some row
              → get_elem? v.base.rows (i + j) ≡ some row)
          → fold_if
              (λ r row s. if base_visible v c (record qs { ivs = ivs }) r row then f row s else s)
              (λ r. covered r qs.ivs)
              i
              rows
              s
            ≡ scan_base v c (record qs { ivs = ivs }) f i rows s
      unfolding fold_if scan_base
      scan_suffix i [] s at = refl
      scan_suffix i (row ∷ rows) s at =
          let here : get_elem? v.base.rows i ≡ some row =
            ap (λ k. get_elem? v.base.rows k) (omega arith) ∙ at 0 row refl in
          rw
            (if_both (covered i qs.ivs) (base_visible v c (record qs { ivs = ivs }) i row)
              (row_taken v c (record qs { ivs = ivs }) i row) (f row s) s (visible_iff i row here))
            (scan_suffix (suc i) rows _
              (λ j row' e. ap (λ k. get_elem? v.base.rows k) (omega arith) ∙ at (suc j) row' e))

  -- The workspace that a query starts with has no plan and empty pools.
  pub empty-AreFound : (cap : ℕ) → AreFound (empty_scratch cap)
  unfolding empty_scratch
  empty-AreFound cap = record {
    pools = record { paired = refl; dims_in = tt; windows = tt };
    plans = tt;
  }

  abbrev ScansIfOk :
      {S : Type 0} → Clock → (Row F → S → S) → S → Result QueryScratch × Counters → Type 0
  ScansIfOk k f s (err e, c) = Unit
  ScansIfOk k f s (ok qs, c) = fold_matched v k qs f s ≡ scan_all v k qs f s

  budgeted-ScansIfOk :
      {S : Type 0} (cfg : Config) (k : Clock) (f : Row F → S → S) (s : S)
      (r : Result QueryScratch × Counters)
      → FoundIfOk r
      → ScansIfOk k f s (budgeted cfg v r)
  unfolding budgeted fold_matched fold_base scan_all
  budgeted-ScansIfOk cfg k f s (err e, c) h = tt
  budgeted-ScansIfOk cfg k f s (ok qs, c) h =
      let ivs = sort_ivs qs.ivs in
      elim (Bool-cases (over_budget cfg v (record qs { ivs = ivs }))) [
        | inl over ↦ rw over tt
        | inr within ↦ rw within (
            ap (fold_delta v k (record qs { ivs = ivs }) f v.delta.rows) (
              sweep-sort_ivs
                (λ r row s. if base_visible v k (record qs { ivs = ivs }) r row then f row s else s)
                v.base.rows qs.ivs s
              ∙ scan_suffix k qs ivs h f 0 v.base.rows s
                  (λ j row e. ap (λ i. get_elem? v.base.rows i) (omega arith) ∙ e)))
      ]

  -- Over a well-formed base with less than 2^32 values in each dimension, for the planned conditions of any groups: what a query folds over the
  -- rows that it matches is what a scan over all the rows folds, base rows first, each in its order,
  -- which takes a row by the conditions alone: no interval, hull, expansion or `basePossible` mark
  -- changes the result, for any clock and any fold.
  pub fold_matched-scan_all :
      {S : Type 0} (cfg : Config) (groups : List (List Cond)) (cap : ℕ) (c c' : Counters)
      (qs : QueryScratch) (k : Clock) (f : Row F → S → S) (s : S)
      → ((d : ℕ) → d < length sc.dims → len (dict_at v.base.dicts d) < 2 ^ 32)
      → plan_groups sc cfg v groups (empty_scratch cap) c ≡ (ok qs, c')
      → fold_matched v k qs f s ≡ scan_all v k qs f s
  unfolding plan_groups
  fold_matched-scan_all cfg groups cap c c' qs k f s few h =
      elim (Bool-cases (length groups == 0)) [
        | inl none_given ↦ cc (rw none_given at h)
        | inr some_groups ↦ subst (ScansIfOk k f s) (rw some_groups at h) (
            budgeted-ScansIfOk cfg k f s (plan_each sc v groups (empty_scratch cap) c)
              (plan_each-AreFound groups (empty_scratch cap) c few (empty-AreFound cap)))
      ]
