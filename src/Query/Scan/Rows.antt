-- ===== src/Query/Scan/Rows.antt =====
-- When a plan finds a row of the base: the tests of a plan, and what the planner's writes leave of
-- them.
use mathlib.Core.Path.{subst}
use facetta.Prelude.{
  ℕ, ◌≡◌, refl, sym, ap, ◌∙◌, true, false, ◌&&◌, ◌||◌, not, some, List, get_elem?, ltb, leb, arith,
}
use facetta.View.{View}
use facetta.Snapshot.{Row}
use facetta.Query.{GroupPlan, QueryScratch, slice}
use facetta.Query.Match.{match_base, match_delta, match_rest}
use facetta.Query.Resolve.Outcome.{match_ins-Extends}
use facetta.Query.Expand.Emitted.{Writes}
use facetta.Query.Sweep.Cover.{covered}
use facetta.Query.Scan.Pools.{
  Extends-refl, Grown, IsWindow, ArePools, IsPlaced, slice-Extends, All-slice, longer,
}

module _ {F : Type 0} (v : View F) where
  -- A base row that passes the tests of the plan which a delta row must pass, also passes those that
  -- narrow the base down, and the sweep gets to it.
  pub record Finds (p : GroupPlan) (qs : QueryScratch) (r : ℕ) (ids : List ℕ) : Type 0 where
    pub matched : match_base p qs r ids ≡ true
    pub swept : covered r qs.ivs ≡ true

  abbrev pub FindsAll : GroupPlan → QueryScratch → Type 0
  FindsAll p qs =
      (r : ℕ) (row : Row F)
      → get_elem? v.base.rows r ≡ some row
      → match_delta p qs row.ids ≡ true
      → match_rest p qs v row.ids ≡ true
      → Finds p qs r row.ids

  module _ (p : GroupPlan) (qs : QueryScratch) (p' : GroupPlan) (qs' : QueryScratch)
      (w : Writes p qs p' qs') where
    pub Writes-match_delta : (ids : List ℕ) → match_delta p' qs' ids ≡ match_delta p qs ids
    unfolding match_delta
    Writes-match_delta ids =
        ap (λ q. match_delta q qs' ids) w.plan ∙ ap (λ q. match_delta p q ids) w.pools

    pub Writes-match_rest : (ids : List ℕ) → match_rest p' qs' v ids ≡ match_rest p qs v ids
    unfolding match_rest
    Writes-match_rest ids =
        ap (λ q. match_rest q qs' v ids) w.plan ∙ ap (λ q. match_rest p q v ids) w.pools

    pub Writes-IsPlaced : IsPlaced p qs → IsPlaced p' qs'
    Writes-IsPlaced h =
        subst (λ q. IsPlaced q qs') (sym w.plan)
          (subst (λ q. IsPlaced (record p { lo = p'.lo; hi = p'.hi; scan = p'.scan }) q)
            (sym w.pools)
            (record {
              dims_room = h.dims_room;
              ids_room = h.ids_room;
              wins_room = h.wins_room;
              ranges_room = h.ranges_room;
            }))

    pub Writes-ArePools : (nd : ℕ) → ArePools nd qs → ArePools nd qs'
    Writes-ArePools nd h =
        subst (ArePools nd) (sym w.pools)
          (record { paired = h.paired; dims_in = h.dims_in; windows = h.windows })

    pub Writes-Grown : Grown qs qs'
    Writes-Grown = subst (Grown qs) (sym w.pools) (record {
      more_dims = Extends-refl qs.cond_dims;
      more_ids = Extends-refl qs.cond_ids;
      more_wins = Extends-refl qs.in_wins;
      more_pool = Extends-refl qs.in_pool;
      more_ranges = Extends-refl qs.r_wins;
    })

    -- Within the hull, or under a full scan, the plan tests a base row as it tests a delta row.
    pub matched_within :
        (r : ℕ) (ids : List ℕ)
        → p.base_possible ≡ true
        → match_delta p' qs' ids ≡ true
        → (not p'.scan && (ltb r p'.lo || leb p'.hi r)) ≡ false
        → match_base p' qs' r ids ≡ true
    unfolding match_delta match_base
    matched_within r ids possible m within =
        let same : p'.base_possible ≡ p.base_possible = ap (λ q. q.base_possible) w.plan in
        ground arith

  module _ (nd : ℕ) (p : GroupPlan) (qs qs' : QueryScratch) (g : Grown qs qs')
      (pools : ArePools nd qs) (placed : IsPlaced p qs) where
    pub Grown-match_delta : (ids : List ℕ) → match_delta p qs' ids ≡ match_delta p qs ids
    unfolding match_delta
    Grown-match_delta ids =
        rw
          (
            slice-Extends p.cond_off p.cond_n qs.cond_dims qs'.cond_dims g.more_dims
                placed.dims_room,
            slice-Extends p.cond_off p.cond_n qs.cond_ids qs'.cond_ids g.more_ids placed.ids_room,
          )
          refl

    Grown-match_base : (r : ℕ) (ids : List ℕ) → match_base p qs' r ids ≡ match_base p qs r ids
    unfolding match_base
    Grown-match_base r ids =
        rw
          (
            slice-Extends p.cond_off p.cond_n qs.cond_dims qs'.cond_dims g.more_dims
                placed.dims_room,
            slice-Extends p.cond_off p.cond_n qs.cond_ids qs'.cond_ids g.more_ids placed.ids_room,
          )
          refl

    pub Grown-match_rest : (ids : List ℕ) → match_rest p qs' v ids ≡ match_rest p qs v ids
    unfolding match_rest
    Grown-match_rest ids =
        let wins = slice qs.in_wins p.ins_off p.ins_n in
        rw
          (
            slice-Extends p.ins_off p.ins_n qs.in_wins qs'.in_wins g.more_wins placed.wins_room,
            slice-Extends p.rng_off p.rng_n qs.r_wins qs'.r_wins g.more_ranges placed.ranges_room,
            match_ins-Extends nd wins qs.in_pool qs'.in_pool ids g.more_pool
                (All-slice (IsWindow nd qs.in_pool) p.ins_off p.ins_n qs.in_wins pools.windows),
          )
          refl

    -- Planning another group takes nothing away from a plan.
    pub Grown-FindsAll :
        ((r : ℕ) → covered r qs.ivs ≡ true → covered r qs'.ivs ≡ true)
        → FindsAll p qs
        → FindsAll p qs'
    Grown-FindsAll more h r row at m m' =
        let f =
          h r row at (sym (Grown-match_delta row.ids) ∙ m) (sym (Grown-match_rest row.ids) ∙ m') in
        record { matched = Grown-match_base r row.ids ∙ f.matched; swept = more r f.swept }

    pub Grown-IsPlaced : IsPlaced p qs'
    Grown-IsPlaced = record {
      dims_room = longer qs.cond_dims qs'.cond_dims g.more_dims placed.dims_room;
      ids_room = longer qs.cond_ids qs'.cond_ids g.more_ids placed.ids_room;
      wins_room = longer qs.in_wins qs'.in_wins g.more_wins placed.wins_room;
      ranges_room = longer qs.r_wins qs'.r_wins g.more_ranges placed.ranges_room;
    }
