-- ===== src/Query/Scan/Searched.antt =====
-- The last part of `plan`, the search for rows: it finds every row of the base that the windows of the
-- plan accept.
use facetta.Prelude.{
  ℕ, ◌-◌, ◌<◌, ◌≡◌, refl, sym, ◌∙◌, Bool, true, false, not, some, List, [], ◌∷◌, length, get_elem?,
  replicate, length-replicate, ltb, arith, Bool-cases, inl, inr, if◌then◌else◌, ◌^◌,
}
use facetta.Prelude.All.{All}
use facetta.Schema.{Schema}
use facetta.Dict.{len}
use facetta.View.{View, dict_at}
use facetta.Snapshot.{Row, Snapshot}
use facetta.Snapshot.WellFormed.{IsBase}
use facetta.Query.{GroupPlan, QueryScratch, slice}
use facetta.Query.Expand.{uncovered, cover_eqs, cover_ins, affordable, prefix_rows, plan_expand}
use facetta.Query.Expand.Accepts.{
  Accepts-uncovered, Accepts-cover_eqs, Accepts-cover_ins, length-cover_eqs, length-cover_ins,
}
use facetta.Query.Expand.Emitted.{Writes, Writes-refl, push_iv-Writes, full_scan-Writes}
use facetta.Query.Match.{match_delta, match_rest, match_eqs, match_ins}
use facetta.Query.Plan.{all_base, plan_prefix, plan_rows}
use facetta.Query.Plan.Prefix.{searched, plan_prefix_lossless}
use facetta.Query.Resolve.Windows.{IsBaseRow, id_known}
use facetta.Query.Scan.Pools.{IsWindow, ArePools, All-slice}
use facetta.Query.Scan.Rows.{FindsAll, Writes-match_delta, Writes-match_rest}
use facetta.Query.Scan.Expanded.{base_row, expand_over-Writes, expand_over-Finds}

-- An equality condition on an id that the base does not have accepts no row of the base.
pub unknown_eqs :
    {F : Type 0} (base : Snapshot F) (nd : ℕ) (ds ids row : List ℕ)
    → All (λ d. d < nd) ds
    → IsBaseRow nd base.dicts row
    → all_base base ds ids ≡ false
    → match_eqs ds ids row ≡ false
unfolding all_base match_eqs
unknown_eqs base nd [] ids row h known e = cc
unknown_eqs base nd (d ∷ ds) [] row h known e = cc
unknown_eqs base nd (d ∷ ds) (id ∷ ids) row h known e =
    let below = id_known nd base.dicts row d known h.0 in
    elim (Bool-cases (ltb id (len (dict_at base.dicts d)))) [
      | inl first ↦ rw (unknown_eqs base nd ds ids row h.1 known (rw first at e)) (ground arith)
      | inr beyond ↦ ground arith
    ]

module _ {F : Type 0} (sc : Schema) (v : View F) (inv : IsBase sc v.base) where
  -- A plan whose windows are set, before the rows are searched for.
  pub record IsReady (p : GroupPlan) (qs : QueryScratch) : Type 0 where
    pub alive : p.dead ≡ false
    pub unscanned : p.scan ≡ false
    pub pools : ArePools (length sc.dims) qs
    pub known :
        p.base_possible ≡ true
        → all_base v.base
            (slice qs.cond_dims p.cond_off p.cond_n)
            (slice qs.cond_ids p.cond_off p.cond_n)
          ≡ true
    pub hopeless :
        (r : ℕ) (row : Row F)
        → get_elem? v.base.rows r ≡ some row
        → p.base_possible ≡ false
        → match_delta p qs row.ids ≡ true
        → match_rest p qs v row.ids ≡ false

  -- What the last part of `plan` achieves.
  pub record Achieves (p : GroupPlan) (qs : QueryScratch) (p' : GroupPlan) (qs' : QueryScratch)
      : Type 0 where
    pub writes : Writes p qs p' qs'
    pub finds : FindsAll v p' qs'

  pub eqs_of :
      (p : GroupPlan) (qs : QueryScratch) (ids : List ℕ)
      → match_delta p qs ids ≡ true
      → match_eqs
          (slice qs.cond_dims p.cond_off p.cond_n)
          (slice qs.cond_ids p.cond_off p.cond_n)
          ids
        ≡ true
  unfolding match_delta
  eqs_of p qs ids m = ground arith

  ins_of :
      (p : GroupPlan) (qs : QueryScratch) (ids : List ℕ)
      → ltb 0 p.ins_n ≡ true
      → match_rest p qs v ids ≡ true
      → match_ins (slice qs.in_wins p.ins_off p.ins_n) qs.in_pool ids ≡ true
  unfolding match_rest
  ins_of p qs ids some_ins m = ground arith

  plan_expand-Achieves :
      (p : GroupPlan) (qs : QueryScratch) (reserve : ℕ)
      → ((d : ℕ) → d < length sc.dims → len (dict_at v.base.dicts d) < 2 ^ 32)
      → IsReady p qs
      → p.base_possible ≡ true
      → ltb 0 p.ins_n ≡ true
      → Achieves p qs (plan_expand sc v.base p qs reserve).0 (plan_expand sc v.base p qs reserve).1
  unfolding plan_expand
  plan_expand-Achieves p qs reserve few ready possible some_ins =
      let dims = slice qs.cond_dims p.cond_off p.cond_n in
      let ids = slice qs.cond_ids p.cond_off p.cond_n in
      let wins = slice qs.in_wins p.ins_off p.ins_n in
      let free = replicate sc.index_dims uncovered in
      let eqs = cover_eqs free dims ids in
      let covers = cover_ins v.base qs.in_pool eqs wins in
      let room = qs.ivs_cap - length qs.ivs - reserve in
      let rows = length v.base.rows in
      let chosen = affordable rows room 1 covers in
      let writes = expand_over-Writes sc v inv rows room covers chosen p qs refl in
      record {
        writes = writes;
        finds = λ r row at m rest.
            let eqs_hold =
              eqs_of p qs row.ids (sym (Writes-match_delta v p qs _ _ writes row.ids) ∙ m) in
            let ins_hold =
              ins_of p qs row.ids some_ins
                (sym (Writes-match_rest v p qs _ _ writes row.ids) ∙ rest) in
            let accepts =
              Accepts-cover_ins v.base (length sc.dims) qs.in_pool row.ids
                (base_row sc v.base inv r row at) few eqs wins
                (All-slice (IsWindow (length sc.dims) qs.in_pool) p.ins_off p.ins_n qs.in_wins
                  ready.pools.windows)
                ins_hold
                (Accepts-cover_eqs free dims ids row.ids eqs_hold
                  (Accepts-uncovered sc.index_dims row.ids (inv.whole r row at))) in
            expand_over-Finds sc v inv rows room covers chosen p qs r row refl accepts
              (omega (
                arith,
                length-cover_ins v.base qs.in_pool eqs wins,
                length-cover_eqs free dims ids,
                length-replicate sc.index_dims uncovered,
              ))
              at possible m;
      }

  plan_prefix-Writes :
      (ids : List ℕ) (p : GroupPlan) (qs : QueryScratch)
      → Writes p qs (plan_prefix v.base ids p qs).0 (plan_prefix v.base ids p qs).1
  unfolding plan_prefix
  plan_prefix-Writes [] p qs = full_scan-Writes v.base p qs
  plan_prefix-Writes (id ∷ ids) p qs =
      let x = prefix_rows v.base (id ∷ ids) in
      elim (Bool-cases (ltb x.lo x.hi)) [
        | inl some_rows ↦ rw some_rows (push_iv-Writes v.base p qs x.lo x.hi x)
        | inr no_rows ↦ rw no_rows (record { plan = refl; pools = refl; more_rows = λ r h. h })
      ]

  plan_prefix-Achieves :
      (p : GroupPlan) (qs : QueryScratch)
      → IsReady p qs
      → p.base_possible ≡ true
      → Achieves p qs
          (plan_prefix v.base
            (searched sc
              (slice qs.cond_dims p.cond_off p.cond_n)
              (slice qs.cond_ids p.cond_off p.cond_n))
            p
            qs).0
          (plan_prefix v.base
            (searched sc
              (slice qs.cond_dims p.cond_off p.cond_n)
              (slice qs.cond_ids p.cond_off p.cond_n))
            p
            qs).1
  plan_prefix-Achieves p qs ready possible =
      let dims = slice qs.cond_dims p.cond_off p.cond_n in
      let ids = slice qs.cond_ids p.cond_off p.cond_n in
      let writes = plan_prefix-Writes (searched sc dims ids) p qs in
      record {
        writes = writes;
        finds = λ r row at m rest.
            let eqs_hold =
              eqs_of p qs row.ids (sym (Writes-match_delta v p qs _ _ writes row.ids) ∙ m) in
            let (same, swept) =
              plan_prefix_lossless sc v.base inv dims ids p qs r row (ready.known possible)
                (omega (arith, inv.whole r row at, inv.full r row at, inv.sized))
                (record {
                  alive = ready.alive;
                  possible = possible;
                  unscanned = ready.unscanned;
                  dims_view = refl;
                  ids_view = refl;
                })
                at in
            record { matched = same ∙ eqs_hold; swept = swept eqs_hold };
      }

  Achieves-if :
      (p : GroupPlan) (qs : QueryScratch) (b : Bool) (x y : GroupPlan × QueryScratch)
      → (b ≡ true → Achieves p qs x.0 x.1)
      → (b ≡ false → Achieves p qs y.0 y.1)
      → Achieves p qs (if b then x else y).0 (if b then x else y).1
  Achieves-if p qs true x y h k = h refl
  Achieves-if p qs false x y h k = k refl

  impossible-Achieves :
      (p : GroupPlan) (qs : QueryScratch)
      → IsReady p qs
      → not p.base_possible ≡ true
      → Achieves p qs p qs
  impossible-Achieves p qs ready h = record {
    writes = Writes-refl p qs;
    finds = λ r row at m rest. cc (ready.hopeless r row at (ground arith) m, rest);
  }

  pub plan_rows-Achieves :
      (p : GroupPlan) (qs : QueryScratch) (reserve : ℕ) (l : List ℕ)
      → ((d : ℕ) → d < length sc.dims → len (dict_at v.base.dicts d) < 2 ^ 32)
      → IsReady p qs
      → l
        ≡ searched sc
            (slice qs.cond_dims p.cond_off p.cond_n)
            (slice qs.cond_ids p.cond_off p.cond_n)
      → Achieves p qs (plan_rows sc v.base l p qs reserve).0 (plan_rows sc v.base l p qs reserve).1
  unfolding plan_rows
  plan_rows-Achieves p qs reserve l few ready e =
      Achieves-if p qs (not p.base_possible) (p, qs)
        (if ltb 0 p.ins_n then plan_expand sc v.base p qs reserve else plan_prefix v.base l p qs)
        (impossible-Achieves p qs ready)
        (λ possible.
          Achieves-if p qs (ltb 0 p.ins_n) (plan_expand sc v.base p qs reserve)
            (plan_prefix v.base l p qs) (plan_expand-Achieves p qs reserve few ready (ground arith))
            (λ no_ins. rw e (plan_prefix-Achieves p qs ready (ground arith))))
