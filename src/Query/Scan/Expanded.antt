-- ===== src/Query/Scan/Expanded.antt =====
-- `planExpand` finds every row that the conditions of its group accept.
use facetta.Prelude.{
  ℕ, zero, suc, ◌≤◌, ◌<◌, ◌≡◌, refl, sym, ap, ◌∙◌, true, false, ◌&&◌, ◌||◌, not, some, List, [],
  ◌∷◌, length, map, take, get_elem?, length-take, ltb, leb, arith,
}
use facetta.Schema.{Schema}
use facetta.Dict.{len}
use facetta.Dict.Intern.{get_elem?-lt-length}
use facetta.Keys.Widths.{Below}
use facetta.View.{View}
use facetta.Snapshot.{Row, Snapshot}
use facetta.Snapshot.WellFormed.{IsBase}
use facetta.Query.{GroupPlan, QueryScratch}
use facetta.Query.Expand.{Cover, affordable, prefix_rows, full_scan, expand_over}
use facetta.Query.Expand.Rows.{prefix_rows_iff}
use facetta.Query.Expand.Odometer.{emit_each, all_combinations, expand_over-emit_each}
use facetta.Query.Expand.Accepts.{Accepts, Among, Among-affordable, length-affordable}
use facetta.Query.Expand.Emitted.{
  Writes, emit_each-Writes, emit_each-hits, full_scan-Writes, full_scan-swept,
}
use facetta.Query.Match.{match_delta}
use facetta.Query.Resolve.Windows.{IsBaseRow}
use facetta.Query.Scan.Rows.{Finds, matched_within}

Below-take : (cards ids : List ℕ) (k : ℕ) → Below cards ids → Below cards (take k ids)
Below-take cards ids zero h = tt
Below-take cards [] (suc k) h = tt
Below-take [] (i ∷ ids) (suc k) h = absurd h
Below-take (c ∷ cards) (i ∷ ids) (suc k) h = (h.0, Below-take cards ids k h.1)

pub base_row :
    {F : Type 0} (sc : Schema) (base : Snapshot F) (inv : IsBase sc base) (r : ℕ) (row : Row F)
    → get_elem? base.rows r ≡ some row
    → IsBaseRow (length sc.dims) base.dicts row.ids
base_row sc base inv r row at = record { known = inv.in_dicts r row at; full = inv.full r row at }

module _ {F : Type 0} (sc : Schema) (v : View F) (inv : IsBase sc v.base) where
  -- The rows with the leading ids of a row.
  own_prefix :
      (l : List ℕ) (m r : ℕ) (row : Row F)
      → l ≡ take (suc m) row.ids
      → suc m ≤ sc.index_dims
      → get_elem? v.base.rows r ≡ some row
      → ((prefix_rows v.base l).lo ≤ r) × (r < (prefix_rows v.base l).hi)
  own_prefix [] m r row e short at =
      absurd (omega (arith, ap length e, length-take (suc m) row.ids, inv.whole r row at))
  own_prefix (x ∷ l) m r row e short at =
      let size : length (x ∷ l) ≡ suc m =
        omega (arith, ap length e, length-take (suc m) row.ids, inv.whole r row at) in
      let known : Below (map len v.base.dicts) (x ∷ l) =
        rw e (Below-take (map len v.base.dicts) row.ids (suc m) (inv.in_dicts r row at)) in
      (prefix_rows_iff sc v.base inv x l r row known (omega arith) at).1
        (ap (λ k. take k row.ids) size ∙ sym e)

  pub expand_over-Writes :
      (rows room : ℕ) (covers chosen : List Cover) (p : GroupPlan) (qs : QueryScratch)
      → affordable rows room 1 covers ≡ chosen
      → Writes p qs (expand_over v.base chosen p qs).0 (expand_over v.base chosen p qs).1
  unfolding expand_over
  expand_over-Writes rows room covers [] p qs e = full_scan-Writes v.base p qs
  expand_over-Writes rows room covers (c ∷ cs) p qs e =
      rw (expand_over-emit_each v.base rows room covers c cs p qs e)
        (emit_each-Writes v.base (all_combinations (c ∷ cs)) p qs)

  -- Every row that the covers accept is swept, and lies in the hull unless the plan scans.
  pub expand_over-Finds :
      (rows room : ℕ) (covers chosen : List Cover) (p : GroupPlan) (qs : QueryScratch) (r : ℕ)
      (row : Row F)
      → affordable rows room 1 covers ≡ chosen
      → Accepts covers row.ids
      → length covers ≤ sc.index_dims
      → get_elem? v.base.rows r ≡ some row
      → p.base_possible ≡ true
      → match_delta (expand_over v.base chosen p qs).0 (expand_over v.base chosen p qs).1 row.ids
        ≡ true
      → Finds v (expand_over v.base chosen p qs).0 (expand_over v.base chosen p qs).1 r row.ids
  unfolding expand_over
  expand_over-Finds rows room covers [] p qs r row e accepts few at possible m = record {
    matched =
        matched_within v p qs (full_scan v.base p qs).0 (full_scan v.base p qs).1
          (full_scan-Writes v.base p qs) r row.ids possible m (scans p qs);
    swept = full_scan-swept v.base r p qs (get_elem?-lt-length v.base.rows r row at);
  }
    where
      scans :
          (p : GroupPlan) (qs : QueryScratch)
          → (not (full_scan v.base p qs).0.scan
              && (ltb r (full_scan v.base p qs).0.lo || leb (full_scan v.base p qs).0.hi r))
            ≡ false
      scans p qs = refl
  expand_over-Finds rows room covers (c ∷ cs) p qs r row e accepts few at possible m =
      let ls = all_combinations (c ∷ cs) in
      let same = expand_over-emit_each v.base rows room covers c cs p qs e in
      let ids = take (length (c ∷ cs)) row.ids in
      let among : Among ids ls = rw e at (Among-affordable rows room 1 covers row.ids accepts) in
      let short : length (c ∷ cs) ≤ sc.index_dims =
        omega (arith, ap length e, length-affordable rows room 1 covers) in
      let (lo, hi) = own_prefix ids (length cs) r row refl short at in
      let hit = emit_each-hits v.base r ids ls p qs among lo hi in
      let (p', qs') = emit_each v.base ls p qs in
      rw same (record {
        matched =
            matched_within v p qs p' qs' (emit_each-Writes v.base ls p qs) r row.ids possible
              (rw same at m) (ground (arith, hit.from, hit.to));
        swept = hit.swept;
      })
