-- ===== src/Query/Expand/Emitted.antt =====
-- What the planner writes for a group: intervals behind those of the earlier groups, and the hull and
-- the scan mark of the plan.
use facetta.Prelude.{
  ℕ, ◌≤◌, ◌<◌, ◌≡◌, refl, ap, ◌∙◌, true, ◌&&◌, ◌||◌, List, [], ◌∷◌, ◌++◌, length, ltb, leb, ◌==◌,
  arith, Bool-cases, inl, inr,
}
use facetta.Snapshot.{Snapshot}
use facetta.Query.{GroupPlan, QueryScratch, Iv, push_iv}
use facetta.Query.Expand.{prefix_rows, emit, full_scan}
use facetta.Query.Expand.Odometer.{emit_each}
use facetta.Query.Expand.Accepts.{Among}
use facetta.Query.Sweep.Cover.{covered}

-- The last of the intervals is covered with the others.
pub covered-append :
    (r : ℕ) (ivs : List Iv) (x : Iv)
    → covered r (ivs ++ x ∷ []) ≡ (covered r ivs || (leb x.lo r && ltb r x.hi))
unfolding covered
covered-append r [] x = ground arith
covered-append r (y ∷ ivs) x = ground (arith, covered-append r ivs x)

-- Only the hull and the scan mark of the plan differ, the pools but that of the intervals are the
-- same, and no covered row is lost.
pub record Writes (p : GroupPlan) (qs : QueryScratch) (p' : GroupPlan) (qs' : QueryScratch)
    : Type 0 where
  pub plan : p' ≡ record p { lo = p'.lo; hi = p'.hi; scan = p'.scan }
  pub pools : qs' ≡ record qs { ivs = qs'.ivs }
  pub more_rows : (r : ℕ) → covered r qs.ivs ≡ true → covered r qs'.ivs ≡ true

pub Writes-refl : (p : GroupPlan) (qs : QueryScratch) → Writes p qs p qs
Writes-refl p qs = record { plan = refl; pools = refl; more_rows = λ r h. h }

pub Writes-trans :
    (p : GroupPlan) (qs : QueryScratch) (p' : GroupPlan) (qs' : QueryScratch) (p'' : GroupPlan)
    (qs'' : QueryScratch)
    → Writes p qs p' qs'
    → Writes p' qs' p'' qs''
    → Writes p qs p'' qs''
Writes-trans p qs p' qs' p'' qs'' h k = record {
  plan =
      k.plan
      ∙ ap (λ (q : GroupPlan). record q { lo = p''.lo; hi = p''.hi; scan = p''.scan }) h.plan;
  pools = k.pools ∙ ap (λ (q : QueryScratch). record q { ivs = qs''.ivs }) h.pools;
  more_rows = λ r c. k.more_rows r (h.more_rows r c);
}

-- The row lies in the hull and in an interval.
pub record IsHit (r : ℕ) (p : GroupPlan) (qs : QueryScratch) : Type 0 where
  pub from : p.lo ≤ r
  pub to : r < p.hi
  pub swept : covered r qs.ivs ≡ true

module _ {F : Type 0} (base : Snapshot F) where
  pub push_iv-Writes :
      (p : GroupPlan) (qs : QueryScratch) (lo hi : ℕ) (x : Iv)
      → Writes p qs (record p { lo = lo; hi = hi }) (push_iv qs x)
  unfolding push_iv
  push_iv-Writes p qs lo hi x = record {
    plan = refl;
    pools = refl;
    more_rows = λ r h. ground (arith, covered-append r qs.ivs x);
  }

  emit-Writes :
      (ids : List ℕ) (p : GroupPlan) (qs : QueryScratch)
      → Writes p qs (emit base ids p qs).0 (emit base ids p qs).1
  unfolding emit
  emit-Writes ids p qs =
      let x = prefix_rows base ids in
      elim (Bool-cases (ltb x.lo x.hi)) [
        | inl some_rows ↦ rw some_rows (push_iv-Writes p qs _ _ x)
        | inr no_rows ↦ rw no_rows (Writes-refl p qs)
      ]

  emit-keeps :
      (r : ℕ) (ids : List ℕ) (p : GroupPlan) (qs : QueryScratch)
      → IsHit r p qs
      → IsHit r (emit base ids p qs).0 (emit base ids p qs).1
  unfolding emit push_iv
  emit-keeps r ids p qs h =
      let x = prefix_rows base ids in
      elim (Bool-cases (ltb x.lo x.hi)) [
        | inl some_rows ↦ rw some_rows (record {
          from = ground (arith, h.from, h.to);
          to = ground (arith, h.to);
          swept = ground (arith, covered-append r qs.ivs x, h.swept);
        })
        | inr no_rows ↦ rw no_rows h
      ]

  emit-hits :
      (r : ℕ) (ids : List ℕ) (p : GroupPlan) (qs : QueryScratch)
      → (prefix_rows base ids).lo ≤ r
      → r < (prefix_rows base ids).hi
      → IsHit r (emit base ids p qs).0 (emit base ids p qs).1
  unfolding emit push_iv
  emit-hits r ids p qs lo hi =
      let x = prefix_rows base ids in
      let some_rows : ltb x.lo x.hi ≡ true = ground arith in
      rw some_rows (record {
        from = ground arith;
        to = ground arith;
        swept = ground (arith, covered-append r qs.ivs x);
      })

  pub emit_each-Writes :
      (ls : List (List ℕ)) (p : GroupPlan) (qs : QueryScratch)
      → Writes p qs (emit_each base ls p qs).0 (emit_each base ls p qs).1
  unfolding emit_each
  emit_each-Writes [] p qs = Writes-refl p qs
  emit_each-Writes (ids ∷ ls) p qs =
      let (p', qs') = emit base ids p qs in
      let (p'', qs'') = emit_each base ls p' qs' in
      Writes-trans p qs p' qs' p'' qs'' (emit-Writes ids p qs) (emit_each-Writes ls p' qs')

  emit_each-keeps :
      (r : ℕ) (ls : List (List ℕ)) (p : GroupPlan) (qs : QueryScratch)
      → IsHit r p qs
      → IsHit r (emit_each base ls p qs).0 (emit_each base ls p qs).1
  unfolding emit_each
  emit_each-keeps r [] p qs h = h
  emit_each-keeps r (ids ∷ ls) p qs h =
      let (p', qs') = emit base ids p qs in emit_each-keeps r ls p' qs' (emit-keeps r ids p qs h)

  -- A row with the ids of some combination is hit.
  pub emit_each-hits :
      (r : ℕ) (ids : List ℕ) (ls : List (List ℕ)) (p : GroupPlan) (qs : QueryScratch)
      → Among ids ls
      → (prefix_rows base ids).lo ≤ r
      → r < (prefix_rows base ids).hi
      → IsHit r (emit_each base ls p qs).0 (emit_each base ls p qs).1
  unfolding emit_each Among
  emit_each-hits r ids [] p qs a lo hi = absurd a
  emit_each-hits r ids (l ∷ ls) p qs (inl e) lo hi =
      let (p', qs') = emit base l p qs in
      emit_each-keeps r ls p' qs' (emit-hits r l p qs (rw e at lo) (rw e at hi))
  emit_each-hits r ids (l ∷ ls) p qs (inr a) lo hi =
      let (p', qs') = emit base l p qs in emit_each-hits r ids ls p' qs' a lo hi

  pub full_scan-Writes :
      (p : GroupPlan) (qs : QueryScratch)
      → Writes p qs (full_scan base p qs).0 (full_scan base p qs).1
  unfolding full_scan push_iv
  full_scan-Writes p qs = elim (Bool-cases (length base.rows == 0)) [
    | inl empty ↦ rw empty (record { plan = refl; pools = refl; more_rows = λ r h. h })
    | inr rows ↦ rw rows (record {
      plan = refl;
      pools = refl;
      more_rows =
          λ r h. ground (arith, covered-append r qs.ivs (record { lo = 0; hi = length base.rows }));
    })
  ]

  pub full_scan-swept :
      (r : ℕ) (p : GroupPlan) (qs : QueryScratch)
      → r < length base.rows
      → covered r (full_scan base p qs).1.ivs ≡ true
  unfolding full_scan push_iv
  full_scan-swept r p qs lt =
      ground (arith, covered-append r qs.ivs (record { lo = 0; hi = length base.rows }))
