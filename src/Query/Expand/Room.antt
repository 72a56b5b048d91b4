-- ===== src/Query/Expand/Room.antt =====
-- The planner writes no more intervals than the slots that it has: the combinations of an expansion
-- fit the free room, and each emits one interval at most.
use facetta.Prelude.{
  ℕ, zero, suc, ◌+◌, ◌-◌, ◌*◌, ◌≤◌, ◌≡◌, refl, ◌∙◌, ◌||◌, List, [], ◌∷◌, length, length-append, ltb,
  ◌==◌, arith, Bool-cases, inl, inr, replicate,
}
use facetta.Keys.{bit_len}
use facetta.Schema.{Schema}
use facetta.Snapshot.{Snapshot}
use facetta.Query.{GroupPlan, QueryScratch, Iv, slice, push_iv}
use facetta.Query.Expand.{
  Cover, is_some, combinations, affordable, emit, odometer, full_scan, expand_over, plan_expand,
  combination, advance, prefix_rows, cover_eqs, cover_ins, uncovered,
}

affordable_room :
    (rows room combos : ℕ) (cs : List Cover)
    → combos ≤ room
    → combos * combinations (affordable rows room combos cs) ≤ room
unfolding affordable combinations
affordable_room rows room combos [] h = omega arith
affordable_room rows room combos (c ∷ cs) h = elim (Bool-cases (is_some c.eq)) [
  | inl pinned ↦ rw pinned (rw pinned (omega (arith, affordable_room rows room combos cs h)))
  | inr free ↦ elim (Bool-cases (length c.cand == 0)) [
    | inl none_left ↦ rw (free, none_left) (omega arith)
    | inr some_left ↦
        let n = combos * length c.cand in
        elim (Bool-cases (ltb rows (n * bit_len rows) || ltb room n)) [
          | inl over ↦ rw (free, some_left, over) (omega arith)
          | inr fits ↦
              let ih = affordable_room rows room n cs (ground arith) in
              rw (free, some_left, fits) (rw free (omega (arith, ih)))
        ]
  ]
]

-- What planning may do to the intervals: append at most `n`, and keep the capacity.
pub record Appends (n : ℕ) (before after : QueryScratch) : Type 0 where
  pub few : length after.ivs ≤ length before.ivs + n
  pub same_cap : after.ivs_cap ≡ before.ivs_cap

module _ {F : Type 0} (base : Snapshot F) where
  pub push_iv-Appends : (qs : QueryScratch) (x : Iv) → Appends 1 qs (push_iv qs x)
  unfolding push_iv
  push_iv-Appends qs x = record {
    few = omega (arith, length-append qs.ivs (x ∷ []));
    same_cap = refl;
  }

  emit-Appends :
      (ids : List ℕ) (p : GroupPlan) (qs : QueryScratch) → Appends 1 qs (emit base ids p qs).1
  unfolding emit
  emit-Appends ids p qs = elim (Bool-cases (ltb x.lo x.hi)) [
    | inl some_rows ↦ rw some_rows (push_iv-Appends qs x)
    | inr no_rows ↦ rw no_rows (record { few = omega arith; same_cap = refl })
  ]
    where
      x : Iv
      x = prefix_rows base ids

  pub full_scan-Appends : (p : GroupPlan) (qs : QueryScratch) → Appends 1 qs (full_scan base p qs).1
  unfolding full_scan
  full_scan-Appends p qs = elim (Bool-cases (length base.rows == 0)) [
    | inl empty ↦ rw empty (record { few = omega arith; same_cap = refl })
    | inr rows ↦ rw rows (push_iv-Appends qs (record { lo = 0; hi = length base.rows }))
  ]

  odometer-Appends :
      (fuel : ℕ) (covers : List Cover) (idx : List ℕ) (p : GroupPlan) (qs : QueryScratch)
      → Appends fuel qs (odometer fuel base covers idx p qs).1
  unfolding odometer
  odometer-Appends zero covers idx p qs = record { few = omega arith; same_cap = refl }
  odometer-Appends (suc fuel) covers idx p qs =
      let (p', qs') = emit base (combination covers idx) p qs in
      let one = emit-Appends (combination covers idx) p qs in
      let (idx', wrapped) = advance covers idx in
      let more = odometer-Appends fuel covers idx' p' qs' in
      elim (Bool-cases wrapped) [
        | inl stop ↦ rw stop (record { few = omega (arith, one.few); same_cap = one.same_cap })
        | inr next ↦ rw next (record {
          few = omega (arith, one.few, more.few);
          same_cap = more.same_cap ∙ one.same_cap;
        })
      ]

  expand_over-Appends :
      (covers : List Cover) (p : GroupPlan) (qs : QueryScratch)
      → Appends (combinations covers) qs (expand_over base covers p qs).1
  unfolding expand_over combinations
  expand_over-Appends [] p qs = full_scan-Appends p qs
  expand_over-Appends (c ∷ cs) p qs =
      odometer-Appends (combinations (c ∷ cs)) (c ∷ cs) (replicate (length (c ∷ cs)) 0) p qs

  -- With a free slot beyond the reservation, the expansion of a group stays within the slots that
  -- are not reserved for later groups, and so never grows the slice.
  pub plan_expand_room :
      (sc : Schema) (p : GroupPlan) (qs : QueryScratch) (reserve : ℕ)
      → length qs.ivs + 1 + reserve ≤ qs.ivs_cap
      → (length (plan_expand sc base p qs reserve).1.ivs + reserve ≤ qs.ivs_cap)
        × ((plan_expand sc base p qs reserve).1.ivs_cap ≡ qs.ivs_cap)
  unfolding plan_expand
  plan_expand_room sc p qs reserve free =
      let eqs =
        cover_eqs (replicate sc.index_dims uncovered) (slice qs.cond_dims p.cond_off p.cond_n)
          (slice qs.cond_ids p.cond_off p.cond_n) in
      let covers = cover_ins base qs.in_pool eqs (slice qs.in_wins p.ins_off p.ins_n) in
      let room = qs.ivs_cap - length qs.ivs - reserve in
      let chosen = affordable (length base.rows) room 1 covers in
      let added = expand_over-Appends chosen p qs in
      let fits = affordable_room (length base.rows) room 1 covers (omega arith) in
      (omega (arith, added.few, fits), added.same_cap)
