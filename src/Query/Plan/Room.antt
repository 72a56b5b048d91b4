-- ===== src/Query/Plan/Room.antt =====
-- Planning never grows the slice of intervals, and so never reslices beyond its capacity.
use facetta.Prelude.{
  ℕ, ◌+◌, ◌≤◌, ◌≡◌, refl, sym, ap, Bool, true, false, not, List, [], ◌∷◌, length, ltb, arith,
  Bool-cases, inl, inr, if◌then◌else◌,
}
use facetta.Schema.{Schema}
use facetta.Result.{ok, >>=-eq-ok, ok_inj}
use facetta.Snapshot.{Snapshot}
use facetta.View.{View}
use facetta.Query.{Cond, GroupPlan, fresh_plan, QueryScratch, push_iv}
use facetta.Query.Resolve.{Resolution, live, dead, resolve_conds}
use facetta.Query.Resolve.Ivs.{SameIvs, scratch_of, resolve_conds-SameIvs}
use facetta.Query.Expand.{plan_expand, prefix_rows}
use facetta.Query.Expand.Room.{Appends, push_iv-Appends, full_scan-Appends, plan_expand_room}
use facetta.Query.Plan.{
  plan_prefix, plan_rows, group_pins, group_plan, plan_live, plan_resolved, plan,
}

-- Room for the reserved slots remains, in a slice of the same capacity.
pub record Leaves (reserve cap : ℕ) (qs : QueryScratch) : Type 0 where
  pub room : length qs.ivs + reserve ≤ cap
  pub kept_cap : qs.ivs_cap ≡ cap

Leaves-same :
    (qs : QueryScratch) (reserve : ℕ)
    → length qs.ivs + 1 + reserve ≤ qs.ivs_cap
    → Leaves reserve qs.ivs_cap qs
Leaves-same qs reserve free = record { room = omega arith; kept_cap = refl }

Leaves-Appends :
    (qs qs' : QueryScratch) (reserve : ℕ)
    → length qs.ivs + 1 + reserve ≤ qs.ivs_cap
    → Appends 1 qs qs'
    → Leaves reserve qs.ivs_cap qs'
Leaves-Appends qs qs' reserve free a = record { room = omega (arith, a.few); kept_cap = a.same_cap }

Leaves-if :
    (reserve cap : ℕ) (b : Bool) (x y : GroupPlan × QueryScratch)
    → Leaves reserve cap x.1
    → Leaves reserve cap y.1
    → Leaves reserve cap (if b then x else y).1
Leaves-if reserve cap true x y hx hy = hx
Leaves-if reserve cap false x y hx hy = hy

module _ {F : Type 0} where
  plan_prefix-Leaves :
      (base : Snapshot F) (ids : List ℕ) (p : GroupPlan) (qs : QueryScratch) (reserve : ℕ)
      → length qs.ivs + 1 + reserve ≤ qs.ivs_cap
      → Leaves reserve qs.ivs_cap (plan_prefix base ids p qs).1
  unfolding plan_prefix
  plan_prefix-Leaves base [] p qs reserve free =
      Leaves-Appends qs _ reserve free (full_scan-Appends base p qs)
  plan_prefix-Leaves base (id ∷ ids) p qs reserve free =
      let x = prefix_rows base (id ∷ ids) in
      elim (Bool-cases (ltb x.lo x.hi)) [
        | inl some_rows ↦
            rw some_rows (Leaves-Appends qs (push_iv qs x) reserve free (push_iv-Appends base qs x))
        | inr no_rows ↦ rw no_rows (Leaves-same qs reserve free)
      ]

  plan_rows-Leaves :
      (sc : Schema) (base : Snapshot F) (ids : List ℕ) (p : GroupPlan) (qs : QueryScratch)
      (reserve : ℕ)
      → length qs.ivs + 1 + reserve ≤ qs.ivs_cap
      → Leaves reserve qs.ivs_cap (plan_rows sc base ids p qs reserve).1
  unfolding plan_rows
  plan_rows-Leaves sc base ids p qs reserve free =
      let (few, same) = plan_expand_room base sc p qs reserve free in
      Leaves-if reserve qs.ivs_cap (not p.base_possible) (p, qs)
        (if ltb 0 p.ins_n then plan_expand sc base p qs reserve else plan_prefix base ids p qs)
        (Leaves-same qs reserve free)
        (Leaves-if reserve qs.ivs_cap (ltb 0 p.ins_n) (plan_expand sc base p qs reserve)
          (plan_prefix base ids p qs) (record { room = few; kept_cap = same })
          (plan_prefix-Leaves base ids p qs reserve free))

  plan_live-Leaves :
      (sc : Schema) (v : View F) (before qs : QueryScratch) (possible : Bool) (reserve : ℕ)
      → length qs.ivs + 1 + reserve ≤ qs.ivs_cap
      → Leaves reserve qs.ivs_cap (plan_live sc v before qs possible reserve).1
  unfolding plan_live
  plan_live-Leaves sc v before qs possible reserve free =
      plan_rows-Leaves sc v.base (group_pins sc before qs) (group_plan v before qs possible) qs
        reserve free

  plan_resolved-Leaves :
      (sc : Schema) (v : View F) (before : QueryScratch) (reserve : ℕ) (r : Resolution)
      → SameIvs before (scratch_of r)
      → length before.ivs + 1 + reserve ≤ before.ivs_cap
      → Leaves reserve before.ivs_cap (plan_resolved sc v before reserve r).1
  unfolding plan_resolved
  plan_resolved-Leaves sc v before reserve (dead qs possible) same free = record {
    room = rw same.same_ivs (omega arith);
    kept_cap = same.same_cap;
  }
  plan_resolved-Leaves sc v before reserve (live qs possible) same free =
      let free' : length qs.ivs + 1 + reserve ≤ qs.ivs_cap =
        rw (same.same_ivs, same.same_cap) free in
      rw (← same.same_cap) (plan_live-Leaves sc v before qs possible reserve free')

  -- If there is a free interval slot for this group beside those reserved for later ones, then a
  -- successful plan leaves the reserved slots free and the capacity as it is.
  pub plan-Leaves :
      (sc : Schema) (v : View F) (g : List Cond) (qs qs' : QueryScratch) (reserve : ℕ)
      (p : GroupPlan)
      → length qs.ivs + 1 + reserve ≤ qs.ivs_cap
      → plan sc v g qs reserve ≡ ok (p, qs')
      → Leaves reserve qs.ivs_cap qs'
  unfolding plan
  plan-Leaves sc v [] qs qs' reserve p free h =
      rw (ap (λ x. x.1) (ok_inj (sym h)))
        (Leaves-Appends qs _ reserve free (full_scan-Appends v.base fresh_plan qs))
  plan-Leaves sc v (c ∷ cs) qs qs' reserve p free h =
      let (r, e, last) = >>=-eq-ok (resolve_conds sc v qs true (c ∷ cs)) _ h in
      let leaves =
        plan_resolved-Leaves sc v qs reserve r (resolve_conds-SameIvs sc v qs true (c ∷ cs) r e)
          free in
      rw (ap (λ x. x.1) (ok_inj last)) at leaves
