-- ===== src/Query/Plan/Prefix.antt =====
-- `plan` on a group without IN conditions: the index prefix only narrows the scan.
use facetta.Prelude.{
  ℕ, ◌≤◌, ◌≡◌, true, false, Option, none, some, List, [], ◌∷◌, length, map, take, get_elem?,
  replicate, length-replicate, arith, Bool-cases, inl, inr,
}
use facetta.Schema.{Schema}
use facetta.Dict.{len}
use facetta.Dict.Intern.{get_elem?-lt-length}
use facetta.Keys.Widths.{Below}
use facetta.Snapshot.{Row, Snapshot}
use facetta.Snapshot.WellFormed.{IsBase}
use facetta.Query.{GroupPlan, QueryScratch, Iv, slice, push_iv}
use facetta.Query.Expand.{full_scan, prefix_rows}
use facetta.Query.Expand.Rows.{prefix_rows_iff}
use facetta.Query.Expand.Emitted.{covered-append}
use facetta.Query.Match.{match_base, match_eqs}
use facetta.Query.Sweep.Cover.{covered}
use facetta.Query.Plan.{pin_eqs, pinned_prefix, all_base, plan_prefix}
use facetta.Query.Plan.Pins.{
  Holds-unpinned, Holds-pin_eqs, Holds-pinned_prefix, Known-unpinned, Known-pin_eqs,
  Below-pinned_prefix, length-pinned_prefix, length-pin_eqs,
}

-- The prefix that `plan` searches for.
abbrev pub searched : Schema → List ℕ → List ℕ → List ℕ
searched sc dims ids = pinned_prefix (pin_eqs (replicate sc.index_dims none) dims ids)

module _ {F : Type 0} (sc : Schema) (base : Snapshot F) (inv : IsBase sc base)
    (dims ids : List ℕ) where
  -- A plan of equality conditions before the prefix is searched for.
  pub record IsResolved (p : GroupPlan) (qs : QueryScratch) : Type 0 where
    pub alive : p.dead ≡ false
    pub possible : p.base_possible ≡ true
    pub unscanned : p.scan ≡ false
    pub dims_view : slice qs.cond_dims p.cond_off p.cond_n ≡ dims
    pub ids_view : slice qs.cond_ids p.cond_off p.cond_n ≡ ids

  narrowed :
      (l : List ℕ) (p : GroupPlan) (qs : QueryScratch) (r : ℕ) (row : Row F)
      → Below (map len base.dicts) l
      → length l ≤ sc.index_dims
      → (match_eqs dims ids row.ids ≡ true → take (length l) row.ids ≡ l)
      → IsResolved p qs
      → get_elem? base.rows r ≡ some row
      → (match_base (plan_prefix base l p qs).0 (plan_prefix base l p qs).1 r row.ids
          ≡ match_eqs dims ids row.ids)
        × (match_eqs dims ids row.ids ≡ true → covered r (plan_prefix base l p qs).1.ivs ≡ true)
  unfolding plan_prefix full_scan match_base push_iv
  narrowed [] p qs r row known short starts res at =
      let lt = get_elem?-lt-length base.rows r row at in
      let whole : Iv = record { lo = 0; hi = length base.rows } in
      (ground arith, λ m. ground (arith, covered-append r qs.ivs whole))
  narrowed (id ∷ l) p qs r row known short starts res at =
      let (into, from) = prefix_rows_iff sc base inv id l r row known short at in
      let x = prefix_rows base (id ∷ l) in
      elim (Bool-cases (match_eqs dims ids row.ids)) [
        | inl m ↦
            let (lo, hi) = from (starts m) in
            (ground arith, λ _. ground (arith, covered-append r qs.ivs x))
        | inr m ↦ (ground arith, λ m'. cc)
      ]

  -- For resolved equality conditions on a well-formed base: behind the search for their index prefix
  -- the plan accepts a row (as far as the equality conditions go) exactly when the conditions do, and
  -- every row that they accept lies in an interval of the sweep.
  pub plan_prefix_lossless :
      (p : GroupPlan) (qs : QueryScratch) (r : ℕ) (row : Row F)
      → all_base base dims ids ≡ true
      → sc.index_dims ≤ length base.dicts
      → IsResolved p qs
      → get_elem? base.rows r ≡ some row
      → (match_base
            (plan_prefix base (searched sc dims ids) p qs).0
            (plan_prefix base (searched sc dims ids) p qs).1
            r
            row.ids
          ≡ match_eqs dims ids row.ids)
        × (match_eqs dims ids row.ids ≡ true
            → covered r (plan_prefix base (searched sc dims ids) p qs).1.ivs ≡ true)
  plan_prefix_lossless p qs r row known dicts res at =
      let pins = pin_eqs (replicate sc.index_dims none) dims ids in
      let below =
        Known-pin_eqs base (replicate sc.index_dims none) dims ids known
          (Known-unpinned base.dicts sc.index_dims dicts) in
      narrowed (searched sc dims ids) p qs r row (Below-pinned_prefix base.dicts pins below)
        (omega (
          arith,
          length-pinned_prefix pins,
          length-pin_eqs (replicate sc.index_dims none) dims ids,
          length-replicate {A = Option ℕ} sc.index_dims none,
        ))
        (λ m. Holds-pinned_prefix pins row.ids (
          Holds-pin_eqs (replicate sc.index_dims none) dims ids row.ids m
            (Holds-unpinned sc.index_dims row.ids (inv.whole r row at))))
        res at
