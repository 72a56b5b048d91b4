-- ===== src/Query/Sweep.antt =====
-- query.go: `planGroups` behind the planning loop, and the sweep that every query entry point makes
-- over the planned intervals and then over the delta.
pub mod Cover
pub mod Budget
pub mod Sorted
pub mod Relate
use facetta.Prelude.{
  ℕ, zero, suc, ◌+◌, ◌-◌, Bool, true, false, ◌&&◌, ◌||◌, not, List, [], ◌∷◌, length, drop, ltb, leb,
  ◌==◌, if◌then◌else◌,
}
use facetta.Prelude.Int.{ℤ, pos, eqb_ℤ, leb_ℤ}
use facetta.Prelude.Sort.{sort_by}
use facetta.Bitmap.{bit_get}
use facetta.Snapshot.{Row, row_expired}
use facetta.View.{View}
use facetta.Query.{Iv, GroupPlan, QueryScratch}
use facetta.Query.Match.{base_matched, delta_matched}

abbrev pub lo_before : Iv → Iv → Bool
lo_before a b = ltb a.lo b.lo

-- Both branches of the source (up to 32 intervals and above) sort by `lo`.
unfoldable pub sort_ivs : List Iv → List Iv
sort_ivs ivs = sort_by lo_before ivs

-- The rows that the sweep will visit behind the high-water mark `hw`.
pub scan_rows : ℕ → List Iv → ℕ
scan_rows hw [] = 0
scan_rows hw (x ∷ ivs) =
    let lo = if ltb x.lo hw then hw else x.lo in
    let rest = scan_rows hw ivs in
    let swept = (x.hi - lo) + scan_rows x.hi ivs in if leb x.hi hw then rest else swept

-- The clock of one query: whether base and delta rows need the expiry test, and the time of it.
pub record Clock : Type 0 where
  pub base_exp : Bool
  pub delta_exp : Bool
  pub now : ℤ

module _ {F : Type 0} where
  -- `now` is the clock's reading, which is used only if a row can expire.
  unfoldable pub query_clock : View F → ℤ → Clock
  query_clock v now =
      let base_exp = not (eqb_ℤ v.base.min_expire (pos 0)) in
      let delta_exp = v.delta.has_expiry in
      if base_exp || delta_exp
      then record {
        base_exp = base_exp && leb_ℤ v.base.min_expire now;
        delta_exp = delta_exp;
        now = now;
      }
      else record { base_exp = false; delta_exp = false; now = pos 0 }

-- `for r := lo; r < hi; r++`: the rows from index `r` on, for `n` rounds, folded into `s`.
pub sweep_rows {ℓ κ} : {A : Type ℓ} {S : Type κ} → (ℕ → A → S → S) → ℕ → ℕ → List A → S → S
sweep_rows visit zero r rows s = s
sweep_rows visit (suc n) r [] s = s
sweep_rows visit (suc n) r (a ∷ rows) s = sweep_rows visit n (suc r) rows (visit r a s)

-- The loop over the sorted intervals with the high-water mark `done`.
pub sweep {ℓ κ} : {A : Type ℓ} {S : Type κ} → (ℕ → A → S → S) → List A → ℕ → List Iv → S → S
unfolding sweep_rows
sweep visit rows done [] s = s
sweep visit rows done (x ∷ ivs) s =
    let lo = if ltb x.lo done then done else x.lo in
    let skipped = sweep visit rows done ivs s in
    let swept = sweep visit rows x.hi ivs (sweep_rows visit (x.hi - lo) lo (drop lo rows) s) in
    if leb x.hi done then skipped else swept

module _ {F : Type 0} where
  -- A base row is visited unless it is overridden or expired, or no plan matches it.
  unfoldable pub base_visible : View F → Clock → QueryScratch → ℕ → Row F → Bool
  base_visible v c qs r row =
      not (bit_get v.overridden r)
      && not (c.base_exp && row_expired row.expire c.now)
      && base_matched qs.plans qs v r row.ids

  unfoldable pub delta_visible : View F → Clock → QueryScratch → Row F → Bool
  delta_visible v c qs row =
      not (c.delta_exp && row_expired row.expire c.now) && delta_matched qs.plans qs v row.ids

  unfoldable pub fold_base : {S : Type 0} → View F → Clock → QueryScratch → (Row F → S → S) → S → S
  unfolding sweep base_visible
  fold_base v c qs f s =
      sweep (λ r row s. if base_visible v c qs r row then f row s else s) v.base.rows 0 qs.ivs s

  unfoldable pub fold_delta :
      {S : Type 0} → View F → Clock → QueryScratch → (Row F → S → S) → List (Row F) → S → S
  unfolding delta_visible
  fold_delta v c qs f [] s = s
  fold_delta v c qs f (row ∷ rows) s =
      fold_delta v c qs f rows (if delta_visible v c qs row then f row s else s)

  -- The matched rows of a query, base first, folded in the order of the visits.
  unfoldable pub fold_matched :
      {S : Type 0} → View F → Clock → QueryScratch → (Row F → S → S) → S → S
  unfolding fold_base fold_delta
  fold_matched v c qs f s = fold_delta v c qs f v.delta.rows (fold_base v c qs f s)
