-- ===== src/Query/Sweep/Relate.antt =====
-- Two folds over the matched rows of one query stay related when their steps do.
use facetta.Prelude.{
  ℕ, zero, suc, ◌-◌, Bool, true, false, List, [], ◌∷◌, drop, ltb, leb, Bool-cases, inl, inr,
  if◌then◌else◌,
}
use facetta.Snapshot.{Row}
use facetta.View.{View}
use facetta.Query.{Iv, QueryScratch}
use facetta.Query.Sweep.{
  Clock, sweep_rows, sweep, base_visible, delta_visible, fold_base, fold_delta, fold_matched,
}

module _ {ℓ κ μ} {A : Type ℓ} {S T : Type κ} (R : S → T → Type μ) (f : ℕ → A → S → S)
    (g : ℕ → A → T → T)
    (step : (r : ℕ) (a : A) (s : S) (t : T) → R s t → R (f r a s) (g r a t)) where
  sweep_rows_related :
      (n r : ℕ) (rows : List A) (s : S) (t : T)
      → R s t
      → R (sweep_rows f n r rows s) (sweep_rows g n r rows t)
  unfolding sweep_rows
  sweep_rows_related zero r rows s t h = h
  sweep_rows_related (suc n) r [] s t h = h
  sweep_rows_related (suc n) r (a ∷ rows) s t h =
      sweep_rows_related n (suc r) rows (f r a s) (g r a t) (step r a s t h)

  sweep_related :
      (rows : List A) (done : ℕ) (ivs : List Iv) (s : S) (t : T)
      → R s t
      → R (sweep f rows done ivs s) (sweep g rows done ivs t)
  unfolding sweep
  sweep_related rows done [] s t h = h
  sweep_related rows done (x ∷ ivs) s t h =
      let lo = if ltb x.lo done then done else x.lo in
      elim (Bool-cases (leb x.hi done)) [
        | inl skip ↦ rw skip (sweep_related rows done ivs s t h)
        | inr visited ↦ rw visited (
            sweep_related rows x.hi ivs _ _
              (sweep_rows_related (x.hi - lo) lo (drop lo rows) s t h))
      ]

module _ {μ} {F S T : Type 0} (v : View F) (c : Clock) (qs : QueryScratch) (R : S → T → Type μ)
    (f : Row F → S → S) (g : Row F → T → T)
    (step : (row : Row F) (s : S) (t : T) → R s t → R (f row s) (g row t)) where
  if_related :
      (b : Bool) (row : Row F) (s : S) (t : T)
      → R s t
      → R (if b then f row s else s) (if b then g row t else t)
  if_related true row s t h = step row s t h
  if_related false row s t h = h

  fold_delta_related :
      (rows : List (Row F)) (s : S) (t : T)
      → R s t
      → R (fold_delta v c qs f rows s) (fold_delta v c qs g rows t)
  unfolding fold_delta
  fold_delta_related [] s t h = h
  fold_delta_related (row ∷ rows) s t h =
      fold_delta_related rows _ _ (if_related (delta_visible v c qs row) row s t h)

  pub fold_matched_related :
      (s : S) (t : T) → R s t → R (fold_matched v c qs f s) (fold_matched v c qs g t)
  unfolding fold_matched fold_base
  fold_matched_related s t h = fold_delta_related v.delta.rows _ _ (
      sweep_related R _ _ (λ r row s' t' h'. if_related (base_visible v c qs r row) row s' t' h')
        v.base.rows 0 qs.ivs s t h)
