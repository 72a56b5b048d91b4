-- ===== src/Query/Scan/Expired.antt =====
-- query.go: `queryClock` may leave out the expiry test of the base or of the delta, or the reading of
-- the clock; no row that it spares the test has expired.
use facetta.Prelude.{
  ℕ, zero, suc, ◌≡◌, refl, ap, ◌∙◌, Bool, true, false, ◌&&◌, ◌||◌, not, inl, inr, some, List, [],
  ◌∷◌, get_elem?, arith, Bool-cases,
}
use mathlib.Core.Path.{subst}
use facetta.Prelude.Int.{ℤ, pos, eqb_ℤ, leb_ℤ}
use facetta.Snapshot.{Row, Track, no_rows, track_min, track_row, track_rows, row_expired}
use facetta.View.{View}
use facetta.View.Apply.Index.{IsDelta}
use facetta.Query.Sweep.{query_clock}

-- A row with the expiry time `e` never expires, or not before `m`, which is not zero.
bounded : ℤ → ℤ → Bool
bounded m e = eqb_ℤ e (pos 0) || (not (eqb_ℤ m (pos 0)) && leb_ℤ m e)

bounded_trans : (m n e : ℤ) → bounded m n ≡ true → bounded n e ≡ true → bounded m e ≡ true
unfolding bounded
bounded_trans m n e h h' = ground arith

bounded_refl : (m : ℤ) → bounded m m ≡ true
unfolding bounded
bounded_refl m = ground arith

track_row-old : (t : Track) (u e : ℤ) → bounded (track_row t u e).min_expire t.min_expire ≡ true
unfolding track_row track_min bounded
track_row-old t u e = ground arith

track_row-new : (t : Track) (u e : ℤ) → bounded (track_row t u e).min_expire e ≡ true
unfolding track_row track_min bounded
track_row-new t u e = ground arith

some_expire :
    (m e now : ℤ)
    → bounded m e ≡ true
    → ((not (eqb_ℤ m (pos 0)) && leb_ℤ m now) && row_expired e now) ≡ row_expired e now
unfolding bounded row_expired
some_expire m e now h = ground arith

never_lem : (e now : ℤ) → eqb_ℤ e (pos 0) ≡ true → false ≡ row_expired e now
unfolding row_expired
never_lem e now h = ground arith

no_expire :
    (m e now : ℤ) (other : Bool)
    → bounded m e ≡ true
    → (not (eqb_ℤ m (pos 0)) || other) ≡ false
    → false ≡ row_expired e now
unfolding bounded row_expired
no_expire m e now other h h' = ground arith

module _ {F : Type 0} where
  track_rows-old :
      (rows : List (Row F)) (t : Track) → bounded (track_rows t rows).min_expire t.min_expire ≡ true
  unfolding track_rows
  track_rows-old [] t = bounded_refl t.min_expire
  track_rows-old (row ∷ rows) t =
      let t' = track_row t row.updated row.expire in
      bounded_trans (track_rows t' rows).min_expire t'.min_expire t.min_expire
        (track_rows-old rows t') (track_row-old t row.updated row.expire)

  -- The tracked time bounds the expiry time of each row.
  track_rows-bounded :
      (rows : List (Row F)) (t : Track) (r : ℕ) (row : Row F)
      → get_elem? rows r ≡ some row
      → bounded (track_rows t rows).min_expire row.expire ≡ true
  unfolding track_rows
  track_rows-bounded [] t r row at = cc
  track_rows-bounded (x ∷ rows) t zero row at =
      let t' = track_row t x.updated x.expire in
      let same : x ≡ row = cc at in
      subst (λ (q : Row F). bounded (track_rows t' rows).min_expire q.expire ≡ true) same
        (bounded_trans (track_rows t' rows).min_expire t'.min_expire x.expire
          (track_rows-old rows t') (track_row-new t x.updated x.expire))
  track_rows-bounded (x ∷ rows) t (suc r) row at =
      track_rows-bounded rows (track_row t x.updated x.expire) r row at

  module _ (v : View F) (now : ℤ) where
    -- The test of a base row is the test of its time.
    pub base_expired :
        (r : ℕ) (row : Row F)
        → v.base.min_expire ≡ (track_rows no_rows v.base.rows).min_expire
        → get_elem? v.base.rows r ≡ some row
        → ((query_clock v now).base_exp && row_expired row.expire (query_clock v now).now)
          ≡ row_expired row.expire now
    unfolding query_clock
    base_expired r row tracked at =
        let m = v.base.min_expire in
        let bound : bounded m row.expire ≡ true =
          ap (λ k. bounded k row.expire) tracked
          ∙ track_rows-bounded v.base.rows no_rows r row at in
        elim (Bool-cases (not (eqb_ℤ m (pos 0)) || v.delta.has_expiry)) [
          | inl read ↦ rw read (some_expire m row.expire now bound)
          | inr unread ↦ rw unread (no_expire m row.expire now v.delta.has_expiry bound unread)
        ]

    pub delta_expired :
        (r : ℕ) (row : Row F)
        → IsDelta v.delta
        → get_elem? v.delta.rows r ≡ some row
        → ((query_clock v now).delta_exp && row_expired row.expire (query_clock v now).now)
          ≡ row_expired row.expire now
    unfolding query_clock
    delta_expired r row delta at =
        let m = v.base.min_expire in
        elim (Bool-cases v.delta.has_expiry) [
          | inl flag ↦
              let read : (not (eqb_ℤ m (pos 0)) || v.delta.has_expiry) ≡ true = ground arith in
              rw (read, flag) refl
          | inr clear ↦
              let never = (delta.entry r row at).flagged clear in
              elim (Bool-cases (not (eqb_ℤ m (pos 0)) || v.delta.has_expiry)) [
                | inl read ↦ rw (read, clear) (never_lem row.expire now never)
                | inr unread ↦ rw unread (never_lem row.expire now never)
              ]
        ]
