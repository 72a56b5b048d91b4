-- ===== src/View/Apply/Raised.antt =====
-- view.go: where the clock and the expiry flag that `applyDelta` leaves come from.
use facetta.Prelude.{
  ℕ, suc, ◌≡◌, refl, ap, Bool, true, false, ◌&&◌, ◌||◌, not, Option, none, some, List, [], ◌∷◌,
  length, get_elem?, ◌==◌, arith, Bool-cases, inl, inr, if◌then◌else◌,
}
use mathlib.Core.Path.{subst}
use facetta.Prelude.Int.{ℤ, pos, ltb_ℤ, leb_ℤ, eqb_ℤ}
use facetta.Prelude.Maps.{find, str_eq}
use facetta.Schema.{Schema, Record}
use facetta.Result.{ok, >>=-eq-ok, ok_inj}
use facetta.Snapshot.{Row, expire_milli}
use facetta.View.{Delta, View, id_key, find_row}
use facetta.View.Apply.{
  sticky, is_none, newer_at, raise_max, replace_at, append_row, insert_row, upsert_tuple,
  resolve_all, upsert, upsert_each, with_bitmap, apply_delta,
}
use facetta.View.Apply.Batch.{with_bitmap_lem}

sticky_lem : (e : ℤ) (old : Bool) → sticky e old ≡ true → (old || not (eqb_ℤ e (pos 0))) ≡ true
unfolding sticky
sticky_lem e old h = ground arith

module _ {F : Type 0} where
  -- Some record can expire.
  pub can_expire : List (Record F) → Bool
  can_expire [] = false
  can_expire (rec ∷ recs) = not (eqb_ℤ (expire_milli rec.expire_at) (pos 0)) || can_expire recs

  -- Some record was updated at `u`.
  pub dated : ℤ → List (Record F) → Bool
  dated u [] = false
  dated u (rec ∷ recs) = eqb_ℤ rec.updated_at u || dated u recs

  -- The flag and the clock are the old ones or come from the records.
  pub record IsRaised (d d' : Delta F) (recs : List (Record F)) : Type 0 where
    pub flag : d'.has_expiry ≡ true → (d.has_expiry || can_expire recs) ≡ true
    pub clock : (eqb_ℤ d'.max_updated d.max_updated || dated d'.max_updated recs) ≡ true

  -- The same for the times of one record.
  record IsStepped (d d' : Delta F) (u e : ℤ) : Type 0 where
    flag : d'.has_expiry ≡ true → (d.has_expiry || not (eqb_ℤ e (pos 0))) ≡ true
    clock : (eqb_ℤ d'.max_updated d.max_updated || eqb_ℤ u d'.max_updated) ≡ true

  IsStepped-refl : (d : Delta F) (u e : ℤ) → IsStepped d d u e
  IsStepped-refl d u e = record { flag = λ on. ground arith; clock = ground arith }

  raise_max-IsStepped :
      (d d' : Delta F) (u e : ℤ)
      → d'.max_updated ≡ d.max_updated
      → (d'.has_expiry ≡ true → (d.has_expiry || not (eqb_ℤ e (pos 0))) ≡ true)
      → IsStepped d (raise_max u d') u e
  unfolding raise_max
  raise_max-IsStepped d d' u e same flag = elim (Bool-cases (ltb_ℤ d'.max_updated u)) [
    | inl newer ↦ rw newer (record { flag = flag; clock = ground arith })
    | inr older ↦ rw older (record {
      flag = flag;
      clock =
          subst (λ m. (eqb_ℤ d'.max_updated m || eqb_ℤ u d'.max_updated) ≡ true) same
            (ground arith);
    })
  ]

  replace_at-IsStepped :
      (d : Delta F) (r : ℕ) (ids : List ℕ) (mets : List F) (u e : ℤ) (o : Option (Row F))
      → IsStepped d (raise_max u (replace_at d r ids mets u e o)) u e
  unfolding replace_at
  replace_at-IsStepped d r ids mets u e none = raise_max-IsStepped d d u e refl (λ on. ground arith)
  replace_at-IsStepped d r ids mets u e (some old) = elim (Bool-cases (leb_ℤ old.updated u)) [
    | inl newer ↦ rw newer (raise_max-IsStepped d _ u e refl (sticky_lem e d.has_expiry))
    | inr stale ↦ rw stale (raise_max-IsStepped d d u e refl (λ on. ground arith))
  ]

  upsert_tuple-IsStepped :
      (sc : Schema) (v : View F) (all_in_base cap_blocked : Bool) (ids : List ℕ) (mets : List F)
      (u e : ℤ) (dropped : ℕ) (found : Option ℕ)
      → IsStepped v.delta
          (upsert_tuple sc v all_in_base cap_blocked ids mets u e dropped found).0.delta
          u
          e
  unfolding upsert_tuple insert_row append_row
  upsert_tuple-IsStepped sc v all_in_base cap_blocked ids mets u e dropped (some r) =
      replace_at-IsStepped v.delta r ids mets u e (get_elem? v.delta.rows r)
  upsert_tuple-IsStepped sc v all_in_base cap_blocked ids mets u e dropped none =
      let br = if all_in_base then find_row sc v.base ids else none in
      elim (Bool-cases (newer_at v.base.rows u br)) [
        | inl stale ↦ rw stale (IsStepped-refl v.delta u e)
        | inr current ↦ elim (Bool-cases (cap_blocked && is_none br)) [
          | inl full ↦ rw (current, full) (IsStepped-refl v.delta u e)
          | inr room ↦
              rw (current, room)
                (raise_max-IsStepped v.delta (append_row v.delta ids mets u e) u e refl
                  (sticky_lem e v.delta.has_expiry))
        ]
      ]

  module _ (sc : Schema) (cutoff : ℤ) (cap_blocked : Bool) where
    upsert-IsStepped :
        (v v' : View F) (dropped dropped' i : ℕ) (rec : Record F)
        → upsert sc cutoff cap_blocked v dropped i rec ≡ ok (v', dropped')
        → IsStepped v.delta v'.delta rec.updated_at (expire_milli rec.expire_at)
    unfolding upsert
    upsert-IsStepped v v' dropped dropped' i rec h =
        elim (Bool-cases (
          not (length rec.dims == length sc.dims)
          || not (length rec.metrics == length sc.metrics))) [
            | inl wrong ↦ cc (rw wrong at h)
            | inr whole ↦ elim (Bool-cases (ltb_ℤ rec.updated_at cutoff)) [
              | inl old ↦
                  subst
                    (λ (w : View F).
                      IsStepped v.delta w.delta rec.updated_at (expire_milli rec.expire_at))
                    (ap (λ x. x.0) (ok_inj (rw (whole, old) at h)))
                    (IsStepped-refl v.delta rec.updated_at (expire_milli rec.expire_at))
              | inr fresh ↦
                  let (t, e, last) =
                    >>=-eq-ok (resolve_all sc.dims v.base.dicts v.extras i rec.dims) _
                      (rw (whole, fresh) at h) in
                  subst
                    (λ (w : View F).
                      IsStepped v.delta w.delta rec.updated_at (expire_milli rec.expire_at))
                    (ap (λ x. x.0) (ok_inj last))
                    (upsert_tuple-IsStepped sc (record v { extras = t.extras }) t.all_in_base
                      cap_blocked t.ids rec.metrics rec.updated_at (expire_milli rec.expire_at)
                      dropped (find (id_key t.ids) v.delta.index))
            ]
          ]

    IsRaised-cons :
        (d d₁ d' : Delta F) (rec : Record F) (recs : List (Record F))
        → IsStepped d d₁ rec.updated_at (expire_milli rec.expire_at)
        → IsRaised d₁ d' recs
        → IsRaised d d' (rec ∷ recs)
    unfolding can_expire dated
    IsRaised-cons d d₁ d' rec recs one rest = record {
      flag = λ on. elim (Bool-cases d₁.has_expiry) [
        | inl before ↦ ground (arith, one.flag before)
        | inr clear ↦ ground (arith, rest.flag on)
      ];
      clock = ground (arith, one.clock, rest.clock);
    }

    upsert_each-IsRaised :
        (v v' : View F) (dropped dropped' i : ℕ) (recs : List (Record F))
        → upsert_each sc cutoff cap_blocked v dropped i recs ≡ ok (v', dropped')
        → IsRaised v.delta v'.delta recs
    unfolding upsert_each can_expire dated
    upsert_each-IsRaised v v' dropped dropped' i [] h =
        subst (λ (w : View F). IsRaised v.delta w.delta []) (ap (λ x. x.0) (ok_inj h))
          (record { flag = λ on. ground arith; clock = ground arith })
    upsert_each-IsRaised v v' dropped dropped' i (rec ∷ recs) h =
        let ((v₁, dropped₁), e, rest) =
          >>=-eq-ok (upsert sc cutoff cap_blocked v dropped i rec) _ h in
        IsRaised-cons v.delta v₁.delta v'.delta rec recs
          (upsert-IsStepped v v₁ dropped dropped₁ i rec e)
          (upsert_each-IsRaised v₁ v' dropped₁ dropped' (suc i) recs rest)

    -- After a batch that `applyDelta` accepts, the delta's expiry flag is set only if it was set
    -- before or some record of the batch can expire, and its clock is the clock from before or the
    -- update time of some record of the batch.
    pub apply_delta-IsRaised :
        (v v' : View F) (recs : List (Record F)) (dropped : ℕ)
        → apply_delta sc v recs cutoff cap_blocked ≡ ok (v', dropped)
        → IsRaised v.delta v'.delta recs
    unfolding apply_delta
    apply_delta-IsRaised v v' recs dropped h =
        subst (λ d. IsRaised d v'.delta recs) (with_bitmap_lem v).0
          (upsert_each-IsRaised (with_bitmap v) v' 0 dropped 0 recs h)
