-- ===== src/View/Apply/Batch.antt =====
-- view.go: `applyDelta` over a batch of records.
use facetta.Prelude.{
  ℕ, suc, ◌≡◌, refl, sym, ap, ◌∙◌, Bool, not, ◌&&◌, ◌||◌, Option, none, some, List, [], ◌∷◌, length,
  get_elem?, Bool-cases, inl, inr, if◌then◌else◌, ◌==◌,
}
use mathlib.Core.Path.{subst}
use facetta.Dict.{Dict}
use facetta.Prelude.Int.{ℤ, ltb_ℤ}
use facetta.Prelude.Maps.{find, str_eq}
use facetta.Schema.{Schema, Record}
use facetta.Result.{ok, >>=-eq-ok, ok_inj}
use facetta.Snapshot.{expire_milli}
use facetta.View.{View, id_key, find_row}
use facetta.View.Apply.{
  is_none, newer_at, insert_row, upsert_tuple, resolve_all, upsert, upsert_each, with_bitmap,
  apply_delta,
}
use facetta.View.Apply.Index.{IsDelta, replace_at-IsDelta, append_row-IsDelta}

module _ {F : Type 0} where
  insert_row-IsDelta :
      (v : View F) (br : Option ℕ) (cap_blocked : Bool) (ids : List ℕ) (mets : List F) (u e : ℤ)
      (dropped : ℕ)
      → IsDelta v.delta
      → find (id_key ids) v.delta.index ≡ none
      → IsDelta (insert_row v br cap_blocked ids mets u e dropped).0.delta
  unfolding insert_row
  insert_row-IsDelta v br cap_blocked ids mets u e dropped inv fresh =
      elim (Bool-cases (newer_at v.base.rows u br)) [
        | inl stale ↦ rw stale inv
        | inr current ↦ elim (Bool-cases (cap_blocked && is_none br)) [
          | inl full ↦ rw (current, full) inv
          | inr room ↦ rw (current, room) (append_row-IsDelta v.delta inv mets u e ids fresh)
        ]
      ]

  pub upsert_tuple-IsDelta :
      (sc : Schema) (v : View F) (all_in_base cap_blocked : Bool) (ids : List ℕ) (mets : List F)
      (u e : ℤ) (dropped : ℕ) (found : Option ℕ)
      → IsDelta v.delta
      → find (id_key ids) v.delta.index ≡ found
      → IsDelta (upsert_tuple sc v all_in_base cap_blocked ids mets u e dropped found).0.delta
  unfolding upsert_tuple
  upsert_tuple-IsDelta sc v all_in_base cap_blocked ids mets u e dropped (some r) inv h =
      replace_at-IsDelta v.delta inv mets u e r ids (get_elem? v.delta.rows r) refl
  upsert_tuple-IsDelta sc v all_in_base cap_blocked ids mets u e dropped none inv h =
      insert_row-IsDelta v (if all_in_base then find_row sc v.base ids else none) cap_blocked ids
        mets u e dropped inv h

  upsert_tuple-base :
      (sc : Schema) (v : View F) (all_in_base cap_blocked : Bool) (ids : List ℕ) (mets : List F)
      (u e : ℤ) (dropped : ℕ) (found : Option ℕ)
      → (upsert_tuple sc v all_in_base cap_blocked ids mets u e dropped found).0.base ≡ v.base
  unfolding upsert_tuple insert_row
  upsert_tuple-base sc v all_in_base cap_blocked ids mets u e dropped (some r) = refl
  upsert_tuple-base sc v all_in_base cap_blocked ids mets u e dropped none =
      let br = if all_in_base then find_row sc v.base ids else none in
      elim (Bool-cases (newer_at v.base.rows u br)) [
        | inl stale ↦ rw stale refl
        | inr current ↦ elim (Bool-cases (cap_blocked && is_none br)) [
          | inl full ↦ rw (current, full) refl
          | inr room ↦ rw (current, room) refl
        ]
      ]

  -- A property of views that survives new extras, the fresh bitmap and one tuple survives a batch.
  module _ (sc : Schema) (cutoff : ℤ) (cap_blocked : Bool) (P : View F → Type 0)
      (extras : (v : View F) (xs : List Dict) → P v → P (record v { extras = xs }))
      (tuple : (v : View F) (all_in_base : Bool) (ids : List ℕ) (mets : List F) (u e : ℤ)
          (dropped : ℕ)
        → P v
        → P
            (upsert_tuple sc v all_in_base cap_blocked ids mets u e dropped
              (find (id_key ids) v.delta.index)).0) where
    upsert-keeps :
        (v v' : View F) (dropped dropped' i : ℕ) (rec : Record F)
        → P v
        → upsert sc cutoff cap_blocked v dropped i rec ≡ ok (v', dropped')
        → P v'
    unfolding upsert
    upsert-keeps v v' dropped dropped' i rec inv h =
        elim (Bool-cases (
          not (length rec.dims == length sc.dims)
          || not (length rec.metrics == length sc.metrics))) [
            | inl wrong ↦ cc (rw wrong at h)
            | inr whole ↦ elim (Bool-cases (ltb_ℤ rec.updated_at cutoff)) [
              | inl old ↦
                  let same : v ≡ v' = ap (λ x. x.0) (ok_inj (rw (whole, old) at h)) in
                  subst P same inv
              | inr fresh ↦
                  let (t, e, last) =
                    >>=-eq-ok (resolve_all sc.dims v.base.dicts v.extras i rec.dims) _
                      (rw (whole, fresh) at h) in
                  subst P (ap (λ x. x.0) (ok_inj last)) (
                    tuple (record v { extras = t.extras }) t.all_in_base t.ids rec.metrics
                      rec.updated_at (expire_milli rec.expire_at) dropped (extras v t.extras inv))
            ]
          ]

    pub upsert_each-keeps :
        (v v' : View F) (dropped dropped' i : ℕ) (recs : List (Record F))
        → P v
        → upsert_each sc cutoff cap_blocked v dropped i recs ≡ ok (v', dropped')
        → P v'
    unfolding upsert_each
    upsert_each-keeps v v' dropped dropped' i [] inv h = subst P (ap (λ x. x.0) (ok_inj h)) inv
    upsert_each-keeps v v' dropped dropped' i (rec ∷ recs) inv h =
        let ((v₁, dropped₁), e, rest) =
          >>=-eq-ok (upsert sc cutoff cap_blocked v dropped i rec) _ h in
        upsert_each-keeps v₁ v' dropped₁ dropped' (suc i) recs
          (upsert-keeps v v₁ dropped dropped₁ i rec inv e) rest

  pub with_bitmap_lem :
      (v : View F) → ((with_bitmap v).delta ≡ v.delta) × ((with_bitmap v).base ≡ v.base)
  unfolding with_bitmap
  with_bitmap_lem v =
      elim (Bool-cases ((length v.overridden == 0) && not (length v.base.rows == 0))) [
        | inl fresh ↦ rw fresh (refl, refl)
        | inr kept ↦ rw kept (refl, refl)
      ]

  module _ (sc : Schema) (cutoff : ℤ) (cap_blocked : Bool) where
    -- A batch that `applyDelta` accepts keeps the delta well formed: the index has exactly the rows,
    -- each tuple once, no row is newer than the delta's clock, and a row that can expire raises the
    -- expiry flag.
    pub apply_delta-IsDelta :
        (v v' : View F) (recs : List (Record F)) (dropped : ℕ)
        → IsDelta v.delta
        → apply_delta sc v recs cutoff cap_blocked ≡ ok (v', dropped)
        → IsDelta v'.delta
    unfolding apply_delta
    apply_delta-IsDelta v v' recs dropped inv h =
        upsert_each-keeps sc cutoff cap_blocked (λ v. IsDelta v.delta) (λ v xs inv. inv)
          (λ v all_in_base ids mets u e dropped inv.
            upsert_tuple-IsDelta sc v all_in_base cap_blocked ids mets u e dropped
              (find (id_key ids) v.delta.index) inv refl)
          (with_bitmap v) v' 0 dropped 0 recs (subst IsDelta (sym (with_bitmap_lem v).0) inv) h

    -- The new view is over the same base.
    pub apply_delta-base :
        (v v' : View F) (recs : List (Record F)) (dropped : ℕ)
        → apply_delta sc v recs cutoff cap_blocked ≡ ok (v', dropped)
        → v'.base ≡ v.base
    unfolding apply_delta
    apply_delta-base v v' recs dropped h =
        upsert_each-keeps sc cutoff cap_blocked (λ w. w.base ≡ v.base) (λ w xs same. same)
          (λ w all_in_base ids mets u e dropped same.
            upsert_tuple-base sc w all_in_base cap_blocked ids mets u e dropped
              (find (id_key ids) w.delta.index)
            ∙ same)
          (with_bitmap v) v' 0 dropped 0 recs (with_bitmap_lem v).1 h
