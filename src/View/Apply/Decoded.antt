-- ===== src/View/Apply/Decoded.antt =====
-- view.go: `applyDelta` over a batch, on a view whose ids can be decoded.
use facetta.Prelude.{
  ℕ, suc, ◌+◌, ◌^◌, ◌≤◌, ◌<◌, ◌≡◌, refl, sym, ap, ◌∙◌, Bool, not, ◌&&◌, List, [], ◌∷◌, length, ◌==◌,
  ==_iff, arith, Bool-cases, ◌⊎◌, inl, inr,
}
use mathlib.Core.Path.{subst}
use facetta.Prelude.Int.{ℤ, ltb_ℤ}
use facetta.Prelude.Maps.{find, str_eq}
use facetta.Schema.{Schema, Record, is_int}
use facetta.Result.{ok, >>=-eq-ok, ok_inj}
use facetta.Dict.{len}
use facetta.Snapshot.{expire_milli}
use facetta.Snapshot.WellFormed.{IsBase}
use facetta.View.{View, dict_at, id_key}
use facetta.Query.Scan.Meaning.{IsViewRow, IsDecoded}
use facetta.View.Apply.{Tuple, resolve_all, upsert, upsert_each, with_bitmap, apply_delta}
use facetta.View.Apply.Known.{resolve_all-IsKnown}
use facetta.View.Apply.Growth.{resolve_all-grows, IsStep, upsert_tuple-IsStep}

module _ {F : Type 0} (sc : Schema) (cutoff : ℤ) (cap_blocked : Bool) where
  -- A record that was taken: its tuple, and the view after it.
  record IsTaken (v v' : View F) (i : ℕ) (rec : Record F) : Type 1 where
    tuple : Tuple
    resolved : resolve_all sc.dims v.base.dicts v.extras i rec.dims ≡ ok tuple
    whole : length rec.dims ≡ length sc.dims
    step : IsStep (record v { extras = tuple.extras }) v' tuple.ids

  upsert_cases :
      (v v' : View F) (dropped dropped' i : ℕ) (rec : Record F)
      → upsert sc cutoff cap_blocked v dropped i rec ≡ ok (v', dropped')
      → (v ≡ v') ⊎ IsTaken v v' i rec
  unfolding upsert
  upsert_cases v v' dropped dropped' i rec h =
      elim (Bool-cases (length rec.dims == length sc.dims)) [
        | inr wrong ↦ cc (rw wrong at h)
        | inl same ↦ elim (Bool-cases (length rec.metrics == length sc.metrics)) [
          | inr wrong ↦ cc (rw (same, wrong) at h)
          | inl whole ↦ elim (Bool-cases (ltb_ℤ rec.updated_at cutoff)) [
            | inl old ↦ inl (ap (λ x. x.0) (ok_inj (rw (same, whole, old) at h)))
            | inr fresh ↦
                let (t, e, last) =
                  >>=-eq-ok (resolve_all sc.dims v.base.dicts v.extras i rec.dims) _
                    (rw (same, whole, fresh) at h) in
                inr (record {
                  tuple = t;
                  resolved = e;
                  whole = (==_iff (length rec.dims) (length sc.dims)).0 same;
                  step =
                      subst (λ (w : View F). IsStep (record v { extras = t.extras }) w t.ids)
                        (ap (λ x. x.0) (ok_inj last))
                        (upsert_tuple-IsStep sc (record v { extras = t.extras }) t.all_in_base
                          cap_blocked t.ids rec.metrics rec.updated_at (expire_milli rec.expire_at)
                          dropped (find (id_key t.ids) v.delta.index));
                })
          ]
        ]
      ]

  record IsGrown (v v' : View F) : Type 0 where
    same_base : v'.base ≡ v.base
    more : (k : ℕ) → len (dict_at v.extras k) ≤ len (dict_at v'.extras k)

  upsert-IsGrown :
      (v v' : View F) (dropped dropped' i : ℕ) (rec : Record F)
      → upsert sc cutoff cap_blocked v dropped i rec ≡ ok (v', dropped')
      → IsGrown v v'
  upsert-IsGrown v v' dropped dropped' i rec h = elim (upsert_cases v v' dropped dropped' i rec h) [
    | inl same ↦ subst (IsGrown v) same (record { same_base = refl; more = λ k. omega arith })
    | inr taken ↦ record {
      same_base = taken.step.same_base;
      more = λ k.
          rw (taken.step.same_extras) (
            resolve_all-grows sc.dims v.base.dicts v.extras i rec.dims taken.tuple k
              taken.resolved);
    }
  ]

  upsert_each-IsGrown :
      (v v' : View F) (dropped dropped' i : ℕ) (recs : List (Record F))
      → upsert_each sc cutoff cap_blocked v dropped i recs ≡ ok (v', dropped')
      → IsGrown v v'
  unfolding upsert_each
  upsert_each-IsGrown v v' dropped dropped' i [] h =
      subst (IsGrown v) (ap (λ x. x.0) (ok_inj h))
        (record { same_base = refl; more = λ k. omega arith })
  upsert_each-IsGrown v v' dropped dropped' i (rec ∷ recs) h =
      let ((v₁, dropped₁), e, rest) =
        >>=-eq-ok (upsert sc cutoff cap_blocked v dropped i rec) _ h in
      let first = upsert-IsGrown v v₁ dropped dropped₁ i rec e in
      let later = upsert_each-IsGrown v₁ v' dropped₁ dropped' (suc i) recs rest in
      record {
        same_base = later.same_base ∙ first.same_base;
        more = λ k. omega (arith, first.more k, later.more k);
      }

  taken-IsDecoded :
      (v v' : View F) (i : ℕ) (rec : Record F)
      → IsDecoded sc v
      → length v.extras ≡ length sc.dims
      → IsTaken v v' i rec
      → ((d : ℕ)
          → d < length sc.dims
          → len (dict_at v'.base.dicts d) + len (dict_at v'.extras d) < 2 ^ 32)
      → IsDecoded sc v' × (length v'.extras ≡ length sc.dims)
  unfolding is_int
  taken-IsDecoded v v' i rec inv covered taken few =
      let t = taken.tuple in
      let (size, known) =
        resolve_all-IsKnown sc.dims v.base.dicts v.extras i rec.dims t inv.base.sized covered
          taken.whole inv.pairs taken.resolved in
      let same = taken.step.same_base in
      let at : v'.extras ≡ t.extras = taken.step.same_extras in
      let room : (d : ℕ)
          → d < length sc.dims
          → len (dict_at v.base.dicts d) + len (dict_at t.extras d) < 2 ^ 32 =
        λ d lt. rw (same, at) at (few d lt) in
      let w : View F = record v { extras = t.extras } in
      let rows =
        taken.step.rows (IsViewRow sc w)
          (λ r row h. record {
            known = λ d lt. omega (
              arith,
              (inv.rows r row h).known d lt,
              resolve_all-grows sc.dims v.base.dicts v.extras i rec.dims t d taken.resolved,
            );
          })
          (record { known = λ d lt. (known d lt).below (room d lt) }) in
      (
        record {
          base = subst (IsBase sc) (sym same) inv.base;
          pairs = λ d lt. rw (same, at) ((known d lt).pair (room d lt));
          rows = λ r row h. record { known = λ d lt. rw (same, at) ((rows r row h).known d lt) };
        },
        ap length at ∙ size,
      )

  upsert_each-IsDecoded :
      (v v' : View F) (dropped dropped' i : ℕ) (recs : List (Record F))
      → IsDecoded sc v
      → length v.extras ≡ length sc.dims
      → upsert_each sc cutoff cap_blocked v dropped i recs ≡ ok (v', dropped')
      → ((d : ℕ)
          → d < length sc.dims
          → len (dict_at v'.base.dicts d) + len (dict_at v'.extras d) < 2 ^ 32)
      → IsDecoded sc v' × (length v'.extras ≡ length sc.dims)
  unfolding upsert_each
  upsert_each-IsDecoded v v' dropped dropped' i [] inv covered h few =
      subst (λ (w : View F). IsDecoded sc w × (length w.extras ≡ length sc.dims))
        (ap (λ x. x.0) (ok_inj h)) (inv, covered)
  upsert_each-IsDecoded v v' dropped dropped' i (rec ∷ recs) inv covered h few =
      let ((v₁, dropped₁), e, rest) =
        >>=-eq-ok (upsert sc cutoff cap_blocked v dropped i rec) _ h in
      let later = upsert_each-IsGrown v₁ v' dropped₁ dropped' (suc i) recs rest in
      let few₁ : (d : ℕ)
          → d < length sc.dims
          → len (dict_at v₁.base.dicts d) + len (dict_at v₁.extras d) < 2 ^ 32 =
        λ d lt. let small = rw (later.same_base) at (few d lt) in omega (arith, later.more d) in
      let next : IsDecoded sc v₁ × (length v₁.extras ≡ length sc.dims) =
        elim (upsert_cases v v₁ dropped dropped₁ i rec e) [
          | inl same ↦
              subst (λ (w : View F). IsDecoded sc w × (length w.extras ≡ length sc.dims)) same
                (inv, covered)
          | inr taken ↦ taken-IsDecoded v v₁ i rec inv covered taken few₁
        ] in
      upsert_each-IsDecoded v₁ v' dropped₁ dropped' (suc i) recs next.0 next.1 rest few

  with_bitmap-IsDecoded :
      (v : View F)
      → IsDecoded sc v
      → length v.extras ≡ length sc.dims
      → IsDecoded sc (with_bitmap v) × (length (with_bitmap v).extras ≡ length sc.dims)
  unfolding with_bitmap
  with_bitmap-IsDecoded v inv covered =
      elim (Bool-cases ((length v.overridden == 0) && not (length v.base.rows == 0))) [
        | inl fresh ↦ rw fresh (
          record {
            base = inv.base;
            pairs = inv.pairs;
            rows = λ r row h. record { known = (inv.rows r row h).known };
          },
          covered,
        )
        | inr kept ↦ rw kept (inv, covered)
      ]

  -- A batch that `applyDelta` accepts keeps a view whose ids can be decoded so, as long as the ids of
  -- each dimension still fit in 32 bits after it: the dictionaries stay in order, no value is both in
  -- the base and in the extras, each tuple of the delta has ids of the dictionaries only, and there is
  -- still a dictionary of extras for each dimension.
  pub apply_delta-IsDecoded :
      (v v' : View F) (recs : List (Record F)) (dropped : ℕ)
      → IsDecoded sc v
      → length v.extras ≡ length sc.dims
      → apply_delta sc v recs cutoff cap_blocked ≡ ok (v', dropped)
      → ((d : ℕ)
          → d < length sc.dims
          → len (dict_at v'.base.dicts d) + len (dict_at v'.extras d) < 2 ^ 32)
      → IsDecoded sc v' × (length v'.extras ≡ length sc.dims)
  unfolding apply_delta
  apply_delta-IsDecoded v v' recs dropped inv covered h few =
      let (prepared, full) = with_bitmap-IsDecoded v inv covered in
      upsert_each-IsDecoded (with_bitmap v) v' 0 dropped 0 recs prepared full h few
