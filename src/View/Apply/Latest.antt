-- ===== src/View/Apply/Latest.antt =====
-- view.go: one record of `applyDelta`, as an update of a map from tuples to their latest records.
use facetta.Prelude.{
  ℕ, ◌≡◌, refl, sym, ap, ◌∙◌, Bool, true, false, ◌&&◌, ◌||◌, Option, none, some, List, [], ◌∷◌,
  get_elem?, set, get_elem?-set_self, get_elem?-set_ne, arith, Bool-cases, Option-cases, inl, inr,
  if◌then◌else◌, ◌≢◌,
}
use facetta.Prelude.Int.{ℤ, leb_ℤ, ltb_ℤ}
use facetta.Prelude.Maps.{Str, find, eqb_str, str_eq}
use facetta.Dict.Intern.{get_elem?-append_left, get_elem?-append_end, get_elem?-lt-length}
use facetta.Schema.{Schema, Record}
use facetta.Snapshot.{Row}
use facetta.View.{Delta, View, id_key, find_row}
use facetta.View.Apply.{
  raise_max, replace_at, append_row, sticky, newer_at, is_none, insert_row, upsert_tuple,
  with_bitmap, apply_delta,
}
use facetta.View.Apply.Index.{IsDelta}
use facetta.View.Apply.Batch.{upsert_tuple-IsDelta, upsert_each-keeps, with_bitmap_lem}
use facetta.Result.{ok}
use mathlib.Core.Path.{subst}

-- The latest record of a tuple.
pub record Latest (F : Type 0) : Type 0 where
  pub mets : List F
  pub updated : ℤ
  pub expire : ℤ

module _ {F : Type 0} where
  latest_of : Option (Row F) → Option (Latest F)
  latest_of none = none
  latest_of (some row) =
      some (record { mets = row.mets; updated = row.updated; expire = row.expire })

  latest_at : Delta F → Option ℕ → Option (Latest F)
  unfolding latest_of
  latest_at d none = none
  latest_at d (some r) = latest_of (get_elem? d.rows r)

  -- The abstract view of a delta: a map from tuples, by their key, to records.
  unfoldable pub latest : Delta F → Str → Option (Latest F)
  unfolding latest_at
  latest d k = latest_at d (find k d.index)

  -- What a new record makes of the latest one. A record of a tuple that is new to the delta is
  -- refused if the base has a newer one, or if the row cap blocks new rows.
  unfoldable pub accept : Bool → Latest F → Option (Latest F) → Option (Latest F)
  accept refused new (some old) = some (if leb_ℤ old.updated new.updated then new else old)
  accept refused new none = if refused then none else some new

  latest-raise_max : (u : ℤ) (d : Delta F) (k : Str) → latest (raise_max u d) k ≡ latest d k
  unfolding raise_max latest
  latest-raise_max u d k = elim (Bool-cases (ltb_ℤ d.max_updated u)) [
    | inl newer ↦ rw newer refl
    | inr older ↦ rw older refl
  ]

  module _ (d : Delta F) (inv : IsDelta d) (ids : List ℕ) (mets : List F) (u e : ℤ) where
    new : Latest F
    new = record { mets = mets; updated = u; expire = e }

    other_row :
        (k : Str) (r i : ℕ)
        → eqb_str (id_key ids) k ≡ false
        → find (id_key ids) d.index ≡ some r
        → find k d.index ≡ some i
        → r ≢ i
    other_row k r i differ h g same =
        let (row, at_r, key) = inv.resident (id_key ids) r h in
        let (row', at_i, key') = inv.resident k i g in
        let equal : some row ≡ some row' = sym at_r ∙ ap (get_elem? d.rows) same ∙ at_i in
        cc ((str_eq.eqb_iff (id_key ids) k).1 (sym key ∙ cc (equal) ∙ key'))

    latest-set :
        (k : Str) (r : ℕ) (old row : Row F) (flag : Bool)
        → find (id_key ids) d.index ≡ some r
        → get_elem? d.rows r ≡ some old
        → latest (record d { rows = set d.rows r row; has_expiry = flag }) k
          ≡ (if eqb_str (id_key ids) k then latest_of (some row) else latest d k)
    unfolding latest latest_at
    latest-set k r old row flag h at_r = elim (Bool-cases (eqb_str (id_key ids) k)) [
      | inl same ↦
          let key : id_key ids ≡ k = (str_eq.eqb_iff (id_key ids) k).0 same in
          rw
            (
              same,
              ← key,
              h,
              get_elem?-set_self d.rows r row (get_elem?-lt-length d.rows r old at_r),
            )
            refl
      | inr differ ↦ elim (Option-cases (find k d.index)) [
        | inl absent ↦ rw (differ, absent) refl
        | inr (i, g) ↦ rw (differ, g, get_elem?-set_ne d.rows row (other_row k r i differ h g)) refl
      ]
    ]

    -- An entry that is written again does not change.
    latest-same :
        (k : Str) (entry : Option (Latest F))
        → latest d (id_key ids) ≡ entry
        → latest d k ≡ (if eqb_str (id_key ids) k then entry else latest d k)
    latest-same k entry h = elim (Bool-cases (eqb_str (id_key ids) k)) [
      | inl same ↦ rw (same, ← (str_eq.eqb_iff (id_key ids) k).0 same) h
      | inr differ ↦ rw differ refl
    ]

    latest-append_row :
        (k : Str)
        → latest (append_row d ids mets u e) k
          ≡ (if eqb_str (id_key ids) k then some new else latest d k)
    unfolding latest latest_at latest_of append_row new
    latest-append_row k = elim (Bool-cases (eqb_str (id_key ids) k)) [
      | inl same ↦
          rw
            (
              same,
              get_elem?-append_end d.rows
                  (record { ids = ids; mets = mets; updated = u; expire = e }),
            )
            refl
      | inr differ ↦ elim (Option-cases (find k d.index)) [
        | inl absent ↦ rw (differ, absent) refl
        | inr (i, g) ↦
            let (row, at_i, key) = inv.resident k i g in
            rw
              (
                differ,
                g,
                get_elem?-append_left d.rows
                    (record { ids = ids; mets = mets; updated = u; expire = e } ∷ []) i row at_i,
                at_i,
              )
              refl
      ]
    ]

    found_entry :
        (r : ℕ) (old : Row F)
        → find (id_key ids) d.index ≡ some r
        → get_elem? d.rows r ≡ some old
        → latest d (id_key ids) ≡ latest_of (some old)
    unfolding latest latest_at
    found_entry r old h at_r = rw (h, at_r) refl

    latest-replace_at :
        (k : Str) (r : ℕ) (refused : Bool) (found : Option (Row F))
        → find (id_key ids) d.index ≡ some r
        → get_elem? d.rows r ≡ found
        → latest (raise_max u (replace_at d r ids mets u e found)) k
          ≡ (if eqb_str (id_key ids) k then accept refused new (latest_of found) else latest d k)
    unfolding replace_at latest_of accept new
    latest-replace_at k r refused none h at_r =
        let (row, found, key) = inv.resident (id_key ids) r h in
        let impossible : none ≡ some row = sym at_r ∙ found in cc impossible
    latest-replace_at k r refused (some old) h at_r = elim (Bool-cases (leb_ℤ old.updated u)) [
      | inl newer ↦ rw newer (
          latest-raise_max u _ k
          ∙ latest-set k r old (record { ids = old.ids; mets = mets; updated = u; expire = e })
              (sticky e d.has_expiry) h at_r)
      | inr stale ↦
          rw stale (
            latest-raise_max u d k
            ∙ latest-same k (latest_of (some old)) (found_entry r old h at_r))
    ]

  no_entry :
      (d : Delta F) (ids : List ℕ) → find (id_key ids) d.index ≡ none → latest d (id_key ids) ≡ none
  unfolding latest latest_at
  no_entry d ids h = rw h refl

  module _ (v : View F) (inv : IsDelta v.delta) (ids : List ℕ) (mets : List F) (u e : ℤ) where
    latest-insert_row :
        (k : Str) (br : Option ℕ) (cap_blocked : Bool) (dropped : ℕ)
        → find (id_key ids) v.delta.index ≡ none
        → latest (insert_row v br cap_blocked ids mets u e dropped).0.delta k ≡ (
            if eqb_str (id_key ids) k
            then accept
                (newer_at v.base.rows u br || (cap_blocked && is_none br))
                (record { mets = mets; updated = u; expire = e })
                (latest v.delta (id_key ids))
            else latest v.delta k)
    unfolding insert_row accept new
    latest-insert_row k br cap_blocked dropped absent =
        let d = v.delta in
        let nothing = no_entry d ids absent in
        let kept = latest-same d inv ids mets u e k none nothing in
        elim (Bool-cases (newer_at v.base.rows u br)) [
          | inl stale ↦ rw (stale, nothing) kept
          | inr current ↦ elim (Bool-cases (cap_blocked && is_none br)) [
            | inl full ↦ rw (current, full, nothing) kept
            | inr room ↦
                rw (current, room, nothing)
                  (latest-raise_max u _ k ∙ latest-append_row d inv ids mets u e k)
          ]
        ]

  -- One record of a batch is an update of the map of latest records: the entry of its tuple becomes
  -- the record, unless the entry is newer, or the tuple is new to the delta and either the base row of
  -- the tuple is newer or the row cap blocks new rows; and no other entry changes.
  pub upsert_tuple-latest :
      (sc : Schema) (v : View F) (all_in_base cap_blocked : Bool) (ids : List ℕ) (mets : List F)
      (u e : ℤ) (dropped : ℕ) (k : Str)
      → IsDelta v.delta
      → latest
          (upsert_tuple sc v all_in_base cap_blocked ids mets u e dropped
            (find (id_key ids) v.delta.index)).0.delta
          k
        ≡ (if eqb_str (id_key ids) k
            then accept
                (newer_at v.base.rows u (if all_in_base then find_row sc v.base ids else none)
                  || (cap_blocked
                      && is_none (if all_in_base then find_row sc v.base ids else none)))
                (record { mets = mets; updated = u; expire = e })
                (latest v.delta (id_key ids))
            else latest v.delta k)
  unfolding upsert_tuple latest latest_at new
  upsert_tuple-latest sc v all_in_base cap_blocked ids mets u e dropped k inv =
      let br = if all_in_base then find_row sc v.base ids else none in
      let refused = newer_at v.base.rows u br || (cap_blocked && is_none br) in
      elim (Option-cases (find (id_key ids) v.delta.index)) [
        | inl absent ↦ rw absent (
            rw (no_entry v.delta ids absent) at
              (latest-insert_row v inv ids mets u e k br cap_blocked dropped absent))
        | inr (r, found) ↦ rw found (
            latest-replace_at v.delta inv ids mets u e k r refused (get_elem? v.delta.rows r) found
              refl)
      ]

  accept_newer :
      (refused : Bool) (new old : Latest F)
      → (l : Latest F) × (accept refused new (some old) ≡ some l)
        × (leb_ℤ old.updated l.updated ≡ true)
  unfolding accept
  accept_newer refused new old = elim (Bool-cases (leb_ℤ old.updated new.updated)) [
    | inl newer ↦ (new, rw newer refl, newer)
    | inr stale ↦ (old, rw stale refl, ground arith)
  ]

  -- Every tuple of `d` is in `d'`, with the same or a newer record.
  pub NoOlder : Delta F → Delta F → Type 0
  NoOlder d d' =
      (k : Str) (old : Latest F)
      → latest d k ≡ some old
      → (l : Latest F) × (latest d' k ≡ some l) × (leb_ℤ old.updated l.updated ≡ true)

  upsert_tuple-NoOlder :
      (sc : Schema) (d : Delta F) (v : View F) (all_in_base cap_blocked : Bool) (ids : List ℕ)
      (mets : List F) (u e : ℤ) (dropped : ℕ)
      → IsDelta v.delta
      → NoOlder d v.delta
      → NoOlder d
          (upsert_tuple sc v all_in_base cap_blocked ids mets u e dropped
            (find (id_key ids) v.delta.index)).0.delta
  unfolding NoOlder
  upsert_tuple-NoOlder sc d v all_in_base cap_blocked ids mets u e dropped inv h k old at_k =
      let (mid, at_mid, le) = h k old at_k in
      let step = upsert_tuple-latest sc v all_in_base cap_blocked ids mets u e dropped k inv in
      elim (Bool-cases (eqb_str (id_key ids) k)) [
        | inl same ↦
            let key : id_key ids ≡ k = (str_eq.eqb_iff (id_key ids) k).0 same in
            let br = if all_in_base then find_row sc v.base ids else none in
            let refused = newer_at v.base.rows u br || (cap_blocked && is_none br) in
            let (l, accepted, le') =
              accept_newer refused (record { mets = mets; updated = u; expire = e }) mid in
            (l, step ∙ rw (same, key, at_mid) accepted, ground (arith, le, le'))
        | inr differ ↦ (mid, step ∙ rw differ at_mid, le)
      ]

  -- A batch that `applyDelta` accepts never loses a tuple of the delta, and never replaces its record
  -- by an older one.
  pub apply_delta-NoOlder :
      (sc : Schema) (cutoff : ℤ) (cap_blocked : Bool) (v v' : View F) (recs : List (Record F))
      (dropped : ℕ)
      → IsDelta v.delta
      → apply_delta sc v recs cutoff cap_blocked ≡ ok (v', dropped)
      → NoOlder v.delta v'.delta
  unfolding apply_delta NoOlder
  apply_delta-NoOlder sc cutoff cap_blocked v v' recs dropped inv h =
      let kept =
        upsert_each-keeps sc cutoff cap_blocked (λ w. IsDelta w.delta × NoOlder v.delta w.delta)
          (λ w xs both. both)
          (λ w all_in_base ids mets u e dropped both. (
            upsert_tuple-IsDelta sc w all_in_base cap_blocked ids mets u e dropped
                (find (id_key ids) w.delta.index) both.0 refl,
            upsert_tuple-NoOlder sc v.delta w all_in_base cap_blocked ids mets u e dropped both.0
                both.1,
          ))
          (with_bitmap v) v' 0 dropped 0 recs
          (subst (λ (d : Delta F). IsDelta d × NoOlder v.delta d) (sym (with_bitmap_lem v).0)
            (inv, λ k old at. (old, at, ground arith)))
          h in
      kept.1
