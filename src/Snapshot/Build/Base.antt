-- ===== src/Snapshot/Build/Base.antt =====
-- snapshot.go: `buildFromRecords` builds a well-formed base.
use mathlib.Core.Path.{subst}
use facetta.Prelude.{ℕ, ◌≤◌, ◌≡◌, refl, none, List, [], ◌∷◌, length, map, take, arith}
use facetta.Prelude.Int.{ℤ}
use facetta.Prelude.All.{All, All-get_elem?, All-sort_by}
use facetta.Prelude.Sort.{sort_by}
use facetta.Schema.{Schema, Record}
use facetta.Result.{ok, >>=-eq-ok, ok_inj}
use facetta.Dict.{Dict, len}
use facetta.Keys.{compute_shifts, pack_key}
use facetta.Snapshot.{Row, Snapshot, new_dicts, make_snapshot}
use facetta.Snapshot.WellFormed.{IsBase}
use facetta.Snapshot.Build.{
  intern_records, with_keys, entry_before, keep_newest, build_from_records,
}
use facetta.Snapshot.Build.Sorted.{
  KeysFrom, sort_by-KeysFrom, keep_newest-KeysFrom, keep_newest-All, KeysFrom-ascending,
}
use facetta.Snapshot.Build.Interned.{
  IsRow, length-AreGrown, new_dicts-AreGrown, intern_records-AreRecorded,
}

module _ {F : Type 0} (sc : Schema) (dicts : List Dict) (shifts : List ℕ) where
  -- An entry under the key of its row.
  IsKeyed : ℕ × Row F → Type 0
  IsKeyed (k, row) = IsRow sc.dims dicts row × (k ≡ pack_key shifts (take sc.index_dims row.ids))

  with_keys-IsKeyed :
      (rows : List (Row F))
      → All (IsRow sc.dims dicts) rows
      → All IsKeyed (with_keys shifts sc.index_dims rows)
  unfolding IsKeyed with_keys
  with_keys-IsKeyed [] h = tt
  with_keys-IsKeyed (row ∷ rows) h = ((h.0, refl), with_keys-IsKeyed rows h.1)

  keyed_entries :
      (es : List (ℕ × Row F))
      → All IsKeyed es
      → map (λ e. e.0) es
        ≡ map (λ row. pack_key shifts (take sc.index_dims row.ids)) (map (λ e. e.1) es)
  unfolding IsKeyed
  keyed_entries [] h = refl
  keyed_entries ((k, row) ∷ es) h = rw (h.0.1, keyed_entries es h.1) refl

  entry_row :
      (es : List (ℕ × Row F)) → All IsKeyed es → All (IsRow sc.dims dicts) (map (λ e. e.1) es)
  unfolding IsKeyed
  entry_row [] h = tt
  entry_row ((k, row) ∷ es) h = (h.0.0, entry_row es h.1)

  make_snapshot-IsBase :
      (es : List (ℕ × Row F))
      → compute_shifts (map len dicts) sc.index_dims ≡ ok shifts
      → sc.index_dims ≤ length sc.dims
      → length dicts ≡ length sc.dims
      → KeysFrom 0 es
      → All IsKeyed es
      → IsBase sc (make_snapshot dicts shifts es)
  unfolding make_snapshot
  make_snapshot-IsBase es shifted dims sized ascending h =
      let rows = map (λ e. e.1) es in
      record {
        shifted = shifted;
        keyed = keyed_entries es h;
        ascending = λ i j le lt. KeysFrom-ascending 0 es i j ascending le lt;
        in_dicts =
            λ r row at. (All-get_elem? (IsRow sc.dims dicts) rows r row (entry_row es h) at).0;
        whole = λ r row at.
            omega (arith, (All-get_elem? (IsRow sc.dims dicts) rows r row (entry_row es h) at).1);
        sized = sized;
        full = λ r row at. (All-get_elem? (IsRow sc.dims dicts) rows r row (entry_row es h) at).1;
      }

module _ {F : Type 0} where
  -- Whatever records it is given, a snapshot that `buildFromRecords` returns is a well-formed base: its
  -- rows are in the order of their packed keys, and every id has an entry in its dictionary.
  pub build_from_records-IsBase :
      (sc : Schema) (recs : List (Record F)) (cutoff now : ℤ) (s : Snapshot F)
      → sc.index_dims ≤ length sc.dims
      → build_from_records sc recs cutoff now ≡ ok s
      → IsBase sc s
  unfolding build_from_records
  build_from_records-IsBase sc recs cutoff now s dims h =
      let ((dicts, rows), interned, h₁) =
        >>=-eq-ok (intern_records sc cutoff 0 (new_dicts sc.dims) recs) _ h in
      let (shifts, shifted, h₂) = >>=-eq-ok (compute_shifts (map len dicts) sc.index_dims) _ h₁ in
      let recorded =
        intern_records-AreRecorded sc cutoff 0 (new_dicts sc.dims) dicts recs rows
          (new_dicts-AreGrown sc.dims) interned in
      let entries = sort_by entry_before (with_keys shifts sc.index_dims rows) in
      subst (IsBase sc) (ok_inj h₂) (
        make_snapshot-IsBase sc dicts shifts (keep_newest now none entries) shifted dims
          (length-AreGrown sc.dims dicts recorded.grown)
          (keep_newest-KeysFrom now 0 none entries
            (sort_by-KeysFrom (with_keys shifts sc.index_dims rows)))
          (keep_newest-All (IsKeyed sc dicts shifts) now none entries (
            All-sort_by (IsKeyed sc dicts shifts) entry_before (with_keys shifts sc.index_dims rows)
              (with_keys-IsKeyed sc dicts shifts rows recorded.each))))
