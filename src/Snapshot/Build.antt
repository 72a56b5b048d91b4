-- ===== src/Snapshot/Build.antt =====
-- snapshot.go: `buildFromRecords`.
pub mod Sorted
pub mod Interned
pub mod Base
pub mod Decoded
use facetta.Prelude.{
  ℕ, suc, Bool, true, false, ◌&&◌, ◌||◌, not, Option, none, some, List, [], ◌∷◌, map, length, take,
  ltb, ◌==◌, if◌then◌else◌,
}
use facetta.Prelude.Int.{ℤ, ltb_ℤ}
use facetta.Prelude.Maps.{Str}
use facetta.Prelude.Sort.{sort_by}
use facetta.Schema.{Schema, Dim, dim_int, Record}
use facetta.Result.{Result, ok, err, arity_mismatch, non_integer_record, ◌>>=◌}
use facetta.Strconv.{parse_int}
use facetta.Dict.{Dict, get_or_add, get_or_add_n, len}
use facetta.Keys.{compute_shifts, pack_key}
use facetta.Snapshot.{Row, Snapshot, expire_milli, row_expired, new_dicts, make_snapshot}

-- One value of a record: its id, and the dictionary with the value interned.
intern_parsed : Dict → Option ℤ → ℕ → Str → Result (Dict × ℕ)
intern_parsed d none i s = err (non_integer_record i s)
intern_parsed d (some v) i s = ok (get_or_add_n d v)

unfoldable pub intern : Dim → Dict → ℕ → Str → Result (Dict × ℕ)
unfolding intern_parsed
intern dim d i s =
    if dim.dim_type == dim_int then intern_parsed d (parse_int s) i s else ok (get_or_add d s)

-- `for d := range nd`: the ids of record `i`, and the dictionaries after it.
pub intern_all : List Dim → List Dict → ℕ → List Str → Result (List Dict × List ℕ)
unfolding intern
intern_all (dim ∷ dims) (d ∷ ds) i (s ∷ ss) = do
  first ← intern dim d i s
  rest ← intern_all dims ds i ss
  ok (first.0 ∷ rest.0, first.1 ∷ rest.1)
intern_all dims ds i ss = ok (ds, [])

module _ {F : Type 0} where
  wrong_arity : Schema → Record F → Bool
  wrong_arity sc r =
      not (length r.dims == length sc.dims) || not (length r.metrics == length sc.metrics)

  -- The first loop: arity check, TTL filter, interning.
  unfoldable pub intern_records :
      Schema → ℤ → ℕ → List Dict → List (Record F) → Result (List Dict × List (Row F))
  unfolding wrong_arity intern_all
  intern_records sc cutoff i ds [] = ok (ds, [])
  intern_records sc cutoff i ds (r ∷ rs) =
      let skipped = intern_records sc cutoff (suc i) ds rs in
      if wrong_arity sc r
      then err (arity_mismatch i)
      else if ltb_ℤ r.updated_at cutoff
      then skipped
      else do
        (ds', ids) ← intern_all sc.dims ds i r.dims
        (ds'', rows) ← intern_records sc cutoff (suc i) ds' rs
        ok (
          ds'',
          record {
            ids = ids;
            mets = r.metrics;
            updated = r.updated_at;
            expire = expire_milli r.expire_at;
          }
              ∷ rows,
        )

-- The lexicographic comparison of id tuples, `none` where they are equal.
pub ids_before : List ℕ → List ℕ → Option Bool
ids_before (a ∷ l) (b ∷ r) = let rest = ids_before l r in if a == b then rest else some (ltb a b)
ids_before l r = none

or_newer : ℤ → ℤ → Option Bool → Bool
or_newer ua ub (some before) = before
or_newer ua ub none = ltb_ℤ ub ua

pub same_tuple : List ℕ → List ℕ → Bool
same_tuple [] [] = true
same_tuple [] (b ∷ r) = false
same_tuple (a ∷ l) [] = false
same_tuple (a ∷ l) (b ∷ r) = (a == b) && same_tuple l r

module _ {F : Type 0} where
  -- The comparison function of the sort: key, ids, then the newest first.
  pub entry_before : ℕ × Row F → ℕ × Row F → Bool
  unfolding ids_before or_newer
  entry_before (ka, a) (kb, b) =
      if ka == kb then or_newer a.updated b.updated (ids_before a.ids b.ids) else ltb ka kb

  repeats : Option (Row F) → Row F → Bool
  unfolding same_tuple
  repeats none r = false
  repeats (some p) r = same_tuple p.ids r.ids

  -- The last loop: the first entry of each run of equal tuples, unless it is expired already.
  pub keep_newest : ℤ → Option (Row F) → List (ℕ × Row F) → List (ℕ × Row F)
  unfolding repeats
  keep_newest now prev [] = []
  keep_newest now prev ((k, r) ∷ es) =
      let rest = keep_newest now (some r) es in
      if repeats prev r || row_expired r.expire now then rest else (k, r) ∷ rest

  pub with_keys : List ℕ → ℕ → List (Row F) → List (ℕ × Row F)
  with_keys shifts index_dims = map (λ r. (pack_key shifts (take index_dims r.ids), r))

  unfoldable pub build_from_records : Schema → List (Record F) → ℤ → ℤ → Result (Snapshot F)
  unfolding with_keys keep_newest entry_before
  build_from_records sc recs cutoff now = do
    (dicts, rows) ← intern_records sc cutoff 0 (new_dicts sc.dims) recs
    shifts ← compute_shifts (map len dicts) sc.index_dims
    let entries = sort_by entry_before (with_keys shifts sc.index_dims rows)
    ok (make_snapshot dicts shifts (keep_newest now none entries))
