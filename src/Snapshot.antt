-- ===== src/Snapshot.antt =====
-- snapshot.go: the immutable base table. The columns `dims`, `mets`, `updated` and `expire` are
-- extended together, so they are one list of rows here; `keys` stays a column of its own.
pub mod Build
pub mod WellFormed
use facetta.Prelude.{
  ℕ, Bool, true, false, ◌&&◌, ◌||◌, not, Option, none, some, List, [], ◌∷◌, map, length, get_or,
  replicate, ◌==◌, if◌then◌else◌,
}
use facetta.Prelude.Int.{ℤ, pos, ltb_ℤ, leb_ℤ, eqb_ℤ}
use facetta.Schema.{Schema, Dim, dim_int, is_int}
use facetta.Result.{Result, ok, err}
use facetta.Dict.{Dict, new_dict}
use facetta.Keys.{compute_shifts}

pub record Row (F : Type 0) : Type 0 where
  pub ids : List ℕ
  pub mets : List F
  pub updated : ℤ
  pub expire : ℤ

pub record Snapshot (F : Type 0) : Type 0 where
  pub dicts : List Dict
  pub rows : List (Row F)
  pub keys : List ℕ
  pub shifts : List ℕ
  pub max_updated : ℤ
  pub min_updated : ℤ
  pub min_expire : ℤ

-- The running extremes of `trackMin` and of the loops that call it.
pub record Track : Type 0 where
  pub max_updated : ℤ
  pub min_updated : ℤ
  pub min_expire : ℤ

abbrev pub no_rows : Track
no_rows = record { max_updated = pos 0; min_updated = pos 0; min_expire = pos 0 }

abbrev is_zero : ℤ → Bool
is_zero a = eqb_ℤ a (pos 0)

unfoldable pub track_min : Track → ℤ → ℤ → Track
track_min t updated expire = record t {
  min_updated =
      if is_zero t.min_updated || ltb_ℤ updated t.min_updated then updated else t.min_updated;
  min_expire =
      if not (is_zero expire) && (is_zero t.min_expire || ltb_ℤ expire t.min_expire)
      then expire
      else t.min_expire;
}

-- `if u > maxUpdated { maxUpdated = u }; trackMin(u, e)`
unfoldable pub track_row : Track → ℤ → ℤ → Track
unfolding track_min
track_row t updated expire =
    track_min
      (record t { max_updated = if ltb_ℤ t.max_updated updated then updated else t.max_updated })
      updated expire

unfoldable pub track_rows : {F : Type 0} → Track → List (Row F) → Track
unfolding track_row
track_rows t [] = t
track_rows t (r ∷ rs) = track_rows (track_row t r.updated r.expire) rs

-- The zero time is `none`.
unfoldable pub expire_milli : Option ℤ → ℤ
expire_milli none = pos 0
expire_milli (some t) = t

unfoldable pub row_expired : ℤ → ℤ → Bool
row_expired e now = not (is_zero e) && leb_ℤ e now

unfoldable pub new_dicts : List Dim → List Dict
new_dicts [] = []
new_dicts (d ∷ ds) = new_dict (d.dim_type == dim_int) ∷ new_dicts ds

shifts_or_none : Result (List ℕ) → List ℕ
shifts_or_none (ok shifts) = shifts
shifts_or_none (err e) = []

unfoldable pub empty_snapshot : {F : Type 0} → Schema → Snapshot F
unfolding new_dicts shifts_or_none
empty_snapshot sc = record {
  dicts = new_dicts sc.dims;
  rows = [];
  keys = [];
  shifts = shifts_or_none (compute_shifts (replicate sc.index_dims 0) sc.index_dims);
  max_updated = pos 0;
  min_updated = pos 0;
  min_expire = pos 0;
}

-- A snapshot of keyed rows in the order that they were appended.
unfoldable pub make_snapshot : {F : Type 0} → List Dict → List ℕ → List (ℕ × Row F) → Snapshot F
unfolding track_rows
make_snapshot dicts shifts entries =
    let t = track_rows no_rows (map (λ e. e.1) entries) in
    record {
      dicts = dicts;
      rows = map (λ e. e.1) entries;
      keys = map (λ e. e.0) entries;
      shifts = shifts;
      max_updated = t.max_updated;
      min_updated = t.min_updated;
      min_expire = t.min_expire;
    }
