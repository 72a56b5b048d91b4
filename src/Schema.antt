-- ===== src/Schema.antt =====
-- schema.go: the table's shape, the records of the source of truth and the store's limits.
use facetta.Prelude.{
  ℕ, zero, suc, Bool, false, ◌||◌, Option, none, some, List, [], ◌∷◌, length, ltb, ◌==◌,
  if◌then◌else◌,
}
use facetta.Prelude.Int.{ℤ}
use facetta.Prelude.Maps.{Str, eqb_str}
use facetta.Result.{
  Result, ok, err, bad_dim_count, bad_index_dims, no_metrics, bad_dimension, unknown_dim_type,
  bad_metric, ◌>>◌,
}

abbrev pub max_dims : ℕ
max_dims = 16

-- `DimType` is a uint8; only these two values pass `validate`.
abbrev pub dim_string : ℕ
dim_string = 0

abbrev pub dim_int : ℕ
dim_int = 1

pub record Dim : Type 0 where
  pub name : Str
  pub dim_type : ℕ

pub record Schema : Type 0 where
  pub dims : List Dim
  pub index_dims : ℕ
  pub metrics : List Str

-- `seen[name]` of a `map[string]bool`
unfoldable pub seen : Str → List Str → Bool
seen s [] = false
seen s (t ∷ ts) = eqb_str t s || seen s ts

validate_dims : List Str → List Dim → Result (Unit {0})
validate_dims names [] = ok tt
validate_dims names (d ∷ ds) =
    if eqb_str d.name [] || seen d.name names
    then err (bad_dimension d.name)
    else if ltb dim_int d.dim_type
    then err (unknown_dim_type d.name d.dim_type)
    else validate_dims (d.name ∷ names) ds

validate_metrics : List Str → List Str → Result (Unit {0})
validate_metrics names [] = ok tt
validate_metrics names (m ∷ ms) =
    if eqb_str m [] || seen m names then err (bad_metric m) else validate_metrics (m ∷ names) ms

unfoldable pub validate : Schema → Result (Unit {0})
unfolding validate_dims validate_metrics
validate s =
    if (length s.dims == 0) || ltb max_dims (length s.dims)
    then err (bad_dim_count (length s.dims))
    else if ltb s.index_dims 1 || ltb (length s.dims) s.index_dims
    then err (bad_index_dims (length s.dims))
    else if length s.metrics == 0
    then err no_metrics
    else (validate_dims [] s.dims >> validate_metrics [] s.metrics)

unfoldable pub is_int_in : List Dim → ℕ → Bool
is_int_in [] i = false
is_int_in (d ∷ ds) zero = d.dim_type == dim_int
is_int_in (d ∷ ds) (suc i) = is_int_in ds i

unfoldable pub is_int : Schema → ℕ → Bool
unfolding is_int_in
is_int s i = is_int_in s.dims i

unfoldable pub dim_index_from : ℕ → List Dim → Str → Option ℕ
dim_index_from i [] name = none
dim_index_from i (d ∷ ds) name =
    if eqb_str d.name name then some i else dim_index_from (suc i) ds name

-- `none` stands for -1
unfoldable pub dim_index : Schema → Str → Option ℕ
unfolding dim_index_from
dim_index s name = dim_index_from 0 s.dims name

-- One upsert row. A `time.Time` is its `UnixMilli`, and the zero time of `ExpireAt` is `none`.
pub record Record (F : Type 0) : Type 0 where
  pub dims : List Str
  pub metrics : List F
  pub updated_at : ℤ
  pub expire_at : Option ℤ

-- Durations are nanoseconds, as in Go.
pub record Config : Type 0 where
  pub ttl : ℤ
  pub max_rows : ℤ
  pub max_scan_rows : ℤ
  pub dict_compact_interval : ℤ
