-- ===== src/Result.antt =====
-- The errors of the package (schema.go, query.go, agg.go, groupby.go, persist.go), and a result of
-- a fallible call. `fmt.Errorf` values are constructors that carry what the text is formatted from.
use facetta.Prelude.{ℕ, ◌≡◌, refl}
use facetta.Prelude.Maps.{Str}

pub data Error : Type 0 where
  row_limit key_overflow scan_budget : Error
  snapshot_format snapshot_stale unreadable_file : Error
  bad_dim_count bad_index_dims : ℕ → Error
  no_metrics : Error
  bad_dimension bad_metric : Str → Error
  unknown_dim_type : Str → ℕ → Error
  arity_mismatch : ℕ → Error
  non_integer_record : ℕ → Str → Error
  unknown_dimension : Str → Error
  cond_value_and_in cond_range_conflict : Error
  not_dim_int : Str → Error
  non_integer_value : Str → Str → Error
  bad_group_count bad_agg_count bad_by_dims : Error
  unknown_agg_op : ℕ → Error
  distinct_takes_no_metric only_distinct_takes_dim count_takes_no_metric : Str → Error
  unknown_metric duplicate_group_by : Str → Error

pub data Result {ℓ} (T : Type ℓ) : Type ℓ where
  err : Error → Result T
  ok : T → Result T

infixl 10 ◌>>=◌ ◌>>◌
abbrev pub ◌>>=◌ {ℓ κ} : {T : Type ℓ} {U : Type κ} → Result T → (T → Result U) → Result U
err e >>= next = err e
ok t >>= next = next t

pub ok_inj {ℓ} : {T : Type ℓ} {t u : T} → ok t ≡ ok u → t ≡ u
ok_inj same = cc

-- The first call returns an error or nothing.
abbrev pub ◌>>◌ {ℓ} : {U : Type ℓ} → Result (Unit {0}) → Result U → Result U
err e >> rest = err e
ok u >> rest = rest

-- A chain that succeeds has a first call that succeeds.
pub >>=-eq-ok {ℓ κ} :
    {T : Type ℓ} {U : Type κ} (first : Result T) (next : T → Result U) {u : U}
    → (first >>= next) ≡ ok u
    → (t : T) × (first ≡ ok t) × (next t ≡ ok u)
>>=-eq-ok (err e) next h = cc
>>=-eq-ok (ok t) next h = (t, refl, h)

pub >>-eq-ok {ℓ} :
    {U : Type ℓ} (first : Result (Unit {0})) (rest : Result U) {u : U}
    → (first >> rest) ≡ ok u
    → rest ≡ ok u
>>-eq-ok (err e) rest h = cc
>>-eq-ok (ok done) rest h = h
