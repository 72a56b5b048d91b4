-- ===== src/Query/Resolve.antt =====
-- query.go: the loop of `plan` over the conditions of a group, which resolves them to ids.
pub mod Ivs
pub mod Windows
pub mod Outcome
use facetta.Prelude.{
  ℕ, zero, suc, ◌+◌, ◌-◌, Bool, true, false, ◌&&◌, ◌||◌, not, Option, none, some, List, [], ◌∷◌,
  ◌++◌, length, get_or, set, take, drop, replicate, ltb, leb, ◌==◌, if◌then◌else◌,
}
use facetta.Prelude.Maps.{Str, eqb_str}
use facetta.Prelude.Search.{search}
use facetta.Prelude.Sort.{sort_by}
use facetta.Schema.{Schema, dim_index, is_int}
use facetta.Result.{
  Result, ok, err, unknown_dimension, cond_range_conflict, cond_value_and_in, not_dim_int,
  non_integer_value, ◌>>=◌,
}
use facetta.Dict.{len}
use facetta.Keys.{pack_key, key_span_top}
use facetta.Snapshot.{Snapshot}
use facetta.View.{View, dict_at, lookup_id, lookup_num_id}
use facetta.Query.{
  Range, Cond, GroupPlan, fresh_plan, InWindow, RangeWindow, Iv, QueryScratch, slice, push_iv,
}

-- What resolving conditions leads to: the pools and `p.basePossible`, or a dead plan.
pub data Resolution : Type 0 where
  live dead : QueryScratch → Bool → Resolution

-- A dead condition ends the loop.
abbrev pub unless_dead : Resolution → (QueryScratch → Bool → Result Resolution) → Result Resolution
unless_dead (dead qs possible) next = ok (dead qs possible)
unless_dead (live qs possible) next = next qs possible

unfoldable pub or_non_integer : Str → Str → Option (Option ℕ) → Result (Option ℕ)
or_non_integer value dim none = err (non_integer_value value dim)
or_non_integer value dim (some found) = ok found

module _ {F : Type 0} where
  unfoldable pub resolve_value : Schema → View F → ℕ → Str → Str → Result (Option ℕ)
  unfolding or_non_integer
  resolve_value sc v di dim value =
      if is_int sc di
      then or_non_integer value dim (lookup_num_id v di value)
      else ok (lookup_id v di value)

  -- The candidates of an IN condition are appended to the pool; `anyBase` beside them.
  unfoldable pub resolve_in :
      Schema → View F → ℕ → Str → List Str → List ℕ → Bool → Result (List ℕ × Bool)
  unfolding resolve_value
  resolve_in sc v di dim [] pool any_base = ok (pool, any_base)
  resolve_in sc v di dim (value ∷ values) pool any_base = do
    found ← resolve_value sc v di dim value
    elim found [
      | none ↦ resolve_in sc v di dim values pool any_base
      | some id ↦
          resolve_in sc v di dim values (pool ++ id ∷ [])
            (any_base || ltb id (len (dict_at v.base.dicts di)))
    ]

-- `slices.Sort(qs.inPool[off:])`
unfoldable pub sort_from : ℕ → List ℕ → List ℕ
sort_from off pool = take off pool ++ sort_by ltb (drop off pool)

unfoldable pub close_window : QueryScratch → Bool → ℕ → List ℕ × Bool → Resolution
unfolding sort_from
close_window qs possible di (pool, any_base) =
    let off = length qs.in_pool in
    if length pool == off
    then dead (record qs { in_pool = pool }) possible
    else live
        (record qs {
          in_pool = sort_from off pool;
          in_wins = qs.in_wins ++ record { dim = di; off = off; n = length pool - off } ∷ [];
        })
        (possible && any_base)

unfoldable pub push_cond : QueryScratch → Bool → ℕ → Option ℕ → Resolution
push_cond qs possible di none = dead qs possible
push_cond qs possible di (some id) =
    live (record qs { cond_dims = qs.cond_dims ++ di ∷ []; cond_ids = qs.cond_ids ++ id ∷ [] })
      possible

unfoldable pub resolve_range : Schema → QueryScratch → Bool → ℕ → Cond → Range → Result Resolution
resolve_range sc qs possible di c r =
    if not (eqb_str c.value []) || not (length c.in_values == 0)
    then err cond_range_conflict
    else if not (is_int sc di)
    then err (not_dim_int c.dim)
    else ok (
        live
          (record qs { r_wins = qs.r_wins ++ record { dim = di; min = r.min; max = r.max } ∷ [] })
          possible)

module _ {F : Type 0} where
  unfoldable pub resolve_plain :
      Schema → View F → QueryScratch → Bool → ℕ → Cond → Result Resolution
  unfolding resolve_value resolve_in close_window push_cond
  resolve_plain sc v qs possible di c =
      if length c.in_values == 0
      then (do found ← resolve_value sc v di c.dim c.value; ok (push_cond qs possible di found))
      else if not (eqb_str c.value [])
      then err cond_value_and_in
      else (do
        pool ← resolve_in sc v di c.dim c.in_values qs.in_pool false
        ok (close_window qs possible di pool))

  unfoldable pub resolve_at :
      Schema → View F → QueryScratch → Bool → Cond → Option Range → Option ℕ → Result Resolution
  unfolding resolve_range resolve_plain
  resolve_at sc v qs possible c r none = err (unknown_dimension c.dim)
  resolve_at sc v qs possible c none (some di) = resolve_plain sc v qs possible di c
  resolve_at sc v qs possible c (some r) (some di) = resolve_range sc qs possible di c r

  unfoldable pub resolve_cond : Schema → View F → QueryScratch → Bool → Cond → Result Resolution
  unfolding resolve_at
  resolve_cond sc v qs possible c = resolve_at sc v qs possible c c.range (dim_index sc c.dim)

  -- `for _, c := range g`
  unfoldable pub resolve_conds :
      Schema → View F → QueryScratch → Bool → List Cond → Result Resolution
  unfolding resolve_cond
  resolve_conds sc v qs possible [] = ok (live qs possible)
  resolve_conds sc v qs possible (c ∷ cs) = do
    r ← resolve_cond sc v qs possible c
    unless_dead r (λ qs' possible'. resolve_conds sc v qs' possible' cs)
