-- ===== src/Query/Match.antt =====
-- query.go: the tests of one row against one plan.
pub mod Probe
use facetta.Prelude.{
  ℕ, ◌+◌, ◌-◌, Bool, true, false, ◌&&◌, ◌||◌, not, List, [], ◌∷◌, length, get_or, ltb, leb, ◌==◌,
  if◌then◌else◌,
}
use facetta.Prelude.Int.{ℤ, pos, ltb_ℤ}
use facetta.Prelude.Search.{search}
use facetta.Dict.{u32, len}
use facetta.Snapshot.{Row}
use facetta.View.{View, Delta, dict_at}
use facetta.Query.{GroupPlan, InWindow, RangeWindow, QueryScratch, slice}

abbrev pub in_linear_max : ℕ
in_linear_max = 16

unfoldable pub linear_probe : List ℕ → ℕ → Bool
linear_probe [] id = false
linear_probe (c ∷ seg) id = (id == c) || linear_probe seg id

-- `_, ok := slices.BinarySearch(seg, id)`
pub binary_probe : List ℕ → ℕ → Bool
binary_probe seg id =
    let i = search (length seg) (λ h. leb id (get_or seg h 0)) in
    ltb i (length seg) && (get_or seg i 0 == id)

unfoldable pub match_one_in : InWindow → List ℕ → ℕ → Bool
unfolding linear_probe binary_probe
match_one_in w pool id =
    let seg = slice pool w.off w.n in
    if leb (length seg) in_linear_max then linear_probe seg id else binary_probe seg id

-- `dims[d][r]` of the row
abbrev pub id_at : List ℕ → ℕ → ℕ
id_at ids d = get_or ids d 0

unfoldable pub match_ins : List InWindow → List ℕ → List ℕ → Bool
unfolding match_one_in
match_ins [] pool ids = true
match_ins (w ∷ ws) pool ids = match_one_in w pool (id_at ids w.dim) && match_ins ws pool ids

-- `v.base.dims[d][r] != id` for each equality condition
unfoldable pub match_eqs : List ℕ → List ℕ → List ℕ → Bool
match_eqs (d ∷ ds) (id ∷ want) ids = (id_at ids d == id) && match_eqs ds want ids
match_eqs ds want ids = true

module _ {F : Type 0} where
  -- The integer value of a combined-space id.
  unfoldable pub value_of : View F → ℕ → ℕ → ℤ
  value_of v d id =
      let n = u32 (len (dict_at v.base.dicts d)) in
      if leb n id
      then get_or (dict_at v.extras d).vals (id - n) (pos 0)
      else get_or (dict_at v.base.dicts d).vals id (pos 0)

  unfoldable pub match_ranges : List RangeWindow → View F → List ℕ → Bool
  unfolding value_of
  match_ranges [] v ids = true
  match_ranges (w ∷ ws) v ids =
      let val = value_of v w.dim (id_at ids w.dim) in
      not (ltb_ℤ val w.min || ltb_ℤ w.max val) && match_ranges ws v ids

unfoldable pub match_base : GroupPlan → QueryScratch → ℕ → List ℕ → Bool
unfolding match_eqs
match_base p qs r ids =
    if p.dead || not p.base_possible
    then false
    else if not p.scan && (ltb r p.lo || leb p.hi r)
    then false
    else match_eqs (slice qs.cond_dims p.cond_off p.cond_n) (slice qs.cond_ids p.cond_off p.cond_n)
        ids

unfoldable pub match_delta : GroupPlan → QueryScratch → List ℕ → Bool
unfolding match_eqs
match_delta p qs ids =
    if p.dead
    then false
    else match_eqs (slice qs.cond_dims p.cond_off p.cond_n) (slice qs.cond_ids p.cond_off p.cond_n)
        ids

module _ {F : Type 0} where
  -- The IN and range tests that every caller makes behind `matchBase` or `matchDelta`.
  unfoldable pub match_rest : GroupPlan → QueryScratch → View F → List ℕ → Bool
  unfolding match_ins match_ranges
  match_rest p qs v ids =
      ((p.ins_n == 0) || match_ins (slice qs.in_wins p.ins_off p.ins_n) qs.in_pool ids)
      && ((p.rng_n == 0) || match_ranges (slice qs.r_wins p.rng_off p.rng_n) v ids)

  -- Some plan accepts the base row `r`, or the delta row.
  unfoldable pub base_matched : List GroupPlan → QueryScratch → View F → ℕ → List ℕ → Bool
  unfolding match_base match_rest
  base_matched [] qs v r ids = false
  base_matched (p ∷ ps) qs v r ids =
      (match_base p qs r ids && match_rest p qs v ids) || base_matched ps qs v r ids

  unfoldable pub delta_matched : List GroupPlan → QueryScratch → View F → List ℕ → Bool
  unfolding match_delta match_rest
  delta_matched [] qs v ids = false
  delta_matched (p ∷ ps) qs v ids =
      (match_delta p qs ids && match_rest p qs v ids) || delta_matched ps qs v ids
