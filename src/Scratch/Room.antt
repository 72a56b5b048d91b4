-- ===== src/Scratch/Room.antt =====
-- The interval slots of a workspace: one for each group, and a capped estimate for IN expansion.
use facetta.Prelude.{
  ℕ, ◌+◌, ◌*◌, ◌/◌, ◌≤◌, ◌<◌, ◌≡◌, refl, sym, ap, ◌∙◌, ◌↔◌, true, false, Option, none, some, List,
  [], ◌∷◌, length, ltb, ◌==◌, arith, Bool-cases, inl, inr, if◌then◌else◌,
}
use Prim.Native.Nat.{min}
use native.Mathlib.Nat.{
  div-lt_iff_lt-mul, mul_assoc, one-mul, mul-one, min-eq_left, min-eq_right, le-mul_of_pos_right,
}
use facetta.Query.{Cond, Range}
use facetta.Scratch.{
  QueryShape, fast_ivs, iv_demand_cap, demand_from, group_iv_demand, measure_at, measure_cond,
  measure_conds, measure_groups, measure_shape, fits, grow, pooled_ivs, empty_scratch, route,
}

measure_at-groups :
    (sh : QueryShape) (c : Cond) (r : Option Range) → (measure_at sh c r).groups ≡ sh.groups
unfolding measure_at
measure_at-groups sh c (some r) = refl
measure_at-groups sh c none = ground arith

measure_conds-groups : (sh : QueryShape) (g : List Cond) → (measure_conds sh g).groups ≡ sh.groups
unfolding measure_conds measure_cond
measure_conds-groups sh [] = refl
measure_conds-groups sh (c ∷ g) =
    measure_conds-groups (measure_cond sh c) g ∙ measure_at-groups sh c c.range

measure_groups-groups :
    (sh : QueryShape) (gs : List (List Cond)) → (measure_groups sh gs).groups ≡ sh.groups
unfolding measure_groups
measure_groups-groups sh [] = refl
measure_groups-groups sh (g ∷ gs) =
    measure_groups-groups
      (record (measure_conds sh g) {
        iv_demand = (measure_conds sh g).iv_demand + group_iv_demand g;
      })
      gs
    ∙ measure_conds-groups sh g

fits-groups : (sh : QueryShape) → fits sh ≡ true → sh.groups ≤ fast_ivs
unfolding fits
fits-groups sh h = ground arith

pooled_ivs-groups : (old : ℕ) (sh : QueryShape) → sh.groups ≤ pooled_ivs old sh
unfolding pooled_ivs grow
pooled_ivs-groups old sh = ground arith

-- The workspace that a query is routed to has an interval slot for each group.
pub route-groups :
    (old aggs : ℕ) (gs : List (List Cond)) → length gs ≤ (route old (measure_shape gs aggs)).ivs_cap
unfolding route empty_scratch measure_shape
route-groups old aggs gs =
    let sh = measure_shape gs aggs in
    let same : sh.groups ≡ length gs = measure_groups-groups _ gs in
    elim (Bool-cases (fits sh)) [
      | inl fast ↦ rw fast (omega (arith, same, fits-groups sh fast))
      | inr pooled ↦ rw pooled (omega (arith, same, pooled_ivs-groups old sh))
    ]

pub route-empty : (old : ℕ) (sh : QueryShape) → length (route old sh).ivs ≡ 0
unfolding route empty_scratch
route-empty old sh = refl

-- The number of candidate combinations of the IN conditions of a group.
pub candidates : List Cond → ℕ
candidates [] = 1
candidates (c ∷ g) =
    if length c.in_values == 0 then candidates g else length c.in_values * candidates g

candidates_pos : (g : List Cond) → 1 ≤ candidates g
unfolding candidates
candidates_pos [] = omega arith
candidates_pos (c ∷ g) = elim (Bool-cases (length c.in_values == 0)) [
  | inl plain ↦ rw plain (candidates_pos g)
  | inr several ↦ rw several (grind (arith, candidates_pos g))
]

capped : (x cap : ℕ) → cap ≤ x → cap ≡ min x cap
capped x cap h = sym (min-eq_right h)

-- The test by division detects exactly the products that pass the cap.
over_iff : (n demand cap : ℕ) → 1 ≤ n → (cap / n < demand) ↔ (cap < demand * n)
over_iff n demand cap h = div-lt_iff_lt-mul h

demand_from-min :
    (demand : ℕ) (g : List Cond)
    → demand ≤ iv_demand_cap
    → demand_from demand g ≡ min (demand * candidates g) iv_demand_cap
unfolding demand_from candidates
demand_from-min demand [] h = sym (ap (λ x. min x iv_demand_cap) (mul-one demand) ∙ min-eq_left h)
demand_from-min demand (c ∷ g) h = elim (Bool-cases (length c.in_values == 0)) [
  | inl plain ↦
      let no_values : ltb 0 (length c.in_values) ≡ false = ground arith in
      rw (plain, no_values) (demand_from-min demand g h)
  | inr several ↦
      let n = length c.in_values in
      let k = candidates g in
      let some_values : ltb 0 (length c.in_values) ≡ true = ground arith in
      let pos_n : 1 ≤ n = ground arith in
      let iff = over_iff n demand iv_demand_cap pos_n in
      let assoc : demand * (n * k) ≡ demand * n * k = sym (mul_assoc demand n k) in
      elim (Bool-cases (ltb (iv_demand_cap / n) demand)) [
        | inl over ↦
            let big : iv_demand_cap < demand * n = iff.0 (ground arith) in
            rw (several, some_values, over)
              (rw assoc (
                capped (demand * n * k) iv_demand_cap
                  (omega (arith, big, le-mul_of_pos_right (demand * n) (candidates_pos g)))))
        | inr under ↦
            let small : demand * n ≤ iv_demand_cap = ground (arith, iff.1) in
            let ih = demand_from-min (demand * n) g small in
            rw (several, some_values, under) (rw assoc ih)
      ]
]

-- `groupIvDemand` is the number of candidate combinations of the group's IN conditions, capped at
-- 2^20.
pub group_iv_demand-min : (g : List Cond) → group_iv_demand g ≡ min (candidates g) iv_demand_cap
unfolding group_iv_demand
group_iv_demand-min g =
    rw (demand_from-min 1 g (omega arith)) (ap (λ x. min x iv_demand_cap) (one-mul (candidates g)))
