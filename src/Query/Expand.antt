-- ===== src/Query/Expand.antt =====
-- query.go: `planExpand`, which covers index dimensions by candidate sets and emits an interval of
-- rows for each combination.
pub mod Rows
pub mod Room
pub mod Odometer
pub mod Accepts
pub mod Emitted
use facetta.Prelude.{
  ℕ, zero, suc, ◌+◌, ◌-◌, ◌*◌, Bool, true, false, ◌&&◌, ◌||◌, not, Option, none, some, List, [],
  ◌∷◌, ◌++◌, length, get_or, set, take, replicate, ltb, leb, ◌==◌, if◌then◌else◌,
}
use facetta.Prelude.Search.{search}
use facetta.Schema.{Schema}
use facetta.Dict.{u32, len}
use facetta.Keys.{bit_len, pack_key, key_span_top}
use facetta.Snapshot.{Snapshot}
use facetta.View.{dict_at}
use facetta.Query.{GroupPlan, InWindow, Iv, QueryScratch, slice, push_iv}

-- What covers an index dimension: an equality condition, or the base-resident candidates of an IN
-- condition (`hasEq`/`eqID` and `candOff`/`candN`; no candidates means uncovered).
pub record Cover : Type 0 where
  pub eq : Option ℕ
  pub cand : List ℕ

abbrev pub uncovered : Cover
uncovered = record { eq = none; cand = [] }

-- `if int(d) < sc.IndexDims { hasEq[d], eqID[d] = true, id }` for each equality condition
pub cover_eqs : List Cover → List ℕ → List ℕ → List Cover
cover_eqs covers (d ∷ ds) (id ∷ ids) =
    cover_eqs (set covers d (record (get_or covers d uncovered) { eq = some id })) ds ids
cover_eqs covers ds ids = covers

unfoldable pub is_some : Option ℕ → Bool
is_some none = false
is_some (some id) = true

-- `slices.BinarySearch(seg, n)`: the ids below `n`
pub base_resident : List ℕ → ℕ → List ℕ
base_resident seg n = take (search (length seg) (λ i. leb n (get_or seg i 0))) seg

module _ {F : Type 0} where
  pub cover_ins : Snapshot F → List ℕ → List Cover → List InWindow → List Cover
  unfolding base_resident is_some
  cover_ins base pool covers [] = covers
  cover_ins base pool covers (w ∷ ws) =
      let c = get_or covers w.dim uncovered in
      let seg = base_resident (slice pool w.off w.n) (u32 (len (dict_at base.dicts w.dim))) in
      cover_ins base pool
        (if leb (length covers) w.dim || is_some c.eq || not (length c.cand == 0)
          then covers
          else set covers w.dim (record c { cand = seg }))
        ws

-- The greedy loop: the covered prefix whose number of combinations pays for itself and fits.
unfoldable pub affordable : ℕ → ℕ → ℕ → List Cover → List Cover
affordable rows room combos [] = []
affordable rows room combos (c ∷ cs) =
    let pinned = affordable rows room combos cs in
    let n = combos * length c.cand in
    let expanded = affordable rows room n cs in
    if is_some c.eq
    then c ∷ pinned
    else if length c.cand == 0
    then []
    else if ltb rows (n * bit_len rows) || ltb room n
    then []
    else c ∷ expanded

chosen : Cover → ℕ → ℕ
chosen c i = elim c.eq [ none ↦ get_or c.cand i 0 | some id ↦ id ]

-- The ids of the current combination.
pub combination : List Cover → List ℕ → List ℕ
unfolding chosen
combination (c ∷ cs) (i ∷ idx) = chosen c i ∷ combination cs idx
combination cs idx = []

-- One step of the odometer: the last dimension advances first, a pinned one only passes the carry
-- on. The flag is set when every dimension wrapped.
pub advance : List Cover → List ℕ → List ℕ × Bool
unfolding is_some
advance (c ∷ cs) (i ∷ idx) =
    let (idx', carry) = advance cs idx in
    if not carry
    then (i ∷ idx', false)
    else if is_some c.eq
    then (i ∷ idx', true)
    else if ltb (suc i) (length c.cand)
    then (suc i ∷ idx', false)
    else (0 ∷ idx', true)
advance cs idx = ([], true)

-- The hull of the emitted intervals; `hi == 0` means none yet.
pub widen : GroupPlan → ℕ → ℕ → GroupPlan
widen p lo hi = record p {
  lo = if (p.hi == 0) || ltb lo p.lo then lo else p.lo;
  hi = if ltb p.hi hi then hi else p.hi;
}

module _ {F : Type 0} where
  -- `lo64`, `hi64` and the two searches for a prefix of ids: the rows that have it.
  pub prefix_rows : Snapshot F → List ℕ → Iv
  prefix_rows base ids =
      let lo64 = pack_key base.shifts ids in
      let hi64 = key_span_top lo64 (get_or base.shifts (length ids - 1) 0) in
      record {
        lo = search (length base.keys) (λ i. leb lo64 (get_or base.keys i 0));
        hi = search (length base.keys) (λ i. ltb hi64 (get_or base.keys i 0));
      }

  pub emit : Snapshot F → List ℕ → GroupPlan → QueryScratch → GroupPlan × QueryScratch
  unfolding prefix_rows widen push_iv
  emit base ids p qs =
      let x = prefix_rows base ids in
      if ltb x.lo x.hi then (widen p x.lo x.hi, push_iv qs x) else (p, qs)

  -- The loop of the odometer. The fuel is the number of combinations.
  pub odometer :
      ℕ → Snapshot F → List Cover → List ℕ → GroupPlan → QueryScratch → GroupPlan × QueryScratch
  unfolding emit combination advance
  odometer zero base covers idx p qs = (p, qs)
  odometer (suc fuel) base covers idx p qs =
      let (p', qs') = emit base (combination covers idx) p qs in
      let (idx', wrapped) = advance covers idx in
      let more = odometer fuel base covers idx' p' qs' in if wrapped then (p', qs') else more

pub choices : Cover → ℕ
unfolding is_some
choices c = if is_some c.eq then 1 else length c.cand

pub combinations : List Cover → ℕ
unfolding choices
combinations [] = 1
combinations (c ∷ cs) = choices c * combinations cs

module _ {F : Type 0} where
  -- `scan`: the whole base is one interval, if it has rows.
  unfoldable pub full_scan : Snapshot F → GroupPlan → QueryScratch → GroupPlan × QueryScratch
  unfolding push_iv
  full_scan base p qs =
      let n = length base.rows in
      (record p { scan = true }, (if n == 0 then qs else push_iv qs (record { lo = 0; hi = n })))

  unfoldable pub expand_over :
      Snapshot F → List Cover → GroupPlan → QueryScratch → GroupPlan × QueryScratch
  unfolding full_scan odometer combinations
  expand_over base [] p qs = full_scan base p qs
  expand_over base (c ∷ cs) p qs =
      odometer (combinations (c ∷ cs)) base (c ∷ cs) (replicate (length (c ∷ cs)) 0) p qs

  unfoldable pub plan_expand :
      Schema → Snapshot F → GroupPlan → QueryScratch → ℕ → GroupPlan × QueryScratch
  unfolding cover_eqs cover_ins affordable expand_over
  plan_expand sc base p qs reserve =
      let eqs =
        cover_eqs (replicate sc.index_dims uncovered) (slice qs.cond_dims p.cond_off p.cond_n)
          (slice qs.cond_ids p.cond_off p.cond_n) in
      let covers = cover_ins base qs.in_pool eqs (slice qs.in_wins p.ins_off p.ins_n) in
      let room = qs.ivs_cap - length qs.ivs - reserve in
      expand_over base (affordable (length base.rows) room 1 covers) p qs
