-- ===== src/View/Merge.antt =====
-- snapshot.go: `mergeView` and `zipMerge`, which fold the delta of a view into a new snapshot.
pub mod Zip
use facetta.Prelude.{
  ℕ, zero, suc, ◌+◌, ◌-◌, Bool, true, false, ◌&&◌, ◌||◌, not, Option, none, some, List, [], ◌∷◌,
  ◌++◌, length, map, get_or, set, take, drop, replicate, ltb, leb, ◌==◌, if◌then◌else◌,
}
use facetta.Prelude.Int.{ℤ, ltb_ℤ}
use facetta.Prelude.Maps.{eqb_str}
use facetta.Prelude.Sort.{sort_by}
use facetta.Schema.{Schema, Dim, dim_int}
use facetta.Result.{Result, ok, err, ◌>>=◌}
use facetta.Dict.{Dict, u32, new_dict, add_from, len, clone}
use facetta.Bitmap.{bit_get, bit_set, make_bitmap}
use facetta.Keys.{compute_shifts, pack_key}
use facetta.Snapshot.{Row, Snapshot, row_expired, make_snapshot, new_dicts}
use facetta.View.{View, keyed_rows}

-- `for id := range n { dst.addFrom(src, id) }`, from id `id` on for `n` rounds
pub add_entries : ℕ → ℕ → Dict → Dict → Dict
add_entries zero id dst src = dst
add_entries (suc n) id dst src = add_entries n (suc id) (add_from dst src (u32 id)).0 src

extend_dict : Dict → Dict → Dict
unfolding add_entries
extend_dict d x = if len x == 0 then d else add_entries (len x) 0 (clone d) x

pub extend_dicts : List Dict → List Dict → List Dict
unfolding extend_dict
extend_dicts (d ∷ ds) (x ∷ xs) = extend_dict d x ∷ extend_dicts ds xs
extend_dicts ds xs = ds

-- Ids that no surviving row uses are mapped to 0.
abbrev pub Remap : Type 0
Remap = List (List ℕ)

-- `mapID`: the identity where there is no remap
pub map_id : Option Remap → ℕ → ℕ → ℕ
map_id none dim id = id
map_id (some remap) dim id = get_or (get_or remap dim []) id 0

map_ids_from : Option Remap → ℕ → List ℕ → List ℕ
map_ids_from remap dim [] = []
map_ids_from remap dim (id ∷ ids) = map_id remap dim id ∷ map_ids_from remap (suc dim) ids

pub map_ids : Option Remap → List ℕ → List ℕ
unfolding map_ids_from map_id
map_ids remap ids = map_ids_from remap 0 ids

module _ {F : Type 0} where
  pub map_row : Option Remap → Row F → Row F
  map_row remap r = record r { ids = map_ids remap r.ids }

  -- The rows that a merge leaves out.
  pub dead_row : ℤ → ℤ → Row F → Bool
  dead_row cutoff now r = ltb_ℤ r.updated cutoff || row_expired r.expire now

  -- The base rows with the mark of being overridden, from row `i` on.
  pub shadow_from : List ℕ → ℕ → List (Row F) → List (Bool × Row F)
  shadow_from overridden i [] = []
  shadow_from overridden i (r ∷ rs) = (bit_get overridden i, r) ∷ shadow_from overridden (suc i) rs

  pub dropped_base : ℤ → ℤ → Bool × Row F → Bool
  unfolding dead_row
  dropped_base cutoff now (shadowed, r) = shadowed || dead_row cutoff now r

  -- The main loop over the base (sorted by construction) and the key-sorted delta. Each round drops
  -- a row or appends one; on equal keys the base row comes first.
  pub zip_rows : ℤ → ℤ → List (ℕ × (Bool × Row F)) → List (ℕ × Row F) → List (ℕ × Row F)
  zip_rows cutoff now [] [] = []
  zip_rows cutoff now [] ((dk, d) ∷ ds) =
      let rest = zip_rows cutoff now [] ds in if dead_row cutoff now d then rest else (dk, d) ∷ rest
  zip_rows cutoff now ((bk, b) ∷ bs) [] =
      let rest = zip_rows cutoff now bs [] in
      if dropped_base cutoff now b then rest else (bk, b.1) ∷ rest
  zip_rows cutoff now ((bk, b) ∷ bs) ((dk, d) ∷ ds) = elim (dropped_base cutoff now b) [
    | true ↦ zip_rows cutoff now bs ((dk, d) ∷ ds)
    | false ↦ elim (dead_row cutoff now d) [
      | true ↦ zip_rows cutoff now ((bk, b) ∷ bs) ds
      | false ↦ elim (leb bk dk) [
        | true ↦ (bk, b.1) ∷ zip_rows cutoff now bs ((dk, d) ∷ ds)
        | false ↦ (dk, d) ∷ zip_rows cutoff now ((bk, b) ∷ bs) ds
      ]
    ]
  ]

  key_before : ℕ × Row F → ℕ × Row F → Bool
  key_before (ka, a) (kb, b) = ltb ka kb

  pub pack_rows : List ℕ → ℕ → List (Row F) → List (ℕ × Row F)
  pack_rows shifts index_dims = map (λ r. (pack_key shifts (take index_dims r.ids), r))

  -- `keysStable`: with identity ids and unchanged shifts the base keys carry over
  keys_stable : Option Remap → List ℕ → Snapshot F → Bool
  keys_stable none shifts base = eqb_str shifts base.shifts
  keys_stable (some remap) shifts base = false

  pub with_shadow : List ℕ → List (Bool × Row F) → List (ℕ × (Bool × Row F))
  with_shadow (k ∷ ks) (b ∷ bs) = (k, b) ∷ with_shadow ks bs
  with_shadow ks bs = []

  pub zip_merge : Schema → View F → ℤ → ℤ → List Dict → Option Remap → Result (Snapshot F)
  unfolding zip_rows map_row pack_rows keys_stable key_before with_shadow shadow_from
  zip_merge sc v cutoff now dicts remap = do
    shifts ← compute_shifts (map len dicts) sc.index_dims
    let base = map (map_row remap) v.base.rows
    let delta =
        sort_by key_before (pack_rows shifts sc.index_dims (map (map_row remap) v.delta.rows))
    let keys =
        if keys_stable remap shifts v.base
        then v.base.keys
        else map (λ r. pack_key shifts (take sc.index_dims r.ids)) base
    ok (
        make_snapshot dicts shifts
          (zip_rows cutoff now (with_shadow keys (shadow_from v.overridden 0 base)) delta))

-- `bitSet(used[i], ids[i])` for each dimension
mark_ids : List (List ℕ) → List ℕ → List (List ℕ)
mark_ids (u ∷ us) (id ∷ ids) = bit_set u id ∷ mark_ids us ids
mark_ids us ids = us

module _ {F : Type 0} where
  -- The mark passes: the ids of the rows that survive.
  pub mark_base : ℤ → ℤ → List (Bool × Row F) → List (List ℕ) → List (List ℕ)
  unfolding mark_ids dropped_base
  mark_base cutoff now [] used = used
  mark_base cutoff now (b ∷ bs) used =
      mark_base cutoff now bs (if dropped_base cutoff now b then used else mark_ids used b.1.ids)

  pub mark_delta : ℤ → ℤ → List (Row F) → List (List ℕ) → List (List ℕ)
  unfolding mark_ids dead_row
  mark_delta cutoff now [] used = used
  mark_delta cutoff now (d ∷ ds) used =
      mark_delta cutoff now ds (if dead_row cutoff now d then used else mark_ids used d.ids)

pub record Compacted : Type 0 where
  pub dict : Dict
  pub remap : List ℕ

-- `for old := range card`: the used ids in ascending order get the next free ids, from id `old` on
-- for `n` rounds.
pub compact_ids : ℕ → ℕ → List ℕ → Dict → Dict → Dict → List ℕ → Compacted
compact_ids zero old used base extras dst remap = record { dict = dst; remap = remap }
compact_ids (suc n) old used base extras dst remap =
    let unused = compact_ids n (suc old) used base extras dst remap in
    let (dst', id) =
      if ltb old (len base) then add_from dst base old else add_from dst extras (old - len base) in
    let kept = compact_ids n (suc old) used base extras dst' (set remap old id) in
    if bit_get used old then kept else unused

compact_dict : Dim → List ℕ → Dict → Dict → Compacted
unfolding compact_ids
compact_dict dim used base extras =
    let card = len base + len extras in
    compact_ids card 0 used base extras (new_dict (dim.dim_type == dim_int)) (replicate card 0)

pub compact_dicts : List Dim → List (List ℕ) → List Dict → List Dict → List Compacted
unfolding compact_dict
compact_dicts (dim ∷ dims) (u ∷ us) (d ∷ ds) (x ∷ xs) =
    compact_dict dim u d x ∷ compact_dicts dims us ds xs
compact_dicts dims us ds xs = []

-- `make([]uint64, (card+63)/64)` per dimension
pub empty_marks : List Dict → List Dict → List (List ℕ)
empty_marks (d ∷ ds) (x ∷ xs) = make_bitmap (len d + len x) ∷ empty_marks ds xs
empty_marks ds xs = []

module _ {F : Type 0} where
  pub used_ids : View F → ℤ → ℤ → List (List ℕ)
  unfolding mark_base mark_delta empty_marks
  used_ids v cutoff now = mark_delta cutoff now v.delta.rows (
      mark_base cutoff now (shadow_from v.overridden 0 v.base.rows)
        (empty_marks v.base.dicts v.extras))

  pub merge_view : Schema → View F → ℤ → ℤ → Bool → Result (Snapshot F)
  unfolding zip_merge extend_dicts compact_dicts used_ids
  merge_view sc v cutoff now false =
      zip_merge sc v cutoff now (extend_dicts v.base.dicts v.extras) none
  merge_view sc v cutoff now true =
      let compacted = compact_dicts sc.dims (used_ids v cutoff now) v.base.dicts v.extras in
      zip_merge sc v cutoff now (map (λ c. c.dict) compacted) (some (map (λ c. c.remap) compacted))
