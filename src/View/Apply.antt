-- ===== src/View/Apply.antt =====
-- view.go: `applyDelta`, which upserts records into a copy of the delta.
pub mod Index
pub mod Batch
pub mod Latest
pub mod Known
pub mod Growth
pub mod Raised
pub mod Decoded
use facetta.Prelude.{
  ℕ, zero, suc, ◌+◌, ◌/◌, Bool, true, false, ◌&&◌, ◌||◌, not, Option, none, some, List, [], ◌∷◌,
  ◌++◌, length, get_elem?, set, ltb, ◌==◌, if◌then◌else◌, get_or,
}
use facetta.Prelude.Int.{ℤ, pos, ltb_ℤ, leb_ℤ, eqb_ℤ}
use facetta.Prelude.Maps.{Str, find, put, str_eq}
use facetta.Schema.{Schema, Dim, dim_int, Record}
use facetta.Result.{Result, ok, err, arity_mismatch, non_integer_record, ◌>>=◌}
use facetta.Strconv.{parse_int}
use facetta.Dict.{Dict, u32, lookup, lookup_n, len, get_or_add, get_or_add_n}
use facetta.Bitmap.{bit_set, make_bitmap}
use facetta.Snapshot.{Row, Snapshot, expire_milli}
use facetta.View.{Delta, View, id_key, find_row}

-- One resolved value: the extras of its dimension, its id, and whether the base has it.
pub record Resolved : Type 0 where
  pub extras : Dict
  pub id : ℕ
  pub in_base : Bool

-- `ids[d] = baseLen + …`: the value is in the extras already, or is added to them.
extend_str : ℕ → Dict → Str → Option ℕ → Resolved
extend_str base_len x s (some id) = record { extras = x; id = u32 (base_len + id); in_base = false }
extend_str base_len x s none =
    let (x', id) = get_or_add x s in
    record { extras = x'; id = u32 (base_len + id); in_base = false }

resolve_str : Dict → Dict → Str → Option ℕ → Resolved
unfolding extend_str
resolve_str d x s (some id) = record { extras = x; id = id; in_base = true }
resolve_str d x s none = extend_str (u32 (len d)) x s (lookup x s)

extend_val : ℕ → Dict → ℤ → Option ℕ → Resolved
extend_val base_len x n (some id) = record { extras = x; id = u32 (base_len + id); in_base = false }
extend_val base_len x n none =
    let (x', id) = get_or_add_n x n in
    record { extras = x'; id = u32 (base_len + id); in_base = false }

resolve_val : Dict → Dict → ℤ → Option ℕ → Resolved
unfolding extend_val
resolve_val d x n (some id) = record { extras = x; id = id; in_base = true }
resolve_val d x n none = extend_val (u32 (len d)) x n (lookup_n x n)

resolve_parsed : Dict → Dict → Option ℤ → ℕ → Str → Result Resolved
unfolding resolve_val
resolve_parsed d x none i s = err (non_integer_record i s)
resolve_parsed d x (some n) i s = ok (resolve_val d x n (lookup_n d n))

pub resolve : Dim → Dict → Dict → ℕ → Str → Result Resolved
unfolding resolve_parsed resolve_str
resolve dim d x i s =
    if dim.dim_type == dim_int
    then resolve_parsed d x (parse_int s) i s
    else ok (resolve_str d x s (lookup d s))

pub record Tuple : Type 0 where
  pub extras : List Dict
  pub ids : List ℕ
  pub all_in_base : Bool

-- `for d := range nd`: the id tuple of record `i`. The extras keep what was added.
pub resolve_all : List Dim → List Dict → List Dict → ℕ → List Str → Result Tuple
unfolding resolve
resolve_all (dim ∷ dims) (d ∷ ds) (x ∷ xs) i (s ∷ ss) = do
  first ← resolve dim d x i s
  rest ← resolve_all dims ds xs i ss
  ok (record {
    extras = first.extras ∷ rest.extras;
    ids = first.id ∷ rest.ids;
    all_in_base = first.in_base && rest.all_in_base;
  })
resolve_all dims ds xs i ss = ok (record { extras = xs; ids = []; all_in_base = true })

mark_overridden : List ℕ → Option ℕ → List ℕ
mark_overridden overridden none = overridden
mark_overridden overridden (some br) = bit_set overridden br

pub is_none : Option ℕ → Bool
is_none none = true
is_none (some r) = false

-- `if e != 0 { hasExpiry = true }`
pub sticky : ℤ → Bool → Bool
sticky e old = if eqb_ℤ e (pos 0) then old else true

module _ {F : Type 0} where
  -- `if u > nd2.maxUpdated { nd2.maxUpdated = u }`
  pub raise_max : ℤ → Delta F → Delta F
  raise_max u d = if ltb_ℤ d.max_updated u then record d { max_updated = u } else d

  -- The tuple is in the delta at row `r`: a newer or equal record replaces the whole row.
  pub replace_at : Delta F → ℕ → List ℕ → List F → ℤ → ℤ → Option (Row F) → Delta F
  unfolding sticky
  replace_at d r ids mets u e none = d
  replace_at d r ids mets u e (some old) =
      if leb_ℤ old.updated u
      then record d {
        rows = set d.rows r (record { ids = old.ids; mets = mets; updated = u; expire = e });
        has_expiry = sticky e d.has_expiry;
      }
      else d

  pub append_row : Delta F → List ℕ → List F → ℤ → ℤ → Delta F
  unfolding sticky
  append_row d ids mets u e = record d {
    rows = d.rows ++ record { ids = ids; mets = mets; updated = u; expire = e } ∷ [];
    index = put (id_key ids) (length d.rows) d.index;
    has_expiry = sticky e d.has_expiry;
  }

  -- `base.updated[br] > u`
  pub newer_at : List (Row F) → ℤ → Option ℕ → Bool
  newer_at rows u none = false
  newer_at rows u (some br) = elim (get_elem? rows br) [
    | none ↦ false
    | some old ↦ ltb_ℤ u old.updated
  ]

  -- The tuple is not in the delta: stale and capped records are dropped, others become a new row,
  -- which shadows the base row `br` of the tuple, if there is one.
  pub insert_row : View F → Option ℕ → Bool → List ℕ → List F → ℤ → ℤ → ℕ → View F × ℕ
  unfolding newer_at mark_overridden is_none append_row raise_max
  insert_row v br cap_blocked ids mets u e dropped =
      if newer_at v.base.rows u br
      then (v, dropped)
      else if cap_blocked && is_none br
      then (v, suc dropped)
      else (
        record v {
          delta = raise_max u (append_row v.delta ids mets u e);
          overridden = mark_overridden v.overridden br;
        },
        dropped,
      )

  pub upsert_tuple :
      Schema → View F → Bool → Bool → List ℕ → List F → ℤ → ℤ → ℕ → Option ℕ → View F × ℕ
  unfolding replace_at insert_row raise_max
  upsert_tuple sc v all_in_base cap_blocked ids mets u e dropped (some r) = (
    record v { delta = raise_max u (replace_at v.delta r ids mets u e (get_elem? v.delta.rows r)) },
    dropped,
  )
  upsert_tuple sc v all_in_base cap_blocked ids mets u e dropped none =
      insert_row v (if all_in_base then find_row sc v.base ids else none) cap_blocked ids mets u e
        dropped

  -- One round of the loop over the records.
  pub upsert : Schema → ℤ → Bool → View F → ℕ → ℕ → Record F → Result (View F × ℕ)
  unfolding resolve_all upsert_tuple
  upsert sc cutoff cap_blocked v dropped i rec =
      if not (length rec.dims == length sc.dims) || not (length rec.metrics == length sc.metrics)
      then err (arity_mismatch i)
      else if ltb_ℤ rec.updated_at cutoff
      then ok (v, dropped)
      else do
        t ← resolve_all sc.dims v.base.dicts v.extras i rec.dims
        ok (
            upsert_tuple sc (record v { extras = t.extras }) t.all_in_base cap_blocked t.ids
              rec.metrics rec.updated_at (expire_milli rec.expire_at) dropped
              (find (id_key t.ids) v.delta.index))

  pub upsert_each : Schema → ℤ → Bool → View F → ℕ → ℕ → List (Record F) → Result (View F × ℕ)
  unfolding upsert
  upsert_each sc cutoff cap_blocked v dropped i [] = ok (v, dropped)
  upsert_each sc cutoff cap_blocked v dropped i (rec ∷ recs) = do
    (v', dropped') ← upsert sc cutoff cap_blocked v dropped i rec
    upsert_each sc cutoff cap_blocked v' dropped' (suc i) recs

  -- `if nv.overridden == nil && rows > 0 { make }`
  pub with_bitmap : View F → View F
  with_bitmap v =
      if (length v.overridden == 0) && not (length v.base.rows == 0)
      then record v { overridden = make_bitmap (length v.base.rows) }
      else v

  unfoldable pub apply_delta : Schema → View F → List (Record F) → ℤ → Bool → Result (View F × ℕ)
  unfolding upsert_each with_bitmap
  apply_delta sc v recs cutoff cap_blocked =
      upsert_each sc cutoff cap_blocked (with_bitmap v) 0 0 recs
