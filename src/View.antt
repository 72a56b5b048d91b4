-- ===== src/View.antt =====
-- view.go: the delta overlay, the view that readers load, and the resolution of values to ids.
pub mod Apply
pub mod Merge
pub mod Find
pub mod Combined
use facetta.Prelude.{
  ℕ, zero, suc, ◌+◌, ◌-◌, ◌*◌, ◌/◌, ◌%◌, ◌^◌, Bool, true, false, ◌&&◌, not, Option, none, some,
  List, [], ◌∷◌, ◌++◌, length, get_or, get_elem?, take, drop, leb, ◌==◌, if◌then◌else◌,
}
use facetta.Prelude.Int.{ℤ, pos, ltb_ℤ}
use facetta.Prelude.Maps.{Str, find, put, str_eq}
use facetta.Prelude.Search.{search}
use facetta.Schema.{Schema}
use facetta.Strconv.{parse_int}
use facetta.Dict.{Dict, u32, new_dict, lookup, lookup_n, len, str}
use facetta.Keys.{pack_key}
use facetta.Snapshot.{Row, Snapshot, new_dicts}

pub record Delta (F : Type 0) : Type 0 where
  pub rows : List (Row F)
  pub index : List (Str × ℕ)
  pub max_updated : ℤ
  pub has_expiry : Bool

pub record View (F : Type 0) : Type 0 where
  pub base : Snapshot F
  pub delta : Delta F
  pub extras : List Dict
  pub overridden : List ℕ

abbrev pub no_dict : Dict
no_dict = record { numeric = false; ids = []; strs = []; ids_n = []; vals = [] }

unfoldable pub in_extras : ℕ → Option ℕ → Option ℕ
in_extras base_len none = none
in_extras base_len (some id) = some (u32 (u32 base_len + id))

unfoldable pub or_extras : Option ℕ → Option ℕ → Option ℕ
or_extras (some id) other = some id
or_extras none other = other

-- `dicts[dim]`, in range at every call
abbrev pub dict_at : List Dict → ℕ → Dict
dict_at ds dim = get_or ds dim no_dict

module _ {F : Type 0} where
  unfoldable pub empty_delta : Delta F
  empty_delta = record { rows = []; index = []; max_updated = pos 0; has_expiry = false }

  unfoldable pub new_view : Schema → Snapshot F → View F
  unfolding empty_delta
  new_view sc base = record {
    base = base;
    delta = empty_delta;
    extras = new_dicts sc.dims;
    overridden = [];
  }

  unfoldable pub lookup_id : View F → ℕ → Str → Option ℕ
  unfolding or_extras in_extras
  lookup_id v dim s =
      let d = dict_at v.base.dicts dim in
      or_extras (lookup d s) (in_extras (len d) (lookup (dict_at v.extras dim) s))

  unfoldable pub lookup_parsed : View F → ℕ → Option ℤ → Option (Option ℕ)
  unfolding or_extras in_extras
  lookup_parsed v dim none = none
  lookup_parsed v dim (some n) =
      let d = dict_at v.base.dicts dim in
      some (or_extras (lookup_n d n) (in_extras (len d) (lookup_n (dict_at v.extras dim) n)))

  -- `none` is `valid == false`, and `some none` is `found == false`.
  unfoldable pub lookup_num_id : View F → ℕ → Str → Option (Option ℕ)
  unfolding lookup_parsed
  lookup_num_id v dim s = lookup_parsed v dim (parse_int s)

  unfoldable pub dim_string : View F → ℕ → ℕ → Str
  dim_string v dim id =
      let d = dict_at v.base.dicts dim in
      let n = u32 (len d) in if leb n id then str (dict_at v.extras dim) (id - n) else str d id

  unfoldable pub max_updated : View F → ℤ
  max_updated v =
      if ltb_ℤ v.base.max_updated v.delta.max_updated
      then v.delta.max_updated
      else v.base.max_updated

-- `binary.LittleEndian.AppendUint32` for each id
unfoldable pub id_key : List ℕ → Str
id_key [] = []
id_key (id ∷ ids) =
    (id % 256) ∷ (id / 256 % 256) ∷ (id / 65536 % 256) ∷ (id / 16777216 % 256) ∷ id_key ids

-- `for d := range ids { dims[d][r] != ids[d] }`
unfoldable pub tuple_matches : List ℕ → List ℕ → Bool
tuple_matches row [] = true
tuple_matches [] (id ∷ ids) = false
tuple_matches (a ∷ row) (id ∷ ids) = (a == id) && tuple_matches row ids

module _ {F : Type 0} where
  -- The scan over the rows that share the key, from row `r` on.
  pub scan_key : ℕ → List ℕ → ℕ → List (ℕ × Row F) → Option ℕ
  scan_key key ids r [] = none
  scan_key key ids r ((k, row) ∷ es) =
      let rest = scan_key key ids (suc r) es in
      if k == key then (if tuple_matches row.ids ids then some r else rest) else none

  pub keyed_rows : List ℕ → List (Row F) → List (ℕ × Row F)
  keyed_rows (k ∷ ks) (r ∷ rs) = (k, r) ∷ keyed_rows ks rs
  keyed_rows ks rs = []

  -- `none` stands for -1
  unfoldable pub find_row : Schema → Snapshot F → List ℕ → Option ℕ
  unfolding scan_key keyed_rows tuple_matches
  find_row sc s ids =
      let key = pack_key s.shifts (take sc.index_dims ids) in
      let lo = search (length s.keys) (λ i. leb key (get_or s.keys i 0)) in
      scan_key key ids lo (drop lo (keyed_rows s.keys s.rows))
