-- ===== src/Query/Scan/Meaning.antt =====
-- What conditions say of a row, in terms of the values that its ids stand for. No resolved id, pool
-- or plan occurs here.
use facetta.Prelude.{
  ℕ, ◌+◌, ◌^◌, ◌<◌, ◌≡◌, Bool, true, false, ◌&&◌, ◌||◌, not, Option, none, some, List, [], ◌∷◌,
  length, get_elem?, ◌==◌, if◌then◌else◌,
}
use facetta.Prelude.Int.{ℤ, ltb_ℤ, eqb_ℤ}
use facetta.Prelude.Maps.{Str, eqb_str, find, str_eq, int_eq}
use facetta.Schema.{Schema, dim_index, is_int}
use facetta.Strconv.{parse_int}
use facetta.Dict.{Dict, len}
use facetta.Dict.Laws.{IsDict}
use facetta.Snapshot.{Row}
use facetta.Snapshot.WellFormed.{IsBase}
use facetta.View.{View, dict_at, dim_string}
use facetta.Query.{Cond, Range}
use facetta.Query.Match.{value_of, id_at}

module _ {F : Type 0} (sc : Schema) (v : View F) where
  unfoldable pub int_is : ℕ → List ℕ → Option ℤ → Bool
  int_is d ids none = false
  int_is d ids (some n) = eqb_ℤ (value_of v d (id_at ids d)) n

  -- The row has the value `s` in dimension `d`: as an integer in a dimension of integers.
  unfoldable pub value_is : ℕ → List ℕ → Str → Bool
  unfolding int_is
  value_is d ids s =
      if is_int sc d then int_is d ids (parse_int s) else eqb_str (dim_string v d (id_at ids d)) s

  unfoldable pub any_value : ℕ → List ℕ → List Str → Bool
  any_value d ids [] = false
  any_value d ids (s ∷ ss) = value_is d ids s || any_value d ids ss

  unfoldable pub in_range : ℕ → List ℕ → Range → Bool
  in_range d ids r =
      let val = value_of v d (id_at ids d) in not (ltb_ℤ val r.min || ltb_ℤ r.max val)

  unfoldable pub holds_at : Cond → List ℕ → Option Range → Option ℕ → Bool
  holds_at c ids r none = false
  holds_at c ids (some r) (some d) = in_range d ids r
  holds_at c ids none (some d) =
      if length c.in_values == 0 then value_is d ids c.value else any_value d ids c.in_values

  -- Every condition of a group holds; an empty group holds of every row.
  unfoldable pub group_holds : List Cond → List ℕ → Bool
  unfolding holds_at
  group_holds [] ids = true
  group_holds (c ∷ cs) ids = holds_at c ids c.range (dim_index sc c.dim) && group_holds cs ids

  unfoldable pub some_group_holds : List (List Cond) → List ℕ → Bool
  unfolding group_holds
  some_group_holds [] ids = false
  some_group_holds (g ∷ gs) ids = group_holds g ids || some_group_holds gs ids

-- The dictionaries of one dimension: both are dictionaries of its kind, and the extras hold no value
-- of the base.
pub record IsPair (numeric : Bool) (d x : Dict) : Type 0 where
  pub kind : d.numeric ≡ numeric
  pub kind_extra : x.numeric ≡ numeric
  pub dict : IsDict d
  pub extra : IsDict x
  pub apart : (s : Str) (i : ℕ) → find s x.ids ≡ some i → find s d.ids ≡ none
  pub apart_n : (n : ℤ) (i : ℕ) → find n x.ids_n ≡ some i → find n d.ids_n ≡ none
  pub few : len d + len x < 2 ^ 32

-- A row of a view: an id of the base or of the extras for each dimension.
pub record IsViewRow {F : Type 0} (sc : Schema) (v : View F) (ids : List ℕ) : Type 0 where
  pub known :
      (d : ℕ)
      → d < length sc.dims
      → id_at ids d < len (dict_at v.base.dicts d) + len (dict_at v.extras d)

-- A view whose ids can be decoded.
pub record IsDecoded {F : Type 0} (sc : Schema) (v : View F) : Type 0 where
  pub base : IsBase sc v.base
  pub pairs :
      (d : ℕ)
      → d < length sc.dims
      → IsPair (is_int sc d) (dict_at v.base.dicts d) (dict_at v.extras d)
  pub rows : (r : ℕ) (row : Row F) → get_elem? v.delta.rows r ≡ some row → IsViewRow sc v row.ids
