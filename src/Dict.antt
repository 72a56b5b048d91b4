-- ===== src/Dict.antt =====
-- dict.go: dictionaries that intern the values of one dimension to dense uint32 ids.
pub mod Intern
pub mod Laws
use facetta.Prelude.{
  ℕ, ◌+◌, ◌%◌, ◌^◌, Bool, true, false, Option, none, some, List, [], ◌∷◌, ◌++◌, length, get_or,
  if◌then◌else◌,
}
use facetta.Prelude.Int.{ℤ, pos}
use facetta.Prelude.Maps.{Str, find, put, str_eq, int_eq}
use facetta.Strconv.{format_int}

-- conversion to uint32
abbrev pub u32 : ℕ → ℕ
u32 n = n % 2 ^ 32

pub record Dict : Type 0 where
  pub numeric : Bool
  pub ids : List (Str × ℕ)
  pub strs : List Str
  pub ids_n : List (ℤ × ℕ)
  pub vals : List ℤ

unfoldable pub new_dict : Bool → Dict
new_dict numeric = record { numeric = numeric; ids = []; strs = []; ids_n = []; vals = [] }

unfoldable pub add_str : Dict → Str → Option ℕ → Dict × ℕ
add_str d s (some id) = (d, id)
add_str d s none =
    let id = u32 (length d.strs) in (record d { ids = put s id d.ids; strs = d.strs ++ s ∷ [] }, id)

unfoldable pub get_or_add : Dict → Str → Dict × ℕ
unfolding add_str
get_or_add d s = add_str d s (find s d.ids)

unfoldable pub add_val : Dict → ℤ → Option ℕ → Dict × ℕ
add_val d v (some id) = (d, id)
add_val d v none =
    let id = u32 (length d.vals) in
    (record d { ids_n = put v id d.ids_n; vals = d.vals ++ v ∷ [] }, id)

unfoldable pub get_or_add_n : Dict → ℤ → Dict × ℕ
unfolding add_val
get_or_add_n d v = add_val d v (find v d.ids_n)

-- `src.vals[id]` and `src.strs[id]` are in range at every call
pub add_from : Dict → Dict → ℕ → Dict × ℕ
add_from d src id =
    if d.numeric
    then get_or_add_n d (get_or src.vals id (pos 0))
    else get_or_add d (get_or src.strs id [])

unfoldable pub lookup : Dict → Str → Option ℕ
lookup d s = find s d.ids

unfoldable pub lookup_n : Dict → ℤ → Option ℕ
lookup_n d v = find v d.ids_n

unfoldable pub str : Dict → ℕ → Str
str d id = if d.numeric then format_int (get_or d.vals id (pos 0)) else get_or d.strs id []

unfoldable pub len : Dict → ℕ
len d = if d.numeric then length d.vals else length d.strs

-- a copy: values have no identity here, so it is the same dictionary
pub clone : Dict → Dict
clone d = record { numeric = d.numeric; ids = d.ids; strs = d.strs; ids_n = d.ids_n; vals = d.vals }
