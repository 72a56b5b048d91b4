-- ===== src/Snapshot/WellFormed.antt =====
-- The invariant of a published base snapshot (snapshot.go): its keys are the packed index ids of its
-- rows, in ascending order, under shifts computed from its dictionaries; a dictionary and an id stand
-- for each dimension.
use facetta.Prelude.{
  ℕ, zero, suc, ◌≤◌, ◌<◌, ◌≡◌, some, List, [], ◌∷◌, length, map, take, get_or, get_elem?, arith,
}
use facetta.Schema.{Schema}
use facetta.Result.{ok}
use facetta.Dict.{len}
use facetta.Keys.{compute_shifts, pack_key}
use facetta.Keys.Widths.{Below}
use facetta.Snapshot.{Row, Snapshot}

module _ {F : Type 0} where
  -- The key of a row.
  abbrev pub row_key : List ℕ → ℕ → Row F → ℕ
  row_key shifts k row = pack_key shifts (take k row.ids)

  pub record IsBase (sc : Schema) (s : Snapshot F) : Type 0 where
    pub shifted : compute_shifts (map len s.dicts) sc.index_dims ≡ ok s.shifts
    pub keyed : s.keys ≡ map (row_key s.shifts sc.index_dims) s.rows
    pub ascending : (i j : ℕ) → i ≤ j → j < length s.keys → get_or s.keys i 0 ≤ get_or s.keys j 0
    pub in_dicts :
        (r : ℕ) (row : Row F) → get_elem? s.rows r ≡ some row → Below (map len s.dicts) row.ids
    pub whole :
        (r : ℕ) (row : Row F) → get_elem? s.rows r ≡ some row → sc.index_dims ≤ length row.ids
    pub sized : length s.dicts ≡ length sc.dims
    pub full :
        (r : ℕ) (row : Row F) → get_elem? s.rows r ≡ some row → length row.ids ≡ length sc.dims

pub get_or-map {ℓ κ} :
    {A : Type ℓ} {B : Type κ} (f : A → B) (l : List A) (i : ℕ) (a : A) (d : B)
    → get_elem? l i ≡ some a
    → get_or (map f l) i d ≡ f a
get_or-map f [] i a d h = cc
get_or-map f (x ∷ l) zero a d h = cc
get_or-map f (x ∷ l) (suc i) a d h = get_or-map f l i a d h

pub lt-length-map {ℓ κ} :
    {A : Type ℓ} {B : Type κ} (f : A → B) (l : List A) (i : ℕ) (a : A)
    → get_elem? l i ≡ some a
    → i < length (map f l)
lt-length-map f [] i a h = cc
lt-length-map f (x ∷ l) zero a h = omega arith
lt-length-map f (x ∷ l) (suc i) a h = omega (arith, lt-length-map f l i a h)

module _ {F : Type 0} (sc : Schema) (s : Snapshot F) (inv : IsBase sc s) where
  pub key_at :
      (r : ℕ) (row : Row F)
      → get_elem? s.rows r ≡ some row
      → get_or s.keys r 0 ≡ row_key s.shifts sc.index_dims row
  key_at r row h = rw inv.keyed (get_or-map (row_key s.shifts sc.index_dims) s.rows r row 0 h)

  pub key_index : (r : ℕ) (row : Row F) → get_elem? s.rows r ≡ some row → r < length s.keys
  key_index r row h = rw inv.keyed (lt-length-map (row_key s.shifts sc.index_dims) s.rows r row h)
