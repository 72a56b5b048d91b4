-- ===== src/Snapshot/Build/Interned.antt =====
-- snapshot.go: the ids that the first loop of `buildFromRecords` hands out stay below the sizes of
-- the dictionaries that it leaves.
use mathlib.Core.Path.{subst}
use facetta.Prelude.{
  ℕ, suc, ◌≤◌, ◌<◌, ◌≡◌, refl, sym, ap, Bool, true, false, ◌||◌, not, Option, none, some, List, [],
  ◌∷◌, ◌++◌, length, map, ◌^◌, ◌==◌, arith, Bool-cases, inl, inr, length-append, if◌then◌else◌,
}
use facetta.Prelude.Int.{ℤ, ltb_ℤ}
use facetta.Prelude.Maps.{Str, Eq, find, put, str_eq, int_eq}
use facetta.Prelude.All.{All}
use facetta.Schema.{Schema, Dim, dim_int, Record}
use facetta.Result.{ok, >>=-eq-ok, ok_inj}
use facetta.Strconv.{parse_int}
use facetta.Dict.{Dict, u32, new_dict, get_or_add, get_or_add_n, len}
use facetta.Dict.Intern.{IsInterned-add}
use facetta.Dict.Laws.{IsDict, IsDict-new_dict, get_or_add-cases, get_or_add_n-cases}
use facetta.Keys.Widths.{Below}
use facetta.Snapshot.{Row, new_dicts}
use facetta.Snapshot.Build.{intern, intern_parsed, intern_all, intern_records, wrong_arity}

-- Each id of the map is an index of the slice.
pub Indexes {ℓ} : {K : Type ℓ} ⦃e : Eq K⦄ → List (K × ℕ) → ℕ → Type ℓ
Indexes {K = K} ids n = (k : K) (i : ℕ) → find k ids ≡ some i → i < n

-- A dictionary of the kind of its dimension, in order as long as its ids fit.
pub record IsGrown (numeric : Bool) (d : Dict) : Type 0 where
  pub kind : d.numeric ≡ numeric
  strs : Indexes d.ids (length d.strs)
  vals : Indexes d.ids_n (length d.vals)
  pub dict : len d < 2 ^ 32 → IsDict d

-- What adding a value does.
pub record IsAdded (numeric : Bool) (d d' : Dict) (id : ℕ) : Type 0 where
  pub grown : IsGrown numeric d'
  more : len d ≤ len d'
  below : id < len d'

Indexes-put {ℓ} :
    {K : Type ℓ} ⦃e : Eq K⦄ (ids : List (K × ℕ)) (n m : ℕ) (k : K)
    → Indexes ids n
    → n < m
    → Indexes (put k (u32 n) ids) m
unfolding Indexes
Indexes-put ⦃e⦄ ids n m k h lt j i found = elim (Bool-cases (e.eqb k j)) [
  | inl same ↦
      let id : some (u32 n) ≡ some i = rw same at found in
      let value : u32 n ≡ i = cc id in omega arith
  | inr differ ↦ let old : find j ids ≡ some i = rw differ at found in omega (arith, h j i old)
]

Indexes-lt {ℓ} :
    {K : Type ℓ} ⦃e : Eq K⦄ (ids : List (K × ℕ)) (n : ℕ) (k : K) (i : ℕ)
    → Indexes ids n
    → find k ids ≡ some i
    → i < n
unfolding Indexes
Indexes-lt ids n k i h found = h k i found

pub get_or_add-IsAdded :
    (d : Dict) (s : Str) → IsGrown false d → IsAdded false d (get_or_add d s).0 (get_or_add d s).1
unfolding len
get_or_add-IsAdded d s h = elim (get_or_add-cases d s) [
  | inl (i, found, same) ↦
      subst (λ (r : Dict × ℕ). IsAdded false d r.0 r.1) (sym same)
        (record { grown = h; more = omega arith; below = rw (h.kind) (old_index d s i h found) })
  | inr (new, added) ↦
      let size = length-append d.strs (s ∷ []) in
      let more : length d.strs < length (d.strs ++ s ∷ []) = omega arith in
      subst (λ (r : Dict × ℕ). IsAdded false d r.0 r.1) (sym added)
        (record {
          grown = record {
            kind = h.kind;
            strs = Indexes-put d.ids (length d.strs) (length (d.strs ++ s ∷ [])) s h.strs more;
            vals = h.vals;
            dict = λ few.
                let small : length (d.strs ++ s ∷ []) < 2 ^ 32 = rw (h.kind) at few in
                let fits : length d.strs < 2 ^ 32 = omega arith in
                let old = h.dict (rw (h.kind) fits) in
                record {
                  strings = IsInterned-add d.ids d.strs s old.strings new fits;
                  numbers = old.numbers;
                };
          };
          more = rw (h.kind) (omega arith);
          below = rw (h.kind) (omega arith);
        })
]
  where
    old_index :
        (d : Dict) (s : Str) (i : ℕ) → IsGrown false d → find s d.ids ≡ some i → i < length d.strs
    old_index d s i h found = Indexes-lt d.ids (length d.strs) s i h.strs found

pub get_or_add_n-IsAdded :
    (d : Dict) (v : ℤ) → IsGrown true d → IsAdded true d (get_or_add_n d v).0 (get_or_add_n d v).1
unfolding len
get_or_add_n-IsAdded d v h = elim (get_or_add_n-cases d v) [
  | inl (i, found, same) ↦
      subst (λ (r : Dict × ℕ). IsAdded true d r.0 r.1) (sym same)
        (record {
          grown = h;
          more = omega arith;
          below = rw (h.kind) (Indexes-lt d.ids_n (length d.vals) v i h.vals found);
        })
  | inr (new, added) ↦
      let size = length-append d.vals (v ∷ []) in
      let more : length d.vals < length (d.vals ++ v ∷ []) = omega arith in
      subst (λ (r : Dict × ℕ). IsAdded true d r.0 r.1) (sym added)
        (record {
          grown = record {
            kind = h.kind;
            strs = h.strs;
            vals = Indexes-put d.ids_n (length d.vals) (length (d.vals ++ v ∷ [])) v h.vals more;
            dict = λ few.
                let small : length (d.vals ++ v ∷ []) < 2 ^ 32 = rw (h.kind) at few in
                let fits : length d.vals < 2 ^ 32 = omega arith in
                let old = h.dict (rw (h.kind) fits) in
                record {
                  strings = old.strings;
                  numbers = IsInterned-add d.ids_n d.vals v old.numbers new fits;
                };
          };
          more = rw (h.kind) (omega arith);
          below = rw (h.kind) (omega arith);
        })
]

parsed :
    (d d' : Dict) (i : ℕ) (s : Str) (id : ℕ) (v : Option ℤ)
    → IsGrown true d
    → intern_parsed d v i s ≡ ok (d', id)
    → IsAdded true d d' id
unfolding intern_parsed
parsed d d' i s id none h e = cc
parsed d d' i s id (some v) h e =
    subst (λ (r : Dict × ℕ). IsAdded true d r.0 r.1) (ok_inj e) (get_or_add_n-IsAdded d v h)

intern-IsAdded :
    (dim : Dim) (d d' : Dict) (i : ℕ) (s : Str) (id : ℕ)
    → IsGrown (dim.dim_type == dim_int) d
    → intern dim d i s ≡ ok (d', id)
    → IsAdded (dim.dim_type == dim_int) d d' id
unfolding intern
intern-IsAdded dim d d' i s id h e = by_kind (dim.dim_type == dim_int) d d' i s id h e
  where
    by_kind :
        (numeric : Bool) (d d' : Dict) (i : ℕ) (s : Str) (id : ℕ)
        → IsGrown numeric d
        → (if numeric then intern_parsed d (parse_int s) i s else ok (get_or_add d s)) ≡ ok (d', id)
        → IsAdded numeric d d' id
    by_kind false d d' i s id h e =
        subst (λ (r : Dict × ℕ). IsAdded false d r.0 r.1) (ok_inj e) (get_or_add-IsAdded d s h)
    by_kind true d d' i s id h e = parsed d d' i s id (parse_int s) h e

abbrev pub AreGrown : List Dim → List Dict → Type 0
AreGrown [] [] = Unit
AreGrown (dim ∷ dims) (d ∷ ds) = IsGrown (dim.dim_type == dim_int) d × AreGrown dims ds
AreGrown dims ds = ⊥

pub length-AreGrown :
    (dims : List Dim) (ds : List Dict) → AreGrown dims ds → length ds ≡ length dims
length-AreGrown [] [] h = refl
length-AreGrown [] (d ∷ ds) h = absurd h
length-AreGrown (dim ∷ dims) [] h = absurd h
length-AreGrown (dim ∷ dims) (d ∷ ds) h = ap suc (length-AreGrown dims ds h.1)

pub new_dict-IsGrown : (numeric : Bool) → IsGrown numeric (new_dict numeric)
unfolding new_dict Indexes
new_dict-IsGrown numeric = record {
  kind = refl;
  strs = λ k i h. cc;
  vals = λ k i h. cc;
  dict = λ few. IsDict-new_dict numeric;
}

pub new_dicts-AreGrown : (dims : List Dim) → AreGrown dims (new_dicts dims)
unfolding new_dicts
new_dicts-AreGrown [] = tt
new_dicts-AreGrown (dim ∷ dims) =
    (new_dict-IsGrown (dim.dim_type == dim_int), new_dicts-AreGrown dims)

-- The sizes only grow.
abbrev pub Grows : List Dict → List Dict → Type 0
Grows [] [] = Unit
Grows (d ∷ ds) (d' ∷ ds') = (len d ≤ len d') × Grows ds ds'
Grows ds ds' = ⊥

Grows-refl : (ds : List Dict) → Grows ds ds
Grows-refl [] = tt
Grows-refl (d ∷ ds) = (omega arith, Grows-refl ds)

Grows-trans : (a b c : List Dict) → Grows a b → Grows b c → Grows a c
Grows-trans [] [] [] h h' = tt
Grows-trans [] [] (z ∷ c) h h' = absurd h'
Grows-trans [] (y ∷ b) c h h' = absurd h
Grows-trans (x ∷ a) [] c h h' = absurd h
Grows-trans (x ∷ a) (y ∷ b) [] h h' = absurd h'
Grows-trans (x ∷ a) (y ∷ b) (z ∷ c) h h' = (omega (arith, h.0, h'.0), Grows-trans a b c h.1 h'.1)

Below-Grows :
    (ds ds' : List Dict) (ids : List ℕ)
    → Grows ds ds'
    → Below (map len ds) ids
    → Below (map len ds') ids
Below-Grows ds ds' [] h b = tt
Below-Grows [] ds' (i ∷ ids) h b = absurd b
Below-Grows (d ∷ ds) [] (i ∷ ids) h b = absurd h
Below-Grows (d ∷ ds) (d' ∷ ds') (i ∷ ids) h b =
    (omega (arith, h.0, b.0), Below-Grows ds ds' ids h.1 b.1)

-- One record's ids.
record IsRecorded (dims : List Dim) (ds ds' : List Dict) (ids : List ℕ) : Type 0 where
  grown : AreGrown dims ds'
  more : Grows ds ds'
  below : Below (map len ds') ids
  whole : length ids ≡ length dims

intern_all-IsRecorded :
    (dims : List Dim) (ds ds' : List Dict) (i : ℕ) (ss : List Str) (ids : List ℕ)
    → length ss ≡ length dims
    → AreGrown dims ds
    → intern_all dims ds i ss ≡ ok (ds', ids)
    → IsRecorded dims ds ds' ids
unfolding intern_all
intern_all-IsRecorded [] [] ds' i [] ids size h e =
    subst (λ (r : List Dict × List ℕ). IsRecorded [] [] r.0 r.1) (ok_inj e)
      (record { grown = tt; more = tt; below = tt; whole = refl })
intern_all-IsRecorded [] (d ∷ ds) ds' i ss ids size h e = absurd h
intern_all-IsRecorded [] [] ds' i (s ∷ ss) ids size h e = absurd (omega arith)
intern_all-IsRecorded (dim ∷ dims) [] ds' i ss ids size h e = absurd h
intern_all-IsRecorded (dim ∷ dims) (d ∷ ds) ds' i [] ids size h e = absurd (omega arith)
intern_all-IsRecorded (dim ∷ dims) (d ∷ ds) ds' i (s ∷ ss) ids size h e =
    let ((d₁, id), first, e') = >>=-eq-ok (intern dim d i s) _ e in
    let ((ds₁, ids₁), others, e'') = >>=-eq-ok (intern_all dims ds i ss) _ e' in
    let added = intern-IsAdded dim d d₁ i s id h.0 first in
    let rec = intern_all-IsRecorded dims ds ds₁ i ss ids₁ (omega arith) h.1 others in
    subst (λ (r : List Dict × List ℕ). IsRecorded (dim ∷ dims) (d ∷ ds) r.0 r.1) (ok_inj e'')
      (record {
        grown = (added.grown, rec.grown);
        more = (added.more, rec.more);
        below = (added.below, rec.below);
        whole = ap suc rec.whole;
      })

-- A row with an id per dimension, below the sizes of the dictionaries.
abbrev pub IsRow : {F : Type 0} → List Dim → List Dict → Row F → Type 0
IsRow dims ds row = Below (map len ds) row.ids × (length row.ids ≡ length dims)

module _ {F : Type 0} (sc : Schema) (cutoff : ℤ) where
  -- The records that were interned from `ds` on.
  pub record AreRecorded (ds ds' : List Dict) (rows : List (Row F)) : Type 0 where
    pub grown : AreGrown sc.dims ds'
    pub more : Grows ds ds'
    pub each : All (IsRow sc.dims ds') rows

  pub intern_records-AreRecorded :
      (i : ℕ) (ds ds' : List Dict) (recs : List (Record F)) (rows : List (Row F))
      → AreGrown sc.dims ds
      → intern_records sc cutoff i ds recs ≡ ok (ds', rows)
      → AreRecorded ds ds' rows
  unfolding intern_records wrong_arity
  intern_records-AreRecorded i ds ds' [] rows h e =
      subst (λ (r : List Dict × List (Row F)). AreRecorded ds r.0 r.1) (ok_inj e)
        (record { grown = h; more = Grows-refl ds; each = tt })
  intern_records-AreRecorded i ds ds' (r ∷ recs) rows h e =
      elim (Bool-cases
        (not (length r.dims == length sc.dims) || not (length r.metrics == length sc.metrics))) [
          | inl wrong ↦ cc (rw wrong at e)
          | inr whole ↦ elim (Bool-cases (ltb_ℤ r.updated_at cutoff)) [
            | inl old ↦ intern_records-AreRecorded (suc i) ds ds' recs rows h (rw (whole, old) at e)
            | inr current ↦
                let ((ds₁, ids), first, e') =
                  >>=-eq-ok (intern_all sc.dims ds i r.dims) _ (rw (whole, current) at e) in
                let ((ds₂, rows₂), others, e'') =
                  >>=-eq-ok (intern_records sc cutoff (suc i) ds₁ recs) _ e' in
                let one =
                  intern_all-IsRecorded sc.dims ds ds₁ i r.dims ids (ground arith) h first in
                let rec = intern_records-AreRecorded (suc i) ds₁ ds₂ recs rows₂ one.grown others in
                subst (λ (x : List Dict × List (Row F)). AreRecorded ds x.0 x.1) (ok_inj e'')
                  (record {
                    grown = rec.grown;
                    more = Grows-trans ds ds₁ ds₂ one.more rec.more;
                    each = ((Below-Grows ds₁ ds₂ ids rec.more one.below, one.whole), rec.each);
                  })
          ]
        ]
