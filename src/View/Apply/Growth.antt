-- ===== src/View/Apply/Growth.antt =====
-- view.go: how `applyDelta` changes a view: the extras only grow, and the delta keeps its tuples and
-- takes the tuple of the record.
use facetta.Prelude.{
  ℕ, zero, suc, ◌≤◌, ◌≡◌, refl, sym, ap, ◌∙◌, Bool, true, ◌&&◌, Option, none, some, List, [], ◌∷◌,
  ◌++◌, length-append, get_elem?, ◌==◌, arith, Bool-cases, inl, inr, if◌then◌else◌,
}
use mathlib.Core.Path.{subst}
use facetta.Prelude.Int.{ℤ, ltb_ℤ, leb_ℤ}
use facetta.Prelude.Maps.{Str, find, str_eq, int_eq}
use facetta.Schema.{Schema, Dim, dim_int}
use facetta.Result.{ok, >>=-eq-ok, ok_inj}
use facetta.Strconv.{parse_int}
use facetta.Dict.{Dict, u32, lookup, lookup_n, len, get_or_add, get_or_add_n, add_str, add_val}
use facetta.Dict.Intern.{get_elem?-append_inv}
use facetta.Snapshot.{Row}
use facetta.View.{Delta, View, dict_at, find_row}
use facetta.View.Apply.{
  extend_str, resolve_str, extend_val, resolve_val, resolve_parsed, resolve, resolve_all, Resolved,
  Tuple, is_none, newer_at, raise_max, replace_at, append_row, insert_row, upsert_tuple,
}
use facetta.View.Apply.Index.{replaced_entry}

len-add_str : (d : Dict) (s : Str) (o : Option ℕ) → len d ≤ len (add_str d s o).0
unfolding len add_str
len-add_str d s (some id) = omega arith
len-add_str d s none =
    let size = length-append d.strs (s ∷ []) in
    elim (Bool-cases d.numeric) [ inl e ↦ rw e (omega arith) | inr e ↦ rw e (omega arith) ]

len-add_val : (d : Dict) (n : ℤ) (o : Option ℕ) → len d ≤ len (add_val d n o).0
unfolding len add_val
len-add_val d n (some id) = omega arith
len-add_val d n none =
    let size = length-append d.vals (n ∷ []) in
    elim (Bool-cases d.numeric) [ inl e ↦ rw e (omega arith) | inr e ↦ rw e (omega arith) ]

resolve_str-grows : (d x : Dict) (s : Str) (o : Option ℕ) → len x ≤ len (resolve_str d x s o).extras
unfolding resolve_str extend_str get_or_add
resolve_str-grows d x s (some id) = omega arith
resolve_str-grows d x s none = extended (lookup x s)
  where
    extended : (o : Option ℕ) → len x ≤ len (extend_str (u32 (len d)) x s o).extras
    extended (some id) = omega arith
    extended none = len-add_str x s (find s x.ids)

resolve_val-grows : (d x : Dict) (n : ℤ) (o : Option ℕ) → len x ≤ len (resolve_val d x n o).extras
unfolding resolve_val extend_val get_or_add_n
resolve_val-grows d x n (some id) = omega arith
resolve_val-grows d x n none = extended (lookup_n x n)
  where
    extended : (o : Option ℕ) → len x ≤ len (extend_val (u32 (len d)) x n o).extras
    extended (some id) = omega arith
    extended none = len-add_val x n (find n x.ids_n)

resolve_parsed-grows :
    (d x : Dict) (o : Option ℤ) (i : ℕ) (s : Str) (r : Resolved)
    → resolve_parsed d x o i s ≡ ok r
    → len x ≤ len r.extras
unfolding resolve_parsed
resolve_parsed-grows d x none i s r h = cc
resolve_parsed-grows d x (some n) i s r h =
    subst (λ (q : Resolved). len x ≤ len q.extras) (ok_inj h)
      (resolve_val-grows d x n (lookup_n d n))

resolve-grows :
    (dim : Dim) (d x : Dict) (i : ℕ) (s : Str) (r : Resolved)
    → resolve dim d x i s ≡ ok r
    → len x ≤ len r.extras
unfolding resolve
resolve-grows dim d x i s r h = elim (Bool-cases (dim.dim_type == dim_int)) [
  | inl e ↦ resolve_parsed-grows d x (parse_int s) i s r (rw e at h)
  | inr e ↦
      subst (λ (q : Resolved). len x ≤ len q.extras) (ok_inj (rw e at h))
        (resolve_str-grows d x s (lookup d s))
]

kept_lem :
    (xs : List Dict) (t : Tuple) (k : ℕ)
    → ok (record { extras = xs; ids = []; all_in_base = true }) ≡ ok t
    → len (dict_at xs k) ≤ len (dict_at t.extras k)
kept_lem xs t k h =
    subst (λ (q : Tuple). len (dict_at xs k) ≤ len (dict_at q.extras k)) (ok_inj h) (omega arith)

pub resolve_all-grows :
    (dims : List Dim) (ds xs : List Dict) (i : ℕ) (ss : List Str) (t : Tuple) (k : ℕ)
    → resolve_all dims ds xs i ss ≡ ok t
    → len (dict_at xs k) ≤ len (dict_at t.extras k)
unfolding resolve_all
resolve_all-grows [] ds xs i ss t k h = kept_lem xs t k h
resolve_all-grows (dim ∷ dims) [] xs i ss t k h = kept_lem xs t k h
resolve_all-grows (dim ∷ dims) (d ∷ ds) [] i ss t k h = kept_lem [] t k h
resolve_all-grows (dim ∷ dims) (d ∷ ds) (x ∷ xs) i [] t k h = kept_lem (x ∷ xs) t k h
resolve_all-grows (dim ∷ dims) (d ∷ ds) (x ∷ xs) i (s ∷ ss) t k h =
    let (first, e, h₁) = >>=-eq-ok (resolve dim d x i s) _ h in
    let (rest, e₁, h₂) = >>=-eq-ok (resolve_all dims ds xs i ss) _ h₁ in
    subst (λ (q : Tuple). len (dict_at (x ∷ xs) k) ≤ len (dict_at q.extras k)) (ok_inj h₂)
      (each k first.extras rest.extras (resolve-grows dim d x i s first e)
        (λ k. resolve_all-grows dims ds xs i ss rest k e₁))
  where
    each :
        (k : ℕ) (x' : Dict) (xs' : List Dict)
        → len x ≤ len x'
        → ((k : ℕ) → len (dict_at xs k) ≤ len (dict_at xs' k))
        → len (dict_at (x ∷ xs) k) ≤ len (dict_at (x' ∷ xs') k)
    each zero x' xs' one more = one
    each (suc k) x' xs' one more = more k

module _ {F : Type 0} where
  -- What one tuple does to a view: the base and the extras stay, and each row of the delta has the
  -- tuple of an old row or the new tuple.
  pub record IsStep (v v' : View F) (ids : List ℕ) : Type 1 where
    pub same_base : v'.base ≡ v.base
    pub same_extras : v'.extras ≡ v.extras
    pub rows :
        (P : List ℕ → Type 0)
        → ((r : ℕ) (row : Row F) → get_elem? v.delta.rows r ≡ some row → P row.ids)
        → P ids
        → (r : ℕ) (row : Row F) → get_elem? v'.delta.rows r ≡ some row
        → P row.ids

  raise_max-rows : (u : ℤ) (d : Delta F) → (raise_max u d).rows ≡ d.rows
  unfolding raise_max
  raise_max-rows u d = elim (Bool-cases (ltb_ℤ d.max_updated u)) [
    | inl e ↦ rw e refl
    | inr e ↦ rw e refl
  ]

  replace_at-rows :
      (d : Delta F) (r : ℕ) (ids : List ℕ) (mets : List F) (u e : ℤ) (o : Option (Row F))
      (P : List ℕ → Type 0)
      → get_elem? d.rows r ≡ o
      → ((i : ℕ) (row : Row F) → get_elem? d.rows i ≡ some row → P row.ids)
      → (i : ℕ) (row : Row F) → get_elem? (replace_at d r ids mets u e o).rows i ≡ some row
      → P row.ids
  unfolding replace_at
  replace_at-rows d r ids mets u e none P h old i row g = old i row g
  replace_at-rows d r ids mets u e (some before) P h old i row g =
      elim (Bool-cases (leb_ℤ before.updated u)) [
        | inl newer ↦
            let new : Row F = record { ids = before.ids; mets = mets; updated = u; expire = e } in
            elim (replaced_entry d r before new i row h (rw newer at g)) [
              | inl (at_r, same) ↦ subst (λ (q : Row F). P q.ids) same (old r before h)
              | inr kept ↦ old i row kept
            ]
        | inr stale ↦ old i row (rw stale at g)
      ]

  insert_row-IsStep :
      (v : View F) (br : Option ℕ) (cap_blocked : Bool) (ids : List ℕ) (mets : List F) (u e : ℤ)
      (dropped : ℕ)
      → IsStep v (insert_row v br cap_blocked ids mets u e dropped).0 ids
  unfolding insert_row append_row
  insert_row-IsStep v br cap_blocked ids mets u e dropped =
      let same : IsStep v v ids = record {
        same_base = refl;
        same_extras = refl;
        rows = λ P old new. old;
      } in
      elim (Bool-cases (newer_at v.base.rows u br)) [
        | inl stale ↦ rw stale same
        | inr current ↦ elim (Bool-cases (cap_blocked && is_none br)) [
          | inl full ↦ rw (current, full) same
          | inr room ↦
              rw (current, room)
                (record {
                  same_base = refl;
                  same_extras = refl;
                  rows = λ P old new r row g.
                      let added : Row F = record {
                        ids = ids;
                        mets = mets;
                        updated = u;
                        expire = e;
                      } in
                      let g₁ : get_elem? (v.delta.rows ++ added ∷ []) r ≡ some row =
                        ap (λ l. get_elem? l r)
                          (sym (raise_max-rows u (append_row v.delta ids mets u e)))
                        ∙ g in
                      elim (get_elem?-append_inv v.delta.rows added r row g₁) [
                        | inl before ↦ old r row before
                        | inr (at_end, is_new) ↦ subst (λ (q : Row F). P q.ids) is_new new
                      ];
                })
        ]
      ]

  pub upsert_tuple-IsStep :
      (sc : Schema) (v : View F) (all_in_base cap_blocked : Bool) (ids : List ℕ) (mets : List F)
      (u e : ℤ) (dropped : ℕ) (found : Option ℕ)
      → IsStep v (upsert_tuple sc v all_in_base cap_blocked ids mets u e dropped found).0 ids
  unfolding upsert_tuple
  upsert_tuple-IsStep sc v all_in_base cap_blocked ids mets u e dropped none =
      insert_row-IsStep v (if all_in_base then find_row sc v.base ids else none) cap_blocked ids
        mets u e dropped
  upsert_tuple-IsStep sc v all_in_base cap_blocked ids mets u e dropped (some r) =
      let d = replace_at v.delta r ids mets u e (get_elem? v.delta.rows r) in
      record {
        same_base = refl;
        same_extras = refl;
        rows = λ P old new i row g.
            replace_at-rows v.delta r ids mets u e (get_elem? v.delta.rows r) P refl old i row
              (ap (λ l. get_elem? l i) (sym (raise_max-rows u d)) ∙ g);
      }
