-- ===== src/GroupBy/Output/Keyed.antt =====
-- groupby.go: the dimensions of a grouped query differ, and each group of its result has a key of its
-- own.
use facetta.Prelude.{
  ℕ, zero, suc, ◌≤◌, ◌<◌, ◌≡◌, refl, sym, ap, ◌∙◌, false, ◌||◌, Option, none, some, List, [], ◌∷◌,
  ◌++◌, length, map, get_elem?, get_or, arith, Bool-cases, inl, inr, length-append, length-set,
  ◌==◌, ==_iff, ltb,
}
use mathlib.Core.Path.{subst}
use facetta.Prelude.Int.{ℤ}
use facetta.Prelude.Maps.{Str, find, str_eq}
use facetta.Schema.{Schema, dim_index}
use facetta.Result.{ok, >>=-eq-ok, ok_inj}
use facetta.Float.{Float64}
use facetta.Snapshot.{Row}
use facetta.Dict.Intern.{get_elem?-append_left, get_elem?-append_end}
use facetta.View.{View, dim_string}
use facetta.Query.{QueryScratch}
use facetta.Query.Match.{id_at}
use facetta.Query.Sweep.{query_clock}
use facetta.Query.Sweep.Relate.{fold_matched_related}
use facetta.Agg.{Column}
use facetta.GroupBy.{
  Grouping, group_key, among, or_unknown, by_each, by_dims, open_group, join_group, visit_found,
  visit, no_groups, grouping,
}

-- The dimensions `ds` have the names `by`, and no two of them, nor one of `seen`, are the same.
record AreNamed (sc : Schema) (seen : List ℕ) (by : List Str) (ds : List ℕ) : Type 0 where
  named : map (dim_index sc) by ≡ map some ds
  unseen : (i d : ℕ) → get_elem? ds i ≡ some d → among d seen ≡ false
  distinct : (i j d : ℕ) → get_elem? ds i ≡ some d → get_elem? ds j ≡ some d → i ≡ j

or_unknown-ok : (name : Str) (o : Option ℕ) (d : ℕ) → or_unknown name o ≡ ok d → o ≡ some d
unfolding or_unknown
or_unknown-ok name none d h = cc
or_unknown-ok name (some x) d h = ap some (ok_inj h)

AreNamed-cons :
    (sc : Schema) (seen : List ℕ) (name : Str) (by : List Str) (d : ℕ) (ds : List ℕ)
    → dim_index sc name ≡ some d
    → among d seen ≡ false
    → AreNamed sc (d ∷ seen) by ds
    → AreNamed sc seen (name ∷ by) (d ∷ ds)
unfolding among
AreNamed-cons sc seen name by d ds found fresh h = record {
  named = rw (found, h.named) refl;
  unseen = λ i x at. others_unseen i x at;
  distinct = λ i j x at at'. apart i j x at at';
}
  where
    later : (i x : ℕ) → get_elem? ds i ≡ some x → ((d == x) || among x seen) ≡ false
    later i x at = h.unseen i x at

    others_unseen : (i x : ℕ) → get_elem? (d ∷ ds) i ≡ some x → among x seen ≡ false
    others_unseen zero x at = let same : d ≡ x = cc at in ap (λ y. among y seen) (sym same) ∙ fresh
    others_unseen (suc i) x at = let l = later i x at in ground arith

    apart : (i j x : ℕ) → get_elem? (d ∷ ds) i ≡ some x → get_elem? (d ∷ ds) j ≡ some x → i ≡ j
    apart zero zero x at at' = refl
    apart zero (suc j) x at at' =
        let same : d ≡ x = cc at in let l = later j x at' in absurd (ground arith)
    apart (suc i) zero x at at' =
        let same : d ≡ x = cc at' in let l = later i x at in absurd (ground arith)
    apart (suc i) (suc j) x at at' = ap suc (h.distinct i j x at at')

by_each-AreNamed :
    (sc : Schema) (seen : List ℕ) (by : List Str) (ds : List ℕ)
    → by_each sc seen by ≡ ok ds
    → AreNamed sc seen by ds
unfolding by_each
by_each-AreNamed sc seen [] ds h =
    subst (AreNamed sc seen []) (ok_inj h)
      (record { named = refl; unseen = λ i d at. cc; distinct = λ i j d at at'. cc })
by_each-AreNamed sc seen (name ∷ by) ds h =
    let (d, e, h₁) = >>=-eq-ok (or_unknown name (dim_index sc name)) _ h in
    elim (Bool-cases (among d seen)) [
      | inl twice ↦ cc (rw twice at h₁)
      | inr fresh ↦
          let (rest, e', h₂) = >>=-eq-ok (by_each sc (d ∷ seen) by) _ (rw fresh at h₁) in
          subst (AreNamed sc seen (name ∷ by)) (ok_inj h₂) (
            AreNamed-cons sc seen name by d rest (or_unknown-ok name (dim_index sc name) d e) fresh
              (by_each-AreNamed sc (d ∷ seen) by rest e'))
    ]

-- The grouped dimensions are one or more, have the names `by`, and differ.
pub record AreGrouped (sc : Schema) (by : List Str) (ds : List ℕ) : Type 0 where
  pub some_dims : (0 < length by) × (length by ≤ length sc.dims)
  pub named : map (dim_index sc) by ≡ map some ds
  pub distinct : (i j d : ℕ) → get_elem? ds i ≡ some d → get_elem? ds j ≡ some d → i ≡ j

pub by_dims-AreGrouped :
    (sc : Schema) (by : List Str) (ds : List ℕ) → by_dims sc by ≡ ok ds → AreGrouped sc by ds
unfolding by_dims
by_dims-AreGrouped sc by ds h =
    elim (Bool-cases ((length by == 0) || ltb (length sc.dims) (length by))) [
      | inl wrong ↦ cc (rw wrong at h)
      | inr right ↦
          let n = by_each-AreNamed sc [] by ds (rw right at h) in
          record {
            some_dims = (ground arith, ground arith);
            named = n.named;
            distinct = n.distinct;
          }
    ]

module _ {F : Type 0} ⦃fl : Float64 F⦄ (v : View F) (by : List ℕ) (cs : List Column) where
  -- Each group `g` has the ids and the key strings of some row, and the index leads from these ids to
  -- this group only.
  pub record IsKeyed (st : Grouping F) : Type 0 where
    pub as_many_keys : length st.skeys ≡ length st.cnt
    pub own_key :
        (g : ℕ)
        → g < length st.cnt
        → (row : Row F) × (find (group_key by row.ids) st.idx ≡ some g)
          × (get_elem? st.skeys g ≡ some (map (λ d. dim_string v d (id_at row.ids d)) by))

  visit_found-IsKeyed :
      (row : Row F) (found : Option ℕ) (st : Grouping F)
      → find (group_key by row.ids) st.idx ≡ found
      → IsKeyed st
      → IsKeyed (visit_found v by cs row (group_key by row.ids) found st)
  unfolding visit_found open_group join_group
  visit_found-IsKeyed row (some g) st e h = record {
    as_many_keys = h.as_many_keys ∙ sym (length-set st.cnt g (suc (get_or st.cnt g 0)));
    own_key = λ i lt. h.own_key i (omega (arith, length-set st.cnt g (suc (get_or st.cnt g 0))));
  }
  visit_found-IsKeyed row none st e h =
      let kb = group_key by row.ids in
      let printed = map (λ d. dim_string v d (id_at row.ids d)) by in
      let size = length-append st.cnt (1 ∷ []) in
      record {
        as_many_keys = omega (arith, h.as_many_keys, length-append st.skeys (printed ∷ []), size);
        own_key = λ g lt. elim (Bool-cases (g == length st.cnt)) [
          | inl last ↦
              let at_end : g ≡ length st.cnt = (==_iff g (length st.cnt)).0 last in
              (
                row,
                rw ((str_eq.eqb_iff kb kb).1 refl) (ap some (sym at_end)),
                ap (λ i. get_elem? (st.skeys ++ printed ∷ []) i) (at_end ∙ sym h.as_many_keys)
                    ∙ get_elem?-append_end st.skeys printed,
              )
          | inr earlier ↦
              let (old, found, at) = h.own_key g (ground arith) in
              (
                old,
                elim (Bool-cases (str_eq.eqb kb (group_key by old.ids))) [
                  | inl same ↦ cc (
                    e,
                    found,
                    ap (λ k. find k st.idx) ((str_eq.eqb_iff kb (group_key by old.ids)).0 same),
                  )
                  | inr differ ↦ rw differ found
                ],
                get_elem?-append_left st.skeys (printed ∷ []) g _ at,
              )
        ];
      }

  pub grouping-IsKeyed : (now : ℤ) (qs : QueryScratch) → IsKeyed (grouping v now by cs qs)
  unfolding grouping no_groups visit
  grouping-IsKeyed now qs =
      fold_matched_related v (query_clock v now) qs (λ st other. IsKeyed st) (visit v by cs)
        (λ (row : Row F) (u : Unit {0}). u)
        (λ row st other h. visit_found-IsKeyed row (find (group_key by row.ids) st.idx) st refl h)
        no_groups tt (record { as_many_keys = refl; own_key = λ g lt. absurd (omega arith) })
