-- ===== src/GroupBy/Visit/Steps.antt =====
-- groupby.go: one visit changes a group as it changes that group alone.
use facetta.Prelude.{
  ℕ, suc, ◌^◌, ◌≤◌, ◌<◌, ◌≡◌, ◌≢◌, refl, sym, ap, ◌∙◌, false, ◌||◌, ◌==◌, Option, none, some, List,
  [], ◌∷◌, map, length, get_or, get_elem?, arith, Bool-cases, inl, inr, get_or-append_left,
  get_or-append_end, get_or-set_self, get_or-set_ne, get_elem?-map,
}
use facetta.Prelude.Maps.{Str, find, str_eq, eqb_str}
use facetta.Float.{Float64}
use facetta.Snapshot.{Row}
use facetta.View.{View}
use facetta.Agg.{Column}
use facetta.Query.Match.{id_at}
use facetta.GroupBy.{
  Grouping, among, make_dkey, in_dset, first_agg, more_value, more_aggs, open_group, join_group,
  DKey,
}
use facetta.GroupBy.Visit.Seen.{
  own_id, in_dset-first_ids, in_dset-more_aggs, marks_other_group, marks_own,
}
use facetta.GroupBy.Visit.Values.{get_elem?-more_aggs}
use facetta.GroupBy.Visit.Alone.{
  Alone, own_ids, more_alone, alone_step, IsGrouping, SameColumn, Same,
}

among-own_ids : (id : ℕ) (o : Option ℕ) (ids : List ℕ) → own_id o ids id ≡ among id (own_ids o ids)
unfolding own_id own_ids among
among-own_ids id none ids = refl
among-own_ids id (some d) ids = ground arith

module _ {F : Type 0} ⦃fl : Float64 F⦄ where
  more_alone-acc :
      (j g : ℕ) (row : Row F) (op : ℕ) (dset : List DKey) (a : Alone F) (o met : Option ℕ)
      → ((id : ℕ) → in_dset (make_dkey j g id) dset ≡ among id a.ids)
      → (more_value j g row op dset a.acc o met).1 ≡ (more_alone op row a o met).acc
  unfolding more_value more_alone
  more_alone-acc j g row op dset a none none h = refl
  more_alone-acc j g row op dset a none (some mi) h = refl
  more_alone-acc j g row op dset a (some d) met h =
      elim (Bool-cases (among (id_at row.ids d) a.ids)) [
        | inl old ↦ rw (h (id_at row.ids d), old) refl
        | inr new ↦ rw (h (id_at row.ids d), new) refl
      ]

  more_alone-ids :
      (id : ℕ) (row : Row F) (op : ℕ) (a : Alone F) (o met : Option ℕ)
      → (own_id o row.ids id || among id a.ids) ≡ among id (more_alone op row a o met).ids
  unfolding own_id more_alone among
  more_alone-ids id row op a none none = refl
  more_alone-ids id row op a none (some mi) = refl
  more_alone-ids id row op a (some d) met = elim (Bool-cases (among (id_at row.ids d) a.ids)) [
    | inl old ↦ elim (Bool-cases (id_at row.ids d == id)) [
      | inl same ↦
          let equal : id_at row.ids d ≡ id = ground arith in
          rw (old, same) (sym old ∙ ap (λ x. among x a.ids) equal)
      | inr other ↦ rw (old, other) refl
    ]
    | inr new ↦ rw new refl
  ]

  more_alone-n :
      (row : Row F) (op : ℕ) (a : Alone F) (o met : Option ℕ)
      → (more_alone op row a o met).n ≡ suc a.n
  unfolding more_alone
  more_alone-n row op a none none = refl
  more_alone-n row op a none (some mi) = refl
  more_alone-n row op a (some d) met = elim (Bool-cases (among (id_at row.ids d) a.ids)) [
    | inl old ↦ rw old refl
    | inr new ↦ rw new refl
  ]

module _ {F : Type 0} ⦃fl : Float64 F⦄ (v : View F) (by : List ℕ) (cs : List Column) (row : Row F)
    (kb : Str) (j : ℕ) (c : Column) (at : get_elem? cs j ≡ some c) (few : length cs ≤ 2 ^ 8)
    (st : Grouping F) (inv : IsGrouping (length cs) st) where
  pub open-Same :
      find kb st.idx ≡ none
      → length st.cnt < 2 ^ 32
      → Same kb j (open_group v by cs row kb st) (alone_step c row none)
  unfolding open_group alone_step
  open-Same new small =
      let g = length st.cnt in
      record {
        g = g;
        found = rw ((str_eq.eqb_iff kb kb).1 refl) refl;
        count = get_or-append_end st.cnt 1 0;
        value =
            rw (← inv.full, get_or-append_end st.saggs (map (first_agg row) cs) [])
              (get_elem?-map (first_agg row) cs j c at);
        ids = λ id. ground (
          arith,
          in_dset-first_ids (make_dkey j g id) 0 g cs row.ids st.dset,
          marks_own j g id cs row.ids c at few,
          among-own_ids id c.ddim row.ids,
          inv.fresh j g id (omega arith) small,
        );
      }

  pub join_same :
      (a : Alone F) (h : SameColumn kb j st a)
      → SameColumn kb j (join_group cs row h.g st) (more_alone c.op row a c.ddim c.met)
  unfolding join_group
  join_same a h =
      let lt : h.g < length st.cnt = inv.dense kb h.g h.found in
      let xs = get_or st.saggs h.g [] in
      record {
        g = h.g;
        found = h.found;
        count =
            get_or-set_self st.cnt h.g (suc (get_or st.cnt h.g 0)) 0 lt
            ∙ ap suc h.count
            ∙ sym (more_alone-n row c.op a c.ddim c.met);
        value =
            rw
              (get_or-set_self st.saggs h.g (more_aggs 0 h.g row cs st.dset xs).1 []
                (omega (arith, inv.full)))
              (get_elem?-more_aggs j h.g row cs st.dset xs c a.acc at h.value few
                ∙ ap some (more_alone-acc j h.g row c.op st.dset a c.ddim c.met h.ids));
        ids = λ id. ground (
          arith,
          in_dset-more_aggs (make_dkey j h.g id) 0 h.g row cs st.dset xs (inv.wide h.g lt),
          marks_own j h.g id cs row.ids c at few,
          h.ids id,
          more_alone-ids id row c.op a c.ddim c.met,
        );
      }

  module _ (kb' : Str) (other : eqb_str kb' kb ≡ false) where
    pub open_other :
        (t : Option (Alone F))
        → length st.cnt < 2 ^ 32
        → Same kb j st t
        → Same kb j (open_group v by cs row kb' st) t
    unfolding open_group
    open_other none small h = rw other h
    open_other (some a) small h =
        let lt : h.g < length st.cnt = inv.dense kb h.g h.found in
        record {
          g = h.g;
          found = rw other h.found;
          count = rw (get_or-append_left st.cnt (1 ∷ []) h.g 0 lt) h.count;
          value =
              rw
                (get_or-append_left st.saggs (map (first_agg row) cs ∷ []) h.g []
                  (omega (arith, inv.full)))
                h.value;
          ids = λ id. ground (
            arith,
            in_dset-first_ids (make_dkey j h.g id) 0 (length st.cnt) cs row.ids st.dset,
            marks_other_group 0 j (length st.cnt) h.g id cs row.ids (λ e. omega arith),
            h.ids id,
          );
        }

    pub join_other :
        (t : Option (Alone F)) (g : ℕ)
        → length st.cnt ≤ 2 ^ 32
        → find kb' st.idx ≡ some g
        → Same kb j st t
        → Same kb j (join_group cs row g st) t
    unfolding join_group
    join_other none g small at_g h = h
    join_other (some a) g small at_g h =
        let xs = get_or st.saggs g [] in
        let lt : g < length st.cnt = inv.dense kb' g at_g in
        let lt_h : h.g < length st.cnt = inv.dense kb h.g h.found in
        let differ : g ≢ h.g = λ e.
          cc ((str_eq.eqb_iff kb' kb).1 (inv.apart kb' kb g at_g (h.found ∙ ap some (sym e)))) in
        record {
          g = h.g;
          found = h.found;
          count = get_or-set_ne st.cnt g h.g (suc (get_or st.cnt g 0)) 0 differ ∙ h.count;
          value =
              rw (get_or-set_ne st.saggs g h.g (more_aggs 0 g row cs st.dset xs).1 [] differ)
                h.value;
          ids = λ id. ground (
            arith,
            in_dset-more_aggs (make_dkey j h.g id) 0 g row cs st.dset xs (inv.wide g lt),
            marks_other_group 0 j g h.g id cs row.ids (λ e. differ (omega arith)),
            h.ids id,
          );
        }
