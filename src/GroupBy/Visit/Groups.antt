-- ===== src/GroupBy/Visit/Groups.antt =====
-- groupby.go: opening and extending a group keep the numbering of the groups.
use facetta.Prelude.{
  ℕ, suc, ◌^◌, ◌≤◌, ◌<◌, ◌≡◌, ◌⊎◌, sym, ◌∙◌, some, List, [], ◌∷◌, ◌++◌, ◌==◌, map, length, set,
  get_or, arith, Bool-cases, inl, inr, length-append, length-map, length-set, get_or-append_left,
  get_or-append_end, get_or-set_self, get_or-set_ne,
}
use facetta.Prelude.Maps.{Str, find, put, str_eq}
use facetta.Float.{Float64}
use facetta.Snapshot.{Row}
use facetta.View.{View}
use facetta.Agg.{Column}
use facetta.GroupBy.{Grouping, make_dkey, first_agg, more_aggs, open_group, join_group}
use facetta.GroupBy.Visit.Seen.{in_dset-first_ids, in_dset-more_aggs, marks_other_group}
use facetta.GroupBy.Visit.Values.{length-more_aggs}
use facetta.GroupBy.Visit.Alone.{IsGrouping}

module _ {F : Type 0} ⦃fl : Float64 F⦄ (v : View F) (by : List ℕ) (cs : List Column) (row : Row F)
    (kb : Str) (st : Grouping F) (inv : IsGrouping (length cs) st) where
  -- An entry of the extended index is the new group or an old one.
  put-cases :
      (k : Str) (g : ℕ)
      → find k (put kb (length st.cnt) st.idx) ≡ some g
      → ((kb ≡ k) × (g ≡ length st.cnt)) ⊎ (find k st.idx ≡ some g)
  put-cases k g h = elim (Bool-cases (str_eq.eqb kb k)) [
    | inl same ↦ inl ((str_eq.eqb_iff kb k).0 same, cc (rw same at h))
    | inr other ↦ inr (rw other at h)
  ]

  new_row : List F
  new_row = map (first_agg row) cs

  open_wide :
      (g : ℕ)
      → g < length (st.cnt ++ 1 ∷ [])
      → length (get_or (st.saggs ++ new_row ∷ []) g []) ≡ length cs
  unfolding new_row
  open_wide g lt = elim (Bool-cases (g == length st.saggs)) [
    | inl last ↦
        let at_end : g ≡ length st.saggs = ground arith in
        rw (at_end, get_or-append_end st.saggs new_row []) (length-map cs (first_agg row))
    | inr other ↦
        let before : g < length st.saggs =
          ground (arith, inv.full, length-append st.cnt (1 ∷ [])) in
        rw (get_or-append_left st.saggs (new_row ∷ []) g [] before)
          (inv.wide g (omega (arith, inv.full)))
  ]

  pub open_group-IsGrouping :
      length st.cnt < 2 ^ 32 → IsGrouping (length cs) (open_group v by cs row kb st)
  unfolding open_group new_row
  open_group-IsGrouping small = record {
    dense = λ k g h. elim (put-cases k g h) [
      | inl (_, at_end) ↦ omega (arith, length-append st.cnt (1 ∷ []))
      | inr old ↦ omega (arith, length-append st.cnt (1 ∷ []), inv.dense k g old)
    ];
    apart = λ k k' g h h'. elim (put-cases k g h) [
      | inl (same, at_end) ↦ elim (put-cases k' g h') [
        | inl (same', _) ↦ sym same ∙ same'
        | inr old' ↦ absurd (omega (arith, inv.dense k' g old'))
      ]
      | inr old ↦ elim (put-cases k' g h') [
        | inl (same', at_end) ↦ absurd (omega (arith, inv.dense k g old))
        | inr old' ↦ inv.apart k k' g old old'
      ]
    ];
    full = omega (
      arith,
      inv.full,
      length-append st.cnt (1 ∷ []),
      length-append st.saggs (map (first_agg row) cs ∷ []),
    );
    wide = open_wide;
    fresh = λ j g id le lt.
        let len = length-append st.cnt (1 ∷ []) in
        ground (
          arith,
          in_dset-first_ids (make_dkey j g id) 0 (length st.cnt) cs row.ids st.dset,
          marks_other_group 0 j (length st.cnt) g id cs row.ids (λ e. omega (arith, len)),
          inv.fresh j g id (omega (arith, len)) lt,
        );
  }

  module _ (g : ℕ) (lt : g < length st.cnt) (small : length st.cnt ≤ 2 ^ 32) where
    old_row : List F
    old_row = get_or st.saggs g []

    join_wide :
        (i : ℕ)
        → i < length st.cnt
        → length (get_or (set st.saggs g (more_aggs 0 g row cs st.dset old_row).1) i []) ≡ length cs
    unfolding old_row
    join_wide i lt_i = elim (Bool-cases (i == g)) [
      | inl same ↦
          let own : i ≡ g = ground arith in
          rw
            (
              own,
              get_or-set_self st.saggs g (more_aggs 0 g row cs st.dset old_row).1 []
                  (omega (arith, inv.full)),
            )
            (length-more_aggs 0 g row cs st.dset old_row ∙ inv.wide g lt)
      | inr other ↦
          rw
            (get_or-set_ne st.saggs g i (more_aggs 0 g row cs st.dset old_row).1 []
              (λ e. ground arith))
            (inv.wide i lt_i)
    ]

    pub join_group-IsGrouping : IsGrouping (length cs) (join_group cs row g st)
    unfolding join_group old_row
    join_group-IsGrouping =
        let counted = length-set st.cnt g (suc (get_or st.cnt g 0)) in
        record {
          dense = λ k i h. omega (arith, counted, inv.dense k i h);
          apart = inv.apart;
          full = omega (
            arith,
            inv.full,
            counted,
            length-set st.saggs g (more_aggs 0 g row cs st.dset old_row).1,
          );
          wide = λ i lt_i. join_wide i (omega (arith, counted));
          fresh = λ j i id le lt_i. ground (
            arith,
            in_dset-more_aggs (make_dkey j i id) 0 g row cs st.dset old_row (inv.wide g lt),
            marks_other_group 0 j g i id cs row.ids (λ e. omega (arith, counted)),
            inv.fresh j i id (omega (arith, counted)) lt_i,
          );
        }
