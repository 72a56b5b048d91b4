-- ===== src/GroupBy/Visit/Values.antt =====
-- groupby.go: what a later row of a group does to the accumulator of one column.
use facetta.Prelude.{
  ℕ, zero, suc, ◌+◌, ◌^◌, ◌≤◌, ◌≡◌, refl, ap, ◌∙◌, Option, none, some, List, [], ◌∷◌, length,
  get_elem?, arith, Bool-cases, inl, inr,
}
use facetta.Float.{Float64}
use facetta.Snapshot.{Row}
use facetta.Agg.{Column}
use facetta.Query.Match.{id_at}
use facetta.Dict.Intern.{get_elem?-lt-length}
use facetta.GroupBy.{DKey, make_dkey, in_dset, more_value, more_agg, more_aggs}
use facetta.GroupBy.Visit.Seen.{marked_other, in_dset-more_value}

module _ {F : Type 0} ⦃fl : Float64 F⦄ where
  -- The value depends on the seen ids of its own column only.
  more_value_congr :
      (j g : ℕ) (row : Row F) (op : ℕ) (dset dset' : List DKey) (x : F) (o met : Option ℕ)
      → ((id : ℕ) → in_dset (make_dkey j g id) dset ≡ in_dset (make_dkey j g id) dset')
      → (more_value j g row op dset x o met).1 ≡ (more_value j g row op dset' x o met).1
  unfolding more_value
  more_value_congr j g row op dset dset' x none none h = refl
  more_value_congr j g row op dset dset' x none (some mi) h = refl
  more_value_congr j g row op dset dset' x (some d) met h =
      let same = h (id_at row.ids d) in
      elim (Bool-cases (in_dset (make_dkey j g (id_at row.ids d)) dset')) [
        | inl old ↦ rw (same, old) refl
        | inr fresh ↦ rw (same, fresh) refl
      ]

  pub length-more_aggs :
      (j g : ℕ) (row : Row F) (cs : List Column) (dset : List DKey) (xs : List F)
      → length (more_aggs j g row cs dset xs).1 ≡ length xs
  unfolding more_aggs
  length-more_aggs j g row [] dset xs = refl
  length-more_aggs j g row (c ∷ cs) dset [] = refl
  length-more_aggs j g row (c ∷ cs) dset (x ∷ xs) =
      ap suc (length-more_aggs (suc j) g row cs (more_agg j g row c dset x).0 xs)

  more_aggs_from :
      (j i n g : ℕ) (row : Row F) (cs : List Column) (dset : List DKey) (xs : List F) (c : Column)
      (x : F)
      → i ≡ j + n
      → get_elem? cs n ≡ some c
      → get_elem? xs n ≡ some x
      → j + length cs ≤ 2 ^ 8
      → get_elem? (more_aggs j g row cs dset xs).1 n
        ≡ some (more_value i g row c.op dset x c.ddim c.met).1
  unfolding more_aggs more_agg
  more_aggs_from j i n g row [] dset xs c x e hc hx le = cc
  more_aggs_from j i n g row (c' ∷ cs) dset [] c x e hc hx le = cc
  more_aggs_from j i zero g row (c' ∷ cs) dset (x' ∷ xs) c x e hc hx le =
      let same : j ≡ i = omega arith in
      let column : c' ≡ c = cc in let value : x' ≡ x = cc in rw (same, column, value) refl
  more_aggs_from j i (suc n) g row (c' ∷ cs) dset (x' ∷ xs) c x e hc hx le =
      let first = more_value j g row c'.op dset x' c'.ddim c'.met in
      more_aggs_from (suc j) i n g row cs first.0 xs c x (omega arith) hc hx (omega arith)
      ∙ ap some (
          more_value_congr i g row c.op first.0 dset x c.ddim c.met (λ id. ground (
            arith,
            in_dset-more_value (make_dkey i g id) j g row c'.op dset x' c'.ddim c'.met,
            marked_other j i g g id row.ids c'.ddim
                (inl (λ q. omega (arith, get_elem?-lt-length cs n c hc))),
          )))

  -- Of at most 256 columns, column `n` gets the value of its own update.
  pub get_elem?-more_aggs :
      (n g : ℕ) (row : Row F) (cs : List Column) (dset : List DKey) (xs : List F) (c : Column)
      (x : F)
      → get_elem? cs n ≡ some c
      → get_elem? xs n ≡ some x
      → length cs ≤ 2 ^ 8
      → get_elem? (more_aggs 0 g row cs dset xs).1 n
        ≡ some (more_value n g row c.op dset x c.ddim c.met).1
  get_elem?-more_aggs n g row cs dset xs c x hc hx le =
      more_aggs_from 0 n n g row cs dset xs c x (omega arith) hc hx (omega arith)
