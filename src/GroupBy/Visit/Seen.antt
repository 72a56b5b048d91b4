-- ===== src/GroupBy/Visit/Seen.antt =====
-- groupby.go: which triples (distinct column, group, id) one row marks as seen.
use facetta.Prelude.{
  ℕ, zero, suc, ◌+◌, ◌%◌, ◌^◌, ◌≤◌, ◌<◌, ◌≡◌, ◌≢◌, ◌⊎◌, refl, sym, ◌∙◌, Bool, true, false, ◌||◌,
  Option, none, some, List, [], ◌∷◌, length, get_elem?, ◌==◌, arith, Bool-cases, inl, inr,
}
use facetta.Float.{Float64}
use facetta.Snapshot.{Row}
use facetta.Agg.{Column}
use facetta.Query.Match.{id_at}
use facetta.Dict.Intern.{get_elem?-lt-length}
use facetta.GroupBy.{
  DKey, make_dkey, eqb_dkey, in_dset, mark_seen, first_ids, more_value, more_agg, more_aggs,
}

-- The row has this id in the column's dimension.
unfoldable pub own_id : Option ℕ → List ℕ → ℕ → Bool
own_id none ids id = false
own_id (some d) ids id = id_at ids d == id

pub marked : DKey → ℕ → ℕ → List ℕ → Option ℕ → Bool
unfolding make_dkey eqb_dkey
marked k j g ids none = false
marked k j g ids (some d) = eqb_dkey (make_dkey j g (id_at ids d)) k

-- A row of group `g` marks the triple `k`, in the columns from `j` on.
pub marks : DKey → ℕ → ℕ → List Column → List ℕ → Bool
unfolding marked
marks k j g [] ids = false
marks k j g (c ∷ cs) ids = marked k j g ids c.ddim || marks k (suc j) g cs ids

in_dset-mark_seen :
    (k : DKey) (j g : ℕ) (ids : List ℕ) (o : Option ℕ) (dset : List DKey)
    → in_dset k (mark_seen j g ids o dset) ≡ (marked k j g ids o || in_dset k dset)
unfolding mark_seen marked in_dset
in_dset-mark_seen k j g ids none dset = refl
in_dset-mark_seen k j g ids (some d) dset = refl

pub in_dset-first_ids :
    (k : DKey) (j g : ℕ) (cs : List Column) (ids : List ℕ) (dset : List DKey)
    → in_dset k (first_ids j g cs ids dset) ≡ (marks k j g cs ids || in_dset k dset)
unfolding first_ids marks
in_dset-first_ids k j g [] ids dset = refl
in_dset-first_ids k j g (c ∷ cs) ids dset = ground (
  arith,
  in_dset-first_ids k (suc j) g cs ids (mark_seen j g ids c.ddim dset),
  in_dset-mark_seen k j g ids c.ddim dset,
)

pub marked_other :
    (j j' g g' id : ℕ) (ids : List ℕ) (o : Option ℕ)
    → (j % 2 ^ 8 ≢ j' % 2 ^ 8) ⊎ (g % 2 ^ 32 ≢ g' % 2 ^ 32)
    → marked (make_dkey j' g' id) j g ids o ≡ false
unfolding marked make_dkey eqb_dkey
marked_other j j' g g' id ids none h = refl
marked_other j j' g g' id ids (some d) (inl h) = ground arith
marked_other j j' g g' id ids (some d) (inr h) = ground arith

marked_own :
    (j g id : ℕ) (ids : List ℕ) (o : Option ℕ)
    → marked (make_dkey j g id) j g ids o ≡ own_id o ids id
unfolding marked make_dkey eqb_dkey own_id
marked_own j g id ids none = refl
marked_own j g id ids (some d) = ground arith

-- The rows of other groups do not mark a triple of this group.
pub marks_other_group :
    (j j' g g' id : ℕ) (cs : List Column) (ids : List ℕ)
    → g % 2 ^ 32 ≢ g' % 2 ^ 32
    → marks (make_dkey j' g' id) j g cs ids ≡ false
unfolding marks
marks_other_group j j' g g' id [] ids h = refl
marks_other_group j j' g g' id (c ∷ cs) ids h = ground (
  arith,
  marked_other j j' g g' id ids c.ddim (inr h),
  marks_other_group (suc j) j' g g' id cs ids h,
)

marks_before :
    (j j' g id : ℕ) (cs : List Column) (ids : List ℕ)
    → j' < j
    → j + length cs ≤ 2 ^ 8
    → marks (make_dkey j' g id) j g cs ids ≡ false
unfolding marks
marks_before j j' g id [] ids lt le = refl
marks_before j j' g id (c ∷ cs) ids lt le = ground (
  arith,
  marked_other j j' g g id ids c.ddim (inl (λ e. omega arith)),
  marks_before (suc j) j' g id cs ids (omega arith) (omega arith),
)

marks_own_from :
    (j i n g id : ℕ) (cs : List Column) (ids : List ℕ) (c : Column)
    → i ≡ j + n
    → get_elem? cs n ≡ some c
    → j + length cs ≤ 2 ^ 8
    → marks (make_dkey i g id) j g cs ids ≡ own_id c.ddim ids id
unfolding marks
marks_own_from j i n g id [] ids c e h le = cc
marks_own_from j i zero g id (c' ∷ cs) ids c e h le =
    let same : i ≡ j = omega arith in
    let column : c'.ddim ≡ c.ddim = cc in
    let later = marks_before (suc j) i g id cs ids (omega arith) (omega arith) in
    rw (same, column) (ground (arith, marked_own j g id ids c.ddim, rw (same) at later))
marks_own_from j i (suc n) g id (c' ∷ cs) ids c e h le = ground (
  arith,
  marked_other j i g g id ids c'.ddim (inl (λ q. omega (arith, get_elem?-lt-length cs n c h))),
  marks_own_from (suc j) i n g id cs ids c (omega arith) h (omega arith),
)

-- Of at most 256 columns, a row marks the triples of a column by its own id there.
pub marks_own :
    (n g id : ℕ) (cs : List Column) (ids : List ℕ) (c : Column)
    → get_elem? cs n ≡ some c
    → length cs ≤ 2 ^ 8
    → marks (make_dkey n g id) 0 g cs ids ≡ own_id c.ddim ids id
marks_own n g id cs ids c h le = marks_own_from 0 n n g id cs ids c (omega arith) h (omega arith)

in_dset-same :
    (a b : DKey) (dset : List DKey) → eqb_dkey a b ≡ true → in_dset a dset ≡ in_dset b dset
unfolding in_dset eqb_dkey
in_dset-same a b [] h = refl
in_dset-same a b (x ∷ dset) h = ground (arith, in_dset-same a b dset h)

module _ {F : Type 0} ⦃fl : Float64 F⦄ where
  pub in_dset-more_value :
      (k : DKey) (j g : ℕ) (row : Row F) (op : ℕ) (dset : List DKey) (x : F) (o met : Option ℕ)
      → in_dset k (more_value j g row op dset x o met).0
        ≡ (marked k j g row.ids o || in_dset k dset)
  unfolding more_value marked in_dset
  in_dset-more_value k j g row op dset x none none = refl
  in_dset-more_value k j g row op dset x none (some mi) = refl
  in_dset-more_value k j g row op dset x (some d) met =
      let k' = make_dkey j g (id_at row.ids d) in
      elim (Bool-cases (in_dset k' dset)) [
        | inl old ↦ elim (Bool-cases (eqb_dkey k' k)) [
          | inl same ↦ rw (old, same) (sym (in_dset-same k' k dset same) ∙ old)
          | inr other ↦ rw (old, other) refl
        ]
        | inr fresh ↦ rw fresh refl
      ]

  pub in_dset-more_aggs :
      (k : DKey) (j g : ℕ) (row : Row F) (cs : List Column) (dset : List DKey) (xs : List F)
      → length xs ≡ length cs
      → in_dset k (more_aggs j g row cs dset xs).0 ≡ (marks k j g cs row.ids || in_dset k dset)
  unfolding more_aggs more_agg marks
  in_dset-more_aggs k j g row [] dset [] h = refl
  in_dset-more_aggs k j g row [] dset (x ∷ xs) h = absurd (omega arith)
  in_dset-more_aggs k j g row (c ∷ cs) dset [] h = absurd (omega arith)
  in_dset-more_aggs k j g row (c ∷ cs) dset (x ∷ xs) h =
      let first = more_value j g row c.op dset x c.ddim c.met in
      ground (
        arith,
        in_dset-more_value k j g row c.op dset x c.ddim c.met,
        in_dset-more_aggs k (suc j) g row cs first.0 xs (omega arith),
      )
