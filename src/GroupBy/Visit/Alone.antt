-- ===== src/GroupBy/Visit/Alone.antt =====
-- groupby.go: the reference of one group and one column, and what a state of the visits says of them.
use facetta.Prelude.{
  ℕ, suc, ◌^◌, ◌≤◌, ◌<◌, ◌≡◌, false, Option, none, some, List, [], ◌∷◌, length, get_elem?, get_or,
  if◌then◌else◌,
}
use facetta.Prelude.Maps.{Str, eqb_str, find, str_eq}
use facetta.Float.{Float64}
use facetta.Snapshot.{Row}
use facetta.Query.Match.{id_at}
use facetta.Agg.{Column}
use facetta.GroupBy.{Grouping, among, make_dkey, in_dset, group_key, first_agg, more_metric}

-- One column of one group: the rows so far, the accumulator and the ids of a distinct column.
pub record Alone (F : Type 0) : Type 0 where
  pub n : ℕ
  pub acc : F
  pub ids : List ℕ

unfoldable pub own_ids : Option ℕ → List ℕ → List ℕ
own_ids none ids = []
own_ids (some d) ids = id_at ids d ∷ []

module _ {F : Type 0} ⦃fl : Float64 F⦄ where
  unfoldable pub more_alone : ℕ → Row F → Alone F → Option ℕ → Option ℕ → Alone F
  more_alone op row a (some d) met =
      let id = id_at row.ids d in
      if among id a.ids
      then record a { n = suc a.n }
      else record { n = suc a.n; acc = fl.add a.acc (fl.of_count 1); ids = id ∷ a.ids }
  more_alone op row a none (some mi) = record a {
    n = suc a.n;
    acc = more_metric op (get_or row.mets mi fl.zero) a.acc;
  }
  more_alone op row a none none = record a { n = suc a.n }

  unfoldable pub alone_step : Column → Row F → Option (Alone F) → Option (Alone F)
  unfolding own_ids more_alone
  alone_step c row none =
      some (record { n = 1; acc = first_agg row c; ids = own_ids c.ddim row.ids })
  alone_step c row (some a) = some (more_alone c.op row a c.ddim c.met)

  -- Only the rows with the group's key count.
  unfoldable pub alone : List ℕ → Str → Column → Row F → Option (Alone F) → Option (Alone F)
  unfolding alone_step
  alone by kb c row t = if eqb_str (group_key by row.ids) kb then alone_step c row t else t

  -- The same as far as it is output: the rows and the accumulator.
  unfoldable pub outcome : Option (Alone F) → Option (ℕ × F)
  outcome none = none
  outcome (some a) = some (a.n, a.acc)

  unfoldable pub column_at : Option ℕ → ℕ → Grouping F → Option (ℕ × F)
  column_at none j st = none
  column_at (some g) j st = elim (get_elem? (get_or st.saggs g []) j) [
    | none ↦ none
    | some x ↦ some (get_or st.cnt g 0, x)
  ]

  -- Column `j` of the group with the key `kb`.
  unfoldable pub column_of : Str → ℕ → Grouping F → Option (ℕ × F)
  unfolding column_at
  column_of kb j st = column_at (find kb st.idx) j st

  -- The groups are numbered without gaps, and each has its row of accumulators.
  pub record IsGrouping (width : ℕ) (st : Grouping F) : Type 0 where
    pub dense : (kb : Str) (g : ℕ) → find kb st.idx ≡ some g → g < length st.cnt
    pub apart :
        (kb kb' : Str) (g : ℕ) → find kb st.idx ≡ some g → find kb' st.idx ≡ some g → kb ≡ kb'
    pub full : length st.saggs ≡ length st.cnt
    pub wide : (g : ℕ) → g < length st.cnt → length (get_or st.saggs g []) ≡ width
    pub fresh :
        (j g id : ℕ) → length st.cnt ≤ g → g < 2 ^ 32 → in_dset (make_dkey j g id) st.dset ≡ false

  -- The group in the state is the group alone.
  pub record SameColumn (kb : Str) (j : ℕ) (st : Grouping F) (a : Alone F) : Type 0 where
    pub g : ℕ
    pub found : find kb st.idx ≡ some g
    pub count : get_or st.cnt g 0 ≡ a.n
    pub value : get_elem? (get_or st.saggs g []) j ≡ some a.acc
    pub ids : (id : ℕ) → in_dset (make_dkey j g id) st.dset ≡ among id a.ids

  abbrev pub Same : Str → ℕ → Grouping F → Option (Alone F) → Type 0
  Same kb j st none = find kb st.idx ≡ none
  Same kb j st (some a) = SameColumn kb j st a
