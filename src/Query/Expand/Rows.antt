-- ===== src/Query/Expand/Rows.antt =====
-- The interval of rows that the planner computes for a prefix of index ids.
use facetta.Prelude.{
  ℕ, ◌-◌, ◌≤◌, ◌<◌, ◌≡◌, ◌↔◌, Bool, true, some, List, ◌∷◌, length, map, take, get_or, get_elem?,
  leb, ltb, arith, Bool-cases, inl, inr,
}
use native.Mathlib.Nat.{le_trans}
use facetta.Prelude.Search.{search, search-IsFirst, IsMonotone}
use facetta.Schema.{Schema}
use facetta.Dict.{len}
use facetta.Keys.{pack_key, key_span_top}
use facetta.Keys.Widths.{Below, prefix_interval}
use facetta.Snapshot.{Row, Snapshot}
use facetta.Snapshot.WellFormed.{IsBase, key_at, key_index}
use facetta.Query.Expand.{prefix_rows}

-- Where a search ends, as a test of each index.
search_le_iff :
    (n : ℕ) (f : ℕ → Bool) (r : ℕ) → IsMonotone n f → r < n → (search n f ≤ r) ↔ (f r ≡ true)
search_le_iff n f r mono lt =
    let (bound, below, above) = search-IsFirst n f mono in
    (
      λ h. above r h lt,
      λ e. elim (Bool-cases (leb (search n f) r)) [
        | inl le ↦ ground arith
        | inr gt ↦ cc (below r (ground arith))
      ],
    )

module _ {F : Type 0} (sc : Schema) (s : Snapshot F) (inv : IsBase sc s) where
  from_key_mono : (k : ℕ) → IsMonotone (length s.keys) (λ i. leb k (get_or s.keys i 0))
  from_key_mono k i j le lt h = ground (arith, inv.ascending i j le lt)

  past_key_mono : (k : ℕ) → IsMonotone (length s.keys) (λ i. ltb k (get_or s.keys i 0))
  past_key_mono k i j le lt h = ground (arith, inv.ascending i j le lt)

  -- On a well-formed base, for a nonempty prefix of known ids of index dimensions: a row lies in the
  -- computed interval exactly when its leading ids are those of the prefix.
  pub prefix_rows_iff :
      (p : ℕ) (ps : List ℕ) (r : ℕ) (row : Row F)
      → Below (map len s.dicts) (p ∷ ps)
      → length (p ∷ ps) ≤ sc.index_dims
      → get_elem? s.rows r ≡ some row
      → ((prefix_rows s (p ∷ ps)).lo ≤ r) × (r < (prefix_rows s (p ∷ ps)).hi)
        ↔ (take (length (p ∷ ps)) row.ids ≡ p ∷ ps)
  unfolding prefix_rows
  prefix_rows_iff p ps r row known short at =
      let last : length (p ∷ ps) - 1 ≡ length ps = omega arith in
      let lo64 = pack_key s.shifts (p ∷ ps) in
      let hi64 = key_span_top lo64 (get_or s.shifts (length ps) 0) in
      let n = length s.keys in
      let lt = key_index sc s inv r row at in
      let key = key_at sc s inv r row at in
      let (lower, lower') =
        search_le_iff n (λ i. leb lo64 (get_or s.keys i 0)) r (from_key_mono lo64) lt in
      let (upper, upper') =
        search_le_iff n (λ i. ltb hi64 (get_or s.keys i 0)) r (past_key_mono hi64) lt in
      let (law, law') =
        prefix_interval (map len s.dicts) sc.index_dims s.shifts row.ids p ps inv.shifted
          (inv.in_dicts r row at) known short (le_trans short (inv.whole r row at)) in
      rw last (
        λ (lo, hi). law (
          let above = lower lo in ground (arith, key),
          elim (Bool-cases (ltb hi64 (get_or s.keys r 0))) [
            | inl past ↦ absurd (omega (arith, upper' past))
            | inr within ↦ ground (arith, key)
          ],
        ),
        λ e.
            let (above, within) = law' e in
            (
              lower' (ground (arith, key)),
              elim (Bool-cases (leb (search n (λ i. ltb hi64 (get_or s.keys i 0))) r)) [
                | inl past ↦ let beyond = upper (ground arith) in absurd (ground (arith, key))
                | inr before ↦ ground arith
              ],
            ),
      )
