-- ===== src/Query/Sweep/Sorted.antt =====
-- Sorting the intervals: the sweep may take them in any order that the planner wrote them in.
use facetta.Prelude.{
  ℕ, ◌≤◌, ◌≡◌, refl, ◌∙◌, ◌&&◌, ◌||◌, List, [], ◌∷◌, ltb, leb, arith, Bool-cases, inl, inr,
}
use facetta.Prelude.Sort.{insert_by, sort_into, sort_by}
use facetta.Query.{Iv}
use facetta.Query.Sweep.{lo_before, sort_ivs, sweep}
use facetta.Query.Sweep.Cover.{covered, From, SortedByLo, fold_if, fold_if_congr, sweep-covered}

From-mono : (a b : ℕ) (ivs : List Iv) → a ≤ b → From b ivs → From a ivs
From-mono a b [] le h = tt
From-mono a b (x ∷ ivs) le h = (omega (arith, h.0), From-mono a b ivs le h.1)

From-insert_by :
    (lo : ℕ) (x : Iv) (ivs : List Iv)
    → lo ≤ x.lo
    → From lo ivs
    → From lo (insert_by lo_before x ivs)
unfolding insert_by
From-insert_by lo x [] le h = (le, tt)
From-insert_by lo x (y ∷ ivs) le h = elim (Bool-cases (ltb x.lo y.lo)) [
  | inl before ↦ rw before (le, h)
  | inr after ↦ rw after (h.0, From-insert_by lo x ivs le h.1)
]

SortedByLo-insert_by :
    (x : Iv) (ivs : List Iv) → SortedByLo ivs → SortedByLo (insert_by lo_before x ivs)
unfolding insert_by
SortedByLo-insert_by x [] h = (tt, tt)
SortedByLo-insert_by x (y ∷ ivs) h = elim (Bool-cases (ltb x.lo y.lo)) [
  | inl before ↦ rw before ((ground arith, From-mono x.lo y.lo ivs (ground arith) h.0), h)
  | inr after ↦
      rw after (From-insert_by y.lo x ivs (ground arith) h.0, SortedByLo-insert_by x ivs h.1)
]

SortedByLo-sort_into :
    (out ivs : List Iv) → SortedByLo out → SortedByLo (sort_into lo_before out ivs)
unfolding sort_into
SortedByLo-sort_into out [] h = h
SortedByLo-sort_into out (x ∷ ivs) h =
    SortedByLo-sort_into (insert_by lo_before x out) ivs (SortedByLo-insert_by x out h)

SortedByLo-sort_ivs : (ivs : List Iv) → SortedByLo (sort_ivs ivs)
unfolding sort_ivs sort_by
SortedByLo-sort_ivs ivs = SortedByLo-sort_into [] ivs tt

covered-insert_by :
    (r : ℕ) (x : Iv) (ivs : List Iv) → covered r (insert_by lo_before x ivs) ≡ covered r (x ∷ ivs)
unfolding covered insert_by
covered-insert_by r x [] = refl
covered-insert_by r x (y ∷ ivs) = ground (arith, covered-insert_by r x ivs)

covered-sort_into :
    (r : ℕ) (out ivs : List Iv)
    → covered r (sort_into lo_before out ivs) ≡ (covered r out || covered r ivs)
unfolding covered sort_into
covered-sort_into r out [] = ground arith
covered-sort_into r out (x ∷ ivs) =
    ground (arith, covered-sort_into r (insert_by lo_before x out) ivs, covered-insert_by r x out)

covered-sort_ivs : (r : ℕ) (ivs : List Iv) → covered r (sort_ivs ivs) ≡ covered r ivs
unfolding sort_ivs sort_by covered
covered-sort_ivs r ivs = covered-sort_into r [] ivs

module _ {ℓ κ} {A : Type ℓ} {S : Type κ} (visit : ℕ → A → S → S) where
  -- Whatever intervals the planner wrote, in any order and overlapping, the sort and the sweep
  -- visit each row that some interval covers exactly once, in ascending order, and no other row.
  pub sweep-sort_ivs :
      (rows : List A) (ivs : List Iv) (s : S)
      → sweep visit rows 0 (sort_ivs ivs) s ≡ fold_if visit (λ r. covered r ivs) 0 rows s
  sweep-sort_ivs rows ivs s =
      sweep-covered visit rows 0 (sort_ivs ivs) s (SortedByLo-sort_ivs ivs)
      ∙ fold_if_congr visit (λ r. leb 0 r && covered r (sort_ivs ivs)) (λ r. covered r ivs) 0 rows s
          (λ r le. ground (arith, covered-sort_ivs r ivs))
