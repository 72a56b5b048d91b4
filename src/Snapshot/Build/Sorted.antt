-- ===== src/Snapshot/Build/Sorted.antt =====
-- snapshot.go: the sort of `buildFromRecords` and its last loop leave the keys ascending.
use facetta.Prelude.{
  ℕ, zero, suc, ◌≤◌, ◌<◌, ◌≡◌, true, false, ◌||◌, Option, some, List, [], ◌∷◌, length, map, get_or,
  arith, Bool-cases, inl, inr,
}
use facetta.Prelude.Int.{ℤ}
use facetta.Prelude.All.{All}
use facetta.Prelude.Sort.{insert_by, sort_into, sort_by}
use facetta.Snapshot.{Row, row_expired}
use facetta.Snapshot.Build.{entry_before, repeats, keep_newest}

-- No key is below `lo`, and the keys ascend.
abbrev pub KeysFrom : {F : Type 0} → ℕ → List (ℕ × Row F) → Type 0
KeysFrom lo [] = Unit
KeysFrom lo (e ∷ es) = (lo ≤ e.0) × KeysFrom e.0 es

module _ {F : Type 0} where
  KeysFrom-mono : (a b : ℕ) (es : List (ℕ × Row F)) → a ≤ b → KeysFrom b es → KeysFrom a es
  KeysFrom-mono a b [] le h = tt
  KeysFrom-mono a b (e ∷ es) le h = (omega (arith, h.0), h.1)

  entry_before_le : (x y : ℕ × Row F) → entry_before x y ≡ true → x.0 ≤ y.0
  unfolding entry_before
  entry_before_le (k, a) (k', b) h = ground arith

  entry_after_le : (x y : ℕ × Row F) → entry_before x y ≡ false → y.0 ≤ x.0
  unfolding entry_before
  entry_after_le (k, a) (k', b) h = ground arith

  insert_by-KeysFrom :
      (lo : ℕ) (x : ℕ × Row F) (es : List (ℕ × Row F))
      → lo ≤ x.0
      → KeysFrom lo es
      → KeysFrom lo (insert_by entry_before x es)
  unfolding insert_by
  insert_by-KeysFrom lo x [] le h = (le, tt)
  insert_by-KeysFrom lo x (y ∷ es) le h = elim (Bool-cases (entry_before x y)) [
    | inl before ↦ rw before (le, (entry_before_le x y before, h.1))
    | inr after ↦ rw after (h.0, insert_by-KeysFrom y.0 x es (entry_after_le x y after) h.1)
  ]

  sort_into-KeysFrom :
      (out es : List (ℕ × Row F)) → KeysFrom 0 out → KeysFrom 0 (sort_into entry_before out es)
  unfolding sort_into
  sort_into-KeysFrom out [] h = h
  sort_into-KeysFrom out (x ∷ es) h =
      sort_into-KeysFrom (insert_by entry_before x out) es
        (insert_by-KeysFrom 0 x out (omega arith) h)

  pub sort_by-KeysFrom : (es : List (ℕ × Row F)) → KeysFrom 0 (sort_by entry_before es)
  unfolding sort_by
  sort_by-KeysFrom es = sort_into-KeysFrom [] es tt

  pub keep_newest-KeysFrom :
      (now : ℤ) (lo : ℕ) (prev : Option (Row F)) (es : List (ℕ × Row F))
      → KeysFrom lo es
      → KeysFrom lo (keep_newest now prev es)
  unfolding keep_newest
  keep_newest-KeysFrom now lo prev [] h = tt
  keep_newest-KeysFrom now lo prev ((k, r) ∷ es) h =
      elim (Bool-cases (repeats prev r || row_expired r.expire now)) [
        | inl out ↦ rw out (keep_newest-KeysFrom now lo (some r) es (KeysFrom-mono lo k es h.0 h.1))
        | inr kept ↦ rw kept (h.0, keep_newest-KeysFrom now k (some r) es h.1)
      ]

  pub keep_newest-All :
      (P : ℕ × Row F → Type 0) (now : ℤ) (prev : Option (Row F)) (es : List (ℕ × Row F))
      → All P es
      → All P (keep_newest now prev es)
  unfolding keep_newest
  keep_newest-All P now prev [] h = tt
  keep_newest-All P now prev ((k, r) ∷ es) h =
      elim (Bool-cases (repeats prev r || row_expired r.expire now)) [
        | inl out ↦ rw out (keep_newest-All P now (some r) es h.1)
        | inr kept ↦ rw kept (h.0, keep_newest-All P now (some r) es h.1)
      ]

  KeysFrom-head :
      (lo : ℕ) (es : List (ℕ × Row F)) (j : ℕ)
      → KeysFrom lo es
      → j < length (map (λ e. e.0) es)
      → lo ≤ get_or (map (λ e. e.0) es) j 0
  KeysFrom-head lo [] j h lt = absurd (omega arith)
  KeysFrom-head lo (e ∷ es) zero h lt = h.0
  KeysFrom-head lo (e ∷ es) (suc j) h lt =
      omega (arith, h.0, KeysFrom-head e.0 es j h.1 (omega arith))

  pub KeysFrom-ascending :
      (lo : ℕ) (es : List (ℕ × Row F)) (i j : ℕ)
      → KeysFrom lo es
      → i ≤ j
      → j < length (map (λ e. e.0) es)
      → get_or (map (λ e. e.0) es) i 0 ≤ get_or (map (λ e. e.0) es) j 0
  KeysFrom-ascending lo [] i j h le lt = absurd (omega arith)
  KeysFrom-ascending lo (e ∷ es) zero zero h le lt = omega arith
  KeysFrom-ascending lo (e ∷ es) (suc i) zero h le lt = absurd (omega arith)
  KeysFrom-ascending lo (e ∷ es) zero (suc j) h le lt = KeysFrom-head e.0 es j h.1 (omega arith)
  KeysFrom-ascending lo (e ∷ es) (suc i) (suc j) h le lt =
      KeysFrom-ascending e.0 es i j h.1 (omega arith) (omega arith)
