-- ===== src/Query/Sweep/Cover.antt =====
-- The sweep over sorted intervals visits each covered row once, in ascending order.
use facetta.Prelude.{
  ℕ, zero, suc, ◌+◌, ◌-◌, ◌≤◌, ◌<◌, ◌≡◌, refl, sym, ◌∙◌, Bool, true, false, ◌&&◌, ◌||◌, List, [],
  ◌∷◌, drop, ltb, leb, arith, if◌then◌else◌, Bool-cases, inl, inr,
}
use facetta.Query.{Iv}
use facetta.Query.Sweep.{sweep, sweep_rows}

-- Row `r` lies in one of the intervals.
unfoldable pub covered : ℕ → List Iv → Bool
covered r [] = false
covered r (x ∷ ivs) = (leb x.lo r && ltb r x.hi) || covered r ivs

-- No interval starts before `lo`.
abbrev pub From : ℕ → List Iv → Type 0
From lo [] = Unit
From lo (x ∷ ivs) = (lo ≤ x.lo) × From lo ivs

abbrev pub SortedByLo : List Iv → Type 0
SortedByLo [] = Unit
SortedByLo (x ∷ ivs) = From x.lo ivs × SortedByLo ivs

covered_before : (r lo : ℕ) (ivs : List Iv) → From lo ivs → r < lo → covered r ivs ≡ false
unfolding covered
covered_before r lo [] h lt = refl
covered_before r lo (x ∷ ivs) h lt = ground (arith, covered_before r lo ivs h.1 lt)

nothing : (r : ℕ) → covered r [] ≡ false
unfolding covered
nothing r = refl

covered_skip :
    (r done : ℕ) (x : Iv) (ivs : List Iv)
    → leb x.hi done ≡ true
    → (leb done r && covered r ivs) ≡ (leb done r && covered r (x ∷ ivs))
unfolding covered
covered_skip r done x ivs skip = ground arith

covered_step :
    (r done : ℕ) (x : Iv) (ivs : List Iv)
    → leb x.hi done ≡ false
    → From x.lo ivs
    → ((leb (if ltb x.lo done then done else x.lo) r && ltb r x.hi)
        || (leb x.hi r && covered r ivs))
      ≡ (leb done r && covered r (x ∷ ivs))
unfolding covered
covered_step r done x ivs visited from = ground (arith, covered_before r x.lo ivs from)

module _ {ℓ κ} {A : Type ℓ} {S : Type κ} (visit : ℕ → A → S → S) where
  -- The specification: every row is looked at, and those that pass the test are visited.
  unfoldable pub fold_if : (ℕ → Bool) → ℕ → List A → S → S
  fold_if p i [] s = s
  fold_if p i (a ∷ rows) s = fold_if p (suc i) rows (if p i then visit i a s else s)

  pub fold_if_congr :
      (p q : ℕ → Bool) (i : ℕ) (rows : List A) (s : S)
      → ((r : ℕ) → i ≤ r → p r ≡ q r)
      → fold_if p i rows s ≡ fold_if q i rows s
  unfolding fold_if
  fold_if_congr p q i [] s h = refl
  fold_if_congr p q i (a ∷ rows) s h =
      rw (h i (omega arith)) (fold_if_congr p q (suc i) rows _ (λ r le. h r (omega arith)))

  fold_if_none :
      (p : ℕ → Bool) (i : ℕ) (rows : List A) (s : S)
      → ((r : ℕ) → i ≤ r → p r ≡ false)
      → fold_if p i rows s ≡ s
  unfolding fold_if
  fold_if_none p i [] s h = refl
  fold_if_none p i (a ∷ rows) s h =
      rw (h i (omega arith)) (fold_if_none p (suc i) rows s (λ r le. h r (omega arith)))

  -- A test that holds before `cut` and one that holds from there on, one after the other.
  fold_if_split :
      (p q : ℕ → Bool) (cut i : ℕ) (rows : List A) (s : S)
      → ((r : ℕ) → r < cut → q r ≡ false)
      → ((r : ℕ) → cut ≤ r → p r ≡ false)
      → fold_if (λ r. p r || q r) i rows s ≡ fold_if q i rows (fold_if p i rows s)
  unfolding fold_if
  fold_if_split p q cut i [] s before after = refl
  fold_if_split p q cut i (a ∷ rows) s before after = elim (Bool-cases (ltb i cut)) [
    | inl lt ↦
        let off = before i (ground arith) in
        elim (Bool-cases (p i)) [
          | inl e ↦ rw (e, off) (fold_if_split p q cut (suc i) rows (visit i a s) before after)
          | inr e ↦ rw (e, off) (fold_if_split p q cut (suc i) rows s before after)
        ]
    | inr ge ↦
        let t = if q i then visit i a s else s in
        let gone = fold_if_none p (suc i) rows s (λ r le. after r (ground arith)) in
        rw (after i (ground arith), gone)
          (fold_if_congr (λ r. p r || q r) q (suc i) rows t
            (λ r le. rw (after r (ground arith)) refl))
  ]

  sweep_rows_lem :
      (n i : ℕ) (rows : List A) (s : S)
      → sweep_rows visit n i rows s ≡ fold_if (λ r. ltb r (i + n)) i rows s
  unfolding fold_if sweep_rows
  sweep_rows_lem zero i rows s = sym (fold_if_none _ i rows s (λ r le. ground arith))
  sweep_rows_lem (suc n) i [] s = refl
  sweep_rows_lem (suc n) i (a ∷ rows) s =
      let first : ltb i (i + suc n) ≡ true = ground arith in
      rw first (
        sweep_rows_lem n (suc i) rows (visit i a s)
        ∙ fold_if_congr _ _ (suc i) rows (visit i a s) (λ r le. ground arith))

  fold_if-drop :
      (p : ℕ → Bool) (n i : ℕ) (rows : List A) (s : S)
      → ((r : ℕ) → r < i + n → p r ≡ false)
      → fold_if p (i + n) (drop n rows) s ≡ fold_if p i rows s
  unfolding fold_if
  fold_if-drop p zero i rows s h = let e : i + 0 ≡ i = omega arith in rw e refl
  fold_if-drop p (suc n) i [] s h = refl
  fold_if-drop p (suc n) i (a ∷ rows) s h =
      let shifted : i + suc n ≡ suc i + n = omega arith in
      rw (shifted, h i (omega arith)) (fold_if-drop p n (suc i) rows s (λ r lt. h r (omega arith)))

  -- One interval as a test of all the rows.
  sweep_interval :
      (lo hi : ℕ) (rows : List A) (s : S)
      → sweep_rows visit (hi - lo) lo (drop lo rows) s
        ≡ fold_if (λ r. leb lo r && ltb r hi) 0 rows s
  sweep_interval lo hi rows s =
      let zero_add : 0 + lo ≡ lo = omega arith in
      sweep_rows_lem (hi - lo) lo (drop lo rows) s
      ∙ fold_if_congr _ (λ r. leb lo r && ltb r hi) lo (drop lo rows) s (λ r le. ground arith)
      ∙ rw zero_add at (fold_if-drop (λ r. leb lo r && ltb r hi) lo 0 rows s (λ r lt. ground arith))

  -- From sorted intervals the sweep visits exactly the rows from `done` on that lie in one of them,
  -- each once, in ascending order.
  pub sweep-covered :
      (rows : List A) (done : ℕ) (ivs : List Iv) (s : S)
      → SortedByLo ivs
      → sweep visit rows done ivs s ≡ fold_if (λ r. leb done r && covered r ivs) 0 rows s
  unfolding sweep
  sweep-covered rows done [] s sorted =
      sym (fold_if_none _ 0 rows s (λ r le. ground (arith, nothing r)))
  sweep-covered rows done (x ∷ ivs) s sorted = elim (Bool-cases (leb x.hi done)) [
    | inl skip ↦ rw skip (
        sweep-covered rows done ivs s sorted.1
        ∙ fold_if_congr _ _ 0 rows s (λ r le. covered_skip r done x ivs skip))
    | inr visited ↦
        let lo = if ltb x.lo done then done else x.lo in
        let swept = sweep_rows visit (x.hi - lo) lo (drop lo rows) s in
        rw visited (
          sweep-covered rows x.hi ivs swept sorted.1
          ∙ rw (sweep_interval lo x.hi rows s) (
              sym (
                fold_if_split (λ r. leb lo r && ltb r x.hi) (λ r. leb x.hi r && covered r ivs) x.hi
                  0 rows s (λ r lt. ground arith) (λ r le. ground arith)))
          ∙ fold_if_congr _ _ 0 rows s (λ r le. covered_step r done x ivs visited sorted.0))
  ]
