-- ===== src/View/Merge/Zip.antt =====
-- snapshot.go: the main loop of `zipMerge`, what it keeps and in which order.
use facetta.Prelude.{
  ℕ, ◌+◌, ◌≤◌, ◌≡◌, refl, Bool, not, ◌&&◌, List, [], ◌∷◌, leb, arith, Bool-cases, inl, inr,
  if◌then◌else◌,
}
use facetta.Prelude.Int.{ℤ}
use facetta.Snapshot.{Row}
use facetta.View.Merge.{dropped_base, dead_row, zip_rows}

-- How many elements pass a test.
unfoldable pub count_if {ℓ} : {A : Type ℓ} → (A → Bool) → List A → ℕ
count_if p [] = 0
count_if p (a ∷ l) = let n = count_if p l in if p a then 1 + n else n

-- No key is below `lo`.
abbrev pub AtLeast {ℓ} : {B : Type ℓ} → ℕ → List (ℕ × B) → Type 0
AtLeast lo [] = Unit
AtLeast lo (e ∷ es) = (lo ≤ e.0) × AtLeast lo es

abbrev pub Ascending {ℓ} : {B : Type ℓ} → List (ℕ × B) → Type 0
Ascending [] = Unit
Ascending (e ∷ es) = AtLeast e.0 es × Ascending es

pub AtLeast-mono {ℓ} :
    {B : Type ℓ} (a b : ℕ) (es : List (ℕ × B)) → a ≤ b → AtLeast b es → AtLeast a es
AtLeast-mono a b [] le h = tt
AtLeast-mono a b (e ∷ es) le h = (omega (arith, h.0), AtLeast-mono a b es le h.1)

module _ {F : Type 0} (cutoff now : ℤ) where
  AtLeast-zip_rows :
      (lo : ℕ) (bs : List (ℕ × (Bool × Row F))) (ds : List (ℕ × Row F))
      → AtLeast lo bs
      → AtLeast lo ds
      → AtLeast lo (zip_rows cutoff now bs ds)
  unfolding zip_rows
  AtLeast-zip_rows lo [] [] hb hd = tt
  AtLeast-zip_rows lo [] (d ∷ ds) hb hd = elim (Bool-cases (dead_row cutoff now d.1)) [
    | inl dead ↦ rw dead (AtLeast-zip_rows lo [] ds tt hd.1)
    | inr live ↦ rw live (hd.0, AtLeast-zip_rows lo [] ds tt hd.1)
  ]
  AtLeast-zip_rows lo (b ∷ bs) [] hb hd = elim (Bool-cases (dropped_base cutoff now b.1)) [
    | inl dead ↦ rw dead (AtLeast-zip_rows lo bs [] hb.1 tt)
    | inr live ↦ rw live (hb.0, AtLeast-zip_rows lo bs [] hb.1 tt)
  ]
  AtLeast-zip_rows lo (b ∷ bs) (d ∷ ds) hb hd = elim (Bool-cases (dropped_base cutoff now b.1)) [
    | inl dead_b ↦ rw (AtLeast, dead_b) (AtLeast-zip_rows lo bs (d ∷ ds) hb.1 hd)
    | inr live_b ↦ elim (Bool-cases (dead_row cutoff now d.1)) [
      | inl dead_d ↦ rw (AtLeast, live_b, dead_d) (AtLeast-zip_rows lo (b ∷ bs) ds hb hd.1)
      | inr live_d ↦ elim (Bool-cases (leb b.0 d.0)) [
        | inl first ↦
            rw (AtLeast, live_b, live_d, first) (hb.0, AtLeast-zip_rows lo bs (d ∷ ds) hb.1 hd)
        | inr second ↦
            rw (AtLeast, live_b, live_d, second) (hd.0, AtLeast-zip_rows lo (b ∷ bs) ds hb hd.1)
      ]
    ]
  ]

  -- Of two tables in ascending key order, the merge is in ascending key order.
  pub zip_rows-Ascending :
      (bs : List (ℕ × (Bool × Row F))) (ds : List (ℕ × Row F))
      → Ascending bs
      → Ascending ds
      → Ascending (zip_rows cutoff now bs ds)
  unfolding zip_rows
  zip_rows-Ascending [] [] hb hd = tt
  zip_rows-Ascending [] (d ∷ ds) hb hd = elim (Bool-cases (dead_row cutoff now d.1)) [
    | inl dead ↦ rw dead (zip_rows-Ascending [] ds tt hd.1)
    | inr live ↦ rw live (AtLeast-zip_rows d.0 [] ds tt hd.0, zip_rows-Ascending [] ds tt hd.1)
  ]
  zip_rows-Ascending (b ∷ bs) [] hb hd = elim (Bool-cases (dropped_base cutoff now b.1)) [
    | inl dead ↦ rw dead (zip_rows-Ascending bs [] hb.1 tt)
    | inr live ↦ rw live (AtLeast-zip_rows b.0 bs [] hb.0 tt, zip_rows-Ascending bs [] hb.1 tt)
  ]
  zip_rows-Ascending (b ∷ bs) (d ∷ ds) hb hd = elim (Bool-cases (dropped_base cutoff now b.1)) [
    | inl dead_b ↦ rw (Ascending, dead_b) (zip_rows-Ascending bs (d ∷ ds) hb.1 hd)
    | inr live_b ↦ elim (Bool-cases (dead_row cutoff now d.1)) [
      | inl dead_d ↦ rw (Ascending, live_b, dead_d) (zip_rows-Ascending (b ∷ bs) ds hb hd.1)
      | inr live_d ↦ elim (Bool-cases (leb b.0 d.0)) [
        | inl first ↦
            let le : b.0 ≤ d.0 = ground arith in
            rw (Ascending, live_b, live_d, first)
              (
                AtLeast-zip_rows b.0 bs (d ∷ ds) hb.0 (le, AtLeast-mono b.0 d.0 ds le hd.0),
                zip_rows-Ascending bs (d ∷ ds) hb.1 hd,
              )
        | inr second ↦
            let le : d.0 ≤ b.0 = ground arith in
            rw (Ascending, live_b, live_d, second)
              (
                AtLeast-zip_rows d.0 (b ∷ bs) ds (le, AtLeast-mono d.0 b.0 bs le hb.0) hd.0,
                zip_rows-Ascending (b ∷ bs) ds hb hd.1,
              )
      ]
    ]
  ]

  -- The merge keeps exactly the base rows that are not overridden, expired or past the TTL, and the
  -- delta rows that are not expired or past the TTL: for every test, as many keyed rows pass it
  -- after the merge as among those.
  pub count_if-zip_rows :
      (p : ℕ × Row F → Bool) (bs : List (ℕ × (Bool × Row F))) (ds : List (ℕ × Row F))
      → count_if p (zip_rows cutoff now bs ds)
        ≡ count_if (λ b. not (dropped_base cutoff now b.1) && p (b.0, b.1.1)) bs
          + count_if (λ d. not (dead_row cutoff now d.1) && p d) ds
  unfolding zip_rows count_if
  count_if-zip_rows p [] [] = refl
  count_if-zip_rows p [] (d ∷ ds) = ground (arith, count_if-zip_rows p [] ds)
  count_if-zip_rows p (b ∷ bs) [] = ground (arith, count_if-zip_rows p bs [])
  count_if-zip_rows p (b ∷ bs) (d ∷ ds) =
      ground (arith, count_if-zip_rows p bs (d ∷ ds), count_if-zip_rows p (b ∷ bs) ds)
