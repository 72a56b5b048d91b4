-- ===== src/Query/Sweep/Budget.antt =====
-- The scan budget counts the rows that the sweep visits.
use facetta.Prelude.{
  ℕ, zero, suc, ◌+◌, ◌-◌, ◌≤◌, ◌≡◌, List, [], ◌∷◌, length, drop, length-drop, leb, ltb, arith,
  if◌then◌else◌, Bool-cases, inl, inr,
}
use facetta.Query.{Iv}
use facetta.Query.Sweep.{sweep, sweep_rows, scan_rows}

-- No interval ends behind the last row.
abbrev pub Within : ℕ → List Iv → Type 0
Within n [] = Unit
Within n (x ∷ ivs) = (x.hi ≤ n) × Within n ivs

module _ {ℓ} {A : Type ℓ} where
  -- A visit that counts.
  pub tick : ℕ → A → ℕ → ℕ
  tick r a n = suc n

  sweep_rows-tick :
      (n r : ℕ) (rows : List A) (c : ℕ) → n ≤ length rows → sweep_rows tick n r rows c ≡ c + n
  unfolding sweep_rows tick
  sweep_rows-tick zero r rows c h = omega arith
  sweep_rows-tick (suc n) r [] c h = absurd (omega arith)
  sweep_rows-tick (suc n) r (a ∷ rows) c h =
      omega (arith, sweep_rows-tick n (suc r) rows (suc c) (omega arith))

  -- For intervals within the table, the rows that the budget counts behind the mark are as many as
  -- the rows that the sweep visits behind it, overlaps counted once.
  pub sweep-scan_rows :
      (rows : List A) (done : ℕ) (ivs : List Iv) (c : ℕ)
      → Within (length rows) ivs
      → sweep tick rows done ivs c ≡ c + scan_rows done ivs
  unfolding sweep scan_rows
  sweep-scan_rows rows done [] c h = omega arith
  sweep-scan_rows rows done (x ∷ ivs) c h = elim (Bool-cases (leb x.hi done)) [
    | inl skip ↦ rw skip (sweep-scan_rows rows done ivs c h.1)
    | inr visited ↦
        let lo = if ltb x.lo done then done else x.lo in
        let n = x.hi - lo in
        let fits : n ≤ length (drop lo rows) = omega (arith, length-drop lo rows, h.0) in
        rw (visited, sweep_rows-tick n lo (drop lo rows) c fits)
          (omega (arith, sweep-scan_rows rows x.hi ivs (c + n) h.1))
  ]
