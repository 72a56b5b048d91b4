-- ===== src/Query/Match/Probe.antt =====
-- query.go: `matchOneIn`, whose binary search agrees with the linear probe.
use facetta.Prelude.{
  ℕ, zero, suc, ◌≤◌, ◌<◌, ◌≡◌, refl, sym, ◌∙◌, ◌↔◌, true, List, [], ◌∷◌, length, get_or, ltb, leb,
  ◌==◌, ==_iff, arith, Bool-cases, inl, inr,
}
use facetta.Prelude.Search.{search, search-IsFirst, IsFirst}
use facetta.Query.{InWindow, slice}
use facetta.Query.Match.{linear_probe, binary_probe, match_one_in, in_linear_max}

abbrev pub AscendingIds : List ℕ → Type 0
AscendingIds seg = (i j : ℕ) → i ≤ j → j < length seg → get_or seg i 0 ≤ get_or seg j 0

pub linear_probe-found :
    (seg : List ℕ) (i id : ℕ) → i < length seg → get_or seg i 0 ≡ id → linear_probe seg id ≡ true
unfolding linear_probe
linear_probe-found [] i id h e = absurd (omega arith)
linear_probe-found (c ∷ seg) zero id h e = ground arith
linear_probe-found (c ∷ seg) (suc i) id h e =
    ground (arith, linear_probe-found seg i id (omega arith) e)

pub linear_probe-index :
    (seg : List ℕ) (id : ℕ)
    → linear_probe seg id ≡ true
    → (i : ℕ) × (i < length seg) × (get_or seg i 0 ≡ id)
unfolding linear_probe
linear_probe-index [] id h = ground arith
linear_probe-index (c ∷ seg) id h = elim (Bool-cases (id == c)) [
  | inl same ↦ (0, omega arith, sym ((==_iff id c).0 same))
  | inr other ↦ let (i, lt, e) = linear_probe-index seg id (ground arith) in (suc i, omega arith, e)
]

module _ (seg : List ℕ) (id : ℕ) (ascending : AscendingIds seg) where
  found_at : ℕ
  found_at = search (length seg) (λ h. leb id (get_or seg h 0))

  is_first : IsFirst (length seg) (λ h. leb id (get_or seg h 0)) found_at
  unfolding found_at
  is_first =
      search-IsFirst (length seg) (λ h. leb id (get_or seg h 0))
        (λ i j le lt h. ground (arith, ascending i j le lt))

  binary_finds :
      (i : ℕ)
      → i < length seg
      → get_or seg i 0 ≡ id
      → (found_at < length seg) × (get_or seg found_at 0 ≡ id)
  binary_finds i lt e =
      let (bound, before, from) = is_first in
      elim (Bool-cases (ltb i found_at)) [
        | inl early ↦ cc (before i (ground arith), ground_true i e)
        | inr late ↦
            let le : found_at ≤ i = ground arith in
            let hit = from found_at (omega arith) (omega arith) in
            (omega arith, ground (arith, hit, ascending found_at i le lt))
      ]
    where
      ground_true : (i : ℕ) → get_or seg i 0 ≡ id → leb id (get_or seg i 0) ≡ true
      ground_true i e = ground arith

  -- On an ascending segment the binary search finds an id exactly if the linear probe does.
  binary_probe-linear_probe : binary_probe seg id ≡ linear_probe seg id
  unfolding binary_probe found_at
  binary_probe-linear_probe = elim (Bool-cases (linear_probe seg id)) [
    | inl hit ↦
        let (i, lt, e) = linear_probe-index seg id hit in
        let (bound, same) = binary_finds i lt e in rw hit (ground (arith, bound, same))
    | inr miss ↦ elim (Bool-cases (binary_probe seg id)) [
      | inl found ↦ cc (miss, linear_probe-found seg found_at id (ground arith) (ground arith))
      | inr absent ↦ absent ∙ sym miss
    ]
  ]

pub match_one_in-probe :
    (w : InWindow) (pool : List ℕ) (id : ℕ)
    → AscendingIds (slice pool w.off w.n)
    → match_one_in w pool id ≡ linear_probe (slice pool w.off w.n) id
unfolding match_one_in
match_one_in-probe w pool id ascending =
    elim (Bool-cases (leb (length (slice pool w.off w.n)) in_linear_max)) [
      | inl few ↦ rw few refl
      | inr many ↦ rw many (binary_probe-linear_probe (slice pool w.off w.n) id ascending)
    ]

-- `matchOneIn` decides membership of an id in the window's slice of the pool, by whichever of its
-- two probes, if the slice is ascending.
pub match_one_in-linear_probe :
    (w : InWindow) (pool : List ℕ) (id : ℕ)
    → AscendingIds (slice pool w.off w.n)
    → (match_one_in w pool id ≡ true)
      ↔ ((i : ℕ) × (i < length (slice pool w.off w.n)) × (get_or (slice pool w.off w.n) i 0 ≡ id))
match_one_in-linear_probe w pool id ascending = (
  λ h.
      linear_probe-index (slice pool w.off w.n) id
        (sym (match_one_in-probe w pool id ascending) ∙ h),
  λ (i, lt, e).
      match_one_in-probe w pool id ascending ∙ linear_probe-found (slice pool w.off w.n) i id lt e,
)
