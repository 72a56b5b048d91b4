-- ===== src/Prelude/Search.antt =====
-- `sort.Search(n, f)` and `slices.BinarySearch`: binary search for the first index where a
-- predicate holds. The fuel `n` is enough, since each round shortens the interval.
use Prim.Native.Nat.{ℕ, zero, suc, ◌+◌, ◌/◌, ◌≤◌, ◌<◌}
use mathlib.Core.Path.{◌≡◌}
use mathlib.Core.Bool.{Bool, true, false}
use mathlib.Core.Logic.{inl, inr}
use native.Mathlib.Omega.{arith}
use facetta.Prelude.Tests.{ltb, if◌then◌else◌, Bool-cases}

pub search_loop : ℕ → (ℕ → Bool) → ℕ → ℕ → ℕ
search_loop zero f i j = i
search_loop (suc fuel) f i j =
    let h = (i + j) / 2 in
    let right = search_loop fuel f (h + 1) j in
    let left = search_loop fuel f i h in if ltb i j then (if f h then left else right) else i

unfoldable pub search : ℕ → (ℕ → Bool) → ℕ
unfolding search_loop
search n f = search_loop n f 0 n

-- `f` changes from false to true at most once below `n`.
abbrev pub IsMonotone : ℕ → (ℕ → Bool) → Type 0
IsMonotone n f = (i j : ℕ) → i ≤ j → j < n → f i ≡ true → f j ≡ true

-- What a search returns: the first index where `f` holds, or `n`.
abbrev pub IsFirst : ℕ → (ℕ → Bool) → ℕ → Type 0
IsFirst n f r = (r ≤ n) × ((i : ℕ) → i < r → f i ≡ false) × ((i : ℕ) → r ≤ i → i < n → f i ≡ true)

-- A monotone predicate that fails at `j` fails before it.
earlier_false :
    (n : ℕ) (f : ℕ → Bool) → IsMonotone n f → (i j : ℕ) → i ≤ j → j < n → f j ≡ false → f i ≡ false
earlier_false n f mono i j le lt miss = elim (Bool-cases (f i)) [
  | inr e ↦ e
  | inl e ↦ cc (mono i j le lt e)
]

search_loop-IsFirst :
    (n : ℕ) (f : ℕ → Bool)
    → IsMonotone n f
    → (fuel i j : ℕ) → j ≤ i + fuel
    → i ≤ j
    → j ≤ n
    → ((k : ℕ) → k < i → f k ≡ false)
    → ((k : ℕ) → j ≤ k → k < n → f k ≡ true)
    → IsFirst n f (search_loop fuel f i j)
unfolding search_loop
search_loop-IsFirst n f mono zero i j room ij jn below above =
    (omega arith, below, λ k p q. above k (omega arith) q)
search_loop-IsFirst n f mono (suc fuel) i j room ij jn below above =
    let h = (i + j) / 2 in
    elim (Bool-cases (ltb i j)) [
      | inr done ↦ rw done (omega arith, below, λ k p q. above k (ground arith) q)
      | inl more ↦ elim (Bool-cases (f h)) [
        | inl hit ↦
            rw (more, hit)
              (search_loop-IsFirst n f mono fuel i h (ground arith) (ground arith) (ground arith)
                below (λ k p q. mono h k p q hit))
        | inr miss ↦
            rw (more, miss)
              (search_loop-IsFirst n f mono fuel (h + 1) j (ground arith) (ground arith) jn
                (λ k p. earlier_false n f mono k h (ground arith) (ground arith) miss) above)
      ]
    ]

pub search-IsFirst : (n : ℕ) (f : ℕ → Bool) → IsMonotone n f → IsFirst n f (search n f)
unfolding search
search-IsFirst n f mono =
    search_loop-IsFirst n f mono n 0 n (omega arith) (omega arith) (omega arith)
      (λ k p. absurd (omega arith)) (λ k p q. absurd (omega arith))
