-- ===== src/Prelude/All.antt =====
-- A property of every element of a list.
use mathlib.Core.Path.{◌≡◌, subst}
use mathlib.Core.Bool.{Bool}
use mathlib.Core.Logic.{inl, inr}
use mathlib.Core.Option.{some}
use mathlib.Core.List.{List, [], ◌∷◌, ◌++◌}
use Prim.Native.Nat.{ℕ, zero, suc, ◌<◌}
use native.Mathlib.Omega.{arith}
use facetta.Prelude.Tests.{Bool-cases}
use facetta.Prelude.Lists.{length, get_elem?, get_or, set}
use facetta.Prelude.Sort.{insert_by, sort_into, sort_by}

abbrev pub All {ℓ} : {A : Type ℓ} → (A → Type 0) → List A → Type 0
All P [] = Unit
All P (a ∷ l) = P a × All P l

module _ {ℓ} {A : Type ℓ} (P : A → Type 0) where
  pub All-append : (l : List A) (a : A) → All P l → P a → All P (l ++ a ∷ [])
  All-append [] a h ha = (ha, tt)
  All-append (x ∷ l) a h ha = (h.0, All-append l a h.1 ha)

  pub All-set : (l : List A) (i : ℕ) (a : A) → All P l → (i < length l → P a) → All P (set l i a)
  All-set [] i a h ha = tt
  All-set (x ∷ l) zero a h ha = (ha (omega arith), h.1)
  All-set (x ∷ l) (suc i) a h ha = (h.0, All-set l i a h.1 (λ lt. ha (omega arith)))

  pub All-get_or : (l : List A) (i : ℕ) (d : A) → All P l → i < length l → P (get_or l i d)
  All-get_or [] i d h lt = absurd (omega arith)
  All-get_or (x ∷ l) zero d h lt = h.0
  All-get_or (x ∷ l) (suc i) d h lt = All-get_or l i d h.1 (omega arith)

  pub All-get_elem? : (l : List A) (i : ℕ) (a : A) → All P l → get_elem? l i ≡ some a → P a
  All-get_elem? [] i a h e = cc
  All-get_elem? (x ∷ l) zero a h e = subst P (cc) h.0
  All-get_elem? (x ∷ l) (suc i) a h e = All-get_elem? l i a h.1 e

  module _ (less : A → A → Bool) where
    All-insert_by : (x : A) (l : List A) → P x → All P l → All P (insert_by less x l)
    unfolding insert_by
    All-insert_by x [] hx h = (hx, tt)
    All-insert_by x (y ∷ l) hx h = elim (Bool-cases (less x y)) [
      | inl before ↦ rw before (hx, h)
      | inr after ↦ rw after (h.0, All-insert_by x l hx h.1)
    ]

    All-sort_into : (out l : List A) → All P out → All P l → All P (sort_into less out l)
    unfolding sort_into
    All-sort_into out [] h h' = h
    All-sort_into out (x ∷ l) h h' =
        All-sort_into (insert_by less x out) l (All-insert_by x out h'.0 h) h'.1

    pub All-sort_by : (l : List A) → All P l → All P (sort_by less l)
    unfolding sort_by
    All-sort_by l h = All-sort_into [] l tt h
