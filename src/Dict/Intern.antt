-- ===== src/Dict/Intern.antt =====
-- The map and the slice of a dictionary are inverse to one another, over any type of values.
use facetta.Prelude.{
  ℕ, zero, suc, ◌^◌, ◌<◌, ◌≡◌, refl, ap, ◌⊎◌, none, some, List, [], ◌∷◌, ◌++◌, length, get_elem?,
  arith, Bool-cases, inl, inr, if◌then◌else◌,
}
use facetta.Prelude.Maps.{Eq, find, put}
use native.Mathlib.Nat.{mod-eq_of_lt}
use facetta.Dict.{u32}

module _ {ℓ} {A : Type ℓ} where
  pub get_elem?-append_left :
      (l r : List A) (i : ℕ) (a : A) → get_elem? l i ≡ some a → get_elem? (l ++ r) i ≡ some a
  get_elem?-append_left [] r i a h = cc
  get_elem?-append_left (x ∷ l) r zero a h = h
  get_elem?-append_left (x ∷ l) r (suc i) a h = get_elem?-append_left l r i a h

  pub get_elem?-append_end : (l : List A) (a : A) → get_elem? (l ++ a ∷ []) (length l) ≡ some a
  get_elem?-append_end [] a = refl
  get_elem?-append_end (x ∷ l) a = get_elem?-append_end l a

  -- An entry of an extended slice is an old one, or the new one at the end.
  pub get_elem?-append_inv :
      (l : List A) (a : A) (i : ℕ) (b : A)
      → get_elem? (l ++ a ∷ []) i ≡ some b
      → (get_elem? l i ≡ some b) ⊎ ((i ≡ length l) × (a ≡ b))
  get_elem?-append_inv [] a zero b h = inr (refl, cc)
  get_elem?-append_inv [] a (suc i) b h = cc
  get_elem?-append_inv (x ∷ l) a zero b h = inl h
  get_elem?-append_inv (x ∷ l) a (suc i) b h = elim (get_elem?-append_inv l a i b h) [
    | inl old ↦ inl old
    | inr (e, q) ↦ inr (ap suc e, q)
  ]

  pub get_elem?-lt-length : (l : List A) (i : ℕ) (a : A) → get_elem? l i ≡ some a → i < length l
  get_elem?-lt-length [] i a h = cc
  get_elem?-lt-length (x ∷ l) zero a h = omega arith
  get_elem?-lt-length (x ∷ l) (suc i) a h = omega (arith, get_elem?-lt-length l i a h)

module _ {ℓ} {K : Type ℓ} ⦃e : Eq K⦄ where
  pub find-put :
      (j k : K) (v : ℕ) (m : List (K × ℕ))
      → find j (put k v m) ≡ (if e.eqb k j then some v else find j m)
  find-put j k v m = refl

  pub record IsInterned (ids : List (K × ℕ)) (keys : List K) : Type ℓ where
    pub sound : (k : K) (i : ℕ) → find k ids ≡ some i → get_elem? keys i ≡ some k
    pub complete : (k : K) (i : ℕ) → get_elem? keys i ≡ some k → find k ids ≡ some i

  pub IsInterned-empty : IsInterned [] []
  IsInterned-empty = record { sound = λ k i h. cc; complete = λ k i h. cc }

  module _ (ids : List (K × ℕ)) (keys : List K) (k : K) (inv : IsInterned ids keys) where
    add_sound :
        length keys < 2 ^ 32
        → (j : K) (i : ℕ) → find j (put k (u32 (length keys)) ids) ≡ some i
        → get_elem? (keys ++ k ∷ []) i ≡ some j
    add_sound small j i h = elim (Bool-cases (e.eqb k j)) [
      | inl same ↦
          let found : some (u32 (length keys)) ≡ some i = rw same at h in
          let index : i ≡ length keys = ground (arith, mod-eq_of_lt small) in
          rw (index, ← (e.eqb_iff k j).0 same) (get_elem?-append_end keys k)
      | inr differ ↦
          let found : find j ids ≡ some i = rw differ at h in
          get_elem?-append_left keys (k ∷ []) i j (inv.sound j i found)
    ]

    add_complete :
        find k ids ≡ none
        → length keys < 2 ^ 32
        → (j : K) (i : ℕ) → get_elem? (keys ++ k ∷ []) i ≡ some j
        → find j (put k (u32 (length keys)) ids) ≡ some i
    add_complete fresh small j i h = elim (get_elem?-append_inv keys k i j h) [
      | inl old ↦
          let found = inv.complete j i old in
          elim (Bool-cases (e.eqb k j)) [
            | inl same ↦ cc ((e.eqb_iff k j).0 same, ap (λ x. find x ids) ((e.eqb_iff k j).0 same))
            | inr differ ↦ rw differ found
          ]
      | inr (index, same) ↦
          let word : u32 (length keys) ≡ i = omega (arith, mod-eq_of_lt small) in
          rw (word, (e.eqb_iff k j).1 same) refl
    ]

    pub IsInterned-add :
        find k ids ≡ none
        → length keys < 2 ^ 32
        → IsInterned (put k (u32 (length keys)) ids) (keys ++ k ∷ [])
    IsInterned-add fresh small = record {
      sound = add_sound small;
      complete = add_complete fresh small;
    }
