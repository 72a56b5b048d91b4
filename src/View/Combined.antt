-- ===== src/View/Combined.antt =====
-- view.go: the ids of a view number the values of the base and, behind them, those of the extras.
use facetta.Prelude.{
  ℕ, zero, suc, ◌+◌, ◌-◌, ◌^◌, ◌≤◌, ◌<◌, ◌≡◌, refl, sym, ap, ◌∙◌, ◌⊎◌, false, Option, none, some,
  List, [], ◌∷◌, ◌++◌, length, get_elem?, get_or, leb, ◌==◌, ==_iff, arith, Bool-cases, inl, inr,
  if◌then◌else◌,
}
use native.Mathlib.Nat.{mod-eq_of_lt}
use facetta.Prelude.Maps.{Eq, find, str_eq, int_eq}
use facetta.Dict.{u32}
use facetta.Dict.Intern.{IsInterned, get_elem?-append_left, get_elem?-lt-length}
use facetta.View.{in_extras, or_extras}

module _ {ℓ} {A : Type ℓ} where
  get_elem?-append_right :
      (l r : List A) (i : ℕ) → get_elem? (l ++ r) (length l + i) ≡ get_elem? r i
  get_elem?-append_right [] r i = ap (get_elem? r) (omega arith)
  get_elem?-append_right (x ∷ l) r i =
      let step : suc (length l) + i ≡ suc (length l + i) = omega arith in
      rw step (get_elem?-append_right l r i)

  get_elem?-get_or :
      (l : List A) (i : ℕ) (d : A) → i < length l → get_elem? l i ≡ some (get_or l i d)
  get_elem?-get_or [] i d h = absurd (omega arith)
  get_elem?-get_or (x ∷ l) zero d h = refl
  get_elem?-get_or (x ∷ l) (suc i) d h = get_elem?-get_or l i d (omega arith)

  get_elem?-append_cases :
      (l r : List A) (i : ℕ) (a : A)
      → get_elem? (l ++ r) i ≡ some a
      → (get_elem? l i ≡ some a) ⊎ ((length l ≤ i) × (get_elem? r (i - length l) ≡ some a))
  get_elem?-append_cases [] r i a h = inr (omega arith, ap (get_elem? r) (omega arith) ∙ h)
  get_elem?-append_cases (x ∷ l) r zero a h = inl h
  get_elem?-append_cases (x ∷ l) r (suc i) a h = elim (get_elem?-append_cases l r i a h) [
    | inl old ↦ inl old
    | inr (le, new) ↦ inr (omega arith, ap (get_elem? r) (omega arith) ∙ new)
  ]

module _ {ℓ} {K : Type ℓ} ⦃e : Eq K⦄ (ids : List (K × ℕ)) (keys : List K) (own : List (K × ℕ))
    (new : List K) (base : IsInterned ids keys) (extra : IsInterned own new)
    (apart : (k : K) (i : ℕ) → find k own ≡ some i → find k ids ≡ none)
    (small : length keys + length new < 2 ^ 32) where
  -- `lookupID` in the two maps.
  abbrev pub find_both : K → Option ℕ
  find_both k = or_extras (find k ids) (in_extras (length keys) (find k own))

  word_lem : (i : ℕ) → i < length new → u32 (u32 (length keys) + i) ≡ length keys + i
  word_lem i lt =
      let inner : length keys < 2 ^ 32 = omega arith in
      let outer : length keys + i < 2 ^ 32 = omega arith in
      rw (mod-eq_of_lt inner) (mod-eq_of_lt outer)

  find_both_sound :
      (k : K) (id : ℕ) (o p : Option ℕ)
      → find k ids ≡ o
      → find k own ≡ p
      → or_extras o (in_extras (length keys) p) ≡ some id
      → get_elem? (keys ++ new) id ≡ some k
  unfolding or_extras in_extras
  find_both_sound k id (some i) p at at' h =
      get_elem?-append_left keys new id k (base.sound k id (at ∙ h))
  find_both_sound k id none none at at' h = cc
  find_both_sound k id none (some j) at at' h =
      let there = extra.sound k j at' in
      let word = word_lem j (get_elem?-lt-length new j k there) in
      let same : some (u32 (u32 (length keys) + j)) ≡ some id = h in
      let index : length keys + j ≡ id = cc (same, word) in
      rw (← index) (get_elem?-append_right keys new j ∙ there)

  find_both_complete : (k : K) (a : ℕ) → get_elem? (keys ++ new) a ≡ some k → find_both k ≡ some a
  unfolding or_extras in_extras
  find_both_complete k a h = elim (get_elem?-append_cases keys new a k h) [
    | inl old ↦ rw (base.complete k a old) refl
    | inr (le, fresh) ↦
        let found = extra.complete k (a - length keys) fresh in
        let lt = get_elem?-lt-length new (a - length keys) k fresh in
        let index : length keys + (a - length keys) ≡ a = omega arith in
        rw (apart k (a - length keys) found, found, word_lem (a - length keys) lt, index) refl
  ]

  -- The value of a combined id.
  abbrev pub value_both : K → ℕ → K
  value_both d a =
      if leb (u32 (length keys)) a then get_or new (a - u32 (length keys)) d else get_or keys a d

  value_both-get_elem? :
      (d : K) (a : ℕ)
      → a < length keys + length new
      → get_elem? (keys ++ new) a ≡ some (value_both d a)
  value_both-get_elem? d a lt =
      let inner : length keys < 2 ^ 32 = omega arith in
      rw (mod-eq_of_lt inner) (elim (Bool-cases (leb (length keys) a)) [
        | inl above ↦
            let index : length keys + (a - length keys) ≡ a = ground arith in
            rw above (
              ap (get_elem? (keys ++ new)) (sym index)
              ∙ get_elem?-append_right keys new (a - length keys)
              ∙ get_elem?-get_or new (a - length keys) d (ground arith))
        | inr below ↦ rw below (
            get_elem?-append_left keys new a (get_or keys a d)
              (get_elem?-get_or keys a d (ground arith)))
      ])

  -- An id is the one that a value resolves to exactly if the value is its own.
  pub find_both_found :
      (d k : K) (a id : ℕ)
      → a < length keys + length new
      → find_both k ≡ some id
      → (a == id) ≡ e.eqb (value_both d a) k
  find_both_found d k a id lt h =
      let at = value_both-get_elem? d a lt in
      elim (Bool-cases (e.eqb (value_both d a) k)) [
        | inl same ↦
            let value = (e.eqb_iff (value_both d a) k).0 same in
            let found = find_both_complete k a (at ∙ ap some value) in
            let index : a ≡ id = cc (found, h) in rw same ((==_iff a id).1 index)
        | inr other ↦ elim (Bool-cases (a == id)) [
          | inr differ ↦ rw (other, differ) refl
          | inl hit ↦
              let index = (==_iff a id).0 hit in
              let there = find_both_sound k id (find k ids) (find k own) refl refl h in
              let here : some (value_both d a) ≡ some k =
                sym at ∙ ap (get_elem? (keys ++ new)) index ∙ there in
              cc (other, (e.eqb_iff (value_both d a) k).1 (cc here))
        ]
      ]

  pub find_both_missing :
      (d k : K) (a : ℕ)
      → a < length keys + length new
      → find_both k ≡ none
      → e.eqb (value_both d a) k ≡ false
  find_both_missing d k a lt h = elim (Bool-cases (e.eqb (value_both d a) k)) [
    | inr other ↦ other
    | inl same ↦
        let value = (e.eqb_iff (value_both d a) k).0 same in
        let found = find_both_complete k a (value_both-get_elem? d a lt ∙ ap some value) in
        cc (found, h)
  ]
