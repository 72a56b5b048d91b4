-- ===== src/GroupBy/Output.antt =====
-- groupby.go: the sort of the groups and the flat layout of the result.
pub mod Layout
pub mod Rectangle
pub mod Keyed
use facetta.Prelude.{
  ℕ, zero, suc, ◌+◌, ◌*◌, ◌≤◌, ◌<◌, ◌≡◌, refl, sym, ap, ◌∙◌, Bool, true, false, some, List, [], ◌∷◌,
  ◌++◌, length, map, take, drop, get_elem?, take-append, drop-append, ltb, ◌==◌, arith, Bool-cases,
  inl, inr, if◌then◌else◌,
}
use facetta.Prelude.Maps.{Str, eqb_str, eqb_str_iff, eqb_str_refl}
use facetta.Prelude.Sort.{insert_by, sort_into, sort_by}
use facetta.Float.{Float64}
use facetta.Agg.{Column}
use facetta.View.Merge.Zip.{count_if}
use facetta.GroupBy.{
  Grouping, GroupedResult, ltb_str, keys_before, flatten, entries, group_before, finish_groups,
  sorted_entries, output,
}

module _ {ℓ} {A : Type ℓ} (less : A → A → Bool) where
  -- No element comes before the one in front of it.
  abbrev pub InOrder : List A → Type 0
  InOrder [] = Unit
  InOrder (a ∷ []) = Unit
  InOrder (a ∷ b ∷ l) = (less b a ≡ false) × InOrder (b ∷ l)

  module _ (asym : (a b : A) → less a b ≡ true → less b a ≡ false) where
    InOrder-insert_behind :
        (y x : A) (l : List A)
        → less x y ≡ false
        → InOrder (y ∷ l)
        → InOrder (insert_by less x l)
        → InOrder (y ∷ insert_by less x l)
    unfolding insert_by
    InOrder-insert_behind y x [] after h rec = (after, tt)
    InOrder-insert_behind y x (z ∷ l) after h rec = elim (Bool-cases (less x z)) [
      | inl before ↦ rw before (after, rw before at rec)
      | inr behind ↦ rw behind (h.0, rw behind at rec)
    ]

    InOrder-insert_by : (x : A) (l : List A) → InOrder l → InOrder (insert_by less x l)
    unfolding insert_by
    InOrder-insert_by x [] h = tt
    InOrder-insert_by x (y ∷ l) h = elim (Bool-cases (less x y)) [
      | inl before ↦ rw before (asym x y before, h)
      | inr behind ↦
          rw behind (InOrder-insert_behind y x l behind h (InOrder-insert_by x l (tail y l h)))
    ]
      where
        tail : (y : A) (l : List A) → InOrder (y ∷ l) → InOrder l
        tail y [] h = tt
        tail y (z ∷ l) h = h.1

    InOrder-sort_into : (out l : List A) → InOrder out → InOrder (sort_into less out l)
    unfolding sort_into
    InOrder-sort_into out [] h = h
    InOrder-sort_into out (x ∷ l) h =
        InOrder-sort_into (insert_by less x out) l (InOrder-insert_by x out h)

    pub InOrder-sort_by : (l : List A) → InOrder (sort_by less l)
    unfolding sort_by
    InOrder-sort_by l = InOrder-sort_into [] l tt

  module _ (p : A → Bool) where
    count_if-insert_by : (x : A) (l : List A) → count_if p (insert_by less x l) ≡ count_if p (x ∷ l)
    unfolding insert_by count_if
    count_if-insert_by x [] = refl
    count_if-insert_by x (y ∷ l) = ground (arith, count_if-insert_by x l)

    count_if-sort_into :
        (out l : List A) → count_if p (sort_into less out l) ≡ count_if p out + count_if p l
    unfolding sort_into count_if
    count_if-sort_into out [] = omega arith
    count_if-sort_into out (x ∷ l) =
        ground (arith, count_if-sort_into (insert_by less x out) l, count_if-insert_by x out)

    pub count_if-sort_by : (l : List A) → count_if p (sort_by less l) ≡ count_if p l
    unfolding sort_by count_if
    count_if-sort_by l = omega (arith, count_if-sort_into [] l)

ltb_str_asym : (s t : Str) → ltb_str s t ≡ true → ltb_str t s ≡ false
unfolding ltb_str
ltb_str_asym s [] h = cc
ltb_str_asym [] (b ∷ t) h = refl
ltb_str_asym (a ∷ s) (b ∷ t) h = ground (arith, ltb_str_asym s t)

eqb_str_comm : (s t : Str) → eqb_str s t ≡ eqb_str t s
eqb_str_comm [] [] = refl
eqb_str_comm [] (b ∷ t) = refl
eqb_str_comm (a ∷ s) [] = refl
eqb_str_comm (a ∷ s) (b ∷ t) = ground (arith, eqb_str_comm s t)

pub keys_before_asym : (ka kb : List Str) → keys_before ka kb ≡ true → keys_before kb ka ≡ false
unfolding keys_before
keys_before_asym [] kb h = cc
keys_before_asym (a ∷ ka) [] h = cc
keys_before_asym (a ∷ ka) (b ∷ kb) h =
    ground (arith, eqb_str_comm a b, keys_before_asym ka kb, ltb_str_asym a b)

-- The rows of a flat slice can be cut out again at multiples of their length.
pub take-flatten {ℓ} :
    {A : Type ℓ} (w : ℕ) (ls : List (List A)) (i : ℕ) (l : List A)
    → ((k : ℕ) (m : List A) → get_elem? ls k ≡ some m → length m ≡ w)
    → get_elem? ls i ≡ some l
    → take w (drop (i * w) (flatten ls)) ≡ l
unfolding flatten
take-flatten w [] i l h e = cc
take-flatten w (m ∷ ls) zero l h e =
    let first : m ≡ l = cc in
    let start : 0 * w ≡ 0 = omega arith in
    rw (start, first) (take-append w l (flatten ls) (h 0 l (cc)))
take-flatten w (m ∷ ls) (suc i) l h e =
    let start : suc i * w ≡ w + i * w = grind arith in
    rw start (
      ap (take w) (drop-append w (i * w) m (flatten ls) (h 0 m refl))
      ∙ take-flatten w ls i l (λ k n q. h (suc k) n q) e)
