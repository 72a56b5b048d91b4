-- ===== src/Query/Resolve/Windows.antt =====
-- Closing an IN window: its candidates are sorted, and stand behind the pool of the earlier windows.
use facetta.Prelude.{
  ℕ, zero, suc, ◌+◌, ◌≤◌, ◌<◌, ◌≡◌, refl, ap, ◌&&◌, List, [], ◌∷◌, ◌++◌, length, map, get_or, take,
  drop, ltb, arith, Bool-cases, inl, inr,
}
use facetta.Prelude.Sort.{insert_by, sort_into, sort_by}
use facetta.Dict.{Dict, len}
use facetta.Keys.Widths.{Below}
use facetta.View.{dict_at}
use facetta.Query.{InWindow, slice}
use facetta.Query.Match.{match_ins, id_at}
use facetta.Query.Match.Probe.{AscendingIds}

-- No id is below `lo`, and the ids ascend.
abbrev IdsFrom : ℕ → List ℕ → Type 0
IdsFrom lo [] = Unit
IdsFrom lo (x ∷ l) = (lo ≤ x) × IdsFrom x l

insert_by-IdsFrom : (lo x : ℕ) (l : List ℕ) → lo ≤ x → IdsFrom lo l → IdsFrom lo (insert_by ltb x l)
unfolding insert_by
insert_by-IdsFrom lo x [] le h = (le, tt)
insert_by-IdsFrom lo x (y ∷ l) le h = elim (Bool-cases (ltb x y)) [
  | inl before ↦ rw before (le, (ground arith, h.1))
  | inr after ↦ rw after (h.0, insert_by-IdsFrom y x l (ground arith) h.1)
]

sort_into-IdsFrom : (out l : List ℕ) → IdsFrom 0 out → IdsFrom 0 (sort_into ltb out l)
unfolding sort_into
sort_into-IdsFrom out [] h = h
sort_into-IdsFrom out (x ∷ l) h =
    sort_into-IdsFrom (insert_by ltb x out) l (insert_by-IdsFrom 0 x out (omega arith) h)

IdsFrom-head : (lo : ℕ) (l : List ℕ) (j : ℕ) → IdsFrom lo l → j < length l → lo ≤ get_or l j 0
IdsFrom-head lo [] j h lt = absurd (omega arith)
IdsFrom-head lo (x ∷ l) zero h lt = h.0
IdsFrom-head lo (x ∷ l) (suc j) h lt = omega (arith, h.0, IdsFrom-head x l j h.1 (omega arith))

IdsFrom-ascending : (lo : ℕ) (l : List ℕ) → IdsFrom lo l → AscendingIds l
IdsFrom-ascending lo [] h i j le lt = absurd (omega arith)
IdsFrom-ascending lo (x ∷ l) h zero zero le lt = omega arith
IdsFrom-ascending lo (x ∷ l) h (suc i) zero le lt = absurd (omega arith)
IdsFrom-ascending lo (x ∷ l) h zero (suc j) le lt = IdsFrom-head x l j h.1 (omega arith)
IdsFrom-ascending lo (x ∷ l) h (suc i) (suc j) le lt =
    IdsFrom-ascending x l h.1 i j (omega arith) (omega arith)

length-insert_by : (x : ℕ) (l : List ℕ) → length (insert_by ltb x l) ≡ suc (length l)
unfolding insert_by
length-insert_by x [] = refl
length-insert_by x (y ∷ l) = elim (Bool-cases (ltb x y)) [
  | inl before ↦ rw before refl
  | inr after ↦ rw after (ap suc (length-insert_by x l))
]

length-sort_into : (out l : List ℕ) → length (sort_into ltb out l) ≡ length out + length l
unfolding sort_into
length-sort_into out [] = omega arith
length-sort_into out (x ∷ l) =
    omega (arith, length-sort_into (insert_by ltb x out) l, length-insert_by x out)

pub sorted_ascending : (l : List ℕ) → AscendingIds (sort_by ltb l)
unfolding sort_by
sorted_ascending l = IdsFrom-ascending 0 (sort_into ltb [] l) (sort_into-IdsFrom [] l tt)

pub length-sort_by : (l : List ℕ) → length (sort_by ltb l) ≡ length l
unfolding sort_by
length-sort_by l = omega (arith, length-sort_into [] l)

take_all : {A : Type 0} (n : ℕ) (l : List A) → n ≡ length l → take n l ≡ l
take_all zero [] h = refl
take_all zero (x ∷ l) h = absurd (omega arith)
take_all (suc n) [] h = refl
take_all (suc n) (x ∷ l) h = ap (◌∷◌ x) (take_all n l (omega arith))

pub drop-length : {A : Type 0} (l more : List A) → drop (length l) (l ++ more) ≡ more
drop-length [] more = refl
drop-length (x ∷ l) more = drop-length l more

-- The part of a pool that stands behind an earlier pool.
pub slice-more :
    {A : Type 0} (l more : List A) (n : ℕ) → n ≡ length more → slice (l ++ more) (length l) n ≡ more
slice-more l more n h = rw (drop-length l more) (take_all n more h)

-- A row of the base: an id of its dictionary for each dimension.
pub record IsBaseRow (nd : ℕ) (dicts : List Dict) (ids : List ℕ) : Type 0 where
  pub known : Below (map len dicts) ids
  pub full : length ids ≡ nd

Below-get_or :
    (ds : List Dict) (ids : List ℕ) (d : ℕ)
    → Below (map len ds) ids
    → d < length ids
    → id_at ids d < len (dict_at ds d)
Below-get_or ds [] d h lt = absurd (omega arith)
Below-get_or [] (i ∷ ids) d h lt = absurd h
Below-get_or (x ∷ ds) (i ∷ ids) zero h lt = h.0
Below-get_or (x ∷ ds) (i ∷ ids) (suc d) h lt = Below-get_or ds ids d h.1 (omega arith)

pub id_known :
    (nd : ℕ) (ds : List Dict) (ids : List ℕ) (d : ℕ)
    → IsBaseRow nd ds ids
    → d < nd
    → id_at ids d < len (dict_at ds d)
id_known nd ds ids d h lt = Below-get_or ds ids d h.known (omega (arith, h.full))

pub match_ins-append :
    (ws vs : List InWindow) (pool ids : List ℕ)
    → match_ins (ws ++ vs) pool ids ≡ (match_ins ws pool ids && match_ins vs pool ids)
unfolding match_ins
match_ins-append [] vs pool ids = refl
match_ins-append (w ∷ ws) vs pool ids = ground (arith, match_ins-append ws vs pool ids)
