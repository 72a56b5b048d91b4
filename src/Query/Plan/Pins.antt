-- ===== src/Query/Plan/Pins.antt =====
-- Planning by the index prefix of the equality conditions loses no row: the interval only narrows the
-- scan to rows that those conditions could accept.
use mathlib.Core.Path.{ap₂}
use facetta.Prelude.{
  ℕ, zero, suc, ◌≤◌, ◌<◌, ◌≡◌, refl, ◌∙◌, true, Option, none, some, List, [], ◌∷◌, length, map,
  take, set, replicate, length-set, arith,
}
use facetta.Dict.{Dict, len}
use facetta.Keys.Widths.{Below}
use facetta.View.{dict_at}
use facetta.Snapshot.{Snapshot}
use facetta.Query.Match.{match_eqs, id_at}
use facetta.Query.Plan.{pin_eqs, pinned_prefix, all_base}

-- The row has the ids that its index dimensions are pinned to.
pub Holds : List (Option ℕ) → List ℕ → Type 0
Holds [] row = Unit
Holds (p ∷ pins) [] = ⊥
Holds (none ∷ pins) (x ∷ row) = Holds pins row
Holds (some id ∷ pins) (x ∷ row) = (x ≡ id) × Holds pins row

pub Holds-unpinned : (k : ℕ) (row : List ℕ) → k ≤ length row → Holds (replicate k none) row
unfolding Holds
Holds-unpinned zero row h = tt
Holds-unpinned (suc k) [] h = absurd (omega arith)
Holds-unpinned (suc k) (x ∷ row) h = Holds-unpinned k row (omega arith)

Holds-set :
    (pins : List (Option ℕ)) (row : List ℕ) (d id : ℕ)
    → Holds pins row
    → id_at row d ≡ id
    → Holds (set pins d (some id)) row
unfolding Holds
Holds-set [] row d id h e = tt
Holds-set (p ∷ pins) [] d id h e = absurd h
Holds-set (none ∷ pins) (x ∷ row) zero id h e = (e, h)
Holds-set (some j ∷ pins) (x ∷ row) zero id h e = (e, h.1)
Holds-set (none ∷ pins) (x ∷ row) (suc d) id h e = Holds-set pins row d id h e
Holds-set (some j ∷ pins) (x ∷ row) (suc d) id h e = (h.0, Holds-set pins row d id h.1 e)

pub Holds-pin_eqs :
    (pins : List (Option ℕ)) (ds ids row : List ℕ)
    → match_eqs ds ids row ≡ true
    → Holds pins row
    → Holds (pin_eqs pins ds ids) row
unfolding match_eqs pin_eqs
Holds-pin_eqs pins [] ids row m h = h
Holds-pin_eqs pins (d ∷ ds) [] row m h = h
Holds-pin_eqs pins (d ∷ ds) (id ∷ ids) row m h =
    Holds-pin_eqs (set pins d (some id)) ds ids row (ground arith)
      (Holds-set pins row d id h (ground arith))

pub Holds-pinned_prefix :
    (pins : List (Option ℕ)) (row : List ℕ)
    → Holds pins row
    → take (length (pinned_prefix pins)) row ≡ pinned_prefix pins
unfolding Holds pinned_prefix
Holds-pinned_prefix [] row h = refl
Holds-pinned_prefix (none ∷ pins) row h = refl
Holds-pinned_prefix (some id ∷ pins) [] h = absurd h
Holds-pinned_prefix (some id ∷ pins) (x ∷ row) h = ap₂ ◌∷◌ h.0 (Holds-pinned_prefix pins row h.1)

-- The pinned ids are ids of the base dictionaries.
pub Known : List Dict → List (Option ℕ) → Type 0
Known ds [] = Unit
Known [] (p ∷ pins) = ⊥
Known (d ∷ ds) (none ∷ pins) = Known ds pins
Known (d ∷ ds) (some id ∷ pins) = (id < len d) × Known ds pins

pub Known-unpinned : (ds : List Dict) (k : ℕ) → k ≤ length ds → Known ds (replicate k none)
unfolding Known
Known-unpinned ds zero h = tt
Known-unpinned [] (suc k) h = absurd (omega arith)
Known-unpinned (d ∷ ds) (suc k) h = Known-unpinned ds k (omega arith)

Known-set :
    (ds : List Dict) (pins : List (Option ℕ)) (d id : ℕ)
    → Known ds pins
    → id < len (dict_at ds d)
    → Known ds (set pins d (some id))
unfolding Known
Known-set ds [] d id h e = tt
Known-set [] (p ∷ pins) d id h e = absurd h
Known-set (x ∷ ds) (none ∷ pins) zero id h e = (e, h)
Known-set (x ∷ ds) (some j ∷ pins) zero id h e = (e, h.1)
Known-set (x ∷ ds) (none ∷ pins) (suc d) id h e = Known-set ds pins d id h e
Known-set (x ∷ ds) (some j ∷ pins) (suc d) id h e = (h.0, Known-set ds pins d id h.1 e)

pub Below-pinned_prefix :
    (ds : List Dict) (pins : List (Option ℕ))
    → Known ds pins
    → Below (map len ds) (pinned_prefix pins)
unfolding Known pinned_prefix
Below-pinned_prefix ds [] h = tt
Below-pinned_prefix ds (none ∷ pins) h = tt
Below-pinned_prefix [] (some id ∷ pins) h = absurd h
Below-pinned_prefix (d ∷ ds) (some id ∷ pins) h = (h.0, Below-pinned_prefix ds pins h.1)

pub length-pinned_prefix : (pins : List (Option ℕ)) → length (pinned_prefix pins) ≤ length pins
unfolding pinned_prefix
length-pinned_prefix [] = omega arith
length-pinned_prefix (none ∷ pins) = omega arith
length-pinned_prefix (some id ∷ pins) = omega (arith, length-pinned_prefix pins)

pub length-pin_eqs :
    (pins : List (Option ℕ)) (ds ids : List ℕ) → length (pin_eqs pins ds ids) ≡ length pins
unfolding pin_eqs
length-pin_eqs pins [] ids = refl
length-pin_eqs pins (d ∷ ds) [] = refl
length-pin_eqs pins (d ∷ ds) (id ∷ ids) =
    length-pin_eqs (set pins d (some id)) ds ids ∙ length-set pins d (some id)

module _ {F : Type 0} where
  pub Known-pin_eqs :
      (base : Snapshot F) (pins : List (Option ℕ)) (ds ids : List ℕ)
      → all_base base ds ids ≡ true
      → Known base.dicts pins
      → Known base.dicts (pin_eqs pins ds ids)
  unfolding all_base pin_eqs
  Known-pin_eqs base pins [] ids m h = h
  Known-pin_eqs base pins (d ∷ ds) [] m h = h
  Known-pin_eqs base pins (d ∷ ds) (id ∷ ids) m h =
      Known-pin_eqs base (set pins d (some id)) ds ids (ground arith)
        (Known-set base.dicts pins d id h (ground arith))
