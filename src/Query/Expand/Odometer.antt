-- ===== src/Query/Expand/Odometer.antt =====
-- query.go: the odometer of `planExpand` ends, and emits each combination of candidates once.
use facetta.Prelude.{
  ℕ, zero, suc, ◌*◌, ◌≤◌, ◌<◌, ◌≡◌, refl, sym, ap, Bool, true, false, not, Option, none, some, List,
  [], ◌∷◌, ◌++◌, length, map, drop, get_or, replicate, ltb, ◌==◌, ◌||◌, arith, Option-cases, inl,
  inr, length-append, length-map, if◌then◌else◌,
}
use facetta.Keys.{bit_len}
use facetta.Snapshot.{Snapshot}
use facetta.Query.{GroupPlan, QueryScratch}
use facetta.Query.Expand.{
  Cover, is_some, affordable, chosen, combination, advance, emit, odometer, choices, combinations,
  expand_over,
}

unfoldable pub values_of : Option ℕ → List ℕ → List ℕ
values_of (some id) cand = id ∷ []
values_of none cand = cand

-- The ids that a covered dimension takes.
unfoldable pub values : Cover → List ℕ
unfolding values_of
values c = values_of c.eq c.cand

unfoldable pub prepend_each : List ℕ → List (List ℕ) → List (List ℕ)
prepend_each [] ls = []
prepend_each (v ∷ vs) ls = map (◌∷◌ v) ls ++ prepend_each vs ls

-- The product of the candidates, in lexicographic order.
unfoldable pub all_combinations : List Cover → List (List ℕ)
unfolding values prepend_each
all_combinations [] = [] ∷ []
all_combinations (c ∷ cs) = prepend_each (values c) (all_combinations cs)

module _ {F : Type 0} where
  -- An interval for each combination of ids.
  unfoldable pub emit_each :
      Snapshot F → List (List ℕ) → GroupPlan → QueryScratch → GroupPlan × QueryScratch
  emit_each base [] p qs = (p, qs)
  emit_each base (ids ∷ ls) p qs = let (p', qs') = emit base ids p qs in emit_each base ls p' qs'

-- The combinations from the odometer's position on.
rest : List Cover → List ℕ → List (List ℕ)
unfolding values prepend_each
rest (c ∷ cs) (i ∷ idx) =
    map (◌∷◌ (chosen c i)) (rest cs idx)
    ++ prepend_each (drop (suc i) (values c)) (all_combinations cs)
rest cs idx = [] ∷ []

zeros : List Cover → List ℕ
zeros covers = replicate (length covers) 0

-- A position points into the candidates.
abbrev InRange : List Cover → List ℕ → Type 0
InRange [] [] = Unit
InRange (c ∷ cs) (i ∷ idx) = (i < length (values c)) × InRange cs idx
InRange cs idx = ⊥

-- Each dimension has a candidate.
abbrev Covered : List Cover → Type 0
Covered [] = Unit
Covered (c ∷ cs) = (0 < length (values c)) × Covered cs

drop-at : (l : List ℕ) (i : ℕ) → i < length l → drop i l ≡ get_or l i 0 ∷ drop (suc i) l
drop-at [] i h = absurd (omega arith)
drop-at (x ∷ l) zero h = refl
drop-at (x ∷ l) (suc i) h = drop-at l i (omega arith)

drop_end : (l : List ℕ) (i : ℕ) → length l ≤ i → drop i l ≡ []
drop_end [] zero h = refl
drop_end [] (suc i) h = refl
drop_end (x ∷ l) zero h = absurd (omega arith)
drop_end (x ∷ l) (suc i) h = drop_end l i (omega arith)

chosen_values : (c : Cover) (i : ℕ) → i < length (values c) → chosen c i ≡ get_or (values c) i 0
unfolding chosen values values_of
chosen_values c i h = elim (Option-cases (c.eq)) [
  | inl free ↦ rw free refl
  | inr (id, pinned) ↦
      let one : i < 1 = rw pinned at h in let start : i ≡ 0 = omega arith in rw (pinned, start) refl
]

append_nil {ℓ} : {A : Type ℓ} (l : List A) → l ++ [] ≡ l
append_nil [] = refl
append_nil (x ∷ l) = ap (◌∷◌ x) (append_nil l)

zeros-InRange : (covers : List Cover) → Covered covers → InRange covers (zeros covers)
unfolding zeros
zeros-InRange [] h = tt
zeros-InRange (c ∷ cs) h = (h.0, zeros-InRange cs h.1)

rest-zeros :
    (covers : List Cover) → Covered covers → rest covers (zeros covers) ≡ all_combinations covers
unfolding rest zeros all_combinations prepend_each
rest-zeros [] h = refl
rest-zeros (c ∷ cs) h =
    let first : drop 0 (values c) ≡ get_or (values c) 0 0 ∷ drop 1 (values c) =
      drop-at (values c) 0 h.0 in
    rw (rest-zeros cs h.1, chosen_values c 0 h.0)
      (ap (λ vs. prepend_each vs (all_combinations cs)) (sym first))

-- The step of one dimension: is it pinned, has it a next candidate, and did the later ones wrap?
carried : Bool → Bool → ℕ → List ℕ × Bool → List ℕ × Bool
carried pinned more i (idx, false) = (i ∷ idx, false)
carried true more i (idx, true) = (i ∷ idx, true)
carried false true i (idx, true) = (suc i ∷ idx, false)
carried false false i (idx, true) = (0 ∷ idx, true)

carried_lem :
    (pinned more : Bool) (i : ℕ) (r : List ℕ × Bool)
    → (if not r.1
        then (i ∷ r.0, false)
        else if pinned
        then (i ∷ r.0, true)
        else if more
        then (suc i ∷ r.0, false)
        else (0 ∷ r.0, true))
      ≡ carried pinned more i r
unfolding carried
carried_lem pinned more i (idx, false) = refl
carried_lem true more i (idx, true) = refl
carried_lem false true i (idx, true) = refl
carried_lem false false i (idx, true) = refl

advance-carried :
    (c : Cover) (cs : List Cover) (i : ℕ) (idx : List ℕ)
    → advance (c ∷ cs) (i ∷ idx)
      ≡ carried (is_some c.eq) (ltb (suc i) (length c.cand)) i (advance cs idx)
unfolding advance
advance-carried c cs i idx =
    carried_lem (is_some c.eq) (ltb (suc i) (length c.cand)) i (advance cs idx)

length-values : (c : Cover) → length (values c) ≡ (if is_some c.eq then 1 else length c.cand)
unfolding values values_of is_some
length-values c = by_eq (c.eq) c.cand
  where
    by_eq :
        (o : Option ℕ) (cand : List ℕ)
        → length (values_of o cand) ≡ (if is_some o then 1 else length cand)
    by_eq none cand = refl
    by_eq (some id) cand = refl

-- One step leaves the later combinations, or wraps at the last one.
abbrev Stepped : List Cover → List ℕ → List ℕ × Bool → Type 0
Stepped covers idx (idx', true) =
    (rest covers idx ≡ combination covers idx ∷ []) × (idx' ≡ zeros covers)
Stepped covers idx (idx', false) =
    (rest covers idx ≡ combination covers idx ∷ rest covers idx') × InRange covers idx'

module _ (c : Cover) (cs : List Cover) (i : ℕ) (idx : List ℕ) (covered : Covered cs)
    (lt : i < length (values c)) where
  last_value :
      rest cs idx ≡ combination cs idx ∷ []
      → drop (suc i) (values c) ≡ []
      → rest (c ∷ cs) (i ∷ idx) ≡ combination (c ∷ cs) (i ∷ idx) ∷ []
  unfolding rest combination prepend_each
  last_value h none_left = rw (h, none_left) refl

  same_value :
      (idx' : List ℕ)
      → rest cs idx ≡ combination cs idx ∷ rest cs idx'
      → rest (c ∷ cs) (i ∷ idx) ≡ combination (c ∷ cs) (i ∷ idx) ∷ rest (c ∷ cs) (i ∷ idx')
  unfolding rest combination
  same_value idx' h = rw h refl

  wrapped : (j : ℕ) (idx' : List ℕ) → j ≡ 0 → idx' ≡ zeros cs → j ∷ idx' ≡ zeros (c ∷ cs)
  unfolding zeros
  wrapped j idx' e h = rw (e, h) refl

  next_value :
      rest cs idx ≡ combination cs idx ∷ []
      → suc i < length (values c)
      → rest (c ∷ cs) (i ∷ idx) ≡ combination (c ∷ cs) (i ∷ idx) ∷ rest (c ∷ cs) (suc i ∷ zeros cs)
  unfolding rest combination prepend_each
  next_value h more =
      rw (h, drop-at (values c) (suc i) more, chosen_values c (suc i) more, rest-zeros cs covered)
        refl

  carried-Stepped :
      (pinned more : Bool) (r : List ℕ × Bool)
      → (pinned ≡ true → length (values c) ≡ 1)
      → (pinned ≡ false → more ≡ true → suc i < length (values c))
      → (pinned ≡ false → more ≡ false → length (values c) ≤ suc i)
      → Stepped cs idx r
      → Stepped (c ∷ cs) (i ∷ idx) (carried pinned more i r)
  unfolding carried
  carried-Stepped pinned more (idx', false) one next end h = (same_value idx' h.0, (lt, h.1))
  carried-Stepped true more (idx', true) one next end h = (
    last_value h.0 (drop_end (values c) (suc i) (omega (arith, one refl))),
    wrapped i idx' (omega (arith, one refl)) h.1,
  )
  carried-Stepped false true (idx', true) one next end h = (
    rw (h.1) (next_value h.0 (next refl refl)),
    (next refl refl, rw (h.1) (zeros-InRange cs covered)),
  )
  carried-Stepped false false (idx', true) one next end h =
      (last_value h.0 (drop_end (values c) (suc i) (end refl refl)), wrapped 0 idx' refl h.1)

advance-Stepped :
    (covers : List Cover) (idx : List ℕ)
    → Covered covers
    → InRange covers idx
    → Stepped covers idx (advance covers idx)
unfolding advance rest combination zeros
advance-Stepped [] [] covered at = (refl, refl)
advance-Stepped [] (i ∷ idx) covered at = absurd at
advance-Stepped (c ∷ cs) [] covered at = absurd at
advance-Stepped (c ∷ cs) (i ∷ idx) covered at =
    let size = length-values c in
    rw (advance-carried c cs i idx) (
      carried-Stepped c cs i idx covered.1 at.0 (is_some c.eq) (ltb (suc i) (length c.cand))
        (advance cs idx) (λ pinned. ground arith) (λ free more. ground arith)
        (λ free over. ground arith) (advance-Stepped cs idx covered.1 at.1))

module _ {F : Type 0} (base : Snapshot F) (covers : List Cover) (covered : Covered covers) where
  emit_nothing :
      (ls : List (List ℕ)) (p : GroupPlan) (qs : QueryScratch)
      → length ls ≤ 0
      → (p, qs) ≡ emit_each base ls p qs
  unfolding emit_each
  emit_nothing [] p qs h = refl
  emit_nothing (l ∷ ls) p qs h = absurd (omega arith)

  odometer-rest :
      (fuel : ℕ) (idx : List ℕ) (p : GroupPlan) (qs : QueryScratch)
      → InRange covers idx
      → length (rest covers idx) ≤ fuel
      → odometer fuel base covers idx p qs ≡ emit_each base (rest covers idx) p qs
  unfolding odometer emit_each
  odometer-rest zero idx p qs at le = emit_nothing (rest covers idx) p qs le
  odometer-rest (suc fuel) idx p qs at le =
      by_step (λ idx' p' qs' at' le'. odometer-rest fuel idx' p' qs' at' le') (advance covers idx)
        refl (advance-Stepped covers idx covered at)
    where
      by_step :
          ((idx' : List ℕ) (p' : GroupPlan) (qs' : QueryScratch)
            → InRange covers idx'
            → length (rest covers idx') ≤ fuel
            → odometer fuel base covers idx' p' qs' ≡ emit_each base (rest covers idx') p' qs')
          → (r : List ℕ × Bool) → advance covers idx ≡ r
          → Stepped covers idx r
          → odometer (suc fuel) base covers idx p qs ≡ emit_each base (rest covers idx) p qs
      by_step later (idx', true) e h = rw (e, h.0) refl
      by_step later (idx', false) e h =
          let fewer : suc (length (rest covers idx')) ≤ suc fuel = rw (h.0) at le in
          rw (e, h.0) (later idx' _ _ h.1 (omega arith))

length-prepend_each :
    (vs : List ℕ) (ls : List (List ℕ)) → length (prepend_each vs ls) ≡ length vs * length ls
unfolding prepend_each
length-prepend_each [] ls = omega arith
length-prepend_each (v ∷ vs) ls = grind (
  arith,
  length-append (map (◌∷◌ v) ls) (prepend_each vs ls),
  length-map ls (◌∷◌ v),
  length-prepend_each vs ls,
)

length-all_combinations :
    (covers : List Cover) → length (all_combinations covers) ≡ combinations covers
unfolding all_combinations combinations choices
length-all_combinations [] = refl
length-all_combinations (c ∷ cs) =
    rw
      (
        length-prepend_each (values c) (all_combinations cs),
        length-values c,
        length-all_combinations cs,
      )
      refl

Covered-if :
    (b : Bool) (x y : List Cover)
    → (b ≡ true → Covered x)
    → (b ≡ false → Covered y)
    → Covered (if b then x else y)
Covered-if true x y h h' = h refl
Covered-if false x y h h' = h' refl

affordable-Covered :
    (rows room combos : ℕ) (covers : List Cover) → Covered (affordable rows room combos covers)
unfolding affordable
affordable-Covered rows room combos [] = tt
affordable-Covered rows room combos (c ∷ cs) =
    let size = length-values c in
    let n = combos * length c.cand in
    Covered-if (is_some c.eq) _ _ (λ pinned. (ground arith, affordable-Covered rows room combos cs))
      (λ free.
        Covered-if (length c.cand == 0) _ _ (λ none. tt)
          (λ some_cand.
            Covered-if (ltb rows (n * bit_len rows) || ltb room n) _ _ (λ dear. tt)
              (λ cheap. (ground arith, affordable-Covered rows room n cs))))

module _ {F : Type 0} (base : Snapshot F) where
  -- On the covers that the planner settles for, the odometer ends within its fuel, and emits an
  -- interval for each combination of the candidates exactly once, in lexicographic order.
  pub expand_over-emit_each :
      (rows room : ℕ) (covers : List Cover) (c : Cover) (cs : List Cover) (p : GroupPlan)
      (qs : QueryScratch)
      → affordable rows room 1 covers ≡ c ∷ cs
      → expand_over base (c ∷ cs) p qs ≡ emit_each base (all_combinations (c ∷ cs)) p qs
  unfolding expand_over zeros
  expand_over-emit_each rows room covers c cs p qs h =
      let covered : Covered (c ∷ cs) = rw h at (affordable-Covered rows room 1 covers) in
      let start = rest-zeros (c ∷ cs) covered in
      rw (← start) (
        odometer-rest base (c ∷ cs) covered (combinations (c ∷ cs)) (zeros (c ∷ cs)) p qs
          (zeros-InRange (c ∷ cs) covered)
          (omega (arith, ap length start, length-all_combinations (c ∷ cs))))
