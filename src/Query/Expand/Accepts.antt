-- ===== src/Query/Expand/Accepts.antt =====
-- The covers of `planExpand` leave no matching row out: its leading ids are among the combinations.
use facetta.Prelude.{
  ℕ, zero, suc, ◌*◌, ◌≤◌, ◌<◌, ◌≡◌, refl, ap, ◌∙◌, ◌⊎◌, Bool, true, false, not, ◌||◌, Option, none,
  some, List, [], ◌∷◌, ◌++◌, length, map, get_or, set, take, replicate, length-set, length-take,
  ltb, leb, ◌==◌, ==_iff, arith, Bool-cases, inl, inr, ◌^◌,
}
use facetta.Prelude.All.{All}
use facetta.Prelude.Search.{search, search-IsFirst}
use facetta.Dict.{u32, len}
use facetta.Keys.{bit_len}
use facetta.Snapshot.{Snapshot}
use facetta.View.{dict_at}
use facetta.Query.{InWindow, slice}
use facetta.Query.Match.{match_eqs, match_ins, linear_probe, id_at}
use facetta.Query.Match.Probe.{
  AscendingIds, linear_probe-found, linear_probe-index, match_one_in-linear_probe,
}
use facetta.Query.Resolve.Windows.{IsBaseRow, id_known}
use facetta.Query.Scan.Pools.{IsWindow}
use facetta.Query.Expand.{
  Cover, uncovered, is_some, cover_eqs, base_resident, cover_ins, affordable,
}
use facetta.Query.Expand.Odometer.{values_of, values, prepend_each, all_combinations}

takes_of : Option ℕ → List ℕ → ℕ → Bool
takes_of (some id) cand x = x == id
takes_of none [] x = true
takes_of none (y ∷ cand) x = linear_probe (y ∷ cand) x

-- An uncovered dimension takes every id.
takes : Cover → ℕ → Bool
unfolding takes_of
takes c x = takes_of c.eq c.cand x

-- The leading ids of a row are taken.
pub Accepts : List Cover → List ℕ → Type 0
Accepts [] row = Unit
Accepts (c ∷ cs) [] = ⊥
Accepts (c ∷ cs) (x ∷ row) = (takes c x ≡ true) × Accepts cs row

pub Accepts-uncovered :
    (k : ℕ) (row : List ℕ) → k ≤ length row → Accepts (replicate k uncovered) row
unfolding Accepts takes
Accepts-uncovered zero row h = tt
Accepts-uncovered (suc k) [] h = absurd (omega arith)
Accepts-uncovered (suc k) (x ∷ row) h = (refl, Accepts-uncovered k row (omega arith))

Accepts-set :
    (covers : List Cover) (row : List ℕ) (d : ℕ) (c : Cover)
    → Accepts covers row
    → takes c (id_at row d) ≡ true
    → Accepts (set covers d c) row
unfolding Accepts
Accepts-set [] row d c h t = tt
Accepts-set (b ∷ covers) [] d c h t = absurd h
Accepts-set (b ∷ covers) (x ∷ row) zero c h t = (t, h.1)
Accepts-set (b ∷ covers) (x ∷ row) (suc d) c h t = (h.0, Accepts-set covers row d c h.1 t)

pub Accepts-cover_eqs :
    (covers : List Cover) (ds ids row : List ℕ)
    → match_eqs ds ids row ≡ true
    → Accepts covers row
    → Accepts (cover_eqs covers ds ids) row
unfolding match_eqs cover_eqs takes
Accepts-cover_eqs covers [] ids row m h = h
Accepts-cover_eqs covers (d ∷ ds) [] row m h = h
Accepts-cover_eqs covers (d ∷ ds) (id ∷ ids) row m h =
    let c : Cover = record (get_or covers d uncovered) { eq = some id } in
    Accepts-cover_eqs (set covers d c) ds ids row (ground arith)
      (Accepts-set covers row d c h (ground arith))

get_or-take :
    (n : ℕ) (l : List ℕ) (i : ℕ) → i < n → i < length l → get_or (take n l) i 0 ≡ get_or l i 0
get_or-take zero l i h lt = absurd (omega arith)
get_or-take (suc n) [] i h lt = absurd (omega arith)
get_or-take (suc n) (x ∷ l) zero h lt = refl
get_or-take (suc n) (x ∷ l) (suc i) h lt = get_or-take n l i (omega arith) (omega arith)

-- An id of the base that is among sorted candidates is among those that the base has.
base_resident-probe :
    (seg : List ℕ) (n x : ℕ)
    → AscendingIds seg
    → linear_probe seg x ≡ true
    → x < n
    → linear_probe (base_resident seg n) x ≡ true
unfolding base_resident
base_resident-probe seg n x ascending hit small =
    let (i, lt, e) = linear_probe-index seg x hit in
    let k = search (length seg) (λ j. leb n (get_or seg j 0)) in
    let (bound, before, from) =
      search-IsFirst (length seg) (λ j. leb n (get_or seg j 0))
        (λ j j' le lt' q. ground (arith, ascending j j' le lt')) in
    elim (Bool-cases (ltb i k)) [
      | inl early ↦
          linear_probe-found (take k seg) i x (ground (arith, length-take k seg))
            (get_or-take k seg i (ground arith) lt ∙ e)
      | inr late ↦
          let past = from i (ground arith) lt in
          let above : n ≤ get_or seg i 0 = ground arith in absurd (omega arith)
    ]

takes_cand : (cand : List ℕ) (x : ℕ) → linear_probe cand x ≡ true → takes_of none cand x ≡ true
unfolding takes_of
takes_cand [] x h = refl
takes_cand (y ∷ cand) x h = h

is_some-none : (o : Option ℕ) → is_some o ≡ false → o ≡ none
unfolding is_some
is_some-none none h = refl
is_some-none (some id) h = cc

module _ {F : Type 0} (base : Snapshot F) (nd : ℕ) (pool row : List ℕ)
    (known : IsBaseRow nd base.dicts row)
    (few : (d : ℕ) → d < nd → len (dict_at base.dicts d) < 2 ^ 32) where
  -- One IN condition.
  window_taken :
      (w : InWindow) (c : Cover)
      → IsWindow nd pool w
      → match_ins (w ∷ []) pool row ≡ true
      → is_some c.eq ≡ false
      → takes
          (record c {
            cand = base_resident (slice pool w.off w.n) (u32 (len (dict_at base.dicts w.dim)));
          })
          (id_at row w.dim)
        ≡ true
  unfolding takes match_ins
  window_taken w c win m free =
      let seg = slice pool w.off w.n in
      let x = id_at row w.dim in
      let (i, lt, e) = (match_one_in-linear_probe w pool x win.ascending).0 (ground arith) in
      rw (is_some-none c.eq free) (
        takes_cand (base_resident seg (u32 (len (dict_at base.dicts w.dim)))) x (
          base_resident-probe seg (u32 (len (dict_at base.dicts w.dim))) x win.ascending
            (linear_probe-found seg i x lt e)
            (let fits = few w.dim win.dim_in in
              omega (arith, id_known nd base.dicts row w.dim known win.dim_in))))

  pub Accepts-cover_ins :
      (covers : List Cover) (ws : List InWindow)
      → All (IsWindow nd pool) ws
      → match_ins ws pool row ≡ true
      → Accepts covers row
      → Accepts (cover_ins base pool covers ws) row
  unfolding cover_ins match_ins
  Accepts-cover_ins covers [] wins m h = h
  Accepts-cover_ins covers (w ∷ ws) wins m h =
      let c = get_or covers w.dim uncovered in
      let seg = base_resident (slice pool w.off w.n) (u32 (len (dict_at base.dicts w.dim))) in
      elim (Bool-cases (leb (length covers) w.dim || is_some c.eq || not (length c.cand == 0))) [
        | inl skip ↦ rw skip (Accepts-cover_ins covers ws wins.1 (ground arith) h)
        | inr fresh ↦
            let taken = window_taken w c wins.0 (ground arith) (ground arith) in
            rw fresh (
              Accepts-cover_ins (set covers w.dim (record c { cand = seg })) ws wins.1
                (ground arith) (Accepts-set covers row w.dim (record c { cand = seg }) h taken))
      ]

-- `ids` is one of the lists.
unfoldable pub Among : List ℕ → List (List ℕ) → Type 0
Among ids [] = ⊥
Among ids (l ∷ ls) = (ids ≡ l) ⊎ Among ids ls

Among-append_left : (ids : List ℕ) (ls ms : List (List ℕ)) → Among ids ls → Among ids (ls ++ ms)
unfolding Among
Among-append_left ids [] ms h = absurd h
Among-append_left ids (l ∷ ls) ms (inl e) = inl e
Among-append_left ids (l ∷ ls) ms (inr h) = inr (Among-append_left ids ls ms h)

Among-append_right : (ids : List ℕ) (ls ms : List (List ℕ)) → Among ids ms → Among ids (ls ++ ms)
unfolding Among
Among-append_right ids [] ms h = h
Among-append_right ids (l ∷ ls) ms h = inr (Among-append_right ids ls ms h)

Among-map :
    (x : ℕ) (ids : List ℕ) (ls : List (List ℕ)) → Among ids ls → Among (x ∷ ids) (map (◌∷◌ x) ls)
unfolding Among
Among-map x ids [] h = absurd h
Among-map x ids (l ∷ ls) (inl e) = inl (ap (◌∷◌ x) e)
Among-map x ids (l ∷ ls) (inr h) = inr (Among-map x ids ls h)

Among-prepend_each :
    (x : ℕ) (ids vs : List ℕ) (ls : List (List ℕ))
    → linear_probe vs x ≡ true
    → Among ids ls
    → Among (x ∷ ids) (prepend_each vs ls)
unfolding prepend_each linear_probe
Among-prepend_each x ids [] ls h a = cc
Among-prepend_each x ids (v ∷ vs) ls h a = elim (Bool-cases (x == v)) [
  | inl same ↦
      rw (← (==_iff x v).0 same)
        (Among-append_left (x ∷ ids) (map (◌∷◌ x) ls) (prepend_each vs ls) (Among-map x ids ls a))
  | inr other ↦
      Among-append_right (x ∷ ids) (map (◌∷◌ v) ls) (prepend_each vs ls)
        (Among-prepend_each x ids vs ls (ground arith) a)
]

-- A covered dimension takes the values that the odometer runs through.
taken_value :
    (o : Option ℕ) (cand : List ℕ) (x : ℕ)
    → takes_of o cand x ≡ true
    → (is_some o || not (length cand == 0)) ≡ true
    → linear_probe (values_of o cand) x ≡ true
unfolding takes_of values_of linear_probe is_some
taken_value (some id) cand x t h = ground arith
taken_value none [] x t h = ground arith
taken_value none (y ∷ cand) x t h = t

module _ (rows room : ℕ) where
  -- The leading ids of an accepted row are one of the combinations.
  pub Among-affordable :
      (combos : ℕ) (covers : List Cover) (row : List ℕ)
      → Accepts covers row
      → Among
          (take (length (affordable rows room combos covers)) row)
          (all_combinations (affordable rows room combos covers))
  unfolding affordable Accepts takes all_combinations values Among
  Among-affordable combos [] row h = inl refl
  Among-affordable combos (c ∷ cs) [] h = absurd h
  Among-affordable combos (c ∷ cs) (x ∷ row) h =
      let n = combos * length c.cand in
      elim (Bool-cases (is_some c.eq)) [
        | inl pinned ↦
            let a = affordable rows room combos cs in
            rw pinned (
              Among-prepend_each x (take (length a) row) (values_of c.eq c.cand)
                (all_combinations a) (taken_value c.eq c.cand x h.0 (ground arith))
                (Among-affordable combos cs row h.1))
        | inr free ↦ elim (Bool-cases (length c.cand == 0)) [
          | inl none_left ↦ rw (free, none_left) (inl refl)
          | inr some_left ↦ elim (Bool-cases (ltb rows (n * bit_len rows) || ltb room n)) [
            | inl dear ↦ rw (free, some_left, dear) (inl refl)
            | inr cheap ↦
                let a = affordable rows room n cs in
                rw (free, some_left, cheap)
                  (Among-prepend_each x (take (length a) row) (values_of c.eq c.cand)
                    (all_combinations a) (taken_value c.eq c.cand x h.0 (ground arith))
                    (Among-affordable n cs row h.1))
          ]
        ]
      ]

  pub length-affordable :
      (combos : ℕ) (covers : List Cover)
      → length (affordable rows room combos covers) ≤ length covers
  unfolding affordable
  length-affordable combos [] = omega arith
  length-affordable combos (c ∷ cs) =
      ground (arith, length-affordable combos cs, length-affordable (combos * length c.cand) cs)

pub length-cover_eqs :
    (covers : List Cover) (ds ids : List ℕ) → length (cover_eqs covers ds ids) ≡ length covers
unfolding cover_eqs
length-cover_eqs covers [] ids = refl
length-cover_eqs covers (d ∷ ds) [] = refl
length-cover_eqs covers (d ∷ ds) (id ∷ ids) =
    let c : Cover = record (get_or covers d uncovered) { eq = some id } in
    length-cover_eqs (set covers d c) ds ids ∙ length-set covers d c

pub length-cover_ins :
    {F : Type 0} (base : Snapshot F) (pool : List ℕ) (covers : List Cover) (ws : List InWindow)
    → length (cover_ins base pool covers ws) ≡ length covers
unfolding cover_ins
length-cover_ins base pool covers [] = refl
length-cover_ins base pool covers (w ∷ ws) =
    let c = get_or covers w.dim uncovered in
    let seg = base_resident (slice pool w.off w.n) (u32 (len (dict_at base.dicts w.dim))) in
    elim (Bool-cases (leb (length covers) w.dim || is_some c.eq || not (length c.cand == 0))) [
      | inl skip ↦ rw skip (length-cover_ins base pool covers ws)
      | inr fresh ↦ rw fresh (
          length-cover_ins base pool (set covers w.dim (record c { cand = seg })) ws
          ∙ length-set covers w.dim (record c { cand = seg }))
    ]
