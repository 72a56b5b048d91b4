-- ===== src/Query/Scan/Told.antt =====
-- The tests that resolving the conditions of a group leaves in the pools say what the conditions say.
use mathlib.Core.Path.{subst}
use mathlib.Core.List.{append-nil, append_assoc}
use facetta.Prelude.{
  ℕ, ◌-◌, ◌<◌, ◌≡◌, refl, sym, ap, ◌∙◌, Bool, true, false, ◌&&◌, ◌||◌, not, Option, none, some,
  List, [], ◌∷◌, ◌++◌, length, length-append, take-append, ltb, ◌==◌, arith, Bool-cases, inl, inr,
}
use facetta.Prelude.All.{All}
use facetta.Prelude.Sort.{insert_by, sort_into, sort_by}
use facetta.Prelude.Maps.{Str, eqb_str}
use facetta.Schema.{Schema, dim_index, is_int}
use facetta.Result.{Result, ok, >>=-eq-ok, ok_inj}
use facetta.Dict.{len}
use facetta.View.{View, dict_at}
use facetta.Query.{Cond, Range, InWindow, RangeWindow, QueryScratch, slice}
use facetta.Query.Match.{match_eqs, match_ins, match_ranges, linear_probe, id_at}
use facetta.Query.Match.Probe.{match_one_in-probe}
use facetta.Query.Resolve.{
  Resolution, live, dead, unless_dead, resolve_value, resolve_in, sort_from, close_window,
  push_cond, resolve_range, resolve_plain, resolve_at, resolve_cond, resolve_conds,
}
use facetta.Query.Resolve.Windows.{
  sorted_ascending, length-sort_by, drop-length, slice-more, match_ins-append,
}
use facetta.Query.Resolve.Outcome.{
  Outcome, at_added, resolve_conds-Outcome, match_ins-Extends, All-split_right, dim_index-lt,
}
use facetta.Query.Scan.Pools.{Extends, IsWindow, ArePools}
use facetta.Query.Scan.Meaning.{
  value_is, any_value, in_range, holds_at, group_holds, IsViewRow, IsDecoded,
}
use facetta.Query.Scan.Lookup.{Tells, resolve_value-Tells_at}

probe-insert_by :
    (x y : ℕ) (l : List ℕ) → linear_probe (insert_by ltb x l) y ≡ ((y == x) || linear_probe l y)
unfolding insert_by linear_probe
probe-insert_by x y [] = refl
probe-insert_by x y (z ∷ l) = elim (Bool-cases (ltb x z)) [
  | inl before ↦ rw before refl
  | inr after ↦ rw after (ground (arith, probe-insert_by x y l))
]

probe-sort_into :
    (y : ℕ) (out l : List ℕ)
    → linear_probe (sort_into ltb out l) y ≡ (linear_probe out y || linear_probe l y)
unfolding sort_into linear_probe
probe-sort_into y out [] = ground arith
probe-sort_into y out (x ∷ l) =
    ground (arith, probe-sort_into y (insert_by ltb x out) l, probe-insert_by x y out)

probe-sort_by : (y : ℕ) (l : List ℕ) → linear_probe (sort_by ltb l) y ≡ linear_probe l y
unfolding sort_by linear_probe
probe-sort_by y l = probe-sort_into y [] l

match_eqs-append :
    (ds es is js ids : List ℕ)
    → length is ≡ length ds
    → match_eqs (ds ++ es) (is ++ js) ids ≡ (match_eqs ds is ids && match_eqs es js ids)
unfolding match_eqs
match_eqs-append [] es [] js ids h = refl
match_eqs-append [] es (i ∷ is) js ids h = absurd (omega arith)
match_eqs-append (d ∷ ds) es [] js ids h = absurd (omega arith)
match_eqs-append (d ∷ ds) es (i ∷ is) js ids h =
    ground (arith, match_eqs-append ds es is js ids (omega arith))

match_ranges-append :
    {F : Type 0} (v : View F) (ws us : List RangeWindow) (ids : List ℕ)
    → match_ranges (ws ++ us) v ids ≡ (match_ranges ws v ids && match_ranges us v ids)
unfolding match_ranges
match_ranges-append v [] us ids = refl
match_ranges-append v (w ∷ ws) us ids = ground (arith, match_ranges-append v ws us ids)

module _ {F : Type 0} (sc : Schema) (v : View F) (dec : IsDecoded sc v) where
  -- The tests behind those of `qs` hold of a row exactly when `holds` does.
  pub record Means (qs qs' : QueryScratch) (holds : List ℕ → Bool) : Type 0 where
    pub new_dims : List ℕ
    pub new_ids : List ℕ
    pub new_wins : List InWindow
    pub new_ranges : List RangeWindow
    pub dims : qs'.cond_dims ≡ qs.cond_dims ++ new_dims
    pub ids : qs'.cond_ids ≡ qs.cond_ids ++ new_ids
    pub wins : qs'.in_wins ≡ qs.in_wins ++ new_wins
    pub ranges : qs'.r_wins ≡ qs.r_wins ++ new_ranges
    pub paired : length new_ids ≡ length new_dims
    pub meaning :
        (row : List ℕ)
        → IsViewRow sc v row
        → (match_eqs new_dims new_ids row
            && match_ins new_wins qs'.in_pool row
            && match_ranges new_ranges v row)
          ≡ holds row

  abbrev pub Told : QueryScratch → (List ℕ → Bool) → Resolution → Type 0
  Told qs holds (live qs' possible) = Means qs qs' holds
  Told qs holds (dead qs' possible) = (row : List ℕ) → IsViewRow sc v row → holds row ≡ false

  regroup :
      (e i r e' i' r' : Bool)
      → ((e && e') && (i && i') && (r && r')) ≡ ((e && i && r) && (e' && i' && r'))
  regroup e i r e' i' r' = ground arith

  Means-trans :
      (a b c : QueryScratch) (h k : List ℕ → Bool)
      → ArePools (length sc.dims) b
      → Extends b.in_pool c.in_pool
      → Means a b h
      → Means b c k
      → Means a c (λ row. h row && k row)
  Means-trans a b c h k pools more m n = record {
    new_dims = m.new_dims ++ n.new_dims;
    new_ids = m.new_ids ++ n.new_ids;
    new_wins = m.new_wins ++ n.new_wins;
    new_ranges = m.new_ranges ++ n.new_ranges;
    dims =
        n.dims ∙ ap (λ l. l ++ n.new_dims) m.dims ∙ append_assoc a.cond_dims m.new_dims n.new_dims;
    ids = n.ids ∙ ap (λ l. l ++ n.new_ids) m.ids ∙ append_assoc a.cond_ids m.new_ids n.new_ids;
    wins = n.wins ∙ ap (λ l. l ++ n.new_wins) m.wins ∙ append_assoc a.in_wins m.new_wins n.new_wins;
    ranges =
        n.ranges
        ∙ ap (λ l. l ++ n.new_ranges) m.ranges
        ∙ append_assoc a.r_wins m.new_ranges n.new_ranges;
    paired = omega (
      arith,
      length-append m.new_ids n.new_ids,
      length-append m.new_dims n.new_dims,
      m.paired,
      n.paired,
    );
    meaning = λ row valid.
        let windows =
          All-split_right (IsWindow (length sc.dims) b.in_pool) a.in_wins m.new_wins
            (subst (All (IsWindow (length sc.dims) b.in_pool)) m.wins pools.windows) in
        let first = m.meaning row valid in
        let second = n.meaning row valid in
        rw
          (
            match_eqs-append m.new_dims n.new_dims m.new_ids n.new_ids row m.paired,
            match_ins-append m.new_wins n.new_wins c.in_pool row,
            match_ranges-append v m.new_ranges n.new_ranges row,
            match_ins-Extends (length sc.dims) m.new_wins b.in_pool c.in_pool row more windows,
          )
          (regroup (match_eqs m.new_dims m.new_ids row) (match_ins m.new_wins b.in_pool row)
              (match_ranges m.new_ranges v row) (match_eqs n.new_dims n.new_ids row)
              (match_ins n.new_wins c.in_pool row) (match_ranges n.new_ranges v row)
            ∙ ground (arith, first, second));
  }

  Means-none : (qs : QueryScratch) → Means qs qs (λ row. true)
  unfolding match_eqs match_ins match_ranges
  Means-none qs = record {
    new_dims = [];
    new_ids = [];
    new_wins = [];
    new_ranges = [];
    dims = sym (append-nil qs.cond_dims);
    ids = sym (append-nil qs.cond_ids);
    wins = sym (append-nil qs.in_wins);
    ranges = sym (append-nil qs.r_wins);
    paired = refl;
    meaning = λ row valid. refl;
  }

  push_cond-Told :
      (qs : QueryScratch) (possible : Bool) (di : ℕ) (found : Option ℕ) (s : Str)
      → ((row : List ℕ) → IsViewRow sc v row → Tells found (id_at row di) (value_is sc v di row s))
      → Told qs (λ row. value_is sc v di row s) (push_cond qs possible di found)
  unfolding push_cond match_eqs match_ins match_ranges
  push_cond-Told qs possible di none s told = told
  push_cond-Told qs possible di (some id) s told = record {
    new_dims = di ∷ [];
    new_ids = id ∷ [];
    new_wins = [];
    new_ranges = [];
    dims = refl;
    ids = refl;
    wins = sym (append-nil qs.in_wins);
    ranges = sym (append-nil qs.r_wins);
    paired = refl;
    meaning = λ row valid. let t = told row valid in ground (arith, t);
  }

  resolve_value-Tells :
      (di : ℕ) (s dim : Str) (found : Option ℕ) (row : List ℕ)
      → di < length sc.dims
      → resolve_value sc v di dim s ≡ ok found
      → IsViewRow sc v row
      → Tells found (id_at row di) (value_is sc v di row s)
  resolve_value-Tells di s dim found row lt h valid =
      resolve_value-Tells_at sc v di (id_at row di) (dec.pairs di lt) (valid.known di lt) s dim row
        found refl h

  -- The ids that an IN condition appends are those of its values.
  record Candidates (di : ℕ) (values : List Str) (pool pool' : List ℕ) : Type 0 where
    new : List ℕ
    appended : pool' ≡ pool ++ new
    told :
        (row : List ℕ)
        → IsViewRow sc v row
        → linear_probe new (id_at row di) ≡ any_value sc v di row values

  resolve_in-Candidates :
      (di : ℕ) (dim : Str) (values : List Str) (pool pool' : List ℕ) (any any' : Bool)
      → di < length sc.dims
      → resolve_in sc v di dim values pool any ≡ ok (pool', any')
      → Candidates di values pool pool'
  unfolding resolve_in linear_probe any_value
  resolve_in-Candidates di dim [] pool pool' any any' lt h = record {
    new = [];
    appended = ap (λ x. x.0) (ok_inj (sym h)) ∙ sym (append-nil pool);
    told = λ row valid. refl;
  }
  resolve_in-Candidates di dim (value ∷ values) pool pool' any any' lt h =
      let (found, e, rest) = >>=-eq-ok (resolve_value sc v di dim value) _ h in
      by_found (λ pool₁ any₁ h₁. resolve_in-Candidates di dim values pool₁ pool' any₁ any' lt h₁)
        found (λ row valid. resolve_value-Tells di value dim found row lt e valid) rest
    where
      by_found :
          ((pool₁ : List ℕ) (any₁ : Bool)
            → resolve_in sc v di dim values pool₁ any₁ ≡ ok (pool', any')
            → Candidates di values pool₁ pool')
          → (found : Option ℕ)
          → ((row : List ℕ)
              → IsViewRow sc v row
              → Tells found (id_at row di) (value_is sc v di row value))
          → elim found [
            | none ↦ resolve_in sc v di dim values pool any
            | some id ↦
                resolve_in sc v di dim values
                  (pool ++ id ∷ [])
                  (any || ltb id (len (dict_at v.base.dicts di)))
          ]
            ≡ ok (pool', any')
          → Candidates di (value ∷ values) pool pool'
      by_found later none told rest =
          let c = later pool any rest in
          record {
            new = c.new;
            appended = c.appended;
            told = λ row valid.
                let t = told row valid in let u = c.told row valid in ground (arith, t, u);
          }
      by_found later (some id) told rest =
          let c = later (pool ++ id ∷ []) (any || ltb id (len (dict_at v.base.dicts di))) rest in
          record {
            new = id ∷ c.new;
            appended = c.appended ∙ append_assoc pool (id ∷ []) c.new;
            told = λ row valid.
                let t = told row valid in let u = c.told row valid in ground (arith, t, u);
          }

  close_window-Told :
      (qs : QueryScratch) (possible any : Bool) (di : ℕ) (values : List Str) (pool : List ℕ)
      → Candidates di values qs.in_pool pool
      → Told qs (λ row. any_value sc v di row values) (close_window qs possible di (pool, any))
  unfolding close_window sort_from match_eqs match_ins match_ranges
  close_window-Told qs possible any di values pool c =
      let same = c.appended in
      let size = length-append qs.in_pool c.new in
      elim (Bool-cases (length (qs.in_pool ++ c.new) == length qs.in_pool)) [
        | inl empty ↦
            rw (same, empty)
              (λ row valid. sym (c.told row valid) ∙ no_probe c.new (id_at row di) (ground arith))
        | inr some_ids ↦
            let count : length (qs.in_pool ++ c.new) - length qs.in_pool ≡ length c.new =
              omega arith in
            rw
              (
                same,
                some_ids,
                count,
                take-append (length qs.in_pool) qs.in_pool c.new refl,
                drop-length qs.in_pool c.new,
              )
              (record {
                new_dims = [];
                new_ids = [];
                new_wins = record { dim = di; off = length qs.in_pool; n = length c.new } ∷ [];
                new_ranges = [];
                dims = sym (append-nil qs.cond_dims);
                ids = sym (append-nil qs.cond_ids);
                wins = refl;
                ranges = sym (append-nil qs.r_wins);
                paired = refl;
                meaning = λ row valid.
                    let w : InWindow = record {
                      dim = di;
                      off = length qs.in_pool;
                      n = length c.new;
                    } in
                    let sorted = sort_by ltb c.new in
                    let view : slice (qs.in_pool ++ sorted) w.off w.n ≡ sorted =
                      slice-more qs.in_pool sorted w.n (sym (length-sort_by c.new)) in
                    let probe =
                      match_one_in-probe w (qs.in_pool ++ sorted) (id_at row di)
                        (rw view (sorted_ascending c.new)) in
                    let found =
                      probe
                      ∙ ap (λ l. linear_probe l (id_at row di)) view
                      ∙ probe-sort_by (id_at row di) c.new
                      ∙ c.told row valid in
                    ground (arith, found);
              })
      ]
    where
      no_probe : (l : List ℕ) (x : ℕ) → length l ≡ 0 → linear_probe l x ≡ false
      no_probe [] x h = ground arith
      no_probe (y ∷ l) x h = absurd (omega arith)

  resolve_range-Told :
      (qs : QueryScratch) (possible : Bool) (di : ℕ) (c : Cond) (g : Range) (r : Resolution)
      → resolve_range sc qs possible di c g ≡ ok r
      → Told qs (λ row. in_range sc v di row g) r
  unfolding resolve_range match_eqs match_ins match_ranges in_range
  resolve_range-Told qs possible di c g r e =
      elim (Bool-cases (not (eqb_str c.value []) || not (length c.in_values == 0))) [
        | inl conflict ↦ cc (rw conflict at e)
        | inr alone ↦ elim (Bool-cases (is_int sc di)) [
          | inr text ↦ cc (rw (alone, text) at e)
          | inl number ↦
              subst (Told qs (λ row. in_range sc v di row g)) (ok_inj (rw (alone, number) at e))
                (record {
                  new_dims = [];
                  new_ids = [];
                  new_wins = [];
                  new_ranges = record { dim = di; min = g.min; max = g.max } ∷ [];
                  dims = sym (append-nil qs.cond_dims);
                  ids = sym (append-nil qs.cond_ids);
                  wins = sym (append-nil qs.in_wins);
                  ranges = refl;
                  paired = refl;
                  meaning = λ row valid. ground arith;
                })
        ]
      ]

  resolve_plain-Told :
      (qs : QueryScratch) (possible : Bool) (di : ℕ) (c : Cond) (r : Resolution)
      → di < length sc.dims
      → resolve_plain sc v qs possible di c ≡ ok r
      → Told qs (λ row. holds_at sc v c row none (some di)) r
  unfolding resolve_plain holds_at
  resolve_plain-Told qs possible di c r lt e = elim (Bool-cases (length c.in_values == 0)) [
    | inl plain ↦
        let (found, e₁, last) = >>=-eq-ok (resolve_value sc v di c.dim c.value) _ (rw plain at e) in
        rw plain (
          subst (Told qs (λ row. value_is sc v di row c.value)) (ok_inj last) (
            push_cond-Told qs possible di found c.value
              (λ row valid. resolve_value-Tells di c.value c.dim found row lt e₁ valid)))
    | inr several ↦ elim (Bool-cases (eqb_str c.value [])) [
      | inl bare ↦
          let ((pool, any), e₁, last) =
            >>=-eq-ok (resolve_in sc v di c.dim c.in_values qs.in_pool false) _
              (rw (several, bare) at e) in
          rw several (
            subst (Told qs (λ row. any_value sc v di row c.in_values)) (ok_inj last) (
              close_window-Told qs possible any di c.in_values pool
                (resolve_in-Candidates di c.dim c.in_values qs.in_pool pool false any lt e₁)))
      | inr both ↦ cc (rw (several, both) at e)
    ]
  ]

  resolve_at-Told :
      (qs : QueryScratch) (possible : Bool) (c : Cond) (g : Option Range) (di : Option ℕ)
      (r : Resolution)
      → dim_index sc c.dim ≡ di
      → resolve_at sc v qs possible c g di ≡ ok r
      → Told qs (λ row. holds_at sc v c row g di) r
  unfolding resolve_at holds_at
  resolve_at-Told qs possible c none none r at e = cc
  resolve_at-Told qs possible c (some g) none r at e = cc
  resolve_at-Told qs possible c none (some di) r at e =
      resolve_plain-Told qs possible di c r (dim_index-lt sc c.dim di at) e
  resolve_at-Told qs possible c (some g) (some di) r at e =
      resolve_range-Told qs possible di c g r e

  Told-and :
      (a b : QueryScratch) (h k : List ℕ → Bool) (possible : Bool) (r : Resolution)
      → ArePools (length sc.dims) b
      → Outcome sc v b possible r
      → Means a b h
      → Told b k r
      → Told a (λ row. h row && k row) r
  Told-and a b h k possible (live c possible') pools out m n =
      Means-trans a b c h k pools out.grown.more_pool m n
  Told-and a b h k possible (dead c possible') pools out m n =
      λ row valid. let none = n row valid in ground (arith, none)

  Told-unless_dead :
      (qs : QueryScratch) (h k : List ℕ → Bool) (possible : Bool) (step : Resolution)
      (next : QueryScratch → Bool → Result Resolution) (r : Resolution)
      → Outcome sc v qs possible step
      → Told qs h step
      → ((qs' : QueryScratch) (possible' : Bool)
          → ArePools (length sc.dims) qs'
          → next qs' possible' ≡ ok r
          → Outcome sc v qs' possible' r × Told qs' k r)
      → unless_dead step next ≡ ok r
      → Told qs (λ row. h row && k row) r
  Told-unless_dead qs h k p (dead qs' p') next r out told more e =
      subst (Told qs (λ row. h row && k row)) (ok_inj e)
        (λ row valid. let none = told row valid in ground (arith, none))
  Told-unless_dead qs h k p (live qs' p') next r out told more e =
      let (out', told') = more qs' p' out.pools e in
      Told-and qs qs' h k p' r out.pools out' told told'

  -- Resolved conditions test a row of the view exactly as the conditions themselves say; a group that
  -- is given up as dead has a condition that no row of the view meets.
  pub resolve_conds-Told :
      (qs : QueryScratch) (possible : Bool) (cs : List Cond) (r : Resolution)
      → ArePools (length sc.dims) qs
      → resolve_conds sc v qs possible cs ≡ ok r
      → Told qs (group_holds sc v cs) r
  unfolding resolve_conds resolve_cond group_holds
  resolve_conds-Told qs possible [] r pools e =
      subst (Told qs (λ row. true)) (ok_inj e) (Means-none qs)
  resolve_conds-Told qs possible (c ∷ cs) r pools e =
      let (step, e₁, rest) =
        >>=-eq-ok (resolve_at sc v qs possible c c.range (dim_index sc c.dim)) _ e in
      Told-unless_dead qs (λ row. holds_at sc v c row c.range (dim_index sc c.dim))
        (group_holds sc v cs) possible step _ r
        (at_added sc v qs possible c c.range (dim_index sc c.dim) step pools refl e₁)
        (resolve_at-Told qs possible c c.range (dim_index sc c.dim) step refl e₁)
        (λ qs' possible' pools' e'. (
          resolve_conds-Outcome sc v qs' possible' cs r pools' e',
          resolve_conds-Told qs' possible' cs r pools' e',
        ))
        rest
