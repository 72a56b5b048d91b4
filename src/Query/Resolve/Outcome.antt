-- ===== src/Query/Resolve/Outcome.antt =====
-- What resolving the conditions of a group leaves in the pools, and when no base row can match.
use mathlib.Core.Path.{subst}
use facetta.Prelude.{
  ℕ, suc, ◌+◌, ◌-◌, ◌≤◌, ◌<◌, ◌≡◌, refl, sym, ◌∙◌, Bool, true, false, ◌&&◌, ◌||◌, not, Option, none,
  some, List, [], ◌∷◌, ◌++◌, length, length-append, ltb, ◌==◌, take-append, arith, Bool-cases, inl,
  inr,
}
use facetta.Prelude.All.{All, All-append, All-sort_by, All-get_or}
use facetta.Prelude.Sort.{sort_by}
use facetta.Prelude.Maps.{Str, eqb_str}
use facetta.Schema.{Schema, Dim, dim_index, dim_index_from, is_int}
use facetta.Result.{Result, ok, >>=-eq-ok, ok_inj}
use facetta.Dict.{Dict, len}
use facetta.View.{View, dict_at}
use facetta.Query.{Cond, Range, InWindow, QueryScratch, slice}
use facetta.Query.Resolve.{
  Resolution, live, dead, unless_dead, resolve_value, resolve_in, sort_from, close_window,
  push_cond, resolve_range, resolve_plain, resolve_at, resolve_cond, resolve_conds,
}
use facetta.Query.Match.{match_ins, match_one_in, id_at}
use facetta.Query.Match.Probe.{match_one_in-linear_probe}
use facetta.Query.Resolve.Windows.{
  sorted_ascending, length-sort_by, drop-length, slice-more, IsBaseRow, id_known, match_ins-append,
}
use facetta.Query.Scan.Pools.{
  Extends, Extends-refl, Extends-trans, Grown, Grown-refl, Grown-trans, IsWindow,
  All-IsWindow-Extends, ArePools, slice-Extends,
}

-- Of a window whose candidates are all unknown to the base, no base row passes the test.
unknown_window :
    (nd : ℕ) (dicts : List Dict) (w : InWindow) (pool ids : List ℕ)
    → IsWindow nd pool w
    → All (λ id. len (dict_at dicts w.dim) ≤ id) (slice pool w.off w.n)
    → IsBaseRow nd dicts ids
    → match_ins (w ∷ []) pool ids ≡ false
unfolding match_ins
unknown_window nd dicts w pool ids win unknown row =
    elim (Bool-cases (match_one_in w pool (id_at ids w.dim))) [
      | inl hit ↦
          let (i, lt, same) =
            (match_one_in-linear_probe w pool (id_at ids w.dim) win.ascending).0 hit in
          let known = id_known nd dicts ids w.dim row win.dim_in in
          let above =
            All-get_or (λ id. len (dict_at dicts w.dim) ≤ id) (slice pool w.off w.n) i 0 unknown
              lt in
          absurd (omega arith)
      | inr miss ↦ rw miss refl
    ]

pub match_ins-Extends :
    (nd : ℕ) (ws : List InWindow) (pool pool' ids : List ℕ)
    → Extends pool pool'
    → All (IsWindow nd pool) ws
    → match_ins ws pool' ids ≡ match_ins ws pool ids
unfolding match_ins match_one_in
match_ins-Extends nd [] pool pool' ids e h = refl
match_ins-Extends nd (w ∷ ws) pool pool' ids e h =
    rw
      (
        slice-Extends w.off w.n pool pool' e (h.0.inside),
        match_ins-Extends nd ws pool pool' ids e h.1,
      )
      refl

and_false : (b : Bool) → b && false ≡ false
and_false b = ground arith

pub All-split_right :
    {A : Type 0} (P : A → Type 0) (l more : List A) → All P (l ++ more) → All P more
All-split_right P [] more h = h
All-split_right P (x ∷ l) more h = All-split_right P l more h.1

dim_index_from-lt :
    (i : ℕ) (dims : List Dim) (name : Str) (d : ℕ)
    → dim_index_from i dims name ≡ some d
    → d < i + length dims
unfolding dim_index_from
dim_index_from-lt i [] name d h = cc
dim_index_from-lt i (dim ∷ dims) name d h = elim (Bool-cases (eqb_str dim.name name)) [
  | inl here ↦ let at : some i ≡ some d = rw here at h in let same : i ≡ d = cc at in omega arith
  | inr later ↦ omega (arith, dim_index_from-lt (suc i) dims name d (rw later at h))
]

pub dim_index-lt :
    (sc : Schema) (name : Str) (d : ℕ) → dim_index sc name ≡ some d → d < length sc.dims
unfolding dim_index
dim_index-lt sc name d h = omega (arith, dim_index_from-lt 0 sc.dims name d h)

module _ {F : Type 0} (sc : Schema) (v : View F) where
  -- The pools before and after a part of the loop; if it cleared `basePossible`, then an IN window
  -- that it added has no candidate of the base.
  pub record IsResolved (qs : QueryScratch) (possible : Bool) (qs' : QueryScratch)
      (possible' : Bool) : Type 0 where
    pub grown : Grown qs qs'
    pub pools : ArePools (length sc.dims) qs'
    pub absent :
        (ids : List ℕ)
        → possible' ≡ false
        → possible ≡ true
        → IsBaseRow (length sc.dims) v.base.dicts ids
        → match_ins grown.more_wins.0 qs'.in_pool ids ≡ false

  -- A dead plan reads no pool, but the later plans do.
  abbrev pub Outcome : QueryScratch → Bool → Resolution → Type 0
  Outcome qs possible (live qs' possible') = IsResolved qs possible qs' possible'
  Outcome qs possible (dead qs' possible') = Grown qs qs' × ArePools (length sc.dims) qs'

  unchanged :
      (qs : QueryScratch) (possible : Bool)
      → ArePools (length sc.dims) qs
      → IsResolved qs possible qs possible
  unchanged qs possible h = record {
    grown = Grown-refl qs;
    pools = h;
    absent = λ ids off on row. cc;
  }

  IsResolved-trans :
      (a b c : QueryScratch) (p q r : Bool)
      → IsResolved a p b q
      → IsResolved b q c r
      → IsResolved a p c r
  unfolding Grown-trans Extends-trans
  IsResolved-trans a b c p q r h k = record {
    grown = Grown-trans a b c h.grown k.grown;
    pools = k.pools;
    absent = λ ids off on row.
        let first = h.grown.more_wins.0 in
        let windows =
          All-split_right (IsWindow (length sc.dims) b.in_pool) a.in_wins first (
            subst (All (IsWindow (length sc.dims) b.in_pool)) h.grown.more_wins.1
              h.pools.windows) in
        match_ins-append first k.grown.more_wins.0 c.in_pool ids ∙ elim (Bool-cases q) [
          | inl still ↦ rw (k.absent ids off still row) (and_false (match_ins first c.in_pool ids))
          | inr cleared ↦
              rw
                (
                  match_ins-Extends (length sc.dims) first b.in_pool c.in_pool ids k.grown.more_pool
                      windows,
                  h.absent ids cleared on row,
                )
                refl
        ];
  }

  -- A window of the pool that it extends.
  window_added :
      (qs : QueryScratch) (possible any : Bool) (di : ℕ) (new : List ℕ)
      → ArePools (length sc.dims) qs
      → di < length sc.dims
      → (any ≡ false → All (λ id. len (dict_at v.base.dicts di) ≤ id) new)
      → IsResolved qs possible
          (record qs {
            in_pool = qs.in_pool ++ sort_by ltb new;
            in_wins =
                qs.in_wins ++ record { dim = di; off = length qs.in_pool; n = length new } ∷ [];
          })
          (possible && any)
  unfolding Grown-refl Extends-refl
  window_added qs possible any di new h lt unknown =
      let w : InWindow = record { dim = di; off = length qs.in_pool; n = length new } in
      let pool = qs.in_pool ++ sort_by ltb new in
      let view : slice pool w.off w.n ≡ sort_by ltb new =
        slice-more qs.in_pool (sort_by ltb new) w.n (sym (length-sort_by new)) in
      let win : IsWindow (length sc.dims) pool w = record {
        inside = omega (arith, length-append qs.in_pool (sort_by ltb new), length-sort_by new);
        ascending = rw view (sorted_ascending new);
        dim_in = lt;
      } in
      record {
        grown = record {
          more_dims = Extends-refl qs.cond_dims;
          more_ids = Extends-refl qs.cond_ids;
          more_wins = (w ∷ [], refl);
          more_pool = (sort_by ltb new, refl);
          more_ranges = Extends-refl qs.r_wins;
        };
        pools = record {
          paired = h.paired;
          dims_in = h.dims_in;
          windows =
              All-append (IsWindow (length sc.dims) pool) qs.in_wins w
                (All-IsWindow-Extends (length sc.dims) qs.in_pool pool qs.in_wins
                  (sort_by ltb new, refl) h.windows)
                win;
        };
        absent = λ ids off on row.
            let none_known : any ≡ false = ground arith in
            unknown_window (length sc.dims) v.base.dicts w pool ids win
              (rw view (
                All-sort_by (λ id. len (dict_at v.base.dicts di) ≤ id) ltb new
                  (unknown none_known)))
              row;
      }

  pushed :
      (qs : QueryScratch) (possible : Bool) (di : ℕ) (found : Option ℕ)
      → ArePools (length sc.dims) qs
      → di < length sc.dims
      → Outcome qs possible (push_cond qs possible di found)
  unfolding push_cond Grown-refl Extends-refl
  pushed qs possible di none h lt = (Grown-refl qs, h)
  pushed qs possible di (some id) h lt = record {
    grown = record {
      more_dims = (di ∷ [], refl);
      more_ids = (id ∷ [], refl);
      more_wins = Extends-refl qs.in_wins;
      more_pool = Extends-refl qs.in_pool;
      more_ranges = Extends-refl qs.r_wins;
    };
    pools = record {
      paired = omega (
        arith,
        h.paired,
        length-append qs.cond_ids (id ∷ []),
        length-append qs.cond_dims (di ∷ []),
      );
      dims_in = All-append (λ d. d < length sc.dims) qs.cond_dims di h.dims_in lt;
      windows = h.windows;
    };
    absent = λ ids off on row. cc;
  }

  -- The candidates that `resolve_in` appends; if it saw none of the base, all are unknown to it.
  record Adds (di : ℕ) (pool pool' : List ℕ) (any any' : Bool) : Type 0 where
    more : Extends pool pool'
    unknown : any' ≡ false → (any ≡ false) × All (λ id. len (dict_at v.base.dicts di) ≤ id) more.0

  Adds-one :
      (di id : ℕ) (pool pool' : List ℕ) (any any' : Bool)
      → Adds di (pool ++ id ∷ []) pool' (any || ltb id (len (dict_at v.base.dicts di))) any'
      → Adds di pool pool' any any'
  unfolding Extends-trans
  Adds-one di id pool pool' any any' h = record {
    more = Extends-trans pool (pool ++ id ∷ []) pool' (id ∷ [], refl) h.more;
    unknown = λ off. let u = h.unknown off in (ground (arith, u.0), (ground (arith, u.0), u.1));
  }

  resolve_in-Adds :
      (di : ℕ) (dim : Str) (values : List Str) (pool pool' : List ℕ) (any any' : Bool)
      → resolve_in sc v di dim values pool any ≡ ok (pool', any')
      → Adds di pool pool' any any'
  unfolding resolve_in Extends-refl
  resolve_in-Adds di dim [] pool pool' any any' h =
      subst (λ (x : List ℕ × Bool). Adds di pool x.0 any x.1) (ok_inj h)
        (record { more = Extends-refl pool; unknown = λ off. (off, tt) })
  resolve_in-Adds di dim (value ∷ values) pool pool' any any' h =
      let (found, e, rest) = >>=-eq-ok (resolve_value sc v di dim value) _ h in
      by_found (λ pool₁ any₁ h₁. resolve_in-Adds di dim values pool₁ pool' any₁ any' h₁) found rest
    where
      by_found :
          ((pool₁ : List ℕ) (any₁ : Bool)
            → resolve_in sc v di dim values pool₁ any₁ ≡ ok (pool', any')
            → Adds di pool₁ pool' any₁ any')
          → (found : Option ℕ)
          → elim found [
            | none ↦ resolve_in sc v di dim values pool any
            | some id ↦
                resolve_in sc v di dim values
                  (pool ++ id ∷ [])
                  (any || ltb id (len (dict_at v.base.dicts di)))
          ]
            ≡ ok (pool', any')
          → Adds di pool pool' any any'
      by_found later none rest = later pool any rest
      by_found later (some id) rest =
          Adds-one di id pool pool' any any'
            (later (pool ++ id ∷ []) (any || ltb id (len (dict_at v.base.dicts di))) rest)

  closed :
      (qs : QueryScratch) (possible any : Bool) (di : ℕ) (pool : List ℕ)
      → ArePools (length sc.dims) qs
      → di < length sc.dims
      → Adds di qs.in_pool pool false any
      → Outcome qs possible (close_window qs possible di (pool, any))
  unfolding close_window sort_from Grown-refl Extends-refl
  closed qs possible any di pool h lt added =
      let new = added.more.0 in
      let same : pool ≡ qs.in_pool ++ new = added.more.1 in
      let size = length-append qs.in_pool new in
      elim (Bool-cases (length (qs.in_pool ++ new) == length qs.in_pool)) [
        | inl empty ↦
            rw (same, empty)
              (
                record {
                  more_dims = Extends-refl qs.cond_dims;
                  more_ids = Extends-refl qs.cond_ids;
                  more_wins = Extends-refl qs.in_wins;
                  more_pool = (new, refl);
                  more_ranges = Extends-refl qs.r_wins;
                },
                record {
                  paired = h.paired;
                  dims_in = h.dims_in;
                  windows =
                      All-IsWindow-Extends (length sc.dims) qs.in_pool (qs.in_pool ++ new)
                        qs.in_wins (new, refl) h.windows;
                },
              )
        | inr some_ids ↦
            let count : length (qs.in_pool ++ new) - length qs.in_pool ≡ length new = omega arith in
            rw
              (
                same,
                some_ids,
                count,
                take-append (length qs.in_pool) qs.in_pool new refl,
                drop-length qs.in_pool new,
              )
              (window_added qs possible any di new h lt (λ off. (added.unknown off).1))
      ]

  range_added :
      (qs : QueryScratch) (possible : Bool) (di : ℕ) (c : Cond) (g : Range) (r : Resolution)
      → ArePools (length sc.dims) qs
      → resolve_range sc qs possible di c g ≡ ok r
      → Outcome qs possible r
  unfolding resolve_range Extends-refl
  range_added qs possible di c g r h e =
      elim (Bool-cases (not (eqb_str c.value []) || not (length c.in_values == 0))) [
        | inl conflict ↦ cc (rw conflict at e)
        | inr alone ↦ elim (Bool-cases (is_int sc di)) [
          | inr text ↦ cc (rw (alone, text) at e)
          | inl number ↦ subst (Outcome qs possible) (ok_inj (rw (alone, number) at e)) (record {
            grown = record {
              more_dims = Extends-refl qs.cond_dims;
              more_ids = Extends-refl qs.cond_ids;
              more_wins = Extends-refl qs.in_wins;
              more_pool = Extends-refl qs.in_pool;
              more_ranges = (record { dim = di; min = g.min; max = g.max } ∷ [], refl);
            };
            pools = record { paired = h.paired; dims_in = h.dims_in; windows = h.windows };
            absent = λ ids off on row. cc;
          })
        ]
      ]

  plain_added :
      (qs : QueryScratch) (possible : Bool) (di : ℕ) (c : Cond) (r : Resolution)
      → ArePools (length sc.dims) qs
      → di < length sc.dims
      → resolve_plain sc v qs possible di c ≡ ok r
      → Outcome qs possible r
  unfolding resolve_plain
  plain_added qs possible di c r h lt e = elim (Bool-cases (length c.in_values == 0)) [
    | inl plain ↦
        let (found, e₁, last) = >>=-eq-ok (resolve_value sc v di c.dim c.value) _ (rw plain at e) in
        subst (Outcome qs possible) (ok_inj last) (pushed qs possible di found h lt)
    | inr several ↦ elim (Bool-cases (eqb_str c.value [])) [
      | inl bare ↦
          let ((pool, any), e₁, last) =
            >>=-eq-ok (resolve_in sc v di c.dim c.in_values qs.in_pool false) _
              (rw (several, bare) at e) in
          subst (Outcome qs possible) (ok_inj last) (
            closed qs possible any di pool h lt
              (resolve_in-Adds di c.dim c.in_values qs.in_pool pool false any e₁))
      | inr both ↦ cc (rw (several, both) at e)
    ]
  ]

  pub at_added :
      (qs : QueryScratch) (possible : Bool) (c : Cond) (g : Option Range) (di : Option ℕ)
      (r : Resolution)
      → ArePools (length sc.dims) qs
      → dim_index sc c.dim ≡ di
      → resolve_at sc v qs possible c g di ≡ ok r
      → Outcome qs possible r
  unfolding resolve_at
  at_added qs possible c none none r h at e = cc
  at_added qs possible c (some g) none r h at e = cc
  at_added qs possible c none (some di) r h at e =
      plain_added qs possible di c r h (dim_index-lt sc c.dim di at) e
  at_added qs possible c (some g) (some di) r h at e = range_added qs possible di c g r h e

  IsResolved-Outcome :
      (qs qs' : QueryScratch) (p p' : Bool) (r : Resolution)
      → IsResolved qs p qs' p'
      → Outcome qs' p' r
      → Outcome qs p r
  IsResolved-Outcome qs qs' p p' (live qs'' p'') h k = IsResolved-trans qs qs' qs'' p p' p'' h k
  IsResolved-Outcome qs qs' p p' (dead qs'' p'') h k = (Grown-trans qs qs' qs'' h.grown k.0, k.1)

  Outcome-unless_dead :
      (qs : QueryScratch) (possible : Bool) (step : Resolution)
      (next : QueryScratch → Bool → Result Resolution) (r : Resolution)
      → Outcome qs possible step
      → ((qs' : QueryScratch) (possible' : Bool)
          → ArePools (length sc.dims) qs'
          → next qs' possible' ≡ ok r
          → Outcome qs' possible' r)
      → unless_dead step next ≡ ok r
      → Outcome qs possible r
  Outcome-unless_dead qs p (dead qs' p') next r one more e = subst (Outcome qs p) (ok_inj e) one
  Outcome-unless_dead qs p (live qs' p') next r one more e =
      IsResolved-Outcome qs qs' p p' r one (more qs' p' one.pools e)

  pub resolve_conds-Outcome :
      (qs : QueryScratch) (possible : Bool) (cs : List Cond) (r : Resolution)
      → ArePools (length sc.dims) qs
      → resolve_conds sc v qs possible cs ≡ ok r
      → Outcome qs possible r
  unfolding resolve_conds resolve_cond
  resolve_conds-Outcome qs possible [] r h e =
      subst (Outcome qs possible) (ok_inj e) (unchanged qs possible h)
  resolve_conds-Outcome qs possible (c ∷ cs) r h e =
      let (step, e₁, rest) =
        >>=-eq-ok (resolve_at sc v qs possible c c.range (dim_index sc c.dim)) _ e in
      Outcome-unless_dead qs possible step _ r
        (at_added qs possible c c.range (dim_index sc c.dim) step h refl e₁)
        (λ qs' possible' h' e'. resolve_conds-Outcome qs' possible' cs r h' e') rest
