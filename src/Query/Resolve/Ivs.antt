-- ===== src/Query/Resolve/Ivs.antt =====
-- Resolving conditions leaves the intervals and the plans alone.
use facetta.Prelude.{
  ℕ, ◌≡◌, refl, sym, ◌∙◌, Bool, false, Option, none, some, List, [], ◌∷◌, length, ◌==◌, arith,
  Bool-cases, inl, inr,
}
use facetta.Prelude.Maps.{eqb_str}
use facetta.Schema.{Schema, dim_index}
use facetta.Result.{Result, ok, >>=-eq-ok, ok_inj}
use facetta.View.{View}
use facetta.Query.{Cond, Range, QueryScratch}
use facetta.Query.Resolve.{
  Resolution, live, dead, unless_dead, resolve_value, resolve_in, close_window, push_cond,
  resolve_range, resolve_plain, resolve_at, resolve_cond, resolve_conds,
}

abbrev pub scratch_of : Resolution → QueryScratch
scratch_of (live qs possible) = qs
scratch_of (dead qs possible) = qs

pub record SameIvs (qs qs' : QueryScratch) : Type 0 where
  pub same_ivs : qs'.ivs ≡ qs.ivs
  pub same_cap : qs'.ivs_cap ≡ qs.ivs_cap
  pub same_plans : qs'.plans ≡ qs.plans

close_window-SameIvs :
    (qs : QueryScratch) (possible : Bool) (di : ℕ) (pool : List ℕ × Bool)
    → SameIvs qs (scratch_of (close_window qs possible di pool))
unfolding close_window
close_window-SameIvs qs possible di (pool, any) = ground arith

push_cond-SameIvs :
    (qs : QueryScratch) (possible : Bool) (di : ℕ) (found : Option ℕ)
    → SameIvs qs (scratch_of (push_cond qs possible di found))
unfolding push_cond
push_cond-SameIvs qs possible di none = record {
  same_ivs = refl;
  same_cap = refl;
  same_plans = refl;
}
push_cond-SameIvs qs possible di (some id) = record {
  same_ivs = refl;
  same_cap = refl;
  same_plans = refl;
}

resolve_range-SameIvs :
    (sc : Schema) (qs : QueryScratch) (possible : Bool) (di : ℕ) (c : Cond) (g : Range)
    (r : Resolution)
    → resolve_range sc qs possible di c g ≡ ok r
    → SameIvs qs (scratch_of r)
unfolding resolve_range
resolve_range-SameIvs sc qs possible di c g (live qs' possible') h = ground arith
resolve_range-SameIvs sc qs possible di c g (dead qs' possible') h = ground arith

SameIvs-trans : {a b c : QueryScratch} → SameIvs a b → SameIvs b c → SameIvs a c
SameIvs-trans p q = record {
  same_ivs = q.same_ivs ∙ p.same_ivs;
  same_cap = q.same_cap ∙ p.same_cap;
  same_plans = q.same_plans ∙ p.same_plans;
}

unless_dead-SameIvs :
    (qs : QueryScratch) (step : Resolution) (next : QueryScratch → Bool → Result Resolution)
    (r : Resolution)
    → SameIvs qs (scratch_of step)
    → ((qs' : QueryScratch) (possible' : Bool)
        → next qs' possible' ≡ ok r
        → SameIvs qs' (scratch_of r))
    → unless_dead step next ≡ ok r
    → SameIvs qs (scratch_of r)
unless_dead-SameIvs qs (dead qs' possible') next r one more h = rw (ok_inj (sym h)) one
unless_dead-SameIvs qs (live qs' possible') next r one more h =
    SameIvs-trans one (more qs' possible' h)

module _ {F : Type 0} (sc : Schema) (v : View F) where
  resolve_plain-SameIvs :
      (qs : QueryScratch) (possible : Bool) (di : ℕ) (c : Cond) (r : Resolution)
      → resolve_plain sc v qs possible di c ≡ ok r
      → SameIvs qs (scratch_of r)
  unfolding resolve_plain
  resolve_plain-SameIvs qs possible di c r h = elim (Bool-cases (length c.in_values == 0)) [
    | inl plain ↦
        let (found, e, last) = >>=-eq-ok (resolve_value sc v di c.dim c.value) _ (rw plain at h) in
        rw (ok_inj (sym last)) (push_cond-SameIvs qs possible di found)
    | inr several ↦ elim (Bool-cases (eqb_str c.value [])) [
      | inl bare ↦
          let (pool, e, last) =
            >>=-eq-ok (resolve_in sc v di c.dim c.in_values qs.in_pool false) _
              (rw (several, bare) at h) in
          rw (ok_inj (sym last)) (close_window-SameIvs qs possible di pool)
      | inr both ↦ cc (rw (several, both) at h)
    ]
  ]

  resolve_at-SameIvs :
      (qs : QueryScratch) (possible : Bool) (c : Cond) (g : Option Range) (di : Option ℕ)
      (r : Resolution)
      → resolve_at sc v qs possible c g di ≡ ok r
      → SameIvs qs (scratch_of r)
  unfolding resolve_at
  resolve_at-SameIvs qs possible c none none r h = cc
  resolve_at-SameIvs qs possible c (some g) none r h = cc
  resolve_at-SameIvs qs possible c none (some di) r h = resolve_plain-SameIvs qs possible di c r h
  resolve_at-SameIvs qs possible c (some g) (some di) r h =
      resolve_range-SameIvs sc qs possible di c g r h

  pub resolve_conds-SameIvs :
      (qs : QueryScratch) (possible : Bool) (cs : List Cond) (r : Resolution)
      → resolve_conds sc v qs possible cs ≡ ok r
      → SameIvs qs (scratch_of r)
  unfolding resolve_conds resolve_cond
  resolve_conds-SameIvs qs possible [] r h =
      rw (ok_inj (sym h)) (record { same_ivs = refl; same_cap = refl; same_plans = refl })
  resolve_conds-SameIvs qs possible (c ∷ cs) r h =
      let (step, e, rest) =
        >>=-eq-ok (resolve_at sc v qs possible c c.range (dim_index sc c.dim)) _ h in
      unless_dead-SameIvs qs step _ r
        (resolve_at-SameIvs qs possible c c.range (dim_index sc c.dim) step e)
        (λ qs' possible' e'. resolve_conds-SameIvs qs' possible' cs r e') rest
