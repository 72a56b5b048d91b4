-- ===== src/Query/Scan/Pools.antt =====
-- The pools of a workspace only grow while its groups are planned, so the windows of a plan keep
-- their content.
use mathlib.Core.List.{append-nil, append_assoc}
use facetta.Prelude.{
  ℕ, zero, suc, ◌+◌, ◌≤◌, ◌<◌, ◌≡◌, refl, sym, ap, ◌∙◌, List, [], ◌∷◌, ◌++◌, length, take,
  length-append, arith,
}
use facetta.Prelude.All.{All}
use facetta.Query.{GroupPlan, InWindow, QueryScratch, slice}
use facetta.Query.Match.Probe.{AscendingIds}

-- `l'` is `l` with more behind it.
abbrev pub Extends {ℓ} : {A : Type ℓ} → List A → List A → Type ℓ
Extends {A = A} l l' = (more : List A) × (l' ≡ l ++ more)

module _ {ℓ} {A : Type ℓ} where
  unfoldable pub Extends-refl : (l : List A) → Extends l l
  Extends-refl l = ([], sym (append-nil l))

  unfoldable pub Extends-trans : (a b c : List A) → Extends a b → Extends b c → Extends a c
  Extends-trans a b c (m, e) (n, f) = (m ++ n, f ∙ ap (λ l. l ++ n) e ∙ append_assoc a m n)

  take-append_left : (n : ℕ) (l more : List A) → n ≤ length l → take n (l ++ more) ≡ take n l
  take-append_left zero l more h = refl
  take-append_left (suc n) [] more h = absurd (omega arith)
  take-append_left (suc n) (x ∷ l) more h = ap (◌∷◌ x) (take-append_left n l more (omega arith))

  slice-append :
      (off n : ℕ) (l more : List A) → off + n ≤ length l → slice (l ++ more) off n ≡ slice l off n
  slice-append zero n l more h = take-append_left n l more (omega arith)
  slice-append (suc off) n [] more h = absurd (omega arith)
  slice-append (suc off) n (x ∷ l) more h = slice-append off n l more (omega arith)

  pub slice-Extends :
      (off n : ℕ) (l l' : List A)
      → Extends l l'
      → off + n ≤ length l
      → slice l' off n ≡ slice l off n
  slice-Extends off n l l' (more, e) h = ap (λ x. slice x off n) e ∙ slice-append off n l more h

  pub longer : (l l' : List A) {k : ℕ} → Extends l l' → k ≤ length l → k ≤ length l'
  longer l l' (more, e) h = omega (arith, ap length e, length-append l more)

  pub All-slice : (P : A → Type 0) (off n : ℕ) (l : List A) → All P l → All P (slice l off n)
  All-slice P zero zero l h = tt
  All-slice P zero (suc n) [] h = tt
  All-slice P zero (suc n) (x ∷ l) h = (h.0, All-slice P zero n l h.1)
  All-slice P (suc off) zero [] h = tt
  All-slice P (suc off) (suc n) [] h = tt
  All-slice P (suc off) n (x ∷ l) h = All-slice P off n l h.1

-- Every pool but that of the intervals.
pub record Grown (qs qs' : QueryScratch) : Type 0 where
  pub more_dims : Extends qs.cond_dims qs'.cond_dims
  pub more_ids : Extends qs.cond_ids qs'.cond_ids
  pub more_wins : Extends qs.in_wins qs'.in_wins
  pub more_pool : Extends qs.in_pool qs'.in_pool
  pub more_ranges : Extends qs.r_wins qs'.r_wins

unfoldable pub Grown-refl : (qs : QueryScratch) → Grown qs qs
Grown-refl qs = record {
  more_dims = Extends-refl qs.cond_dims;
  more_ids = Extends-refl qs.cond_ids;
  more_wins = Extends-refl qs.in_wins;
  more_pool = Extends-refl qs.in_pool;
  more_ranges = Extends-refl qs.r_wins;
}

unfoldable pub Grown-trans : (a b c : QueryScratch) → Grown a b → Grown b c → Grown a c
Grown-trans a b c g h = record {
  more_dims = Extends-trans a.cond_dims b.cond_dims c.cond_dims g.more_dims h.more_dims;
  more_ids = Extends-trans a.cond_ids b.cond_ids c.cond_ids g.more_ids h.more_ids;
  more_wins = Extends-trans a.in_wins b.in_wins c.in_wins g.more_wins h.more_wins;
  more_pool = Extends-trans a.in_pool b.in_pool c.in_pool g.more_pool h.more_pool;
  more_ranges = Extends-trans a.r_wins b.r_wins c.r_wins g.more_ranges h.more_ranges;
}

-- A closed IN window: its candidates are in the pool, ascending, for one of `nd` dimensions.
pub record IsWindow (nd : ℕ) (pool : List ℕ) (w : InWindow) : Type 0 where
  pub inside : w.off + w.n ≤ length pool
  pub ascending : AscendingIds (slice pool w.off w.n)
  pub dim_in : w.dim < nd

pub IsWindow-Extends :
    (nd : ℕ) (pool pool' : List ℕ) (w : InWindow)
    → Extends pool pool'
    → IsWindow nd pool w
    → IsWindow nd pool' w
IsWindow-Extends nd pool pool' w e h = record {
  inside = omega (arith, ap length e.1, length-append pool e.0, h.inside);
  ascending = rw (slice-Extends w.off w.n pool pool' e h.inside) h.ascending;
  dim_in = h.dim_in;
}

pub All-IsWindow-Extends :
    (nd : ℕ) (pool pool' : List ℕ) (ws : List InWindow)
    → Extends pool pool'
    → All (IsWindow nd pool) ws
    → All (IsWindow nd pool') ws
All-IsWindow-Extends nd pool pool' [] e h = tt
All-IsWindow-Extends nd pool pool' (w ∷ ws) e h =
    (IsWindow-Extends nd pool pool' w e h.0, All-IsWindow-Extends nd pool pool' ws e h.1)

-- The pools between two plans.
pub record ArePools (nd : ℕ) (qs : QueryScratch) : Type 0 where
  pub paired : length qs.cond_ids ≡ length qs.cond_dims
  pub dims_in : All (λ d. d < nd) qs.cond_dims
  pub windows : All (IsWindow nd qs.in_pool) qs.in_wins

-- The windows of a plan lie within the pools.
pub record IsPlaced (p : GroupPlan) (qs : QueryScratch) : Type 0 where
  pub dims_room : p.cond_off + p.cond_n ≤ length qs.cond_dims
  pub ids_room : p.cond_off + p.cond_n ≤ length qs.cond_ids
  pub wins_room : p.ins_off + p.ins_n ≤ length qs.in_wins
  pub ranges_room : p.rng_off + p.rng_n ≤ length qs.r_wins
