-- ===== src/Scratch/Pool.antt =====
-- scratch.go: the workspaces that sync.Pool keeps between queries, getPooledScratch and release.
-- Sizes are those of a 64-bit platform.
use facetta.Prelude.{
  ℕ, zero, suc, ◌+◌, ◌*◌, ◌≤◌, ◌≡◌, refl, ap, Bool, true, false, ◌||◌, not, Option, none, some,
  List, [], ◌∷◌, length, replicate, ltb, arith, if◌then◌else◌, Bool-cases, inl, inr,
}
use mathlib.Core.Path.{subst}
use facetta.Prelude.All.{All}
use facetta.Scratch.{QueryShape, grow, pooled_ivs}

-- `1 << 20`
abbrev pub max_pooled_scratch_bytes : ℕ
max_pooled_scratch_bytes = 1_048_576

-- A bitmap is the words of a `[]uint64`, a nil one is `none`. Of the other slices only the capacity
-- outlives a query. `bms` is the whole array that backs the slice, `bms_len` the slice's length.
pub record PooledScratch : Type 0 where
  pub pooled : Bool
  pub plans : ℕ
  pub ivs : ℕ
  pub cond_dims : ℕ
  pub cond_ids : ℕ
  pub in_wins : ℕ
  pub in_pool : ℕ
  pub r_wins : ℕ
  pub mets : ℕ
  pub ddims : ℕ
  pub acc : ℕ
  pub bms : List (Option (List ℕ))
  pub bms_len : ℕ

-- `&queryScratch{pooled: true}`
abbrev pub new_scratch : PooledScratch
new_scratch = record {
  pooled = true;
  plans = 0;
  ivs = 0;
  cond_dims = 0;
  cond_ids = 0;
  in_wins = 0;
  in_pool = 0;
  r_wins = 0;
  mets = 0;
  ddims = 0;
  acc = 0;
  bms = [];
  bms_len = 0;
}

-- `grow` on the slice of bitmaps: `make` gives nil entries.
grow_bms : List (Option (List ℕ)) → ℕ → List (Option (List ℕ))
grow_bms l n = if ltb (length l) n then replicate n none else l

unfoldable pub get_pooled_scratch : PooledScratch → QueryShape → PooledScratch
unfolding grow pooled_ivs grow_bms
get_pooled_scratch q sh = record {
  pooled = q.pooled;
  plans = grow q.plans sh.groups;
  ivs = pooled_ivs q.ivs sh;
  cond_dims = grow q.cond_dims sh.conds;
  cond_ids = grow q.cond_ids sh.conds;
  in_wins = grow q.in_wins sh.in_conds;
  in_pool = grow q.in_pool sh.in_vals;
  r_wins = grow q.r_wins sh.ranges;
  mets = grow q.mets sh.aggs;
  ddims = grow q.ddims sh.aggs;
  acc = grow q.acc sh.aggs;
  bms = grow_bms q.bms sh.aggs;
  bms_len = 0;
}

-- The first entries of an array become those of `xs`.
overlay : List (Option (List ℕ)) → List (Option (List ℕ)) → List (Option (List ℕ))
overlay [] l = l
overlay (x ∷ xs) [] = []
overlay (x ∷ xs) (y ∷ l) = x ∷ overlay xs l

-- `qs.bms = qs.bms[:len(aggs)]` and the loops that fill its entries with `maps`.
unfoldable pub hold_bitmaps : PooledScratch → List (Option (List ℕ)) → PooledScratch
unfolding overlay
hold_bitmaps q maps = record q { bms = overlay maps q.bms; bms_len = length maps }

-- `unsafe.Sizeof`: groupPlan 48, iv 16, inWindow 12, rangeWindow 24, a slice 24.
unfoldable pub retained_bytes : PooledScratch → ℕ
retained_bytes q =
    q.plans * 48
    + q.ivs * 16
    + q.cond_dims * 4
    + q.cond_ids * 4
    + q.in_wins * 12
    + q.in_pool * 4
    + q.r_wins * 24
    + q.mets * 8
    + q.ddims * 8
    + q.acc * 8
    + length q.bms * 24

unfoldable pub oversized : PooledScratch → Bool
unfolding retained_bytes
oversized q = ltb max_pooled_scratch_bytes (retained_bytes q)

-- The loop of `release`.
nil_bms : ℕ → List (Option (List ℕ)) → List (Option (List ℕ))
nil_bms zero l = l
nil_bms (suc n) [] = []
nil_bms (suc n) (x ∷ l) = none ∷ nil_bms n l

-- What `release` puts back into the pool, if anything.
unfoldable pub release : PooledScratch → Option PooledScratch
unfolding oversized nil_bms
release q =
    if not q.pooled || oversized q then none else some (record q { bms = nil_bms q.bms_len q.bms })

-- The workspaces that the pool can hand out: a fresh one, or one that a query got, measured by
-- `sh`, filled with its bitmaps and released. The other slices never grow during a query.
pub data InPool : PooledScratch → Type 0 where
  fresh : InPool new_scratch
  returned :
      (q q' : PooledScratch) (sh : QueryShape) (maps : List (Option (List ℕ)))
      → InPool q
      → length maps ≤ sh.aggs
      → release (hold_bitmaps (get_pooled_scratch q sh) maps) ≡ some q'
      → InPool q'

-- A workspace that pins no bitmap of an earlier query and no more memory than the guard allows.
pub record IsClean (q : PooledScratch) : Type 0 where
  pub is_pooled : q.pooled ≡ true
  pub small : retained_bytes q ≤ max_pooled_scratch_bytes
  pub no_bitmaps : All (λ b. b ≡ none) q.bms

All-replicate : (n : ℕ) → All (λ (b : Option (List ℕ)). b ≡ none) (replicate n none)
All-replicate zero = tt
All-replicate (suc n) = (refl, All-replicate n)

All-grow_bms :
    (l : List (Option (List ℕ))) (n : ℕ)
    → All (λ b. b ≡ none) l
    → All (λ b. b ≡ none) (grow_bms l n)
unfolding grow_bms
All-grow_bms l n h = elim (Bool-cases (ltb (length l) n)) [
  | inl small ↦ rw small (All-replicate n)
  | inr large ↦ rw large h
]

All-nil_bms :
    (maps l : List (Option (List ℕ)))
    → All (λ b. b ≡ none) l
    → All (λ b. b ≡ none) (nil_bms (length maps) (overlay maps l))
unfolding nil_bms overlay
All-nil_bms [] l h = h
All-nil_bms (x ∷ maps) [] h = tt
All-nil_bms (x ∷ maps) (y ∷ l) h = (refl, All-nil_bms maps l h.1)

length-nil_bms : (n : ℕ) (l : List (Option (List ℕ))) → length (nil_bms n l) ≡ length l
unfolding nil_bms
length-nil_bms zero l = refl
length-nil_bms (suc n) [] = refl
length-nil_bms (suc n) (x ∷ l) = ap suc (length-nil_bms n l)

oversized_small :
    (q : PooledScratch) → oversized q ≡ false → retained_bytes q ≤ max_pooled_scratch_bytes
unfolding oversized
oversized_small q h = ground arith

retained_bytes-bms :
    (q : PooledScratch) (l : List (Option (List ℕ)))
    → length l ≡ length q.bms
    → retained_bytes (record q { bms = l }) ≡ retained_bytes q
unfolding retained_bytes
retained_bytes-bms q l h = rw h refl

kept_small : (q : PooledScratch) → not q.pooled || oversized q ≡ false → oversized q ≡ false
kept_small q h = ground arith

release-IsClean :
    (q q' : PooledScratch) (sh : QueryShape) (maps : List (Option (List ℕ)))
    → IsClean q
    → release (hold_bitmaps (get_pooled_scratch q sh) maps) ≡ some q'
    → IsClean q'
unfolding release hold_bitmaps get_pooled_scratch
release-IsClean q q' sh maps clean h =
    let used = hold_bitmaps (get_pooled_scratch q sh) maps in
    let put = record used { bms = nil_bms used.bms_len used.bms } in
    elim (Bool-cases (not used.pooled || oversized used)) [
      | inl dropped ↦ let none_put : release used ≡ none = rw dropped refl in absurd (cc)
      | inr kept ↦
          let same : release used ≡ some put = rw kept refl in
          let small = oversized_small used (kept_small used kept) in
          let len = length-nil_bms used.bms_len used.bms in
          let back : put ≡ q' = cc in
          subst IsClean back (record {
            is_pooled = clean.is_pooled;
            small = rw (retained_bytes-bms used (nil_bms used.bms_len used.bms) len) small;
            no_bitmaps =
                All-nil_bms maps (get_pooled_scratch q sh).bms
                  (All-grow_bms q.bms sh.aggs clean.no_bitmaps);
          })
    ]

-- A workspace that a query finds in the pool pins no bitmap of an earlier query and retains at most
-- 2^20 bytes, whatever queries used it before.
pub InPool-IsClean : {q : PooledScratch} → InPool q → IsClean q
unfolding retained_bytes
InPool-IsClean fresh = record { is_pooled = refl; small = omega arith; no_bitmaps = tt }
InPool-IsClean (returned q q' sh maps p room h) = release-IsClean q q' sh maps (InPool-IsClean p) h
