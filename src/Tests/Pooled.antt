-- ===== src/Tests/Pooled.antt =====
-- A workspace of the pool after a query with a distinct count.
use facetta.Prelude.{◌≡◌, refl, true, none, some, [], ◌∷◌, arith}
use facetta.Scratch.{QueryShape}
use facetta.Scratch.Pool.{
  PooledScratch, new_scratch, get_pooled_scratch, hold_bitmaps, release, fresh, returned, IsClean,
  InPool-IsClean,
}

-- Twenty groups with an IN condition and two aggregates.
abbrev wide_shape : QueryShape
wide_shape = record {
  groups = 20;
  conds = 20;
  in_conds = 1;
  in_vals = 3;
  ranges = 0;
  aggs = 2;
  iv_demand = 22;
}

abbrev used_scratch : PooledScratch
used_scratch = record {
  pooled = true;
  plans = 20;
  ivs = 4116;
  cond_dims = 20;
  cond_ids = 20;
  in_wins = 1;
  in_pool = 3;
  r_wins = 0;
  mets = 2;
  ddims = 2;
  acc = 2;
  bms = none ∷ none ∷ [];
  bms_len = 2;
}

released_test :
    release (hold_bitmaps (get_pooled_scratch new_scratch wide_shape) (none ∷ some (5 ∷ []) ∷ []))
    ≡ some used_scratch
unfolding release hold_bitmaps get_pooled_scratch
released_test = refl

-- The same workspace with room for 70,000 intervals is dropped.
dropped_test : release (record used_scratch { ivs = 70_000 }) ≡ none
unfolding release
dropped_test = refl

InPool-IsClean_example : IsClean used_scratch
InPool-IsClean_example = InPool-IsClean (
    returned new_scratch used_scratch wide_shape (none ∷ some (5 ∷ []) ∷ []) fresh (omega arith)
      released_test)
