-- ===== src/Compactor.antt =====
-- compactor.go: the background policy that drives `Store.Compact`. The tickers are the events, and the
-- readings of the clock and the outcome of writing the snapshot file are arguments.
pub mod Ticked
use Prim.Native.Nat.{max}
use facetta.Prelude.{ℕ, ◌*◌, Bool, true, ◌&&◌, ◌||◌, List, [], ◌∷◌, length, ltb, if◌then◌else◌}
use facetta.Prelude.Int.{ℤ, pos, leb_ℤ}
use facetta.Result.{Result, ok, err}
use facetta.Codec.{Hashes, FloatBits}
use facetta.Store.{Store, positive, compact, needs_compaction}
use facetta.Store.Files.{File, save_snapshot}

-- Durations are nanoseconds, and `saves` says that there is a `SnapshotPath`. `DeltaRatio` is a float64, of which the policy asks whether it is
-- positive, and whether `d` rows reach that ratio of `base` rows; so too of the default 0.1.
pub record CompactorConfig : Type 0 where
  pub check_interval : ℤ
  pub compact_interval : ℤ
  pub ratio_positive : Bool
  pub reaches_ratio : ℕ → ℕ → Bool
  pub reaches_default : ℕ → ℕ → Bool
  pub max_delta_rows : ℤ
  pub saves : Bool

abbrev pub second : ℕ
second = 1_000_000_000

pub with_defaults : CompactorConfig → CompactorConfig
with_defaults c = record {
  check_interval = if positive c.check_interval then c.check_interval else pos (10 * second);
  compact_interval = if positive c.compact_interval then c.compact_interval else pos (300 * second);
  ratio_positive = true;
  reaches_ratio = if c.ratio_positive then c.reaches_ratio else c.reaches_default;
  reaches_default = c.reaches_default;
  max_delta_rows = c.max_delta_rows;
  saves = c.saves;
}

-- What the select of `Run` receives: the readings of the clock that follow, and whether the file of a
-- snapshot can be written.
pub data Tick : Type 0 where
  check : Bool → ℤ → ℤ → ℤ → Tick
  tidy : Bool → ℤ → ℤ → ℤ → ℤ → Tick

module _ {F : Type 0} where
  pub ratio_hit : CompactorConfig → Store F → Bool
  ratio_hit cfg s =
      let d = length s.view.delta.rows in
      ltb 0 d && cfg.reaches_ratio d (max (length s.view.base.rows) 1)

  pub cap_hit : CompactorConfig → Store F → Bool
  cap_hit cfg s =
      positive cfg.max_delta_rows && leb_ℤ cfg.max_delta_rows (pos (length s.view.delta.rows))

module _ {F : Type 0} ⦃hs : Hashes⦄ ⦃fb : FloatBits F⦄ where
  pub save_if : Bool → Bool → Store F → File → Store F × File
  save_if saves written s file = if saves then save_snapshot written s file else (s, file)

  pub save_after : CompactorConfig → Bool → File → Store F × Result (Unit {0}) → Store F × File
  unfolding save_if
  save_after cfg written file (s, err e) = (s, file)
  save_after cfg written file (s, ok u) = save_if cfg.saves written s file

  -- `compactAndSave`: a failed compaction is counted by the store and otherwise ignored.
  pub compact_and_save : CompactorConfig → Bool → Store F → File → ℤ → ℤ → ℤ → Store F × File
  unfolding save_after
  compact_and_save cfg written s file now now₁ now₂ =
      save_after cfg written file (compact s now now₁ now₂)

  -- One round of `Run`.
  pub on_tick : CompactorConfig → Store F × File → Tick → Store F × File
  unfolding ratio_hit cap_hit compact_and_save
  on_tick cfg (s, file) (check written now now₁ now₂) =
      if s.cap_blocked
      then (s, file)
      else if ratio_hit cfg s || cap_hit cfg s
      then compact_and_save cfg written s file now now₁ now₂
      else (s, file)
  on_tick cfg (s, file) (tidy written now now₁ now₂ now₃) =
      if needs_compaction s now
      then compact_and_save cfg written s file now₁ now₂ now₃
      else (s, file)

  pub run : CompactorConfig → Store F × File → List Tick → Store F × File
  unfolding on_tick
  run cfg st [] = st
  run cfg st (t ∷ ts) = run cfg (on_tick cfg st t) ts
