-- ===== src/Store.antt =====
-- store.go: the store, its writers and the policy that decides when a merge is due. Every operation
-- takes the readings of the clock that the code makes, in nanoseconds, in the order of the calls.
pub mod Files
pub mod Swap
pub mod Reach
use facetta.Prelude.{
  ℕ, zero, suc, ◌+◌, ◌/◌, Bool, true, false, ◌&&◌, ◌||◌, not, Option, none, some, List, length, ltb,
  ◌==◌, if◌then◌else◌,
}
use facetta.Prelude.Int.{ℤ, pos, negsuc, ◌-ℤ◌, leb_ℤ, ltb_ℤ, eqb_ℤ, floor_div}
use facetta.Schema.{Schema, Config, Record, validate}
use facetta.Result.{Error, Result, ok, err, row_limit, key_overflow, ◌>>=◌, ◌>>◌}
use facetta.Snapshot.{Snapshot, empty_snapshot}
use facetta.Snapshot.Build.{build_from_records}
use facetta.View.{View, new_view, max_updated}
use facetta.View.Apply.{apply_delta}
use facetta.View.Merge.{merge_view}
use facetta.Stats.{Counters, zero_counters}

-- Nanoseconds in a millisecond.
abbrev pub milli : ℕ
milli = 1_000_000

pub record Store (F : Type 0) : Type 0 where
  pub sc : Schema
  pub cfg : Config
  pub view : View F
  pub counters : Counters
  pub cap_blocked : Bool
  pub last_dict_compact : ℤ

-- `Time.UnixMilli`
abbrev pub unix_milli : ℤ → ℤ
unix_milli t = floor_div t milli

-- `Duration.Milliseconds` of a positive duration
abbrev pub duration_milli : ℤ → ℤ
duration_milli (pos n) = pos (n / milli)
duration_milli (negsuc n) = pos 0

-- `d > 0`
abbrev pub positive : ℤ → Bool
positive d = ltb_ℤ (pos 0) d

unfoldable pub ttl_cutoff : Config → ℤ → ℤ
ttl_cutoff cfg now = if positive cfg.ttl then unix_milli (now -ℤ cfg.ttl) else pos 0

-- `cfg.MaxRows > 0 && rows > cfg.MaxRows`
unfoldable pub over_cap : Config → ℕ → Bool
over_cap cfg rows = positive cfg.max_rows && ltb_ℤ cfg.max_rows (pos rows)

module _ {F : Type 0} where
  -- `New`
  unfoldable pub new_store : Schema → Config → Result (Store F)
  new_store sc cfg = do
    validate sc
    ok (record {
      sc = sc;
      cfg = cfg;
      view = new_view sc (empty_snapshot sc);
      counters = zero_counters;
      cap_blocked = false;
      last_dict_compact = pos 0;
    })

  -- `none` is the zero time
  unfoldable pub sync_position : Store F → Option ℤ
  sync_position s = let mu = max_updated s.view in if eqb_ℤ mu (pos 0) then none else some mu

  pub needs_compaction : Store F → ℤ → Bool
  needs_compaction s now =
      let base = s.view.base in
      let now_milli = unix_milli now in
      if ltb 0 (length s.view.delta.rows)
      then true
      else if (positive s.cfg.ttl && not (eqb_ℤ base.min_updated (pos 0)))
          && ltb_ℤ base.min_updated (now_milli -ℤ duration_milli s.cfg.ttl)
      then true
      else not (eqb_ℤ base.min_expire (pos 0)) && leb_ℤ base.min_expire now_milli

  applied : Store F → Result (View F × ℕ) → Store F × Result (Unit {0})
  applied s (err e) = (s, err e)
  applied s (ok (v, dropped)) = (
    record s {
      view = v;
      counters = record (s.counters) { dropped_over_cap = s.counters.dropped_over_cap + dropped };
    },
    ok tt,
  )

  -- `Apply`
  pub apply : Store F → List (Record F) → ℤ → Store F × Result (Unit {0})
  unfolding applied
  apply s recs now = applied s (apply_delta s.sc s.view recs (ttl_cutoff s.cfg now) s.cap_blocked)

  failed : Store F → Store F
  failed s = record s {
    counters = record (s.counters) { compaction_failures = s.counters.compaction_failures + 1 };
  }

  -- `capBlocked.Store(true)`, beside the failure
  blocked : Store F → Store F
  unfolding failed
  blocked s = record (failed s) { cap_blocked = true }

  -- A view that is swapped in over a fresh snapshot.
  publish : Store F → Snapshot F → Store F
  publish s snap = record s { view = new_view s.sc snap; cap_blocked = false }

  is_overflow : Result (Snapshot F) → Bool
  is_overflow (err key_overflow) = true
  is_overflow r = false

  compacted : Store F → ℤ → Bool → Result (Snapshot F) → Store F × Result (Unit {0})
  unfolding failed blocked publish
  compacted s now renumber (err e) = (failed s, err e)
  compacted s now renumber (ok snap) =
      if over_cap s.cfg (length snap.rows) then (blocked s, err row_limit) else (
        record (publish s snap) {
          counters = record (s.counters) { compactions = s.counters.compactions + 1 };
          last_dict_compact = if renumber then now else s.last_dict_compact;
        },
        ok tt,
      )

  pub renumber_due : Store F → ℤ → Bool
  renumber_due s now =
      not (positive s.cfg.dict_compact_interval)
      || leb_ℤ (duration_milli s.cfg.dict_compact_interval) (now -ℤ s.last_dict_compact)

  -- `Compact`, which retries an overflow with dictionary compaction. Three readings of the clock:
  -- `nowMilli`, and one for each TTL cutoff.
  pub compact : Store F → ℤ → ℤ → ℤ → Store F × Result (Unit {0})
  unfolding renumber_due is_overflow compacted
  compact s now now₁ now₂ =
      let now_milli = unix_milli now in
      let renumber = renumber_due s now_milli in
      let first = merge_view s.sc s.view (ttl_cutoff s.cfg now₁) now_milli renumber in
      let retry = merge_view s.sc s.view (ttl_cutoff s.cfg now₂) now_milli true in
      if not renumber && is_overflow first
      then compacted s now_milli true retry
      else compacted s now_milli renumber first

  replaced : Store F → Result (Snapshot F) → Store F × Result (Unit {0})
  unfolding failed blocked publish
  replaced s (err e) = (failed s, err e)
  replaced s (ok snap) = if over_cap s.cfg (length snap.rows) then (blocked s, err row_limit) else (
    record (publish s snap) {
      counters = record (s.counters) { reconciles = s.counters.reconciles + 1 };
    },
    ok tt,
  )

  -- `ReplaceAll`
  unfoldable pub replace_all : Store F → List (Record F) → ℤ → ℤ → Store F × Result (Unit {0})
  unfolding replaced
  replace_all s recs now₁ now₂ =
      replaced s (build_from_records s.sc recs (ttl_cutoff s.cfg now₁) (unix_milli now₂))
