-- ===== src/Stats.antt =====
-- stats.go: the counters of a store and the monitoring snapshot.
use facetta.Prelude.{ℕ, ◌+◌, List, [], ◌∷◌, length, map, take}
use facetta.Dict.{Dict, len}
use facetta.Keys.{dict_bits, total}
use facetta.Schema.{Schema}
use facetta.View.{View}

-- The counters. Wrap-around at 2 ^ 64 is out of reach of a count of events.
pub record Counters : Type 0 where
  pub full_scans : ℕ
  pub compactions : ℕ
  pub reconciles : ℕ
  pub compaction_failures : ℕ
  pub snapshot_saves : ℕ
  pub snapshot_save_failures : ℕ
  pub dropped_over_cap : ℕ
  pub scan_budget_refusals : ℕ

abbrev pub zero_counters : Counters
zero_counters = record {
  full_scans = 0;
  compactions = 0;
  reconciles = 0;
  compaction_failures = 0;
  snapshot_saves = 0;
  snapshot_save_failures = 0;
  dropped_over_cap = 0;
  scan_budget_refusals = 0;
}

pub record Stats : Type 0 where
  pub rows : ℕ
  pub delta_rows : ℕ
  pub dict_entries : List ℕ
  pub index_key_bits : ℕ
  pub counters : Counters

pub entry_counts : List Dict → List Dict → List ℕ
entry_counts (d ∷ ds) (x ∷ xs) = (len d + len x) ∷ entry_counts ds xs
entry_counts ds xs = []

module _ {F : Type 0} where
  unfoldable pub stats : Schema → View F → Counters → Stats
  unfolding entry_counts
  stats sc v counters =
      let entries = entry_counts v.base.dicts v.extras in
      record {
        rows = length v.base.rows;
        delta_rows = length v.delta.rows;
        dict_entries = entries;
        index_key_bits = total (map dict_bits (take sc.index_dims entries));
        counters = counters;
      }
