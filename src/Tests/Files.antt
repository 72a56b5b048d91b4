-- ===== src/Tests/Files.antt =====
-- Concrete snapshot files.
use mathlib.Core.Path.{subst}
use facetta.Prelude.{
  ℕ, zero, suc, ◌^◌, ◌≤◌, ◌<◌, ◌≡◌, refl, Bool, true, false, none, some, List, [], ◌∷◌, length,
  arith, if◌then◌else◌, get_elem?, get_or, ◌++◌,
}
use facetta.Prelude.Int.{ℤ, pos}
use facetta.Prelude.Maps.{Str, bytes, str_eq, int_eq}
use facetta.Result.{ok}
use facetta.Dict.{Dict, len}
use facetta.Dict.Intern.{IsInterned-empty, IsInterned-add}
use facetta.Keys.{compute_shifts, pack_key}
use facetta.Keys.Widths.{Below}
use facetta.Codec.{FloatBits, IsHashes, IsFloatBits}
use facetta.Strconv.RoundTrip.{IsInt64}
use facetta.Snapshot.{Row, Snapshot, track_rows, track_row, track_min}
use facetta.Snapshot.WellFormed.{IsBase}
use facetta.Stats.{zero_counters}
use facetta.View.{new_view, dict_at}
use facetta.Query.Scan.Meaning.{IsDecoded}
use facetta.Persist.Read.Columns.{EachSameValues}
use facetta.Persist.Read.Decoded.{read_file-IsDecoded}
use facetta.Persist.{file_bytes}
use facetta.Persist.Read.{read_file}
use facetta.Persist.Read.Loaded.{read_file-IsBase}
use facetta.Persist.Read.Values.{IsStorable}
use facetta.Persist.Read.Rows.{IsSaved, IsWhole}
use facetta.Persist.Read.RoundTrip.{SameSnapshot, read_file-file_bytes}
use facetta.Store.{Store, ttl_cutoff, over_cap, apply}
use facetta.Store.Files.{save_snapshot, load_snapshot, File}
use facetta.Store.Files.Restored.{
  LoadOutcome, load_snapshot-LoadOutcome, load_snapshot-save_snapshot,
}
use facetta.Compactor.{CompactorConfig, Tick, check, tidy, with_defaults, run}
use facetta.Compactor.Ticked.{Ticked, run-Ticked}
use facetta.Tests.{whole_bits, empty_store, sales, shop, limits, checksum-lt, sums}

instance abbrev sums-IsHashes : IsHashes
sums-IsHashes = record { crc-lt = checksum-lt; fnv-lt = λ bs. omega (arith, checksum-lt bs) }

-- Numbers that are written in one bit.
abbrev from_bit : ℕ → Bool
from_bit zero = false
from_bit (suc n) = true

instance abbrev one_bit : FloatBits Bool
one_bit = record { to_bits = λ b. if b then 1 else 0; of_bits = from_bit }

from_bit-to_bit : (b : Bool) → from_bit (if b then 1 else 0) ≡ b
from_bit-to_bit true = refl
from_bit-to_bit false = refl

instance abbrev one_bit-IsFloatBits : IsFloatBits Bool
one_bit-IsFloatBits = record { to_bits-lt = λ b. ground arith; of_bits-to_bits = from_bit-to_bit }

abbrev only_blue : Dict
only_blue = record {
  numeric = false;
  ids = (bytes "blue", 0) ∷ [];
  strs = bytes "blue" ∷ [];
  ids_n = [];
  vals = [];
}

abbrev only_41 : Dict
only_41 = record {
  numeric = true;
  ids = [];
  strs = [];
  ids_n = (pos 41, 0) ∷ [];
  vals = pos 41 ∷ [];
}

abbrev sold : Row Bool
sold = record { ids = 0 ∷ 0 ∷ []; mets = true ∷ []; updated = pos 4; expire = pos 0 }

abbrev ledger : Snapshot Bool
ledger = record {
  dicts = only_blue ∷ only_41 ∷ [];
  rows = sold ∷ [];
  keys = 0 ∷ [];
  shifts = 1 ∷ 0 ∷ [];
  max_updated = pos 4;
  min_updated = pos 4;
  min_expire = pos 0;
}

only_blue-IsStorable : IsStorable only_blue
only_blue-IsStorable = record {
  interned = record {
    strings = IsInterned-add [] [] (bytes "blue") IsInterned-empty refl (omega arith);
    numbers = IsInterned-empty;
  };
  few_strs = omega arith;
  few_vals = omega arith;
  short = short;
  words = λ i v h. cc;
}
  where
    short : (i : ℕ) (s : Str) → get_elem? only_blue.strs i ≡ some s → length s < 2 ^ 32
    short zero s h =
        let same : bytes "blue" ≡ s = cc h in
        subst (λ (t : Str). length t < 2 ^ 32) same (omega arith)
    short (suc i) s h = cc

only_41-IsStorable : IsStorable only_41
only_41-IsStorable = record {
  interned = record {
    strings = IsInterned-empty;
    numbers = IsInterned-add [] [] (pos 41) IsInterned-empty refl (omega arith);
  };
  few_strs = omega arith;
  few_vals = omega arith;
  short = λ i s h. cc;
  words = words;
}
  where
    words : (i : ℕ) (v : ℤ) → get_elem? only_41.vals i ≡ some v → IsInt64 v
    words zero v h =
        let same : pos 41 ≡ v = cc h in
        subst IsInt64 same (record { upper = omega arith; lower = omega arith })
    words (suc i) v h = cc

ledger_row : (r : ℕ) (row : Row Bool) → get_elem? ledger.rows r ≡ some row → sold ≡ row
ledger_row zero row h = cc
ledger_row (suc r) row h = cc

ledger-IsBase : IsBase shop ledger
unfolding compute_shifts len pack_key
ledger-IsBase = record {
  shifted = refl;
  keyed = refl;
  ascending = ascending;
  in_dicts = λ r row h.
      subst (λ (x : Row Bool). Below (1 ∷ 1 ∷ []) x.ids) (ledger_row r row h)
        (omega arith, (omega arith, tt));
  whole = λ r row h. subst (λ (x : Row Bool). 2 ≤ length x.ids) (ledger_row r row h) (omega arith);
  sized = refl;
  full = λ r row h. subst (λ (x : Row Bool). length x.ids ≡ 2) (ledger_row r row h) refl;
}
  where
    ascending :
        (i j : ℕ) → i ≤ j → j < length ledger.keys → get_or ledger.keys i 0 ≤ get_or ledger.keys j 0
    ascending zero j le lt = omega arith
    ascending (suc i) j le lt = absurd (omega arith)

ledger-IsSaved : IsSaved shop ledger
unfolding track_rows track_row track_min
ledger-IsSaved = record {
  base = ledger-IsBase;
  dicts = (refl, only_blue-IsStorable, (refl, only_41-IsStorable, tt));
  rows = λ r row at. subst (IsWhole shop) (ledger_row r row at) (record {
    ids = refl;
    mets = refl;
    updated = record { upper = omega arith; lower = omega arith };
    expire = record { upper = omega arith; lower = omega arith };
  });
  few = omega arith;
  top = record { upper = omega arith; lower = omega arith };
  greatest = refl;
  least = refl;
  first_out = refl;
}

abbrev no_ttl : ℤ
no_ttl = pos 0

read_file-file_bytes_example :
    (s' : Snapshot Bool) × (read_file shop no_ttl (file_bytes shop ledger) ≡ ok s')
    × SameSnapshot ledger s'
read_file-file_bytes_example = read_file-file_bytes shop no_ttl ledger ledger-IsSaved refl

-- The ledger as it is read again.
reopened :
    (s' : Snapshot Bool) × (read_file shop no_ttl (file_bytes shop ledger) ≡ ok s')
    × SameSnapshot ledger s'
reopened = read_file-file_bytes shop no_ttl ledger ledger-IsSaved refl

read_file-IsBase_example : IsBase shop reopened.0
read_file-IsBase_example =
    read_file-IsBase shop no_ttl (file_bytes shop ledger) reopened.0 (omega arith) reopened.1

reopened_few :
    (ds : List Dict)
    → EachSameValues ledger.dicts ds
    → (d : ℕ) → d < 2
    → len (dict_at ds d) < 2 ^ 32
unfolding len
reopened_few [] same d lt = absurd same
reopened_few (a ∷ []) same d lt = absurd (same.1)
reopened_few (a ∷ b ∷ c ∷ ds) same d lt = absurd (same.1.1)
reopened_few (a ∷ b ∷ []) same zero lt = let size : len a ≡ 1 = same.0.size in omega arith
reopened_few (a ∷ b ∷ []) same (suc zero) lt = let size : len b ≡ 1 = same.1.0.size in omega arith
reopened_few (a ∷ b ∷ []) same (suc (suc d)) lt = absurd (omega arith)

read_file-IsDecoded_example :
    IsDecoded shop (new_view shop reopened.0) × (length (new_view shop reopened.0).extras ≡ 2)
read_file-IsDecoded_example =
    read_file-IsDecoded shop no_ttl (file_bytes shop ledger) reopened.0 (omega arith) reopened.1
      (reopened_few (reopened.0).dicts (reopened.2).dicts)

abbrev book : Store Bool
book = record {
  sc = shop;
  cfg = limits;
  view = new_view shop ledger;
  counters = zero_counters;
  cap_blocked = true;
  last_dict_compact = pos 0;
}

load_snapshot-LoadOutcome_example :
    LoadOutcome book (load_snapshot book (save_snapshot true book none).1 (pos 50))
load_snapshot-LoadOutcome_example =
    load_snapshot-LoadOutcome book (save_snapshot true book none).1 (pos 50) (omega arith)

load_snapshot-save_snapshot_example :
    (snap : Snapshot Bool) × (load_snapshot book (save_snapshot true book none).1 (pos 50)
      ≡ (record book { view = new_view shop snap; cap_blocked = false }, ok tt))
    × SameSnapshot ledger snap
unfolding ttl_cutoff over_cap new_view
load_snapshot-save_snapshot_example =
    load_snapshot-save_snapshot book ledger-IsSaved none (pos 50) refl refl

abbrev every_tick : CompactorConfig
every_tick = record {
  check_interval = pos 0;
  compact_interval = pos 0;
  ratio_positive = false;
  reaches_ratio = λ d base. true;
  reaches_default = λ d base. true;
  max_delta_rows = pos 0;
  saves = true;
}

abbrev ticks : List Tick
ticks = check true (pos 20) (pos 20) (pos 20) ∷ tidy false (pos 30) (pos 30) (pos 30) (pos 30) ∷ []

abbrev sold_shop : Store ℕ × File
sold_shop = ((apply empty_store sales (pos 10)).0, none)

run-Ticked_example :
    Ticked
      (with_defaults every_tick)
      (run (with_defaults every_tick) sold_shop ticks)
      (tidy true (pos 40) (pos 40) (pos 40) (pos 40))
      (run
        (with_defaults every_tick)
        sold_shop
        (ticks ++ tidy true (pos 40) (pos 40) (pos 40) (pos 40) ∷ []))
run-Ticked_example =
    run-Ticked (with_defaults every_tick) ticks (tidy true (pos 40) (pos 40) (pos 40) (pos 40))
      sold_shop
