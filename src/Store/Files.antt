-- ===== src/Store/Files.antt =====
-- persist.go: `SaveSnapshot` and `LoadSnapshot` of the store. The file system is the contents of the
-- snapshot's path, where `none` is a path that cannot be read. A rename is atomic, so a write that
-- fails leaves the path as it was; whether the calls of the operating system succeed is an argument.
pub mod Restored
use facetta.Prelude.{ℕ, ◌+◌, Bool, true, false, Option, none, some, List, length, if◌then◌else◌}
use facetta.Prelude.Int.{ℤ}
use facetta.Result.{Result, ok, err, row_limit, unreadable_file}
use facetta.Schema.{Schema}
use facetta.Snapshot.{Snapshot}
use facetta.View.{new_view}
use facetta.Codec.{Hashes, FloatBits}
use facetta.Persist.{file_bytes}
use facetta.Persist.Read.{read_file}
use facetta.Store.{Store, ttl_cutoff, over_cap}

-- What stands under a path.
abbrev pub File : Type 0
File = Option (List ℕ)

module _ {F : Type 0} ⦃hs : Hashes⦄ ⦃fb : FloatBits F⦄ where
  -- `writeSnapshotFile`
  unfoldable pub write_snapshot_file : Bool → Schema → Snapshot F → File → File
  write_snapshot_file written sc snap file = if written then some (file_bytes sc snap) else file

  -- `readSnapshotFile`
  pub read_snapshot_file : Schema → ℤ → File → Result (Snapshot F)
  read_snapshot_file sc cutoff none = err unreadable_file
  read_snapshot_file sc cutoff (some contents) = read_file sc cutoff contents

  -- `SaveSnapshot`
  unfoldable pub save_snapshot : Bool → Store F → File → Store F × File
  unfolding write_snapshot_file
  save_snapshot written s file =
      let c = s.counters in
      let c' =
        if written
        then record c { snapshot_saves = c.snapshot_saves + 1 }
        else record c { snapshot_save_failures = c.snapshot_save_failures + 1 } in
      (record s { counters = c' }, write_snapshot_file written s.sc s.view.base file)

  unfoldable pub loaded : Store F → Result (Snapshot F) → Store F × Result (Unit {0})
  loaded s (err e) = (s, err e)
  loaded s (ok snap) =
      if over_cap s.cfg (length snap.rows)
      then (s, err row_limit)
      else (record s { view = new_view s.sc snap; cap_blocked = false }, ok tt)

  -- `LoadSnapshot`
  unfoldable pub load_snapshot : Store F → File → ℤ → Store F × Result (Unit {0})
  unfolding loaded read_snapshot_file
  load_snapshot s file now = loaded s (read_snapshot_file s.sc (ttl_cutoff s.cfg now) file)
