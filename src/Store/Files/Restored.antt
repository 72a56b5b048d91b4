-- ===== src/Store/Files/Restored.antt =====
-- persist.go: what `LoadSnapshot` does to a store, on every branch, and to a file of `SaveSnapshot`.
use facetta.Prelude.{◌≤◌, ◌≡◌, refl, true, false, ◌&&◌, none, some, length, Bool-cases, inl, inr}
use facetta.Prelude.Int.{ℤ, pos, ltb_ℤ}
use facetta.Schema.{Schema}
use facetta.Result.{Result, ok, err}
use facetta.Snapshot.{Snapshot}
use facetta.Snapshot.WellFormed.{IsBase}
use facetta.View.{new_view}
use facetta.Codec.{Hashes, FloatBits, IsHashes, IsFloatBits}
use facetta.Persist.Read.Loaded.{read_file-IsBase}
use facetta.Persist.Read.Rows.{IsSaved}
use facetta.Persist.Read.RoundTrip.{SameSnapshot, read_file-file_bytes}
use facetta.Store.{Store, ttl_cutoff, over_cap}
use facetta.Store.Files.{
  File, read_snapshot_file, write_snapshot_file, save_snapshot, loaded, load_snapshot,
}

module _ {F : Type 0} where
  -- A view without overlay over a well-formed base within the row cap, in a store that is otherwise
  -- the same, and a writer that is not blocked.
  pub record Replaced (s s' : Store F) : Type 0 where
    pub base : IsBase s.sc s'.view.base
    pub within_cap : over_cap s.cfg (length s'.view.base.rows) ≡ false
    pub rest : s' ≡ record s { view = new_view s.sc s'.view.base; cap_blocked = false }

  abbrev pub LoadOutcome : Store F → Store F × Result (Unit {0}) → Type 0
  LoadOutcome s (s', ok u) = Replaced s s'
  LoadOutcome s (s', err e) = s' ≡ s

module _ {F : Type 0} ⦃hs : Hashes⦄ ⦃fb : FloatBits F⦄ where
  read_snapshot_file-IsBase :
      (sc : Schema) (cutoff : ℤ) (file : File) (snap : Snapshot F)
      → sc.index_dims ≤ length sc.dims
      → read_snapshot_file sc cutoff file ≡ ok snap
      → IsBase sc snap
  unfolding read_snapshot_file
  read_snapshot_file-IsBase sc cutoff none snap dims h = cc
  read_snapshot_file-IsBase sc cutoff (some contents) snap dims h =
      read_file-IsBase sc cutoff contents snap dims h

  loaded-LoadOutcome :
      (s : Store F) (r : Result (Snapshot F))
      → ((snap : Snapshot F) → r ≡ ok snap → IsBase s.sc snap)
      → LoadOutcome s (loaded s r)
  unfolding loaded new_view
  loaded-LoadOutcome s (err e) h = refl
  loaded-LoadOutcome s (ok snap) h = elim (Bool-cases (over_cap s.cfg (length snap.rows))) [
    | inl over ↦ rw over refl
    | inr under ↦ rw under (record { base = h snap refl; within_cap = under; rest = refl })
  ]

  -- Whatever a file holds, `LoadSnapshot` either replaces the whole view by one over a well-formed
  -- base within the row cap and lifts the block, or returns an error and leaves the store as it was.
  pub load_snapshot-LoadOutcome :
      (s : Store F) (file : File) (now : ℤ)
      → s.sc.index_dims ≤ length s.sc.dims
      → LoadOutcome s (load_snapshot s file now)
  unfolding load_snapshot
  load_snapshot-LoadOutcome s file now dims =
      loaded-LoadOutcome s (read_snapshot_file s.sc (ttl_cutoff s.cfg now) file)
        (λ snap h. read_snapshot_file-IsBase s.sc (ttl_cutoff s.cfg now) file snap dims h)

module _ {F : Type 0} ⦃hs : Hashes⦄ ⦃words : IsHashes⦄ ⦃fb : FloatBits F⦄ ⦃exact : IsFloatBits F⦄
    (s : Store F) (h : IsSaved s.sc s.view.base) where
  read_back :
      (cutoff : ℤ) (file : File)
      → (ltb_ℤ (pos 0) cutoff && ltb_ℤ s.view.base.max_updated cutoff) ≡ false
      → (snap : Snapshot F) × (read_snapshot_file s.sc cutoff (save_snapshot true s file).1
          ≡ ok snap)
        × SameSnapshot s.view.base snap
  unfolding read_snapshot_file save_snapshot write_snapshot_file
  read_back cutoff file fresh = read_file-file_bytes s.sc cutoff s.view.base h fresh

  -- For a store whose base can be saved: it is well formed, its dictionaries are in order and have
  -- fewer than 2^32 entries, strings of fewer than 2^32 bytes or int64 values, it has fewer than
  -- 2^64 rows, with as many metrics as the schema and with int64 times, and its extremes are those
  -- that the code tracks over its rows. If the base is within the row cap and not older than the
  -- TTL, then a load of the file that a successful save writes is successful, and publishes without
  -- overlay a base of the same rows, keys and extremes, with the same values under the same ids.
  pub load_snapshot-save_snapshot :
      (file : File) (now : ℤ)
      → (ltb_ℤ (pos 0) (ttl_cutoff s.cfg now)
          && ltb_ℤ s.view.base.max_updated (ttl_cutoff s.cfg now))
        ≡ false
      → over_cap s.cfg (length s.view.base.rows) ≡ false
      → (snap : Snapshot F) × (load_snapshot s (save_snapshot true s file).1 now
          ≡ (record s { view = new_view s.sc snap; cap_blocked = false }, ok tt))
        × SameSnapshot s.view.base snap
  unfolding load_snapshot loaded
  load_snapshot-save_snapshot file now fresh cap =
      let (snap, read, same) = read_back (ttl_cutoff s.cfg now) file fresh in
      (snap, rw (read, same.rows, cap) refl, same)
