-- ===== src/Query/Scan/Built.antt =====
-- query.go and store.go: what a query answers right after `ReplaceAll` published a new base.
use facetta.Prelude.{ℕ, ◌^◌, ◌≤◌, ◌<◌, ◌≡◌, refl, List, length, map, sym}
use mathlib.Core.Path.{subst}
use facetta.Prelude.Int.{ℤ}
use facetta.Schema.{Schema, Config, Record}
use facetta.Result.{ok, >>=-eq-ok, ok_inj}
use facetta.Dict.{len}
use facetta.Keys.{compute_shifts}
use facetta.Snapshot.{Row, Snapshot, make_snapshot, no_rows, track_rows, new_dicts}
use facetta.Snapshot.Build.{intern_records, build_from_records}
use facetta.Snapshot.Build.Decoded.{build_from_records-IsDecoded}
use facetta.Stats.{Counters}
use facetta.Scratch.{empty_scratch}
use facetta.View.{dict_at, new_view}
use facetta.View.Apply.Index.{IsDelta, IsDelta-empty_delta}
use facetta.Query.{Cond, QueryScratch}
use facetta.Query.Groups.{plan_groups}
use facetta.Query.Sweep.{query_clock, fold_matched}
use facetta.Query.Scan.Answer.{answer, fold_matched-answer}

module _ {F : Type 0} (sc : Schema) where
  build_from_records-tracked :
      (recs : List (Record F)) (cutoff built : ℤ) (s : Snapshot F)
      → build_from_records sc recs cutoff built ≡ ok s
      → s.min_expire ≡ (track_rows no_rows s.rows).min_expire
  unfolding build_from_records make_snapshot
  build_from_records-tracked recs cutoff built s h =
      let ((dicts, rows), interned, h₁) =
        >>=-eq-ok (intern_records sc cutoff 0 (new_dicts sc.dims) recs) _ h in
      let (shifts, shifted, h₂) = >>=-eq-ok (compute_shifts (map len dicts) sc.index_dims) _ h₁ in
      subst (λ (q : Snapshot F). q.min_expire ≡ (track_rows no_rows q.rows).min_expire) (ok_inj h₂)
        refl

  new_view-IsDelta : (s : Snapshot F) → IsDelta (new_view sc s).delta
  unfolding new_view
  new_view-IsDelta s = IsDelta-empty_delta

  new_view-base : (s : Snapshot F) → (new_view sc s).base ≡ s
  unfolding new_view
  new_view-base s = refl

  -- For a schema whose index dimensions are among its dimensions, and a base of less than 2^32 values
  -- in each dimension that `buildFromRecords` made of any records: what a query with any groups of
  -- conditions folds at a time `now` over the rows that it matches in a new view over this base is the
  -- specification's answer at this time.
  pub fold_matched-built :
      (recs : List (Record F)) (cutoff built : ℤ) (base : Snapshot F) {S : Type 0} (cfg : Config)
      (groups : List (List Cond)) (cap : ℕ) (c c' : Counters) (qs : QueryScratch) (now : ℤ)
      (f : Row F → S → S) (s : S)
      → sc.index_dims ≤ length sc.dims
      → build_from_records sc recs cutoff built ≡ ok base
      → ((d : ℕ) → d < length sc.dims → len (dict_at base.dicts d) < 2 ^ 32)
      → plan_groups sc cfg (new_view sc base) groups (empty_scratch cap) c ≡ (ok qs, c')
      → fold_matched (new_view sc base) (query_clock (new_view sc base) now) qs f s
        ≡ answer sc (new_view sc base) now groups f s
  fold_matched-built recs cutoff built base cfg groups cap c c' qs now f s dims made few planned =
      fold_matched-answer sc (new_view sc base)
        (build_from_records-IsDecoded sc recs cutoff built base dims made few).0 cfg groups cap c c'
        qs now f s (new_view-IsDelta base)
        (subst (λ (q : Snapshot F). q.min_expire ≡ (track_rows no_rows q.rows).min_expire)
          (sym (new_view-base base)) (build_from_records-tracked recs cutoff built base made))
        planned
