-- ===== src/Store/Swap.antt =====
-- store.go: what `Compact` and `ReplaceAll` leave behind, on success and on failure.
use facetta.Prelude.{
  suc, ◌≡◌, refl, ◌⊎◌, Bool, true, false, ◌&&◌, not, List, length, arith, Bool-cases, inl, inr,
}
use facetta.Prelude.Int.{ℤ}
use facetta.Schema.{Record}
use facetta.Result.{Error, Result, ok, err, row_limit}
use facetta.Snapshot.{Snapshot}
use facetta.View.{new_view}
use facetta.Snapshot.Build.{build_from_records}
use facetta.View.Merge.{merge_view}
use facetta.Store.{
  Store, over_cap, unix_milli, ttl_cutoff, failed, blocked, publish, compacted, compact,
  renumber_due, is_overflow, replaced, replace_all,
}

settled : (a b : Bool) → (not a && b) ≡ false → (a ≡ true) ⊎ (b ≡ false)
settled true b h = inl refl
settled false b h = inr h

module _ {F : Type 0} where
  -- The view over the given base alone, within the row cap; the writer is not blocked.
  pub record Published (s : Store F) (snap : Snapshot F) (s' : Store F) : Type 0 where
    pub fresh : s'.view ≡ new_view s.sc snap
    pub within_cap : over_cap s.cfg (length snap.rows) ≡ false
    pub unblocked : s'.cap_blocked ≡ false
    pub same_failures : s'.counters.compaction_failures ≡ s.counters.compaction_failures
    pub same_config : (s'.cfg ≡ s.cfg) × (s'.sc ≡ s.sc)

  -- The old view stays and the failure is counted. Either there was no new base, and the writer is
  -- blocked if it was; or the new base exceeds the row cap, and the writer is blocked.
  pub record Kept (s : Store F) (r : Result (Snapshot F)) (s' : Store F) (e : Error) : Type 0 where
    pub same_view : s'.view ≡ s.view
    pub counted : s'.counters.compaction_failures ≡ suc s.counters.compaction_failures
    pub same_config : (s'.cfg ≡ s.cfg) × (s'.sc ≡ s.sc)
    pub cause :
        ((r ≡ err e) × (s'.cap_blocked ≡ s.cap_blocked))
        ⊎ ((snap : Snapshot F) × (r ≡ ok snap)
            × (over_cap s.cfg (length snap.rows) ≡ true)
            × (e ≡ row_limit)
            × (s'.cap_blocked ≡ true))

  -- What becomes of a store for which the new base `r` was computed.
  abbrev pub Outcome : Store F → Result (Snapshot F) → Store F × Result (Unit {0}) → Type 0
  Outcome s r (s', ok u) = (snap : Snapshot F) × (r ≡ ok snap) × Published s snap s'
  Outcome s r (s', err e) = Kept s r s' e

  compacted-Outcome :
      (s : Store F) (now : ℤ) (renumber : Bool) (r : Result (Snapshot F))
      → Outcome s r (compacted s now renumber r)
  unfolding compacted failed blocked publish
  compacted-Outcome s now renumber (err e) = record {
    same_view = refl;
    counted = omega arith;
    same_config = (refl, refl);
    cause = inl (refl, refl);
  }
  compacted-Outcome s now renumber (ok snap) =
      elim (Bool-cases (over_cap s.cfg (length snap.rows))) [
        | inl over ↦ rw over (record {
          same_view = refl;
          counted = omega arith;
          same_config = (refl, refl);
          cause = inr (snap, refl, over, refl, refl);
        })
        | inr under ↦ rw under (
          snap,
          refl,
          record {
            fresh = refl;
            within_cap = under;
            unblocked = refl;
            same_failures = refl;
            same_config = (refl, refl);
          },
        )
      ]

  -- The merge that `Compact` settles for: the first one, unless its keys overflow without dictionary
  -- compaction; then the second one, with dictionary compaction.
  pub IsMerge : Store F → ℤ → ℤ → ℤ → Result (Snapshot F) → Type 0
  IsMerge s now now₁ now₂ r =
      let renumber = renumber_due s (unix_milli now) in
      let first = merge_view s.sc s.view (ttl_cutoff s.cfg now₁) (unix_milli now) renumber in
      ((r ≡ first) × ((renumber ≡ true) ⊎ (is_overflow first ≡ false)))
      ⊎ ((r ≡ merge_view s.sc s.view (ttl_cutoff s.cfg now₂) (unix_milli now) true)
          × (renumber ≡ false)
          × (is_overflow first ≡ true))

  -- `Compact` settles for one merge `r` of the view: the first, or after a key overflow without
  -- dictionary compaction the second, with it. If there is a merged base within the row cap, then it
  -- is published, without overlay, and the writer is not blocked. Otherwise `Compact` fails: readers
  -- keep the view that they had, the failure is counted, and the writer is blocked if the merged base
  -- exceeds the row cap. No other outcome exists.
  pub compact-Outcome :
      (s : Store F) (now now₁ now₂ : ℤ)
      → (r : Result (Snapshot F)) × IsMerge s now now₁ now₂ r
        × Outcome s r (compact s now now₁ now₂)
  unfolding compact IsMerge
  compact-Outcome s now now₁ now₂ =
      let renumber = renumber_due s (unix_milli now) in
      let first = merge_view s.sc s.view (ttl_cutoff s.cfg now₁) (unix_milli now) renumber in
      let retry = merge_view s.sc s.view (ttl_cutoff s.cfg now₂) (unix_milli now) true in
      elim (Bool-cases (not renumber && is_overflow first)) [
        | inl again ↦ (
          retry,
          inr (refl, ground arith, ground arith),
          rw again (compacted-Outcome s (unix_milli now) true retry),
        )
        | inr final ↦ (
          first,
          inl (refl, settled renumber (is_overflow first) final),
          rw final (compacted-Outcome s (unix_milli now) renumber first),
        )
      ]

  replaced-Outcome : (s : Store F) (r : Result (Snapshot F)) → Outcome s r (replaced s r)
  unfolding replaced failed blocked publish
  replaced-Outcome s (err e) = record {
    same_view = refl;
    counted = omega arith;
    same_config = (refl, refl);
    cause = inl (refl, refl);
  }
  replaced-Outcome s (ok snap) = elim (Bool-cases (over_cap s.cfg (length snap.rows))) [
    | inl over ↦ rw over (record {
      same_view = refl;
      counted = omega arith;
      same_config = (refl, refl);
      cause = inr (snap, refl, over, refl, refl);
    })
    | inr under ↦ rw under (
      snap,
      refl,
      record {
        fresh = refl;
        within_cap = under;
        unblocked = refl;
        same_failures = refl;
        same_config = (refl, refl);
      },
    )
  ]

  -- The same of `ReplaceAll`: if the records that are kept make a base within the row cap, then this
  -- base is published, without overlay, and the writer is not blocked. Otherwise `ReplaceAll` fails:
  -- readers keep the view that they had, the failure is counted, and the writer is blocked if the new
  -- base exceeds the row cap.
  pub replace_all-Outcome :
      (s : Store F) (recs : List (Record F)) (now₁ now₂ : ℤ)
      → Outcome s
          (build_from_records s.sc recs (ttl_cutoff s.cfg now₁) (unix_milli now₂))
          (replace_all s recs now₁ now₂)
  unfolding replace_all
  replace_all-Outcome s recs now₁ now₂ =
      replaced-Outcome s (build_from_records s.sc recs (ttl_cutoff s.cfg now₁) (unix_milli now₂))
