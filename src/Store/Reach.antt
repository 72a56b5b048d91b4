-- ===== src/Store/Reach.antt =====
-- store.go: every store that the writer's operations lead to.
use facetta.Prelude.{
  ℕ, ◌≡◌, refl, Bool, true, false, not, ◌&&◌, List, length, arith, Bool-cases, inl, inr,
}
use mathlib.Core.Path.{subst}
use facetta.Prelude.Int.{ℤ}
use facetta.Schema.{Schema, Record, Config, validate}
use facetta.Result.{Result, ok, err, >>-eq-ok, ok_inj}
use facetta.View.{View, new_view}
use facetta.View.Apply.{apply_delta}
use facetta.View.Apply.Index.{IsDelta, IsDelta-empty_delta}
use facetta.View.Apply.Batch.{apply_delta-IsDelta, apply_delta-base}
use facetta.Snapshot.{Snapshot, empty_snapshot}
use facetta.View.Merge.{merge_view}
use facetta.Codec.{Hashes, FloatBits}
use facetta.Store.Files.{File, save_snapshot, loaded, load_snapshot}
use facetta.Store.{
  Store, over_cap, new_store, applied, apply, compacted, compact, failed, blocked, publish,
  replaced, replace_all, unix_milli, ttl_cutoff, renumber_due, is_overflow,
}

-- One call of the writer, with the readings of the clock.
pub data Call (F : Type 0) : Type 0 where
  applies : List (Record F) → ℤ → Call F
  compacts : ℤ → ℤ → ℤ → Call F
  replaces : List (Record F) → ℤ → ℤ → Call F
  saves : Bool → File → Call F
  loads : File → ℤ → Call F

over_cap_zero : (cfg : Config) → over_cap cfg 0 ≡ false
unfolding over_cap
over_cap_zero cfg = ground arith

module _ {F : Type 0} ⦃hs : Hashes⦄ ⦃fb : FloatBits F⦄ where
  unfoldable pub after : Store F → Call F → Store F
  after s (applies recs now) = (apply s recs now).0
  after s (compacts now now₁ now₂) = (compact s now now₁ now₂).0
  after s (replaces recs now₁ now₂) = (replace_all s recs now₁ now₂).0
  after s (saves written file) = (save_snapshot written s file).0
  after s (loads file now) = (load_snapshot s file now).0

  -- The stores that `New` and any sequence of calls, failed ones included, lead to.
  pub data Reachable (sc : Schema) (cfg : Config) : Store F → Type 0 where
    created : (s : Store F) → new_store sc cfg ≡ ok s → Reachable sc cfg s
    called : (s : Store F) (c : Call F) → Reachable sc cfg s → Reachable sc cfg (after s c)

module _ {F : Type 0} where
  pub record IsStore (s : Store F) : Type 0 where
    pub delta : IsDelta s.view.delta
    pub within_cap : over_cap s.cfg (length s.view.base.rows) ≡ false

  applied-IsStore :
      (s : Store F) (recs : List (Record F)) (cutoff : ℤ) (r : Result (View F × ℕ))
      → IsStore s
      → apply_delta s.sc s.view recs cutoff s.cap_blocked ≡ r
      → IsStore (applied s r).0
  unfolding applied
  applied-IsStore s recs cutoff (err e) inv h = inv
  applied-IsStore s recs cutoff (ok (v, dropped)) inv h = record {
    delta = apply_delta-IsDelta s.sc cutoff s.cap_blocked s.view v recs dropped inv.delta h;
    within_cap =
        rw (apply_delta-base s.sc cutoff s.cap_blocked s.view v recs dropped h) inv.within_cap;
  }

  publish-IsStore :
      (s : Store F) (snap : Snapshot F)
      → over_cap s.cfg (length snap.rows) ≡ false
      → IsStore (publish s snap)
  unfolding publish new_view
  publish-IsStore s snap h = record { delta = IsDelta-empty_delta; within_cap = h }

  compacted-IsStore :
      (s : Store F) (now : ℤ) (renumber : Bool) (r : Result (Snapshot F))
      → IsStore s
      → IsStore (compacted s now renumber r).0
  unfolding compacted failed blocked publish new_view
  compacted-IsStore s now renumber (err e) inv = record {
    delta = inv.delta;
    within_cap = inv.within_cap;
  }
  compacted-IsStore s now renumber (ok snap) inv =
      elim (Bool-cases (over_cap s.cfg (length snap.rows))) [
        | inl over ↦ rw over (record { delta = inv.delta; within_cap = inv.within_cap })
        | inr under ↦ rw under (record { delta = IsDelta-empty_delta; within_cap = under })
      ]

  replaced-IsStore : (s : Store F) (r : Result (Snapshot F)) → IsStore s → IsStore (replaced s r).0
  unfolding replaced failed blocked publish new_view
  replaced-IsStore s (err e) inv = record { delta = inv.delta; within_cap = inv.within_cap }
  replaced-IsStore s (ok snap) inv = elim (Bool-cases (over_cap s.cfg (length snap.rows))) [
    | inl over ↦ rw over (record { delta = inv.delta; within_cap = inv.within_cap })
    | inr under ↦ rw under (record { delta = IsDelta-empty_delta; within_cap = under })
  ]

module _ {F : Type 0} ⦃hs : Hashes⦄ ⦃fb : FloatBits F⦄ where
  loaded-IsStore : (s : Store F) (r : Result (Snapshot F)) → IsStore s → IsStore (loaded s r).0
  unfolding loaded new_view
  loaded-IsStore s (err e) inv = inv
  loaded-IsStore s (ok snap) inv = elim (Bool-cases (over_cap s.cfg (length snap.rows))) [
    | inl over ↦ rw over inv
    | inr under ↦ rw under (record { delta = IsDelta-empty_delta; within_cap = under })
  ]

  after-IsStore : (s : Store F) (c : Call F) → IsStore s → IsStore (after s c)
  unfolding after apply compact replace_all save_snapshot load_snapshot
  after-IsStore s (applies recs now) inv = applied-IsStore s recs (ttl_cutoff s.cfg now) _ inv refl
  after-IsStore s (compacts now now₁ now₂) inv =
      let renumber = renumber_due s (unix_milli now) in
      let first = merge_view s.sc s.view (ttl_cutoff s.cfg now₁) (unix_milli now) renumber in
      let retry = merge_view s.sc s.view (ttl_cutoff s.cfg now₂) (unix_milli now) true in
      elim (Bool-cases (not renumber && is_overflow first)) [
        | inl again ↦ rw (after, again) (compacted-IsStore s (unix_milli now) true retry inv)
        | inr final ↦ rw (after, final) (compacted-IsStore s (unix_milli now) renumber first inv)
      ]
  after-IsStore s (replaces recs now₁ now₂) inv = replaced-IsStore s _ inv
  after-IsStore s (saves written file) inv = record {
    delta = inv.delta;
    within_cap = inv.within_cap;
  }
  after-IsStore s (loads file now) inv = loaded-IsStore s _ inv

  new_store-IsStore :
      (sc : Schema) (cfg : Config) (s : Store F) → new_store sc cfg ≡ ok s → IsStore s
  unfolding new_store new_view empty_snapshot
  new_store-IsStore sc cfg s h =
      let last = >>-eq-ok (validate sc) _ h in
      subst IsStore (ok_inj last)
        (record { delta = IsDelta-empty_delta; within_cap = over_cap_zero cfg })

  -- In every store that `New` and the writer's calls lead to, the delta is well formed and the base
  -- respects the row cap, whatever calls failed.
  pub Reachable-IsStore :
      (sc : Schema) (cfg : Config) (s : Store F) → Reachable sc cfg s → IsStore s
  Reachable-IsStore sc cfg s (created _ h) = new_store-IsStore sc cfg s h
  Reachable-IsStore sc cfg _ (called s c h) = after-IsStore s c (Reachable-IsStore sc cfg s h)
