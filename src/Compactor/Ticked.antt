-- ===== src/Compactor/Ticked.antt =====
-- compactor.go: what a tick of `Run` does, after any ticks before it.
use Prim.Native.Nat.{max}
use facetta.Prelude.{
  ℕ, ◌<◌, ◌≡◌, refl, sym, ap, ◌∙◌, Bool, true, false, ◌&&◌, ◌||◌, ◌⊎◌, inl, inr, List, [], ◌∷◌,
  ◌++◌, length, ltb, some, arith, if◌then◌else◌,
}
use mathlib.Core.Path.{subst}
use facetta.Prelude.Int.{ℤ, pos, leb_ℤ}
use facetta.Result.{Error, Result, ok, err}
use facetta.Codec.{Hashes, FloatBits}
use facetta.Persist.{file_bytes}
use facetta.Snapshot.{Snapshot}
use facetta.View.{new_view}
use facetta.Store.{Store, positive, compact, needs_compaction}
use facetta.Store.Files.{File, save_snapshot, write_snapshot_file}
use facetta.Store.Swap.{IsMerge, Published, Kept, Outcome, compact-Outcome}
use facetta.Compactor.{
  CompactorConfig, Tick, check, tidy, save_if, save_after, compact_and_save, ratio_hit, cap_hit,
  on_tick, run,
}

triggered :
    (d : ℕ) (large capped many : Bool)
    → ((ltb 0 d && large) || (capped && many)) ≡ true
    → ((0 < d) × (large ≡ true)) ⊎ ((capped ≡ true) × (many ≡ true))
triggered d large true true h = inr (refl, refl)
triggered d large true false h = inl (ground arith, ground arith)
triggered d large false many h = inl (ground arith, ground arith)

quiet :
    (d : ℕ) (large capped many : Bool)
    → ((ltb 0 d && large) || (capped && many)) ≡ false
    → ¬ (((0 < d) × (large ≡ true)) ⊎ ((capped ≡ true) × (many ≡ true)))
quiet d large capped many h (inl (some_rows, q)) = ground arith
quiet d large capped many h (inr (q, q')) = ground arith

module _ {F : Type 0} where
  -- The tick asks for a compaction: a check, unless the writer is blocked, of a delta that is large in
  -- proportion to the base or in itself; a tidying, if a compaction would change the view.
  pub IsDue : CompactorConfig → Store F → Tick → Type 0
  IsDue c s (check written now now₁ now₂) =
      let d = length s.view.delta.rows in
      (s.cap_blocked ≡ false)
      × (((0 < d) × (c.reaches_ratio d (max (length s.view.base.rows) 1) ≡ true))
          ⊎ ((positive c.max_delta_rows ≡ true) × (leb_ℤ c.max_delta_rows (pos d) ≡ true)))
  IsDue c s (tidy written now now₁ now₂ now₃) = needs_compaction s now ≡ true

module _ {F : Type 0} ⦃hs : Hashes⦄ ⦃fb : FloatBits F⦄ where
  -- The file after a compaction to `snap`: its encoding, if files are saved and this one was written.
  pub IsFile : Bool → Store F → Snapshot F → File → File → Type 0
  IsFile false s snap file file' = file' ≡ file
  IsFile true s snap file file' = file' ≡ some (file_bytes s.sc snap)

  -- A compaction took place: it published the merged base, which was saved then; or it failed, and
  -- the file was left alone.
  pub Compacted :
      CompactorConfig → Bool → Store F → File → Result (Snapshot F) → Store F × File → Type 0
  Compacted c written s file r (s', file') =
      ((snap : Snapshot F) × (r ≡ ok snap)
        × Published s snap s'
        × IsFile (c.saves && written) s snap file file')
      ⊎ ((e : Error) × Kept s r s' e × (file' ≡ file))

  pub Acted : CompactorConfig → Bool → Store F → File → ℤ → ℤ → ℤ → Store F × File → Type 0
  Acted c written s file now now₁ now₂ st =
      (r : Result (Snapshot F)) × IsMerge s now now₁ now₂ r × Compacted c written s file r st

  pub ActedOn : CompactorConfig → Store F × File → Tick → Store F × File → Type 0
  ActedOn c (s, file) (check written now now₁ now₂) st' = Acted c written s file now now₁ now₂ st'
  ActedOn c (s, file) (tidy written now now₁ now₂ now₃) st' =
      Acted c written s file now₁ now₂ now₃ st'

  -- What a tick does.
  pub Ticked : CompactorConfig → Store F × File → Tick → Store F × File → Type 0
  Ticked c st t st' = (IsDue c st.0 t × ActedOn c st t st') ⊎ (¬ IsDue c st.0 t × (st' ≡ st))

  saved :
      (saves written : Bool) (s s₁ : Store F) (snap : Snapshot F) (file : File)
      → Published s snap s₁
      → Published s snap (save_if saves written s₁ file).0
        × IsFile (saves && written) s snap file (save_if saves written s₁ file).1
  unfolding save_if save_snapshot write_snapshot_file IsFile new_view
  saved false written s s₁ snap file p = (p, refl)
  saved true true s s₁ snap file p = (
    record {
      fresh = p.fresh;
      within_cap = p.within_cap;
      unblocked = p.unblocked;
      same_failures = p.same_failures;
      same_config = p.same_config;
    },
    ap some (
        ap (λ sc. file_bytes sc s₁.view.base) (p.same_config.1)
        ∙ ap (λ v. file_bytes s.sc v.base) p.fresh),
  )
  saved true false s s₁ snap file p = (
    record {
      fresh = p.fresh;
      within_cap = p.within_cap;
      unblocked = p.unblocked;
      same_failures = p.same_failures;
      same_config = p.same_config;
    },
    refl,
  )

  save_after-Compacted :
      (c : CompactorConfig) (written : Bool) (s : Store F) (file : File) (r : Result (Snapshot F))
      (out : Store F × Result (Unit {0}))
      → Outcome s r out
      → Compacted c written s file r (save_after c written file out)
  unfolding save_after Compacted
  save_after-Compacted c written s file r (s₁, err e) kept = inr (e, kept, refl)
  save_after-Compacted c written s file r (s₁, ok u) (snap, same, p) =
      let (published, stored) = saved c.saves written s s₁ snap file p in
      inl (snap, same, published, stored)

  compact_and_save-Acted :
      (c : CompactorConfig) (written : Bool) (s : Store F) (file : File) (now now₁ now₂ : ℤ)
      → Acted c written s file now now₁ now₂ (compact_and_save c written s file now now₁ now₂)
  unfolding compact_and_save Acted
  compact_and_save-Acted c written s file now now₁ now₂ =
      let (r, merge, out) = compact-Outcome s now now₁ now₂ in
      (r, merge, save_after-Compacted c written s file r (compact s now now₁ now₂) out)

  by_test :
      (b : Bool) (x y : Store F × File) (P : Store F × File → Type 0)
      → (b ≡ true → P x)
      → (b ≡ false → P y)
      → P (if b then x else y)
  by_test true x y P h h' = h refl
  by_test false x y P h h' = h' refl

  on_tick-Ticked :
      (c : CompactorConfig) (st : Store F × File) (t : Tick) → Ticked c st t (on_tick c st t)
  unfolding on_tick Ticked IsDue ActedOn ratio_hit cap_hit
  on_tick-Ticked c (s, file) (check written now now₁ now₂) =
      let d = length s.view.delta.rows in
      let large = c.reaches_ratio d (max (length s.view.base.rows) 1) in
      let many = leb_ℤ c.max_delta_rows (pos d) in
      let st' = compact_and_save c written s file now now₁ now₂ in
      by_test s.cap_blocked (s, file)
        (if (ltb 0 d && large) || (positive c.max_delta_rows && many) then st' else (s, file))
        (Ticked c (s, file) (check written now now₁ now₂)) (λ blocked. inr (λ due. cc, refl))
        (λ free.
          by_test ((ltb 0 d && large) || (positive c.max_delta_rows && many)) st' (s, file)
            (Ticked c (s, file) (check written now now₁ now₂))
            (λ hit. inl (
              (free, triggered d large (positive c.max_delta_rows) many hit),
              compact_and_save-Acted c written s file now now₁ now₂,
            ))
            (λ calm. inr (λ due. quiet d large (positive c.max_delta_rows) many calm due.1, refl)))
  on_tick-Ticked c (s, file) (tidy written now now₁ now₂ now₃) =
      by_test (needs_compaction s now) (compact_and_save c written s file now₁ now₂ now₃) (s, file)
        (Ticked c (s, file) (tidy written now now₁ now₂ now₃))
        (λ due. inl (due, compact_and_save-Acted c written s file now₁ now₂ now₃))
        (λ idle. inr (λ due. cc, refl))

  run-append :
      (c : CompactorConfig) (ts : List Tick) (t : Tick) (st : Store F × File)
      → run c st (ts ++ t ∷ []) ≡ on_tick c (run c st ts) t
  unfolding run
  run-append c [] t st = refl
  run-append c (u ∷ ts) t st = run-append c ts t (on_tick c st u)

  -- From any store and file, after any ticks `ts`: if the next tick asks for a compaction, which a
  -- check does if the writer is not blocked and the delta is large in proportion to the base or in
  -- itself, and a tidying does if a compaction would change the view, then the compactor merges the
  -- view and either publishes the merged base without overlay, within the row cap, and puts its
  -- encoding into the file if files are saved and the write succeeds, or keeps the view, counts the
  -- failure and leaves the file alone. If the tick does not ask for it, then nothing changes.
  pub run-Ticked :
      (c : CompactorConfig) (ts : List Tick) (t : Tick) (st : Store F × File)
      → Ticked c (run c st ts) t (run c st (ts ++ t ∷ []))
  run-Ticked c ts t st =
      subst (Ticked c (run c st ts) t) (sym (run-append c ts t st))
        (on_tick-Ticked c (run c st ts) t)
