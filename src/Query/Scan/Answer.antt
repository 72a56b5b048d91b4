-- ===== src/Query/Scan/Answer.antt =====
-- query.go: a query answers what its conditions ask, in terms of the values of the rows.
use mathlib.Core.Path.{subst}
use mathlib.Core.List.{append-nil, append_assoc}
use facetta.Prelude.{
  ℕ, suc, ◌≡◌, refl, sym, ap, ◌∙◌, ◌&&◌, ◌||◌, not, some, List, [], ◌∷◌, ◌++◌, length, get_elem?,
  ◌==◌, arith, Bool-cases, inl, inr, if◌then◌else◌, ◌^◌, ◌<◌,
}
use facetta.Prelude.All.{All}
use facetta.Schema.{Schema, Config}
use facetta.Result.{Result, ok, err}
use facetta.Bitmap.{bit_get}
use facetta.View.{View, dict_at}
use facetta.Stats.{Counters}
use facetta.Snapshot.{Row, row_expired, no_rows, track_rows}
use facetta.Query.{Cond, GroupPlan, QueryScratch}
use facetta.Query.Match.{delta_matched, match_delta, match_rest}
use facetta.Query.Plan.{plan}
use facetta.Query.Resolve.Windows.{id_known}
use facetta.Query.Sweep.{query_clock, sort_ivs, delta_visible, fold_delta, fold_matched}
use facetta.Query.Groups.{planned, plan_each, over_budget, budgeted, plan_groups}
use facetta.Scratch.{empty_scratch}
use facetta.Query.Scan.Pools.{Grown, ArePools, IsPlaced}
use facetta.Query.Scan.Rows.{FindsAll, Grown-match_delta, Grown-match_rest}
use facetta.Query.Scan.Expanded.{base_row}
use facetta.Query.Scan.Planned.{plan-IsPlanned}
use facetta.Query.Scan.Whole.{
  row_taken, scan_base, scan_all, AreFound, with_plan, empty-AreFound, sorted_delta,
  fold_matched-scan_all,
}
use facetta.Query.Scan.Expired.{base_expired, delta_expired}
use facetta.View.Apply.Index.{IsDelta}
use facetta.Prelude.Int.{ℤ}
use facetta.Dict.{len}
use facetta.Query.Scan.Meaning.{group_holds, some_group_holds, IsViewRow, IsDecoded}
use facetta.Query.Scan.Tested.{tests-plan}

module _ {F : Type 0} (sc : Schema) (v : View F) (now : ℤ) (groups : List (List Cond)) {S : Type 0}
    (f : Row F → S → S) where
  -- The reference: the rows of the delta that have not expired at the time `now` and of which some group holds.
  pub answer_delta : List (Row F) → S → S
  answer_delta [] s = s
  answer_delta (row ∷ rows) s = answer_delta rows (
      if not (row_expired row.expire now) && some_group_holds sc v groups row.ids
      then f row s
      else s)

  -- The rows of the base that are not overridden, have not expired, and of which some group holds.
  pub answer_base : ℕ → List (Row F) → S → S
  answer_base r [] s = s
  answer_base r (row ∷ rows) s = answer_base (suc r) rows (
      if not (bit_get v.overridden r)
        && not (row_expired row.expire now)
        && some_group_holds sc v groups row.ids
      then f row s
      else s)

  pub answer : S → S
  unfolding answer_base answer_delta
  answer s = answer_delta v.delta.rows (answer_base 0 v.base.rows s)

delta_matched-append :
    {F : Type 0} (ps : List GroupPlan) (p : GroupPlan) (qs : QueryScratch) (v : View F)
    (row : List ℕ)
    → delta_matched (ps ++ p ∷ []) qs v row
      ≡ (delta_matched ps qs v row || (match_delta p qs row && match_rest p qs v row))
unfolding delta_matched
delta_matched-append [] p qs v row = ground arith
delta_matched-append (q ∷ ps) p qs v row = ground (arith, delta_matched-append ps p qs v row)

delta_matched-plans :
    {F : Type 0} (ps done : List GroupPlan) (qs : QueryScratch) (v : View F) (row : List ℕ)
    → delta_matched ps (record qs { plans = done }) v row ≡ delta_matched ps qs v row
unfolding delta_matched match_delta match_rest
delta_matched-plans [] done qs v row = refl
delta_matched-plans (p ∷ ps) done qs v row = rw (delta_matched-plans ps done qs v row) refl

module _ {F : Type 0} (sc : Schema) (v : View F) (dec : IsDecoded sc v) where
  few_base : (d : ℕ) → d < length sc.dims → len (dict_at v.base.dicts d) < 2 ^ 32
  few_base d lt = let few = (dec.pairs d lt).few in omega arith

  some_group_holds-append :
      (gs : List (List Cond)) (g : List Cond) (row : List ℕ)
      → some_group_holds sc v (gs ++ g ∷ []) row
        ≡ (some_group_holds sc v gs row || group_holds sc v g row)
  unfolding some_group_holds
  some_group_holds-append [] g row = ground arith
  some_group_holds-append (h ∷ gs) g row = ground (arith, some_group_holds-append gs g row)

  delta_matched-Grown :
      (ps : List GroupPlan) (qs qs' : QueryScratch) (row : List ℕ)
      → Grown qs qs'
      → ArePools (length sc.dims) qs
      → All (λ p. IsPlaced p qs × FindsAll v p qs) ps
      → delta_matched ps qs' v row ≡ delta_matched ps qs v row
  unfolding delta_matched
  delta_matched-Grown [] qs qs' row g pools h = refl
  delta_matched-Grown (p ∷ ps) qs qs' row g pools h =
      rw
        (
          Grown-match_delta v (length sc.dims) p qs qs' g pools h.0.0 row,
          Grown-match_rest v (length sc.dims) p qs qs' g pools h.0.0 row,
          delta_matched-Grown ps qs qs' row g pools h.1,
        )
        refl

  -- The plans of the workspace test a row as the groups planned so far say.
  record AreTold (qs : QueryScratch) (done : List (List Cond)) : Type 0 where
    found : AreFound sc v dec.base qs
    told :
        (row : List ℕ)
        → IsViewRow sc v row
        → delta_matched qs.plans qs v row ≡ some_group_holds sc v done row

  AreTold-next :
      (qs qs' : QueryScratch) (p : GroupPlan) (g : List Cond) (reserve : ℕ)
      (done : List (List Cond))
      → AreTold qs done
      → plan sc v g qs reserve ≡ ok (p, qs')
      → AreTold (record qs' { plans = qs'.plans ++ p ∷ [] }) (done ++ g ∷ [])
  AreTold-next qs qs' p g reserve done h e =
      let one = plan-IsPlanned sc v dec.base g qs qs' reserve p few_base h.found.pools e in
      record {
        found = with_plan sc v dec.base qs qs' p h.found one;
        told = λ row valid.
            let old =
              ap (λ ps. delta_matched ps qs' v row) one.same_plans
              ∙ delta_matched-Grown qs.plans qs qs' row one.grown h.found.pools h.found.plans
              ∙ h.told row valid in
            let new = tests-plan sc v dec g qs qs' reserve p row h.found.pools e valid in
            delta_matched-plans (qs'.plans ++ p ∷ []) (qs'.plans ++ p ∷ []) qs' v row
            ∙ delta_matched-append qs'.plans p qs' v row
            ∙ rw (some_group_holds-append done g row) (ground (arith, old, new));
      }

  abbrev ToldIfOk : List (List Cond) → Result QueryScratch × Counters → Type 0
  ToldIfOk gs (err e, c) = Unit
  ToldIfOk gs (ok qs, c) = AreTold qs gs

  plan_each-AreTold :
      (gs done : List (List Cond)) (qs : QueryScratch) (c : Counters)
      → AreTold qs done
      → ToldIfOk (done ++ gs) (plan_each sc v gs qs c)
  unfolding plan_each
  plan_each-AreTold [] done qs c h = subst (AreTold qs) (sym (append-nil done)) h
  plan_each-AreTold (g ∷ gs) done qs c h =
      by_plan (λ qs' c' h'. plan_each-AreTold gs (done ++ g ∷ []) qs' c' h')
        (plan sc v g qs (length gs)) refl
    where
      by_plan :
          ((qs' : QueryScratch) (c' : Counters)
            → AreTold qs' (done ++ g ∷ [])
            → ToldIfOk ((done ++ g ∷ []) ++ gs) (plan_each sc v gs qs' c'))
          → (r : Result (GroupPlan × QueryScratch)) → plan sc v g qs (length gs) ≡ r
          → ToldIfOk (done ++ g ∷ gs) (planned r c (λ qs' c'. plan_each sc v gs qs' c'))
      by_plan later (err e) same = tt
      by_plan later (ok (p, qs')) same =
          subst (λ all. ToldIfOk all (planned (ok (p, qs')) c (λ qs' c'. plan_each sc v gs qs' c')))
            (append_assoc done (g ∷ []) gs)
            (later _ _ (AreTold-next qs qs' p g (length gs) done h same))

  -- The rows of the view.
  base_valid : (r : ℕ) (row : Row F) → get_elem? v.base.rows r ≡ some row → IsViewRow sc v row.ids
  base_valid r row at = record {
    known = λ d lt. omega (
      arith,
      id_known (length sc.dims) v.base.dicts row.ids d (base_row sc v.base dec.base r row at) lt,
    );
  }

  module _ (groups : List (List Cond)) (now : ℤ) (qs : QueryScratch)
      (told : (row : List ℕ)
        → IsViewRow sc v row
        → delta_matched qs.plans qs v row ≡ some_group_holds sc v groups row)
      {S : Type 0} (f : Row F → S → S) where
    answered_delta :
        (rows : List (Row F)) (s : S)
        → ((r : ℕ) (row : Row F) → get_elem? rows r ≡ some row → IsViewRow sc v row.ids)
        → ((r : ℕ) (row : Row F)
            → get_elem? rows r ≡ some row
            → ((query_clock v now).delta_exp && row_expired row.expire (query_clock v now).now)
              ≡ row_expired row.expire now)
        → fold_delta v (query_clock v now) qs f rows s ≡ answer_delta sc v now groups f rows s
    unfolding fold_delta delta_visible answer_delta
    answered_delta [] s valid spared = refl
    answered_delta (row ∷ rows) s valid spared =
        rw (told row.ids (valid 0 row refl), spared 0 row refl)
          (answered_delta rows _ (λ r row' at. valid (suc r) row' at)
            (λ r row' at. spared (suc r) row' at))

    answered_base :
        (i : ℕ) (rows : List (Row F)) (s : S)
        → ((r : ℕ) (row : Row F) → get_elem? rows r ≡ some row → IsViewRow sc v row.ids)
        → ((r : ℕ) (row : Row F)
            → get_elem? rows r ≡ some row
            → ((query_clock v now).base_exp && row_expired row.expire (query_clock v now).now)
              ≡ row_expired row.expire now)
        → scan_base v (query_clock v now) qs f i rows s ≡ answer_base sc v now groups f i rows s
    unfolding scan_base row_taken answer_base
    answered_base i [] s valid spared = refl
    answered_base i (row ∷ rows) s valid spared =
        rw (told row.ids (valid 0 row refl), spared 0 row refl)
          (answered_base (suc i) rows _ (λ r row' at. valid (suc r) row' at)
            (λ r row' at. spared (suc r) row' at))

  empty-AreTold : (cap : ℕ) → AreTold (empty_scratch cap) []
  unfolding empty_scratch delta_matched some_group_holds
  empty-AreTold cap = record { found = empty-AreFound sc v dec.base cap; told = λ row valid. refl }

  abbrev TellsIfOk : List (List Cond) → Result QueryScratch × Counters → Type 0
  TellsIfOk gs (err e, c) = Unit
  TellsIfOk gs (ok qs, c) =
      (row : List ℕ)
      → IsViewRow sc v row
      → delta_matched qs.plans qs v row ≡ some_group_holds sc v gs row

  budgeted-TellsIfOk :
      (cfg : Config) (gs : List (List Cond)) (r : Result QueryScratch × Counters)
      → ToldIfOk gs r
      → TellsIfOk gs (budgeted cfg v r)
  unfolding budgeted
  budgeted-TellsIfOk cfg gs (err e, c) h = tt
  budgeted-TellsIfOk cfg gs (ok qs, c) h =
      let ivs = sort_ivs qs.ivs in
      elim (Bool-cases (over_budget cfg v (record qs { ivs = ivs }))) [
        | inl over ↦ rw over tt
        | inr within ↦
            rw within
              (λ row valid. sorted_delta sc v dec.base qs ivs qs.plans row ∙ h.told row valid)
      ]

  -- On a view whose ids can be decoded, whose delta is well formed and whose base has the smallest
  -- expiry time that the loops of the code track over its rows: what a query with any groups of
  -- conditions folds at a time `now` over the rows that it matches is what it should: all the rows of
  -- the base that are not overridden, then all the rows of the delta, in their order, of those that
  -- have not expired at `now` and of which every condition of some group holds by the values that the
  -- row's ids stand for.
  pub fold_matched-answer :
      {S : Type 0} (cfg : Config) (groups : List (List Cond)) (cap : ℕ) (c c' : Counters)
      (qs : QueryScratch) (now : ℤ) (f : Row F → S → S) (s : S)
      → IsDelta v.delta
      → v.base.min_expire ≡ (track_rows no_rows v.base.rows).min_expire
      → plan_groups sc cfg v groups (empty_scratch cap) c ≡ (ok qs, c')
      → fold_matched v (query_clock v now) qs f s ≡ answer sc v now groups f s
  unfolding plan_groups scan_all answer
  fold_matched-answer cfg groups cap c c' qs now f s delta tracked h =
      elim (Bool-cases (length groups == 0)) [
        | inl none_given ↦ cc (rw none_given at h)
        | inr some_groups ↦
            let told = subst (TellsIfOk groups) (rw some_groups at h) (
              budgeted-TellsIfOk cfg groups (plan_each sc v groups (empty_scratch cap) c)
                (plan_each-AreTold groups [] (empty_scratch cap) c (empty-AreTold cap))) in
            let k = query_clock v now in
            fold_matched-scan_all sc v dec.base cfg groups cap c c' qs k f s few_base h
            ∙ ap (fold_delta v k qs f v.delta.rows) (
                answered_base groups now qs told f 0 v.base.rows s base_valid
                  (λ r row at. base_expired v now r row tracked at))
            ∙ answered_delta groups now qs told f v.delta.rows _ dec.rows
                (λ r row at. delta_expired v now r row delta at)
      ]
