-- ===== src/View/Apply/Index.antt =====
-- view.go: the delta's index, its clock and its expiry flag stay exact while records are upserted.
use facetta.Prelude.{
  ℕ, ◌≡◌, refl, sym, ap, ◌∙◌, ◌⊎◌, Bool, true, false, ◌||◌, Option, none, some, List, [], ◌∷◌,
  length, get_elem?, set, get_elem?-set_self, get_elem?-set_ne, arith, Bool-cases, inl, inr, ==_iff,
  ◌==◌,
}
use mathlib.Core.Path.{subst}
use facetta.Prelude.Int.{ℤ, pos, ltb_ℤ, leb_ℤ, eqb_ℤ}
use facetta.Prelude.Maps.{Str, find, str_eq}
use facetta.Dict.Intern.{
  get_elem?-append_left, get_elem?-append_end, get_elem?-append_inv, get_elem?-lt-length,
}
use facetta.Snapshot.{Row}
use facetta.View.{Delta, id_key, empty_delta}
use facetta.View.Apply.{raise_max, replace_at, append_row, sticky}

sticky-clear : (e : ℤ) (b : Bool) → sticky e b ≡ false → (eqb_ℤ e (pos 0) ≡ true) × (b ≡ false)
unfolding sticky
sticky-clear e b h = ground arith

module _ {F : Type 0} where
  -- What a row promises in a delta: it is indexed by its tuple, it is no newer than the delta's
  -- clock, and an expiry time is announced by the flag.
  pub record IsEntry (d : Delta F) (r : ℕ) (row : Row F) : Type 0 where
    pub indexed : find (id_key row.ids) d.index ≡ some r
    pub no_newer : leb_ℤ row.updated d.max_updated ≡ true
    pub flagged : d.has_expiry ≡ false → eqb_ℤ row.expire (pos 0) ≡ true

  -- The index leads to a row of that tuple, and each row keeps its promise. So no tuple is in the
  -- delta twice.
  pub record IsDelta (d : Delta F) : Type 0 where
    pub entry : (r : ℕ) (row : Row F) → get_elem? d.rows r ≡ some row → IsEntry d r row
    pub resident :
        (k : Str) (r : ℕ)
        → find k d.index ≡ some r
        → (row : Row F) × (get_elem? d.rows r ≡ some row) × (id_key row.ids ≡ k)

  pub IsDelta-empty_delta : IsDelta empty_delta
  unfolding empty_delta
  IsDelta-empty_delta = record { entry = λ r row h. cc; resident = λ k r h. cc }

  -- The same before the clock is raised to `u`.
  record IsTouched (u : ℤ) (d : Delta F) (r : ℕ) (row : Row F) : Type 0 where
    indexed : find (id_key row.ids) d.index ≡ some r
    no_newer : (leb_ℤ row.updated d.max_updated || leb_ℤ row.updated u) ≡ true
    flagged : d.has_expiry ≡ false → eqb_ℤ row.expire (pos 0) ≡ true

  touched : (u : ℤ) (d : Delta F) (r : ℕ) (row : Row F) → IsEntry d r row → IsTouched u d r row
  touched u d r row h = record {
    indexed = h.indexed;
    no_newer = rw h.no_newer refl;
    flagged = h.flagged;
  }

  raise_max-IsDelta :
      (u : ℤ) (d : Delta F)
      → ((r : ℕ) (row : Row F) → get_elem? d.rows r ≡ some row → IsTouched u d r row)
      → ((k : Str) (r : ℕ)
          → find k d.index ≡ some r
          → (row : Row F) × (get_elem? d.rows r ≡ some row) × (id_key row.ids ≡ k))
      → IsDelta (raise_max u d)
  unfolding raise_max
  raise_max-IsDelta u d entry resident = elim (Bool-cases (ltb_ℤ d.max_updated u)) [
    | inl newer ↦ rw newer (record {
      entry = λ r row h.
          let t = entry r row h in
          record {
            indexed = t.indexed;
            no_newer = ground (arith, t.no_newer);
            flagged = t.flagged;
          };
      resident = resident;
    })
    | inr older ↦ rw older (record {
      entry = λ r row h.
          let t = entry r row h in
          record {
            indexed = t.indexed;
            no_newer = ground (arith, t.no_newer);
            flagged = t.flagged;
          };
      resident = resident;
    })
  ]

  -- An entry of a slice with one element replaced.
  pub replaced_entry :
      (d : Delta F) (r : ℕ) (old new : Row F) (i : ℕ) (row : Row F)
      → get_elem? d.rows r ≡ some old
      → get_elem? (set d.rows r new) i ≡ some row
      → ((i ≡ r) × (new ≡ row)) ⊎ (get_elem? d.rows i ≡ some row)
  replaced_entry d r old new i row h g = elim (Bool-cases (i == r)) [
    | inl same ↦
        let at_r : i ≡ r = (==_iff i r).0 same in
        let found = get_elem?-set_self d.rows r new (get_elem?-lt-length d.rows r old h) in
        inl (at_r, cc)
    | inr other ↦ inr (sym (get_elem?-set_ne d.rows new (λ q. cc ((==_iff i r).1 (sym q)))) ∙ g)
  ]

  module _ (d : Delta F) (inv : IsDelta d) (mets : List F) (u e : ℤ) where
    replaced :
        (r : ℕ) (old : Row F)
        → get_elem? d.rows r ≡ some old
        → IsDelta (
            raise_max u (record d {
              rows = set d.rows r (record { ids = old.ids; mets = mets; updated = u; expire = e });
              has_expiry = sticky e d.has_expiry;
            }))
    replaced r old h =
        let new : Row F = record { ids = old.ids; mets = mets; updated = u; expire = e } in
        raise_max-IsDelta u _
          (λ i row g. elim (replaced_entry d r old new i row h g) [
            | inl (at_r, same) ↦ subst (IsTouched u _ i) same (record {
              indexed = rw at_r ((inv.entry r old h).indexed);
              no_newer = ground arith;
              flagged = λ q. (sticky-clear e d.has_expiry q).0;
            })
            | inr before ↦
                let t = touched u d i row (inv.entry i row before) in
                record {
                  indexed = t.indexed;
                  no_newer = t.no_newer;
                  flagged = λ q. t.flagged ((sticky-clear e d.has_expiry q).1);
                }
          ])
          (λ k i g.
            let (row, found, key) = inv.resident k i g in
            elim (Bool-cases (i == r)) [
              | inl same ↦
                  let at_r : i ≡ r = (==_iff i r).0 same in
                  (
                    new,
                    rw at_r (get_elem?-set_self d.rows r new (get_elem?-lt-length d.rows r old h)),
                    (let same_row : some row ≡ some old =
                          sym found ∙ ap (λ j. get_elem? d.rows j) at_r ∙ h in
                        cc (same_row, key)),
                  )
              | inr other ↦
                  (row, get_elem?-set_ne d.rows new (λ q. cc ((==_iff i r).1 (sym q))) ∙ found, key)
            ])

    pub replace_at-IsDelta :
        (r : ℕ) (ids : List ℕ) (old : Option (Row F))
        → get_elem? d.rows r ≡ old
        → IsDelta (raise_max u (replace_at d r ids mets u e old))
    unfolding replace_at
    replace_at-IsDelta r ids none h =
        raise_max-IsDelta u d (λ i row g. touched u d i row (inv.entry i row g)) inv.resident
    replace_at-IsDelta r ids (some old) h = elim (Bool-cases (leb_ℤ old.updated u)) [
      | inl newer ↦ rw newer (replaced r old h)
      | inr stale ↦
          rw stale
            (raise_max-IsDelta u d (λ i row g. touched u d i row (inv.entry i row g)) inv.resident)
    ]

    pub append_row-IsDelta :
        (ids : List ℕ)
        → find (id_key ids) d.index ≡ none
        → IsDelta (raise_max u (append_row d ids mets u e))
    unfolding append_row
    append_row-IsDelta ids fresh =
        let new : Row F = record { ids = ids; mets = mets; updated = u; expire = e } in
        raise_max-IsDelta u (append_row d ids mets u e)
          (λ i row g. elim (get_elem?-append_inv d.rows new i row g) [
            | inl before ↦
                let t = touched u d i row (inv.entry i row before) in
                record {
                  indexed = elim (Bool-cases (str_eq.eqb (id_key ids) (id_key row.ids))) [
                    | inl same ↦ cc (
                      (str_eq.eqb_iff (id_key ids) (id_key row.ids)).0 same,
                      t.indexed,
                      fresh,
                      ap (λ k. find k d.index)
                          ((str_eq.eqb_iff (id_key ids) (id_key row.ids)).0 same),
                    )
                    | inr differ ↦ rw differ t.indexed
                  ];
                  no_newer = t.no_newer;
                  flagged = λ q. t.flagged ((sticky-clear e d.has_expiry q).1);
                }
            | inr (at_end, same) ↦ subst (IsTouched u _ i) same (record {
              indexed =
                  rw ((str_eq.eqb_iff (id_key ids) (id_key ids)).1 refl) (ap some (sym at_end));
              no_newer = ground arith;
              flagged = λ q. (sticky-clear e d.has_expiry q).0;
            })
          ])
          (λ k i g. elim (Bool-cases (str_eq.eqb (id_key ids) k)) [
            | inl same ↦
                let at_end : some (length d.rows) ≡ some i = rw same at g in
                (
                  new,
                  (let index : length d.rows ≡ i = cc at_end in
                      rw (← index) (get_elem?-append_end d.rows new)),
                  (str_eq.eqb_iff (id_key ids) k).0 same,
                )
            | inr differ ↦
                let (row, found, key) = inv.resident k i (rw differ at g) in
                (row, get_elem?-append_left d.rows (new ∷ []) i row found, key)
          ])
