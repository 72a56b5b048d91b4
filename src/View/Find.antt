-- ===== src/View/Find.antt =====
-- snapshot.go: `findRow` finds the base row of a tuple, if there is one.
use facetta.Prelude.{
  ℕ, zero, suc, ◌+◌, ◌-◌, ◌≤◌, ◌≡◌, refl, sym, ◌∙◌, ap, true, some, List, [], ◌∷◌, length, map,
  take, drop, get_or, get_elem?, leb, ltb, ◌==◌, ==_iff, arith, Bool-cases, inl, inr,
}
use mathlib.Core.Path.{ap₂, subst}
use facetta.Prelude.Search.{search, search-IsFirst, IsFirst}
use facetta.Schema.{Schema}
use facetta.Keys.{pack_key}
use facetta.Snapshot.{Row, Snapshot}
use facetta.Snapshot.WellFormed.{row_key, IsBase, key_at, key_index}
use facetta.View.{tuple_matches, scan_key, keyed_rows, find_row}

take-tuple_matches :
    (k : ℕ) (row ids : List ℕ)
    → tuple_matches row ids ≡ true
    → k ≤ length ids
    → take k row ≡ take k ids
unfolding tuple_matches
take-tuple_matches zero row ids h le = refl
take-tuple_matches (suc k) row [] h le = absurd (omega arith)
take-tuple_matches (suc k) [] (id ∷ ids) h le = ground arith
take-tuple_matches (suc k) (a ∷ row) (id ∷ ids) h le =
    ap₂ ◌∷◌ ((==_iff a id).0 (ground arith))
      (take-tuple_matches k row ids (ground arith) (omega arith))

get_elem?-drop {ℓ} :
    {A : Type ℓ} (n : ℕ) (l : List A) (i : ℕ) → get_elem? (drop n l) i ≡ get_elem? l (n + i)
get_elem?-drop zero l i = ap (get_elem? l) (omega arith)
get_elem?-drop (suc n) [] i = refl
get_elem?-drop (suc n) (x ∷ l) i = get_elem?-drop n l i ∙ ap (get_elem? (x ∷ l)) suc_add
  where
    suc_add : suc (n + i) ≡ suc n + i
    suc_add = omega arith

module _ {F : Type 0} where
  keyed_rows-map :
      (f : Row F → ℕ) (rows : List (Row F)) (i : ℕ) (row : Row F)
      → get_elem? rows i ≡ some row
      → get_elem? (keyed_rows (map f rows) rows) i ≡ some (f row, row)
  unfolding keyed_rows
  keyed_rows-map f [] i row h = cc
  keyed_rows-map f (x ∷ rows) zero row h = cc
  keyed_rows-map f (x ∷ rows) (suc i) row h = keyed_rows-map f rows i row h

  keyed_rows-inv :
      (f : Row F → ℕ) (rows : List (Row F)) (i : ℕ) (e : ℕ × Row F)
      → get_elem? (keyed_rows (map f rows) rows) i ≡ some e
      → (get_elem? rows i ≡ some e.1) × (e.0 ≡ f e.1)
  unfolding keyed_rows
  keyed_rows-inv f [] i e h = cc
  keyed_rows-inv f (x ∷ rows) zero e h =
      let same : (f x, x) ≡ e = cc h in (ap (λ y. some (y.1)) same, rw (← same) refl)
  keyed_rows-inv f (x ∷ rows) (suc i) e h = keyed_rows-inv f rows i e h

  -- A row that the scan returns has the tuple.
  scan_key_sound :
      (key : ℕ) (ids : List ℕ) (r q : ℕ) (es : List (ℕ × Row F))
      → scan_key key ids r es ≡ some q
      → (i : ℕ) × (e : ℕ × Row F) × (q ≡ r + i)
        × (get_elem? es i ≡ some e)
        × (tuple_matches e.1.ids ids ≡ true)
  unfolding scan_key
  scan_key_sound key ids r q [] h = cc
  scan_key_sound key ids r q (e ∷ es) h = elim (Bool-cases (e.0 == key)) [
    | inr other ↦ cc (rw other at h)
    | inl same ↦ elim (Bool-cases (tuple_matches e.1.ids ids)) [
      | inl hit ↦
          let found : some r ≡ some q = rw (same, hit) at h in (0, e, ground arith, refl, hit)
      | inr miss ↦
          let (i, e', at, elem, hit) = scan_key_sound key ids (suc r) q es (rw (same, miss) at h) in
          (suc i, e', omega arith, elem, hit)
    ]
  ]

  -- The scan finds a row of the tuple if all entries up to it have the key.
  scan_key_complete :
      (key : ℕ) (ids : List ℕ) (r i : ℕ) (e : ℕ × Row F) (es : List (ℕ × Row F))
      → get_elem? es i ≡ some e
      → tuple_matches e.1.ids ids ≡ true
      → ((j : ℕ) (e' : ℕ × Row F) → j ≤ i → get_elem? es j ≡ some e' → e'.0 ≡ key)
      → (q : ℕ) × (scan_key key ids r es ≡ some q)
  unfolding scan_key
  scan_key_complete key ids r i e [] h hit same = cc
  scan_key_complete key ids r zero e (x ∷ es) h hit same =
      let first : (x.0 == key) ≡ true = (==_iff x.0 key).1 (same 0 x (omega arith) refl) in
      let here : tuple_matches x.1.ids ids ≡ true = cc (h, hit, x_is x e h) in
      (r, rw (first, here) refl)
    where
      x_is :
          (x e : ℕ × Row F)
          → some x ≡ some e
          → tuple_matches x.1.ids ids ≡ tuple_matches e.1.ids ids
      x_is x e h = let q : x ≡ e = cc h in ap (λ y. tuple_matches y.1.ids ids) q
  scan_key_complete key ids r (suc i) e (x ∷ es) h hit same =
      let first : (x.0 == key) ≡ true = (==_iff x.0 key).1 (same 0 x (omega arith) refl) in
      elim (Bool-cases (tuple_matches x.1.ids ids)) [
        | inl here ↦ (r, rw (first, here) refl)
        | inr later ↦
            let (q, found) =
              scan_key_complete key ids (suc r) i e es h hit
                (λ j e' le g. same (suc j) e' (omega arith) g) in
            (q, rw (first, later) found)
      ]

  module _ (sc : Schema) (s : Snapshot F) (inv : IsBase sc s) (ids : List ℕ) where
    wanted : ℕ
    wanted = pack_key s.shifts (take sc.index_dims ids)

    from : ℕ
    from =
        search (length s.keys)
          (λ i. leb (pack_key s.shifts (take sc.index_dims ids)) (get_or s.keys i 0))

    entries : List (ℕ × Row F)
    entries = keyed_rows s.keys s.rows

    entry_at :
        (i : ℕ) (e : ℕ × Row F)
        → get_elem? (drop from entries) i ≡ some e
        → (get_elem? s.rows (from + i) ≡ some e.1) × (e.0 ≡ row_key s.shifts sc.index_dims e.1)
    unfolding entries
    entry_at i e h =
        keyed_rows-inv (row_key s.shifts sc.index_dims) s.rows (from + i) e
          (rw inv.keyed at (sym (get_elem?-drop from (keyed_rows s.keys s.rows) i) ∙ h))

    -- On a well-formed base, a row that `findRow` returns has the tuple.
    pub find_row_sound :
        (r : ℕ)
        → find_row sc s ids ≡ some r
        → (row : Row F) × (get_elem? s.rows r ≡ some row) × (tuple_matches row.ids ids ≡ true)
    unfolding find_row from entries wanted
    find_row_sound r h =
        let (i, e, at, elem, hit) = scan_key_sound wanted ids from r (drop from entries) h in
        (e.1, rw at ((entry_at i e elem).0), hit)

    first : IsFirst (length s.keys) (λ i. leb wanted (get_or s.keys i 0)) from
    unfolding from wanted
    first =
        search-IsFirst (length s.keys) (λ i. leb wanted (get_or s.keys i 0))
          (λ i j le lt h. ground (arith, inv.ascending i j le lt))

    module _ (r : ℕ) (row : Row F) (h : get_elem? s.rows r ≡ some row)
        (hit : tuple_matches row.ids ids ≡ true) (le : sc.index_dims ≤ length ids) where
      key_r : get_or s.keys r 0 ≡ wanted
      unfolding wanted
      key_r =
          key_at sc s inv r row h
          ∙ ap (pack_key s.shifts) (take-tuple_matches sc.index_dims row.ids ids hit le)

      from_le : from ≤ r
      from_le =
          let key = key_r in
          elim (Bool-cases (ltb r from)) [
            | inl early ↦ let miss = first.1 r (ground arith) in absurd (ground (arith, miss, key))
            | inr late ↦ ground arith
          ]

      entry_r :
          get_elem? (drop from entries) (r - from) ≡ some (row_key s.shifts sc.index_dims row, row)
      unfolding entries
      entry_r =
          get_elem?-drop from (keyed_rows s.keys s.rows) (r - from)
          ∙ ap (get_elem? (keyed_rows s.keys s.rows)) (back from r from_le)
          ∙ subst
              (λ ks.
                get_elem? (keyed_rows ks s.rows) r ≡ some (row_key s.shifts sc.index_dims row, row))
              (sym inv.keyed) (keyed_rows-map (row_key s.shifts sc.index_dims) s.rows r row h)
        where
          back : (a b : ℕ) → a ≤ b → a + (b - a) ≡ b
          back a b q = omega arith

      same_key :
          (j : ℕ) (e : ℕ × Row F)
          → j ≤ r - from
          → get_elem? (drop from entries) j ≡ some e
          → e.0 ≡ wanted
      same_key j e jle g =
          let (elem, key) = entry_at j e g in
          let here = key_at sc s inv (from + j) e.1 elem in
          let above = first.2 (from + j) (omega arith) (key_index sc s inv (from + j) e.1 elem) in
          let before = from_le in
          let last = key_r in
          let below = inv.ascending (from + j) r (omega arith) (key_index sc s inv r row h) in
          omega (arith, key, here, ground_le (get_or s.keys (from + j) 0) above, below, last)
        where
          ground_le : (k : ℕ) → leb wanted k ≡ true → wanted ≤ k
          ground_le k q = ground arith

      -- On a well-formed base, `findRow` finds a row for the tuple of every row.
      pub find_row_complete : (q : ℕ) × (find_row sc s ids ≡ some q)
      unfolding find_row from entries wanted
      find_row_complete =
          scan_key_complete wanted ids from (r - from) (row_key s.shifts sc.index_dims row, row)
            (drop from entries) entry_r hit same_key
