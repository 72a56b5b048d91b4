-- ===== src/Persist/Read/Loaded.antt =====
-- persist.go: whatever bytes a file holds, a snapshot that `readSnapshotFile` accepts is well formed.
use mathlib.Core.Path.{subst}
use facetta.Prelude.{
  ℕ, zero, suc, ◌+◌, ◌-◌, ◌≤◌, ◌<◌, ◌≡◌, refl, sym, ap, ◌∙◌, Bool, true, false, some, List, [], ◌∷◌,
  length, map, take, get_or, get_elem?, replicate, ltb, arith, length-map,
}
use facetta.Prelude.Int.{ℤ}
use facetta.Schema.{Schema}
use facetta.Result.{Result, ok, err, ◌>>◌, >>=-eq-ok, ok_inj}
use facetta.Dict.{len}
use facetta.Keys.{compute_shifts}
use facetta.Keys.Widths.{Below}
use facetta.Snapshot.{Row, Snapshot}
use facetta.Snapshot.WellFormed.{IsBase}
use facetta.Codec.{Hashes, FloatBits}
use facetta.Persist.{upto}
use facetta.Persist.Read.{
  Reader, rd_word, rd_seq, rd_id, rd_ids, rd_dict, rd_words, ensure, or_format, ascends, Table,
  rd_table, table_row, table_rows, finish_snapshot, rd_header, rd_body, read_file,
}

pub ensure-true : (b : Bool) → ensure b ≡ ok tt → b ≡ true
unfolding ensure
ensure-true true h = refl
ensure-true false h = cc

-- A chain behind a check passed the check.
pub ensure-eq-ok {ℓ} :
    {A : Type ℓ} (b : Bool) (rest : Result A) {a : A}
    → (ensure b >> rest) ≡ ok a
    → (b ≡ true) × (rest ≡ ok a)
unfolding ensure
ensure-eq-ok true rest h = (refl, h)
ensure-eq-ok false rest h = cc

or_format-eq-ok {ℓ} : {A : Type ℓ} (r : Result A) {a : A} → or_format r ≡ ok a → r ≡ ok a
unfolding or_format
or_format-eq-ok (ok a) h = h
or_format-eq-ok (err e) h = cc

-- One round of a loop of reads.
pub rd_seq-cons {ℓ} :
    {A : Type ℓ} (r : Reader A) (rs : List (Reader A)) (body : List ℕ) {as' : List A}
    {rest : List ℕ}
    → rd_seq (r ∷ rs) body ≡ ok (as', rest)
    → (a : A) × (tail : List A) × (mid : List ℕ) × (r body ≡ ok (a, mid))
      × (rd_seq rs mid ≡ ok (tail, rest))
      × (a ∷ tail ≡ as')
unfolding rd_seq
rd_seq-cons r rs body h =
    let ((a, mid), e, h') = >>=-eq-ok (r body) _ h in
    let ((tail, end), e', h'') = >>=-eq-ok (rd_seq rs mid) _ h' in
    let pairs = ok_inj h'' in
    (a, tail, mid, e, e' ∙ ap (λ p. ok (tail, p.1)) pairs, ap (λ p. p.0) pairs)

-- `n` ids, all below `card`.
pub record IsColumn (n card : ℕ) (col : List ℕ) : Type 0 where
  pub full : length col ≡ n
  pub below : (r : ℕ) → r < n → get_or col r 0 < card

rd_id-lt :
    (card : ℕ) (body : List ℕ) {id : ℕ} {rest : List ℕ}
    → rd_id card body ≡ ok (id, rest)
    → id < card
unfolding rd_id
rd_id-lt card body h =
    let ((id, mid), e, h') = >>=-eq-ok (rd_word 4 body) _ h in
    let (small, last) = ensure-eq-ok (ltb id card) _ h' in
    let same = ap (λ p. p.0) (ok_inj last) in subst (λ (x : ℕ). x < card) same (ground arith)

rd_ids-IsColumn :
    (n card : ℕ) (body : List ℕ) {col rest : List ℕ}
    → rd_seq (replicate n (rd_id card)) body ≡ ok (col, rest)
    → IsColumn n card col
unfolding rd_seq
rd_ids-IsColumn zero card body h =
    subst (IsColumn 0 card) (ap (λ p. p.0) (ok_inj h))
      (record { full = refl; below = λ r lt. absurd (omega arith) })
rd_ids-IsColumn (suc n) card body h =
    let (id, tail, mid, e, more, same) =
      rd_seq-cons (rd_id card) (replicate n (rd_id card)) body h in
    let rec = rd_ids-IsColumn n card mid more in
    subst (IsColumn (suc n) card) same (record {
      full = ap suc rec.full;
      below = column_below id tail (rd_id-lt card body e) rec.below;
    })
  where
    column_below :
        (id : ℕ) (tail : List ℕ)
        → id < card
        → ((r : ℕ) → r < n → get_or tail r 0 < card)
        → (r : ℕ) → r < suc n
        → get_or (id ∷ tail) r 0 < card
    column_below id tail first others zero lt = first
    column_below id tail first others (suc r) lt = others r (omega arith)

-- A column for each dimension.
abbrev Columns : ℕ → List ℕ → List (List ℕ) → Type 0
Columns n [] [] = Unit
Columns n [] (col ∷ cols) = ⊥
Columns n (card ∷ cards) [] = ⊥
Columns n (card ∷ cards) (col ∷ cols) = IsColumn n card col × Columns n cards cols

columns-Columns :
    (n : ℕ) (cards body : List ℕ) {cols : List (List ℕ)} {rest : List ℕ}
    → rd_seq (map (rd_ids n) cards) body ≡ ok (cols, rest)
    → Columns n cards cols
unfolding rd_seq rd_ids
columns-Columns n [] body h = subst (Columns n []) (ap (λ p. p.0) (ok_inj h)) tt
columns-Columns n (card ∷ cards) body h =
    let (col, cols, mid, e, more, same) =
      rd_seq-cons (rd_ids n card) (map (rd_ids n) cards) body h in
    subst (Columns n (card ∷ cards)) same
      (rd_ids-IsColumn n card body e, columns-Columns n cards mid more)

Below-row :
    (n r : ℕ) (cards : List ℕ) (cols : List (List ℕ))
    → r < n
    → Columns n cards cols
    → Below cards (map (λ col. get_or col r 0) cols)
Below-row n r [] [] lt h = tt
Below-row n r [] (col ∷ cols) lt h = absurd h
Below-row n r (card ∷ cards) [] lt h = tt
Below-row n r (card ∷ cards) (col ∷ cols) lt h = (h.0.below r lt, Below-row n r cards cols lt h.1)

length-Columns :
    (n : ℕ) (cards : List ℕ) (cols : List (List ℕ))
    → Columns n cards cols
    → length cols ≡ length cards
length-Columns n [] [] h = refl
length-Columns n [] (col ∷ cols) h = absurd h
length-Columns n (card ∷ cards) [] h = absurd h
length-Columns n (card ∷ cards) (col ∷ cols) h = ap suc (length-Columns n cards cols h.1)

length-rd_seq {ℓ} :
    {A : Type ℓ} (rs : List (Reader A)) (body : List ℕ) {as' : List A} {rest : List ℕ}
    → rd_seq rs body ≡ ok (as', rest)
    → length as' ≡ length rs
unfolding rd_seq
length-rd_seq [] body h = sym (ap (λ p. length (p.0)) (ok_inj h))
length-rd_seq (r ∷ rs) body h =
    let (a, tail, mid, e, more, same) = rd_seq-cons r rs body h in
    ap length (sym same) ∙ ap suc (length-rd_seq rs mid more)

pub get_elem?-map-upto {ℓ} :
    {A : Type ℓ} (f : ℕ → A) (i n r : ℕ) (a : A)
    → get_elem? (map f (upto i n)) r ≡ some a
    → (r < n) × (f (i + r) ≡ a)
unfolding upto
get_elem?-map-upto f i zero r a h = cc
get_elem?-map-upto f i (suc n) zero a h =
    let same : f i ≡ a = cc h in (omega arith, ap f (omega arith) ∙ same)
get_elem?-map-upto f i (suc n) (suc r) a h =
    let (lt, same) = get_elem?-map-upto f (suc i) n r a h in
    (omega arith, ap f (omega arith) ∙ same)

-- A list that passes the check is ascending.
pub ascends-head :
    (k : ℕ) (ks : List ℕ) (j : ℕ)
    → ascends (k ∷ ks) ≡ true
    → j < length (k ∷ ks)
    → k ≤ get_or (k ∷ ks) j 0
unfolding ascends
ascends-head k ks zero h lt = omega arith
ascends-head k [] (suc j) h lt = absurd (omega arith)
ascends-head k (b ∷ ks) (suc j) h lt =
    let le : k ≤ b = ground arith in
    omega (arith, le, ascends-head b ks j (ground arith) (omega arith))

pub ascends-get_or :
    (ks : List ℕ)
    → ascends ks ≡ true
    → (i j : ℕ) → i ≤ j
    → j < length ks
    → get_or ks i 0 ≤ get_or ks j 0
unfolding ascends
ascends-get_or [] h i j le lt = absurd (omega arith)
ascends-get_or (k ∷ ks) h zero j le lt = ascends-head k ks j h lt
ascends-get_or (k ∷ ks) h (suc i) zero le lt = absurd (omega arith)
ascends-get_or (k ∷ []) h (suc i) (suc j) le lt = absurd (omega arith)
ascends-get_or (k ∷ b ∷ ks) h (suc i) (suc j) le lt =
    ascends-get_or (b ∷ ks) (ground arith) i j (omega arith) (omega arith)

-- What the reads promise of the columns.
record IsTable (sc : Schema) (n : ℕ) (t : Table) : Type 0 where
  columns : Columns n (map len t.dicts) t.ids
  all_dims : length t.dicts ≡ length sc.dims

rd_table-IsTable :
    (sc : Schema) (n : ℕ) (body : List ℕ) {t : Table} {rest : List ℕ}
    → rd_table sc n body ≡ ok (t, rest)
    → IsTable sc n t
unfolding rd_table
rd_table-IsTable sc n body h =
    let ((dicts, r), e, h₁) = >>=-eq-ok (rd_seq (map rd_dict sc.dims) body) _ h in
    let ((ids, r₁), e₁, h₂) = >>=-eq-ok (rd_seq (map (rd_ids n) (map len dicts)) r) _ h₁ in
    let ((mets, r₂), e₂, h₃) = >>=-eq-ok (rd_seq (map (λ m. rd_words n) sc.metrics) r₁) _ h₂ in
    let ((updated, r₃), e₃, h₄) = >>=-eq-ok (rd_words n r₂) _ h₃ in
    let ((expire, r₄), e₄, h₅) = >>=-eq-ok (rd_words n r₃) _ h₄ in
    subst (IsTable sc n) (ap (λ p. p.0) (ok_inj h₅)) (record {
      columns = columns-Columns n (map len dicts) r e₁;
      all_dims = length-rd_seq (map rd_dict sc.dims) body e ∙ length-map sc.dims rd_dict;
    })

table_row-full :
    (sc : Schema) (n : ℕ) (t : Table) (r : ℕ)
    → IsTable sc n t
    → length (map (λ col. get_or col r 0) t.ids) ≡ length sc.dims
table_row-full sc n t r table = omega (
  arith,
  length-map t.ids (λ col. get_or col r 0),
  length-Columns n (map len t.dicts) t.ids table.columns,
  length-map t.dicts len,
  table.all_dims,
)

module _ {F : Type 0} ⦃fb : FloatBits F⦄ (sc : Schema) where
  finish_snapshot-IsBase :
      (top : ℤ) (n : ℕ) (t : Table) (rest : List ℕ) {s : Snapshot F}
      → sc.index_dims ≤ length sc.dims
      → IsTable sc n t
      → finish_snapshot sc top n t rest ≡ ok s
      → IsBase sc s
  unfolding finish_snapshot table_rows table_row
  finish_snapshot-IsBase top n t rest dims table h =
      let (exact, h₁) = ensure-eq-ok _ _ h in
      let (shifts, e, h₂) =
        >>=-eq-ok (or_format (compute_shifts (map len t.dicts) sc.index_dims)) _ h₁ in
      let (sorted, h₃) = ensure-eq-ok _ _ h₂ in
      subst (IsBase sc) (ok_inj h₃) (record {
        shifted = or_format-eq-ok _ e;
        keyed = refl;
        ascending = ascends-get_or _ sorted;
        in_dicts = λ r row at.
            let (lt, same) = get_elem?-map-upto (table_row t) 0 n r row at in
            subst (λ (x : Row F). Below (map len t.dicts) x.ids) same
              (Below-row n (0 + r) (map len t.dicts) t.ids (omega (arith, lt)) table.columns);
        whole = λ r row at.
            let (lt, same) = get_elem?-map-upto (table_row t) 0 n r row at in
            subst (λ (x : Row F). sc.index_dims ≤ length x.ids) same
              (omega (arith, table_row-full sc n t (0 + r) table));
        sized = table.all_dims;
        full = λ r row at.
            let (lt, same) = get_elem?-map-upto (table_row t) 0 n r row at in
            subst (λ (x : Row F). length x.ids ≡ length sc.dims) same
              (table_row-full sc n t (0 + r) table);
      })

module _ {F : Type 0} ⦃hs : Hashes⦄ ⦃fb : FloatBits F⦄ where
  -- For a schema whose index dimensions are among its dimensions: whatever bytes a file holds, a
  -- snapshot that `readSnapshotFile` accepts is a well-formed base. Its keys are the packed ids of
  -- its rows in ascending order, and each id has an entry in its dictionary.
  pub read_file-IsBase :
      (sc : Schema) (cutoff : ℤ) (contents : List ℕ) (s : Snapshot F)
      → sc.index_dims ≤ length sc.dims
      → read_file sc cutoff contents ≡ ok s
      → IsBase sc s
  unfolding read_file rd_body
  read_file-IsBase sc cutoff contents s dims h =
      let size = length contents - 4 in
      let (long, h₁) = ensure-eq-ok _ _ h in
      let (sound, h₂) = ensure-eq-ok _ _ h₁ in
      let (((top, n), rest), e, h₃) = >>=-eq-ok (rd_header sc cutoff (take size contents)) _ h₂ in
      let ((t, rest'), e', h₄) = >>=-eq-ok (rd_table sc n rest) _ h₃ in
      finish_snapshot-IsBase sc top n t rest' dims (rd_table-IsTable sc n rest e') h₄
