-- ===== src/Persist/Read/Rows.antt =====
-- persist.go: what a snapshot needs to be written to a file, and the table that is read back.
use facetta.Prelude.{
  ℕ, zero, suc, ◌+◌, ◌^◌, ◌<◌, ◌≡◌, refl, sym, ap, ◌∙◌, some, List, [], ◌∷◌, ◌++◌, length, map,
  get_or, get_elem?, arith, length-map,
}
use facetta.Prelude.Int.{ℤ}
use facetta.Schema.{Schema}
use facetta.Strconv.RoundTrip.{IsInt64}
use facetta.Dict.{len}
use facetta.Keys.Widths.{Below}
use facetta.Snapshot.{Row, Snapshot, no_rows, track_rows}
use facetta.Snapshot.WellFormed.{IsBase}
use facetta.Codec.{FloatBits, IsFloatBits}
use facetta.Persist.{
  le_word, uint64, concat_map, upto, dict_bytes, id_column, met_column, table_bytes,
}
use facetta.Persist.Read.{rd_seq, rd_ids, rd_words, rd_dict, int64, Table, rd_table}
use facetta.Persist.Read.Words.{Reads, append_assoc, rd_seq-ReadsEach, int64-uint64, uint64-lt}
use facetta.Persist.Read.Values.{concat_map-map}
use facetta.Persist.Read.Columns.{
  get_elem?-map_inv, rd_ids-column, rd_words-column, ReadsEach-columns, AreStorable, reread_all,
  ReadsEach-dicts, length-AreStorable, AreStorable-card, reread_all-EachSameValues, map-len-same,
}

pub map-map {ℓ κ μ} :
    {A : Type ℓ} {B : Type κ} {C : Type μ} (g : B → C) (f : A → B) (l : List A)
    → map g (map f l) ≡ map (λ a. g (f a)) l
map-map g f [] = refl
map-map g f (a ∷ l) = ap (◌∷◌ (g (f a))) (map-map g f l)

pub append_five {ℓ} :
    {A : Type ℓ} (a b c d e f : List A)
    → ((((a ++ b) ++ c) ++ d) ++ e) ++ f ≡ a ++ (b ++ (c ++ (d ++ (e ++ f))))
append_five a b c d e f =
    append_assoc (((a ++ b) ++ c) ++ d) e f
    ∙ append_assoc ((a ++ b) ++ c) d (e ++ f)
    ∙ append_assoc (a ++ b) c (d ++ (e ++ f))
    ∙ append_assoc a b (c ++ (d ++ (e ++ f)))

Below-get_or :
    (cards ids : List ℕ) (d card : ℕ)
    → Below cards ids
    → length ids ≡ length cards
    → get_elem? cards d ≡ some card
    → get_or ids d 0 < card
Below-get_or [] ids d card h len at = cc
Below-get_or (c ∷ cards) [] d card h len at = absurd (omega arith)
Below-get_or (c ∷ cards) (id ∷ ids) zero card h len at =
    let same : c ≡ card = cc in omega (arith, h.0)
Below-get_or (c ∷ cards) (id ∷ ids) (suc d) card h len at =
    Below-get_or cards ids d card h.1 (omega arith) at

module _ {F : Type 0} where
  -- A row with an id per dimension and a value per metric, and int64 times.
  pub record IsWhole (sc : Schema) (row : Row F) : Type 0 where
    pub ids : length row.ids ≡ length sc.dims
    pub mets : length row.mets ≡ length sc.metrics
    pub updated : IsInt64 row.updated
    pub expire : IsInt64 row.expire

  -- A published base whose sizes fit the words of the file, and whose extremes are those of its rows.
  pub record IsSaved (sc : Schema) (s : Snapshot F) : Type 0 where
    pub base : IsBase sc s
    pub dicts : AreStorable sc.dims s.dicts
    pub rows : (r : ℕ) (row : Row F) → get_elem? s.rows r ≡ some row → IsWhole sc row
    pub few : length s.rows < 2 ^ 64
    pub top : IsInt64 s.max_updated
    pub greatest : (track_rows no_rows s.rows).max_updated ≡ s.max_updated
    pub least : (track_rows no_rows s.rows).min_updated ≡ s.min_updated
    pub first_out : (track_rows no_rows s.rows).min_expire ≡ s.min_expire

module _ {F : Type 0} ⦃fb : FloatBits F⦄ where
  unfoldable pub saved_table : Schema → Snapshot F → Table
  saved_table sc s = record {
    dicts = reread_all sc.dims s.dicts;
    ids = map (id_column s.rows) (upto 0 (length sc.dims));
    mets = map (met_column s.rows) (upto 0 (length sc.metrics));
    updated = map (λ r. r.updated) s.rows;
    expire = map (λ r. r.expire) s.rows;
  }

  map-int64 :
      (f : Row F → ℤ) (rows : List (Row F))
      → ((r : ℕ) (row : Row F) → get_elem? rows r ≡ some row → IsInt64 (f row))
      → map int64 (map (λ r. uint64 (f r)) rows) ≡ map f rows
  map-int64 f [] h = refl
  map-int64 f (row ∷ rows) h =
      rw (int64-uint64 (f row) (h 0 row refl), map-int64 f rows (λ r x at. h (suc r) x at)) refl

  times_column :
      (f : Row F → ℤ) (rows : List (Row F))
      → Reads
          (rd_words (length rows))
          (concat_map (λ r. le_word 8 (uint64 (f r))) rows)
          (map (λ r. uint64 (f r)) rows)
  times_column f rows rest =
      rw
        (concat_map-map (le_word 8) (λ r. uint64 (f r)) rows, ← length-map rows (λ r. uint64 (f r)))
        (rd_words-column (map (λ r. uint64 (f r)) rows)
          (λ i x at.
            let (row, _, same) = get_elem?-map_inv (λ r. uint64 (f r)) rows i x at in
            rw (← same) (uint64-lt (f row)))
          rest)

module _ {F : Type 0} ⦃fb : FloatBits F⦄ ⦃ok : IsFloatBits F⦄ (sc : Schema) (s : Snapshot F)
    (h : IsSaved sc s) where
  id_column_read :
      (d card : ℕ)
      → get_elem? (map len s.dicts) d ≡ some card
      → Reads
          (rd_ids (length s.rows) card)
          (concat_map (le_word 4) (id_column s.rows d))
          (id_column s.rows d)
  unfolding id_column
  id_column_read d card at rest = rw (← length-map s.rows (λ r. get_or r.ids d 0)) (
      rd_ids-column card (map (λ r. get_or r.ids d 0) s.rows)
        (AreStorable-card sc.dims s.dicts d card h.dicts at)
        (λ r x at_r.
          let (row, at_row, same) = get_elem?-map_inv (λ r. get_or r.ids d 0) s.rows r x at_r in
          rw (← same) (
            Below-get_or (map len s.dicts) row.ids d card (h.base.in_dicts r row at_row)
              (omega (
                arith,
                (h.rows r row at_row).ids,
                length-AreStorable sc.dims s.dicts h.dicts,
                length-map s.dicts len,
              ))
              at))
        rest)

  met_column_read :
      (m : ℕ)
      → Reads
          (rd_words (length s.rows))
          (concat_map (le_word 8) (met_column s.rows m))
          (met_column s.rows m)
  unfolding met_column
  met_column_read m rest =
      let bits = λ (r : Row F). fb.to_bits (get_or r.mets m (fb.of_bits 0)) in
      rw (← length-map s.rows bits) (
        rd_words-column (map bits s.rows)
          (λ r x at_r.
            let (row, at_row, same) = get_elem?-map_inv bits s.rows r x at_r in
            rw (← same) (ok.to_bits-lt (get_or row.mets m (fb.of_bits 0))))
          rest)

  ids_read :
      Reads
        (rd_seq (map (rd_ids (length s.rows)) (map len s.dicts)))
        (concat_map (λ d. concat_map (le_word 4) (id_column s.rows d)) (upto 0 (length sc.dims)))
        (map (id_column s.rows) (upto 0 (length sc.dims)))
  ids_read =
      let cards = map len s.dicts in
      let as_many : length sc.dims ≡ length cards =
        sym (length-AreStorable sc.dims s.dicts h.dicts) ∙ sym (length-map s.dicts len) in
      rw as_many (
        rd_seq-ReadsEach _ (map (rd_ids (length s.rows)) cards) (upto 0 (length cards))
          (map (id_column s.rows) (upto 0 (length cards)))
          (ReadsEach-columns (rd_ids (length s.rows)) (concat_map (le_word 4)) (id_column s.rows)
            cards 0
            (λ d card at.
              let index : 0 + d ≡ d = omega arith in rw index (id_column_read d card at))))

  mets_read :
      Reads
        (rd_seq (map (λ m. rd_words (length s.rows)) sc.metrics))
        (concat_map
          (λ m. concat_map (le_word 8) (met_column s.rows m))
          (upto 0 (length sc.metrics)))
        (map (met_column s.rows) (upto 0 (length sc.metrics)))
  mets_read =
      rd_seq-ReadsEach _ (map (λ m. rd_words (length s.rows)) sc.metrics)
        (upto 0 (length sc.metrics)) (map (met_column s.rows) (upto 0 (length sc.metrics)))
        (ReadsEach-columns (λ m. rd_words (length s.rows)) (concat_map (le_word 8))
          (met_column s.rows) sc.metrics 0 (λ m name at. met_column_read (0 + m)))

  table_bytes-append :
      (rest : List ℕ)
      → table_bytes sc s ++ rest
        ≡ concat_map dict_bytes s.dicts
          ++ (concat_map
                (λ d. concat_map (le_word 4) (id_column s.rows d))
                (upto 0 (length sc.dims))
              ++ (concat_map
                    (λ m. concat_map (le_word 8) (met_column s.rows m))
                    (upto 0 (length sc.metrics))
                  ++ (concat_map (λ r. le_word 8 (uint64 r.updated)) s.rows
                      ++ (concat_map (λ r. le_word 8 (uint64 r.expire)) s.rows ++ rest))))
  unfolding table_bytes
  table_bytes-append rest =
      append_five (concat_map dict_bytes s.dicts)
        (concat_map (λ d. concat_map (le_word 4) (id_column s.rows d)) (upto 0 (length sc.dims)))
        (concat_map (λ m. concat_map (le_word 8) (met_column s.rows m))
          (upto 0 (length sc.metrics)))
        (concat_map (λ r. le_word 8 (uint64 r.updated)) s.rows)
        (concat_map (λ r. le_word 8 (uint64 r.expire)) s.rows) rest

  -- The table of a saved snapshot is read back.
  pub rd_table-table_bytes :
      Reads (rd_table sc (length s.rows)) (table_bytes sc s) (saved_table sc s)
  unfolding rd_table saved_table
  rd_table-table_bytes rest =
      let ids =
        concat_map (λ d. concat_map (le_word 4) (id_column s.rows d)) (upto 0 (length sc.dims)) in
      let mets =
        concat_map (λ m. concat_map (le_word 8) (met_column s.rows m))
          (upto 0 (length sc.metrics)) in
      let updated = concat_map (λ r. le_word 8 (uint64 r.updated)) s.rows in
      let expire = concat_map (λ r. le_word 8 (uint64 r.expire)) s.rows in
      rw
        (
          table_bytes-append rest,
          rd_seq-ReadsEach dict_bytes (map rd_dict sc.dims) s.dicts (reread_all sc.dims s.dicts)
              (ReadsEach-dicts sc.dims s.dicts h.dicts)
              (ids ++ (mets ++ (updated ++ (expire ++ rest)))),
          map-len-same s.dicts (reread_all sc.dims s.dicts)
              (reread_all-EachSameValues sc.dims s.dicts h.dicts),
          ids_read (mets ++ (updated ++ (expire ++ rest))),
          mets_read (updated ++ (expire ++ rest)),
          times_column (λ r. r.updated) s.rows (expire ++ rest),
          times_column (λ r. r.expire) s.rows rest,
          map-int64 (λ r. r.updated) s.rows (λ r row at. (h.rows r row at).updated),
          map-int64 (λ r. r.expire) s.rows (λ r row at. (h.rows r row at).expire),
        )
        refl
