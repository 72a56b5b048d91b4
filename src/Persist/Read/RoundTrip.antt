-- ===== src/Persist/Read/RoundTrip.antt =====
-- persist.go: `readSnapshotFile` reads back what `writeSnapshotFile` writes.
use facetta.Prelude.{
  ℕ, suc, ◌+◌, ◌-◌, ◌≤◌, ◌<◌, ◌≡◌, refl, sym, ap, ◌∙◌, Bool, true, false, ◌&&◌, not, some, List, [],
  ◌∷◌, ◌++◌, length, map, take, drop, get_or, get_elem?, ltb, leb, arith, length-append,
  take-append, drop-append, ==_iff,
}
use facetta.Prelude.Int.{ℤ, pos, ltb_ℤ, eqb_ℤ, eqb_ℤ_iff}
use facetta.Result.{ok}
use facetta.Schema.{Schema}
use facetta.Keys.{pack_key}
use facetta.Dict.{len}
use facetta.Snapshot.{Row, Snapshot, Track, no_rows, track_min, track_row, track_rows}
use facetta.Snapshot.WellFormed.{get_or-map}
use facetta.Codec.{Hashes, FloatBits, IsHashes, IsFloatBits}
use facetta.Persist.{
  le_word, upto, id_column, met_column, header_bytes, table_bytes, body_bytes, file_bytes,
}
use facetta.Persist.Read.{
  ensure, or_format, ascends, greatest, table_row, table_rows, finish_snapshot, rd_body, read_file,
  le_value,
}
use facetta.Persist.Read.Words.{append_nil, length-le_word, le_value-le_word}
use facetta.Persist.Read.Values.{map-upto, map-id, get_elem?-get_or}
use facetta.Persist.Read.Header.{rd_header-header_bytes, length-header_bytes, table_bytes-room}
use facetta.Persist.Read.Columns.{
  EachSameValues, reread_all, reread_all-EachSameValues, map-len-same,
}
use facetta.Persist.Read.Rows.{map-map, IsSaved, saved_table, rd_table-table_bytes}

module _ {F : Type 0} ⦃fb : FloatBits F⦄ ⦃exact : IsFloatBits F⦄ (sc : Schema) (s : Snapshot F)
    (h : IsSaved sc s) where
  row_ids :
      (r : ℕ) (row : Row F)
      → get_elem? s.rows r ≡ some row
      → map (λ col. get_or col r 0) (map (id_column s.rows) (upto 0 (length sc.dims))) ≡ row.ids
  unfolding id_column
  row_ids r row at = rw (← (h.rows r row at).ids) (
      map-map (λ col. get_or col r 0) (id_column s.rows) (upto 0 (length row.ids))
      ∙ map-upto (λ id. id) (λ d. get_or (id_column s.rows d) r 0) 0 row.ids
          (λ d id at_d.
            get_or-map (λ x. get_or x.ids (0 + d) 0) s.rows r row 0 at
            ∙ get_elem?-get_or row.ids (0 + d) id 0 (ap (get_elem? row.ids) (omega arith) ∙ at_d))
      ∙ map-id row.ids)

  row_mets :
      (r : ℕ) (row : Row F)
      → get_elem? s.rows r ≡ some row
      → map
          (λ col. fb.of_bits (get_or col r 0))
          (map (met_column s.rows) (upto 0 (length sc.metrics)))
        ≡ row.mets
  unfolding met_column
  row_mets r row at = rw (← (h.rows r row at).mets) (
      map-map (λ col. fb.of_bits (get_or col r 0)) (met_column s.rows) (upto 0 (length row.mets))
      ∙ map-upto (λ x. x) (λ m. fb.of_bits (get_or (met_column s.rows m) r 0)) 0 row.mets
          (λ m x at_m.
            ap fb.of_bits (
              get_or-map (λ y. fb.to_bits (get_or y.mets (0 + m) (fb.of_bits 0))) s.rows r row 0 at)
            ∙ exact.of_bits-to_bits (get_or row.mets (0 + m) (fb.of_bits 0))
            ∙ get_elem?-get_or row.mets (0 + m) x (fb.of_bits 0)
                (ap (get_elem? row.mets) (omega arith) ∙ at_m))
      ∙ map-id row.mets)

  table_row_read :
      (r : ℕ) (row : Row F)
      → get_elem? s.rows r ≡ some row
      → table_row (saved_table sc s) (0 + r) ≡ row
  unfolding table_row saved_table
  table_row_read r row at =
      let index : 0 + r ≡ r = omega arith in
      rw
        (
          index,
          row_ids r row at,
          row_mets r row at,
          get_or-map (λ x. x.updated) s.rows r row (pos 0) at,
          get_or-map (λ x. x.expire) s.rows r row (pos 0) at,
        )
        refl

  table_rows_read : table_rows (saved_table sc s) (length s.rows) ≡ s.rows
  unfolding table_rows
  table_rows_read =
      map-upto (λ row. row) (table_row (saved_table sc s)) 0 s.rows table_row_read ∙ map-id s.rows

module _ {F : Type 0} where
  greatest-track_rows :
      (t : Track) (rows : List (Row F))
      → greatest t.max_updated (map (λ r. r.updated) rows) ≡ (track_rows t rows).max_updated
  unfolding greatest track_rows track_row track_min
  greatest-track_rows t [] = refl
  greatest-track_rows t (r ∷ rows) = greatest-track_rows (track_row t r.updated r.expire) rows

ascends-ascending :
    (ks : List ℕ)
    → ((i j : ℕ) → i ≤ j → j < length ks → get_or ks i 0 ≤ get_or ks j 0)
    → ascends ks ≡ true
unfolding ascends
ascends-ascending [] h = refl
ascends-ascending (a ∷ []) h = refl
ascends-ascending (a ∷ b ∷ ks) h = ground (
  arith,
  h 0 1 (omega arith) (omega arith),
  ascends-ascending (b ∷ ks) (λ i j le lt. h (suc i) (suc j) (omega arith) (omega arith)),
)

-- What a file keeps of a snapshot: everything, the dictionaries up to their representation.
pub record SameSnapshot {F : Type 0} (s s' : Snapshot F) : Type 0 where
  pub dicts : EachSameValues s.dicts s'.dicts
  pub rows : s'.rows ≡ s.rows
  pub keys : s'.keys ≡ s.keys
  pub shifts : s'.shifts ≡ s.shifts
  pub max_updated : s'.max_updated ≡ s.max_updated
  pub min_updated : s'.min_updated ≡ s.min_updated
  pub min_expire : s'.min_expire ≡ s.min_expire

module _ {F : Type 0} ⦃fb : FloatBits F⦄ ⦃exact : IsFloatBits F⦄ (sc : Schema) (s : Snapshot F)
    (h : IsSaved sc s) where
  -- The snapshot that is read back.
  pub reloaded : Snapshot F
  reloaded = record s { dicts = reread_all sc.dims s.dicts }

  reloaded-SameSnapshot : SameSnapshot s reloaded
  unfolding reloaded
  reloaded-SameSnapshot = record {
    dicts = reread_all-EachSameValues sc.dims s.dicts h.dicts;
    rows = refl;
    keys = refl;
    shifts = refl;
    max_updated = refl;
    min_updated = refl;
    min_expire = refl;
  }

  right_top : eqb_ℤ (greatest (pos 0) (map (λ r. r.updated) s.rows)) s.max_updated ≡ true
  right_top = (eqb_ℤ_iff _ _).1 (greatest-track_rows no_rows s.rows ∙ h.greatest)

  no_refusal : (b : Bool) → not (b && not true) ≡ true
  no_refusal true = refl
  no_refusal false = refl

  finish_snapshot-saved :
      finish_snapshot sc s.max_updated (length s.rows) (saved_table sc s) [] ≡ ok reloaded
  unfolding finish_snapshot ensure or_format reloaded saved_table
  finish_snapshot-saved =
      let dicts = reread_all sc.dims s.dicts in
      let cards : map len dicts ≡ map len s.dicts =
        map-len-same s.dicts dicts (reread_all-EachSameValues sc.dims s.dicts h.dicts) in
      let sorted : ascends (map (λ r. pack_key s.shifts (take sc.index_dims r.ids)) s.rows) ≡ true =
        ap ascends (sym h.base.keyed) ∙ ascends-ascending s.keys h.base.ascending in
      rw
        (
          right_top,
          cards,
          h.base.shifted,
          table_rows_read sc s h,
          sorted,
          ← h.base.keyed,
          h.least,
          h.first_out,
          no_refusal (ltb 0 (length s.rows)),
        )
        refl

module _ {F : Type 0} ⦃hs : Hashes⦄ ⦃words : IsHashes⦄ ⦃fb : FloatBits F⦄ ⦃exact : IsFloatBits F⦄
    (sc : Schema) (cutoff : ℤ) (s : Snapshot F) (h : IsSaved sc s) where
  rd_body-body_bytes :
      (ltb_ℤ (pos 0) cutoff && ltb_ℤ s.max_updated cutoff) ≡ false
      → rd_body sc cutoff (body_bytes sc s) ≡ ok (reloaded sc s h)
  unfolding rd_body body_bytes
  rd_body-body_bytes fresh =
      let table = table_bytes sc s in
      let room : length s.rows ≤ length (header_bytes sc s ++ table) =
        omega (arith, length-append (header_bytes sc s) table, table_bytes-room sc s) in
      rw
        (
          rd_header-header_bytes sc s cutoff table h.top h.few fresh room,
          ← append_nil table,
          rd_table-table_bytes sc s h [],
        )
        (finish_snapshot-saved sc s h)

  -- The body and its checksum are cut apart.
  read_file-append :
      (body tail : List ℕ)
      → length tail ≡ 4
      → 36 ≤ length body
      → le_value tail ≡ hs.crc body
      → read_file {F = F} sc cutoff (body ++ tail) ≡ rd_body sc cutoff body
  unfolding read_file ensure
  read_file-append body tail four large sum =
      let total = length-append body tail in
      let long : leb 40 (length (body ++ tail)) ≡ true = ground arith in
      let size : length (body ++ tail) - 4 ≡ length body = omega arith in
      let front : take (length body) (body ++ tail) ≡ body =
        take-append (length body) body tail refl in
      let back : drop (length body) (body ++ tail) ≡ tail =
        ap (λ n. drop n (body ++ tail)) (omega arith)
        ∙ drop-append (length body) 0 body tail refl in
      rw (long, size, front, back, sum, (==_iff (hs.crc body) (hs.crc body)).1 refl) refl

  body-long : 36 ≤ length (body_bytes sc s)
  unfolding body_bytes
  body-long =
      omega (arith, length-append (header_bytes sc s) (table_bytes sc s), length-header_bytes sc s)

  -- A snapshot whose sizes fit the format, and which is not older than the TTL cutoff, is read back
  -- from the file that is written for it: the same rows in the same order, the same keys, shifts and
  -- extremes, and dictionaries that give each id the same value.
  pub read_file-file_bytes :
      (ltb_ℤ (pos 0) cutoff && ltb_ℤ s.max_updated cutoff) ≡ false
      → (s' : Snapshot F) × (read_file sc cutoff (file_bytes sc s) ≡ ok s') × SameSnapshot s s'
  unfolding file_bytes
  read_file-file_bytes fresh =
      let body = body_bytes sc s in
      let tail = le_word 4 (hs.crc body) in
      let sum : le_value tail ≡ hs.crc body =
        le_value-le_word 4 (hs.crc body) (omega (arith, words.crc-lt body)) in
      (
        reloaded sc s h,
        read_file-append body tail (length-le_word 4 (hs.crc body)) body-long sum
            ∙ rd_body-body_bytes fresh,
        reloaded-SameSnapshot sc s h,
      )
