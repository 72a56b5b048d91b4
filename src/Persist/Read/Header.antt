-- ===== src/Persist/Read/Header.antt =====
-- persist.go: the header is read back, and how long a file is.
use facetta.Prelude.{
  ℕ, ◌*◌, ◌^◌, ◌≤◌, ◌<◌, ◌≡◌, refl, true, false, ◌&&◌, List, [], ◌∷◌, ◌++◌, length, leb, ==_iff,
  arith, length-append,
}
use facetta.Prelude.Int.{ℤ, pos, ltb_ℤ}
use facetta.Result.{ok}
use facetta.Schema.{Schema}
use facetta.Strconv.RoundTrip.{IsInt64}
use facetta.Snapshot.{Snapshot}
use facetta.Codec.{Hashes, FloatBits, IsHashes}
use facetta.Persist.{
  le_word, uint64, concat_map, snap_magic, snap_version, shape_bytes, fingerprint, header_bytes,
  table_bytes, upto, dict_bytes, id_column, met_column,
}
use facetta.Persist.Read.{ensure, not_stale, rd_header}
use facetta.Persist.Read.Words.{rd-append, rd_word-le_word, length-le_word, int64-uint64, uint64-lt}
use facetta.Persist.Read.Rows.{append_five}

module _ {F : Type 0} ⦃hs : Hashes⦄ ⦃words : IsHashes⦄ (sc : Schema) (s : Snapshot F) where
  fingerprint-lt : fingerprint sc < 2 ^ 64
  unfolding fingerprint
  fingerprint-lt = words.fnv-lt (shape_bytes sc)

  header_bytes-append :
      (rest : List ℕ)
      → header_bytes sc s ++ rest
        ≡ snap_magic
          ++ (le_word 4 snap_version
              ++ (le_word 8 (fingerprint sc)
                  ++ (le_word 8 (uint64 s.max_updated) ++ (le_word 8 (length s.rows) ++ rest))))
  unfolding header_bytes
  header_bytes-append rest =
      append_five snap_magic (le_word 4 snap_version) (le_word 8 (fingerprint sc))
        (le_word 8 (uint64 s.max_updated)) (le_word 8 (length s.rows)) rest

  pub length-header_bytes : length (header_bytes sc s) ≡ 36
  unfolding header_bytes
  length-header_bytes = refl

  pub rd_header-header_bytes :
      (cutoff : ℤ) (rest : List ℕ)
      → IsInt64 s.max_updated
      → length s.rows < 2 ^ 64
      → (ltb_ℤ (pos 0) cutoff && ltb_ℤ s.max_updated cutoff) ≡ false
      → length s.rows ≤ length (header_bytes sc s ++ rest)
      → rd_header sc cutoff (header_bytes sc s ++ rest) ≡ ok ((s.max_updated, length s.rows), rest)
  unfolding rd_header ensure not_stale
  rd_header-header_bytes cutoff rest top few fresh room =
      let test : leb (length s.rows) (length (header_bytes sc s ++ rest)) ≡ true = ground arith in
      let last = le_word 8 (length s.rows) ++ rest in
      let tops = le_word 8 (uint64 s.max_updated) ++ last in
      let prints = le_word 8 (fingerprint sc) ++ tops in
      rw
        (
          header_bytes-append rest,
          rd-append 8 snap_magic refl (le_word 4 snap_version ++ prints),
          rd_word-le_word 4 snap_version (omega arith) prints,
          rd_word-le_word 8 (fingerprint sc) (omega (arith, fingerprint-lt)) tops,
          (==_iff (fingerprint sc) (fingerprint sc)).1 refl,
          rd_word-le_word 8 (uint64 s.max_updated) (omega (arith, uint64-lt s.max_updated)) last,
          int64-uint64 s.max_updated top,
          fresh,
          rd_word-le_word 8 (length s.rows) (omega arith) rest,
          rw (header_bytes-append rest) at test,
        )
        refl

length-words :
    {A : Type 0} (f : A → ℕ) (l : List A)
    → length (concat_map (λ a. le_word 8 (f a)) l) ≡ 8 * length l
unfolding concat_map
length-words f [] = omega arith
length-words f (a ∷ l) = omega (
  arith,
  length-append (le_word 8 (f a)) (concat_map (λ x. le_word 8 (f x)) l),
  length-le_word 8 (f a),
  length-words f l,
)

-- The file is longer than the number of its rows.
pub table_bytes-room :
    {F : Type 0} ⦃fb : FloatBits F⦄ (sc : Schema) (s : Snapshot F)
    → length s.rows ≤ length (table_bytes sc s)
unfolding table_bytes
table_bytes-room sc s =
    let dicts = concat_map dict_bytes s.dicts in
    let ids =
      concat_map (λ d. concat_map (le_word 4) (id_column s.rows d)) (upto 0 (length sc.dims)) in
    let mets =
      concat_map (λ m. concat_map (le_word 8) (met_column s.rows m)) (upto 0 (length sc.metrics)) in
    let updated = concat_map (λ r. le_word 8 (uint64 r.updated)) s.rows in
    omega (
      arith,
      length-append (((dicts ++ ids) ++ mets) ++ updated)
          (concat_map (λ r. le_word 8 (uint64 r.expire)) s.rows),
      length-words (λ r. uint64 r.expire) s.rows,
    )
