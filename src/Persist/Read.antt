-- ===== src/Persist/Read.antt =====
-- persist.go: `readSnapshotFile` on the contents of the file.
pub mod Loaded
pub mod Decoded
pub mod Words
pub mod Values
pub mod Columns
pub mod Rows
pub mod Header
pub mod RoundTrip
use facetta.Prelude.{
  ℕ, zero, suc, ◌+◌, ◌-◌, ◌*◌, ◌^◌, Bool, true, false, ◌&&◌, not, Option, none, some, List, [], ◌∷◌,
  ◌++◌, map, length, take, drop, get_or, replicate, ltb, leb, ◌==◌, if◌then◌else◌,
}
use facetta.Prelude.Int.{ℤ, pos, negsuc, ltb_ℤ, eqb_ℤ}
use facetta.Prelude.Maps.{Str, eqb_str}
use facetta.Schema.{Schema, Dim, dim_int}
use facetta.Result.{Result, ok, err, snapshot_format, snapshot_stale, ◌>>=◌, ◌>>◌}
use facetta.Strconv.{parse_int}
use facetta.Dict.{Dict, new_dict, get_or_add, get_or_add_n, len}
use facetta.Keys.{compute_shifts, pack_key}
use facetta.Snapshot.{Row, Snapshot, Track, no_rows, track_rows}
use facetta.Codec.{Hashes, FloatBits}
use facetta.Persist.{upto, snap_magic, snap_version, fingerprint}

-- What a reader of the body returns: the value, and the bytes behind the cursor.
abbrev pub Reader {ℓ} : Type ℓ → Type ℓ
Reader A = List ℕ → Result (A × List ℕ)

-- `rd`
pub rd : ℕ → Reader (List ℕ)
rd n body = if ltb (length body) n then err snapshot_format else ok (take n body, drop n body)

-- `le.Uint32` and `le.Uint64`
pub le_value : List ℕ → ℕ
le_value [] = 0
le_value (b ∷ bs) = b + 256 * le_value bs

-- `rdU32` and `rdU64`, for 4 and 8 bytes
pub rd_word : ℕ → Reader ℕ
unfolding rd le_value
rd_word n body = do (b, rest) ← rd n body; ok (le_value b, rest)

-- `int64(v)` of a uint64
pub int64 : ℕ → ℤ
int64 w = if ltb w (2 ^ 63) then pos w else negsuc (2 ^ 64 - 1 - w)

pub ensure : Bool → Result (Unit {0})
ensure true = ok tt
ensure false = err snapshot_format

-- A loop that reads one value per round.
pub rd_seq {ℓ} : {A : Type ℓ} → List (Reader A) → Reader (List A)
rd_seq [] body = ok ([], body)
rd_seq (r ∷ rs) body = do (a, rest) ← r body; (as', rest') ← rd_seq rs rest; ok (a ∷ as', rest')

stored_val : Dict → Option ℤ → Result Dict
stored_val d none = err snapshot_format
stored_val d (some v) = ok (get_or_add_n d v).0

-- Any error of `computeShifts` makes the file invalid.
pub or_format {ℓ} : {A : Type ℓ} → Result A → Result A
or_format (ok a) = ok a
or_format (err e) = err snapshot_format

-- One stored string enters the dictionary.
pub stored : Bool → Dict → Str → Result Dict
unfolding stored_val
stored true d s = stored_val d (parse_int s)
stored false d s = ok (get_or_add d s).0

pub rd_strings : Bool → ℕ → Dict → Reader Dict
unfolding rd_word rd stored
rd_strings numeric zero d body = ok (d, body)
rd_strings numeric (suc n) d body = do
  (size, rest) ← rd_word 4 body
  (s, rest') ← rd size rest
  d' ← stored numeric d s
  rd_strings numeric n d' rest'

pub rd_dict : Dim → Reader Dict
unfolding rd_strings rd_word ensure
rd_dict dim body = do
  (count, rest) ← rd_word 4 body
  (d, rest') ← rd_strings (dim.dim_type == dim_int) count (new_dict (dim.dim_type == dim_int)) rest
  ensure (len d == count)
  ok (d, rest')

-- One id of a dimension, below the size of its dictionary.
pub rd_id : ℕ → Reader ℕ
unfolding rd_word ensure
rd_id card body = do (id, rest) ← rd_word 4 body; ensure (ltb id card); ok (id, rest)

pub rd_ids : ℕ → ℕ → Reader (List ℕ)
unfolding rd_seq rd_id
rd_ids n card = rd_seq (replicate n (rd_id card))

pub rd_words : ℕ → Reader (List ℕ)
unfolding rd_seq rd_word
rd_words n = rd_seq (replicate n (rd_word 8))

-- `snap.keys[r-1] > snap.keys[r]` for no row
pub ascends : List ℕ → Bool
ascends [] = true
ascends (a ∷ []) = true
ascends (a ∷ b ∷ ks) = not (ltb b a) && ascends (b ∷ ks)

-- `if snap.updated[r] > gotMax`
pub greatest : ℤ → List ℤ → ℤ
greatest top [] = top
greatest top (u ∷ us) = greatest (if ltb_ℤ top u then u else top) us

-- The columns of a file.
pub record Table : Type 0 where
  pub dicts : List Dict
  pub ids : List (List ℕ)
  pub mets : List (List ℕ)
  pub updated : List ℤ
  pub expire : List ℤ

pub rd_table : Schema → ℕ → Reader Table
unfolding rd_dict rd_ids rd_words int64
rd_table sc n body = do
  (dicts, rest) ← rd_seq (map rd_dict sc.dims) body
  (ids, rest₁) ← rd_seq (map (rd_ids n) (map len dicts)) rest
  (mets, rest₂) ← rd_seq (map (λ m. rd_words n) sc.metrics) rest₁
  (updated, rest₃) ← rd_words n rest₂
  (expire, rest₄) ← rd_words n rest₃
  ok (
    record {
      dicts = dicts;
      ids = ids;
      mets = mets;
      updated = map int64 updated;
      expire = map int64 expire;
    },
    rest₄,
  )

-- `ttlCutoff > 0 && maxUpdated < ttlCutoff`
pub not_stale : ℤ → ℤ → Result (Unit {0})
not_stale cutoff top =
    if ltb_ℤ (pos 0) cutoff && ltb_ℤ top cutoff then err snapshot_stale else ok tt

-- `maxUpdated` and the number of rows
pub rd_header : ⦃hs : Hashes⦄ → Schema → ℤ → Reader (ℤ × ℕ)
unfolding rd rd_word ensure not_stale int64
rd_header sc cutoff body = do
  (magic, rest) ← rd 8 body
  ensure (eqb_str magic snap_magic)
  (version, rest₁) ← rd_word 4 rest
  ensure (version == snap_version)
  (print, rest₂) ← rd_word 8 rest₁
  ensure (print == fingerprint sc)
  (top, rest₃) ← rd_word 8 rest₂
  not_stale cutoff (int64 top)
  (n, rest₄) ← rd_word 8 rest₃
  ensure (leb n (length body))
  ok ((int64 top, n), rest₄)

module _ {F : Type 0} ⦃fb : FloatBits F⦄ where
  -- Row `r` of the columns, which have as many entries as there are rows.
  pub table_row : Table → ℕ → Row F
  table_row t r = record {
    ids = map (λ col. get_or col r 0) t.ids;
    mets = map (λ col. fb.of_bits (get_or col r 0)) t.mets;
    updated = get_or t.updated r (pos 0);
    expire = get_or t.expire r (pos 0);
  }

  pub table_rows : Table → ℕ → List (Row F)
  unfolding upto table_row
  table_rows t n = map (table_row t) (upto 0 n)

  -- The checks and computations behind the columns.
  pub finish_snapshot : Schema → ℤ → ℕ → Table → List ℕ → Result (Snapshot F)
  unfolding ensure greatest ascends table_rows or_format
  finish_snapshot sc top n t rest = do
    ensure ((length rest == 0) && not (ltb 0 n && not (eqb_ℤ (greatest (pos 0) t.updated) top)))
    shifts ← or_format (compute_shifts (map len t.dicts) sc.index_dims)
    let rows : List (Row F) = table_rows t n
    let keys = map (λ r. pack_key shifts (take sc.index_dims r.ids)) rows
    let minima = track_rows no_rows rows
    ensure (ascends keys)
    ok (record {
      dicts = t.dicts;
      rows = rows;
      keys = keys;
      shifts = shifts;
      max_updated = top;
      min_updated = minima.min_updated;
      min_expire = minima.min_expire;
    })

module _ {F : Type 0} ⦃hs : Hashes⦄ ⦃fb : FloatBits F⦄ where
  pub rd_body : Schema → ℤ → List ℕ → Result (Snapshot F)
  unfolding rd_header rd_table finish_snapshot
  rd_body sc cutoff body = do
    ((top, n), rest) ← rd_header sc cutoff body
    (t, rest') ← rd_table sc n rest
    finish_snapshot sc top n t rest'

  -- `data[:len(data)-4]` and `data[len(data)-4:]`
  pub read_file : Schema → ℤ → List ℕ → Result (Snapshot F)
  unfolding rd_body le_value ensure
  read_file sc cutoff contents = do
    ensure (leb 40 (length contents))
    let size = length contents - 4
    let body = take size contents
    ensure (hs.crc body == le_value (drop size contents))
    rd_body sc cutoff body
