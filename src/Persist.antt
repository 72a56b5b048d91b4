-- ===== src/Persist.antt =====
-- persist.go: the byte format of a snapshot file, `writeSnapshotFile` up to the file system.
pub mod Read
use facetta.Prelude.{
  ℕ, zero, suc, ◌+◌, ◌-◌, ◌/◌, ◌%◌, ◌^◌, ◌*◌, Bool, true, false, List, [], ◌∷◌, ◌++◌, map, length,
  get_or, ltb, if◌then◌else◌,
}
use facetta.Prelude.Int.{ℤ, pos, negsuc}
use facetta.Prelude.Maps.{Str, bytes}
use facetta.Schema.{Schema, Dim}
use facetta.Dict.{Dict, len, str}
use facetta.Snapshot.{Row, Snapshot}
use facetta.Codec.{Hashes, FloatBits}

-- `le.PutUint32` and `le.PutUint64`, for 4 and 8 bytes: the low bytes of `v`
pub le_word : ℕ → ℕ → List ℕ
le_word zero v = []
le_word (suc n) v = (v % 256) ∷ le_word n (v / 256)

-- `uint64(v)` of an int64
pub uint64 : ℤ → ℕ
uint64 (pos n) = n % 2 ^ 64
uint64 (negsuc n) = 2 ^ 64 - 1 - n % 2 ^ 64

pub concat_map {ℓ κ} : {A : Type ℓ} {B : Type κ} → (A → List B) → List A → List B
concat_map f [] = []
concat_map f (a ∷ l) = f a ++ concat_map f l

-- `n` numbers from `i` on
pub upto : ℕ → ℕ → List ℕ
upto i zero = []
upto i (suc n) = i ∷ upto (suc i) n

abbrev pub snap_magic : Str
snap_magic = bytes "FCSNAP01"

abbrev pub snap_version : ℕ
snap_version = 2

pub string_bytes : Str → List ℕ
unfolding le_word
string_bytes s = le_word 4 (length s) ++ s

pub dict_bytes : Dict → List ℕ
unfolding string_bytes concat_map upto
dict_bytes d = le_word 4 (len d) ++ concat_map (λ id. string_bytes (str d id)) (upto 0 (len d))

-- `snap.dims[d]`, and all of them
pub id_column : {F : Type 0} → List (Row F) → ℕ → List ℕ
id_column rows d = map (λ r. get_or r.ids d 0) rows

-- What `Schema.fingerprint` feeds to its hash.
pub shape_bytes : Schema → List ℕ
unfolding le_word concat_map
shape_bytes sc =
    le_word 8 sc.index_dims
    ++ concat_map (λ d. d.name ++ 0 ∷ []) sc.dims
    ++ 1 ∷ concat_map (λ m. m ++ 0 ∷ []) sc.metrics

pub fingerprint : ⦃hs : Hashes⦄ → Schema → ℕ
unfolding shape_bytes
fingerprint ⦃hs⦄ sc = hs.fnv (shape_bytes sc)

module _ {F : Type 0} ⦃fb : FloatBits F⦄ where
  -- `snap.mets[m]` in bits; the default is out of reach
  pub met_column : List (Row F) → ℕ → List ℕ
  met_column rows m = map (λ r. fb.to_bits (get_or r.mets m (fb.of_bits 0))) rows

  pub table_bytes : Schema → Snapshot F → List ℕ
  unfolding dict_bytes id_column met_column uint64
  table_bytes sc s =
      concat_map dict_bytes s.dicts
      ++ concat_map (λ d. concat_map (le_word 4) (id_column s.rows d)) (upto 0 (length sc.dims))
      ++ concat_map (λ m. concat_map (le_word 8) (met_column s.rows m)) (upto 0 (length sc.metrics))
      ++ concat_map (λ r. le_word 8 (uint64 r.updated)) s.rows
      ++ concat_map (λ r. le_word 8 (uint64 r.expire)) s.rows

module _ {F : Type 0} ⦃hs : Hashes⦄ where
  pub header_bytes : Schema → Snapshot F → List ℕ
  unfolding fingerprint uint64
  header_bytes sc s =
      snap_magic
      ++ le_word 4 snap_version
      ++ le_word 8 (fingerprint sc)
      ++ le_word 8 (uint64 s.max_updated)
      ++ le_word 8 (length s.rows)

module _ {F : Type 0} ⦃hs : Hashes⦄ ⦃fb : FloatBits F⦄ where
  pub body_bytes : Schema → Snapshot F → List ℕ
  unfolding header_bytes table_bytes
  body_bytes sc s = header_bytes sc s ++ table_bytes sc s

  -- The contents of the file: the body and its checksum.
  pub file_bytes : Schema → Snapshot F → List ℕ
  unfolding body_bytes
  file_bytes sc s = body_bytes sc s ++ le_word 4 (hs.crc (body_bytes sc s))
