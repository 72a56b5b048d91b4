-- ===== src/Persist/Read/Columns.antt =====
-- persist.go: the columns are read back as they were written, and give back the rows.
use facetta.Prelude.{
  ℕ, zero, suc, ◌+◌, ◌^◌, ◌≤◌, ◌<◌, ◌≡◌, refl, ap, true, some, List, [], ◌∷◌, length, map,
  get_elem?, replicate, ltb, ◌==◌, arith,
}
use facetta.Schema.{Dim, dim_int}
use facetta.Dict.{Dict, len}
use facetta.Persist.{le_word, concat_map, upto, dict_bytes}
use facetta.Persist.Read.{Reader, rd_word, rd_id, rd_ids, rd_words, rd_dict, ensure}
use facetta.Persist.Read.Words.{Reads, ReadsEach, rd_word-le_word, rd_seq-ReadsEach}
use facetta.Persist.Read.Values.{
  len-small, IsStorable, reread, SameValues, reread-SameValues, rd_dict-dict_bytes,
}

pub get_elem?-map_inv {ℓ κ} :
    {A : Type ℓ} {B : Type κ} (f : A → B) (l : List A) (i : ℕ) (b : B)
    → get_elem? (map f l) i ≡ some b
    → (a : A) × (get_elem? l i ≡ some a) × (f a ≡ b)
get_elem?-map_inv f [] i b h = cc
get_elem?-map_inv f (x ∷ l) zero b h = (x, refl, cc)
get_elem?-map_inv f (x ∷ l) (suc i) b h = get_elem?-map_inv f l i b h

rd_seq-replicate :
    (r : Reader ℕ) (write : ℕ → List ℕ) (xs : List ℕ)
    → ((i x : ℕ) → get_elem? xs i ≡ some x → Reads r (write x) x)
    → ReadsEach write (replicate (length xs) r) xs xs
rd_seq-replicate r write [] h = tt
rd_seq-replicate r write (x ∷ xs) h =
    (h 0 x refl, rd_seq-replicate r write xs (λ i y at. h (suc i) y at))

rd_id-le_word : (card id : ℕ) → id < card → card ≤ 2 ^ 32 → Reads (rd_id card) (le_word 4 id) id
unfolding rd_id ensure
rd_id-le_word card id lt le rest =
    let test : ltb id card ≡ true = ground arith in
    rw (rd_word-le_word 4 id (omega arith) rest, test) refl

-- A column of ids below the size of their dictionary.
pub rd_ids-column :
    (card : ℕ) (xs : List ℕ)
    → card ≤ 2 ^ 32
    → ((i x : ℕ) → get_elem? xs i ≡ some x → x < card)
    → Reads (rd_ids (length xs) card) (concat_map (le_word 4) xs) xs
unfolding rd_ids
rd_ids-column card xs le h =
    rd_seq-ReadsEach (le_word 4) (replicate (length xs) (rd_id card)) xs xs
      (rd_seq-replicate (rd_id card) (le_word 4) xs (λ i x at. rd_id-le_word card x (h i x at) le))

pub rd_words-column :
    (xs : List ℕ)
    → ((i x : ℕ) → get_elem? xs i ≡ some x → x < 2 ^ 64)
    → Reads (rd_words (length xs)) (concat_map (le_word 8) xs) xs
unfolding rd_words
rd_words-column xs h = rd_seq-ReadsEach (le_word 8) (replicate (length xs) (rd_word 8)) xs xs (
    rd_seq-replicate (rd_word 8) (le_word 8) xs
      (λ i x at. let lt : x < 2 ^ 64 = h i x at in rd_word-le_word 8 x (omega arith)))

-- Column by column.
pub ReadsEach-columns :
    {C : Type 0} (read : C → Reader (List ℕ)) (write : List ℕ → List ℕ) (col : ℕ → List ℕ)
    (cs : List C) (k : ℕ)
    → ((i : ℕ) (c : C)
        → get_elem? cs i ≡ some c
        → Reads (read c) (write (col (k + i))) (col (k + i)))
    → ReadsEach
        (λ d. write (col d))
        (map read cs)
        (upto k (length cs))
        (map col (upto k (length cs)))
unfolding upto
ReadsEach-columns read write col [] k h = tt
ReadsEach-columns read write col (c ∷ cs) k h =
    let first : k + 0 ≡ k = omega arith in
    (
      rw first at (h 0 c refl),
      ReadsEach-columns read write col cs (suc k) (λ i c' at.
          let index : suc k + i ≡ k + suc i = omega arith in rw index (h (suc i) c' at)),
    )

-- The dictionaries of a snapshot, of the kinds that the schema says.
abbrev pub AreStorable : List Dim → List Dict → Type 0
AreStorable [] [] = Unit
AreStorable (dim ∷ dims) (d ∷ ds) =
    (d.numeric ≡ (dim.dim_type == dim_int)) × IsStorable d × AreStorable dims ds
AreStorable dims ds = ⊥

pub reread_all : List Dim → List Dict → List Dict
reread_all (dim ∷ dims) (d ∷ ds) = reread (dim.dim_type == dim_int) d ∷ reread_all dims ds
reread_all dims ds = []

pub ReadsEach-dicts :
    (dims : List Dim) (ds : List Dict)
    → AreStorable dims ds
    → ReadsEach dict_bytes (map rd_dict dims) ds (reread_all dims ds)
unfolding reread_all
ReadsEach-dicts [] [] h = tt
ReadsEach-dicts [] (d ∷ ds) h = absurd h
ReadsEach-dicts (dim ∷ dims) [] h = absurd h
ReadsEach-dicts (dim ∷ dims) (d ∷ ds) h =
    (rd_dict-dict_bytes dim d h.1 h.0, ReadsEach-dicts dims ds h.2)

pub length-AreStorable :
    (dims : List Dim) (ds : List Dict) → AreStorable dims ds → length ds ≡ length dims
length-AreStorable [] [] h = refl
length-AreStorable [] (d ∷ ds) h = absurd h
length-AreStorable (dim ∷ dims) [] h = absurd h
length-AreStorable (dim ∷ dims) (d ∷ ds) h = ap suc (length-AreStorable dims ds h.2)

pub AreStorable-card :
    (dims : List Dim) (ds : List Dict) (i card : ℕ)
    → AreStorable dims ds
    → get_elem? (map len ds) i ≡ some card
    → card ≤ 2 ^ 32
AreStorable-card dims [] i card h at = cc
AreStorable-card [] (d ∷ ds) i card h at = absurd h
AreStorable-card (dim ∷ dims) (d ∷ ds) zero card h at =
    let same : len d ≡ card = cc in omega (arith, len-small d h.1)
AreStorable-card (dim ∷ dims) (d ∷ ds) (suc i) card h at = AreStorable-card dims ds i card h.2 at

-- Pairwise the same values under the same ids.
abbrev pub EachSameValues : List Dict → List Dict → Type 0
EachSameValues [] [] = Unit
EachSameValues (d ∷ ds) (d' ∷ ds') = SameValues d d' × EachSameValues ds ds'
EachSameValues ds ds' = ⊥

pub reread_all-EachSameValues :
    (dims : List Dim) (ds : List Dict)
    → AreStorable dims ds
    → EachSameValues ds (reread_all dims ds)
unfolding reread_all
reread_all-EachSameValues [] [] h = tt
reread_all-EachSameValues [] (d ∷ ds) h = absurd h
reread_all-EachSameValues (dim ∷ dims) [] h = absurd h
reread_all-EachSameValues (dim ∷ dims) (d ∷ ds) h =
    (reread-SameValues (dim.dim_type == dim_int) d h.1 h.0, reread_all-EachSameValues dims ds h.2)

pub map-len-same : (ds ds' : List Dict) → EachSameValues ds ds' → map len ds' ≡ map len ds
map-len-same [] [] h = refl
map-len-same [] (d ∷ ds) h = absurd h
map-len-same (d ∷ ds) [] h = absurd h
map-len-same (d ∷ ds) (d' ∷ ds') h = rw (h.0.size, map-len-same ds ds' h.1) refl
