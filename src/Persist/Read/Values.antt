-- ===== src/Persist/Read/Values.antt =====
-- persist.go: a dictionary is read back with the values and ids that it was written with.
use facetta.Prelude.{
  ℕ, zero, suc, ◌+◌, ◌^◌, ◌<◌, ◌≡◌, refl, sym, ap, ◌∙◌, Bool, true, false, Option, none, some, List,
  [], ◌∷◌, ◌++◌, length, map, get_or, get_elem?, ◌==◌, arith, if◌then◌else◌, length-append,
}
use facetta.Prelude.Int.{ℤ, pos}
use facetta.Prelude.Maps.{Str, Eq, find, put, str_eq, int_eq}
use facetta.Result.{ok}
use facetta.Schema.{Dim, dim_int}
use facetta.Strconv.{format_int}
use facetta.Strconv.RoundTrip.{IsInt64, parse_int-format_int, length-format_int}
use facetta.Dict.{Dict, new_dict, get_or_add, get_or_add_n, len, str, u32}
use facetta.Dict.Intern.{
  IsInterned, IsInterned-empty, IsInterned-add, get_elem?-append_left, get_elem?-lt-length,
}
use facetta.Dict.Laws.{IsDict, get_or_add_new, get_or_add_n_new}
use facetta.Persist.{le_word, concat_map, upto, string_bytes, dict_bytes}
use facetta.Persist.Read.{rd_strings, rd_dict, stored, stored_val, ensure}
use facetta.Persist.Read.Words.{Reads, append_assoc, append_nil, rd-append, rd_word-le_word}

-- Writing the entries `k`, `k + 1`, ... of a slice by index is writing the slice.
pub map-upto {ℓ κ} :
    {A : Type ℓ} {B : Type κ} (f : A → B) (g : ℕ → B) (k : ℕ) (l : List A)
    → ((i : ℕ) (a : A) → get_elem? l i ≡ some a → g (k + i) ≡ f a)
    → map g (upto k (length l)) ≡ map f l
unfolding upto
map-upto f g k [] h = refl
map-upto f g k (a ∷ l) h =
    let first : g k ≡ f a = ap g (omega arith) ∙ h 0 a refl in
    let rest = map-upto f g (suc k) l (λ i b at. ap g (omega arith) ∙ h (suc i) b at) in
    rw (first, rest) refl

pub map-id {ℓ} : {A : Type ℓ} (l : List A) → map (λ a. a) l ≡ l
map-id [] = refl
map-id (a ∷ l) = ap (◌∷◌ a) (map-id l)

pub concat_map-map {ℓ κ} :
    {A : Type ℓ} {B : Type κ} (f : B → List ℕ) (g : A → B) (l : List A)
    → concat_map (λ a. f (g a)) l ≡ concat_map f (map g l)
unfolding concat_map
concat_map-map f g [] = refl
concat_map-map f g (a ∷ l) = ap (λ t. f (g a) ++ t) (concat_map-map f g l)

get_elem?-append_mid {ℓ} :
    {A : Type ℓ} (l : List A) (a : A) (r : List A) → get_elem? (l ++ a ∷ r) (length l) ≡ some a
get_elem?-append_mid [] a r = refl
get_elem?-append_mid (x ∷ l) a r = get_elem?-append_mid l a r

-- No value stands at two places.
pub Distinct {ℓ} : {A : Type ℓ} → List A → Type ℓ
Distinct {A = A} l = (i j : ℕ) (a : A) → get_elem? l i ≡ some a → get_elem? l j ≡ some a → i ≡ j

module _ {ℓ} {K : Type ℓ} ⦃e : Eq K⦄ (ids : List (K × ℕ)) where
  pub IsInterned-Distinct : (l : List K) → IsInterned ids l → Distinct l
  unfolding Distinct
  IsInterned-Distinct l inv i j a h h' =
      let both : some i ≡ some j = sym (inv.complete a i h) ∙ inv.complete a j h' in cc both

  -- In a slice without repetitions, the next value is new to the map of the values before.
  find_fresh :
      (done : List K) (k : K) (rest : List K)
      → IsInterned ids done
      → Distinct (done ++ k ∷ rest)
      → find k ids ≡ none
  unfolding Distinct
  find_fresh done k rest inv distinct = by_found (find k ids) refl
    where
      by_found : (o : Option ℕ) → find k ids ≡ o → find k ids ≡ none
      by_found none h = h
      by_found (some i) h =
          let old = get_elem?-append_left done (k ∷ rest) i k (inv.sound k i h) in
          let same : i ≡ length done =
            distinct i (length done) k old (get_elem?-append_mid done k rest) in
          absurd (omega (arith, get_elem?-lt-length done i k (inv.sound k i h)))

add_strs : Dict → List Str → Dict
add_strs d [] = d
add_strs d (s ∷ ss) = add_strs (get_or_add d s).0 ss

add_vals : Dict → List ℤ → Dict
add_vals d [] = d
add_vals d (v ∷ vs) = add_vals (get_or_add_n d v).0 vs

-- Fresh values are appended in order.
record Extended (d d' : Dict) (ss : List Str) (vs : List ℤ) : Type 0 where
  numeric : d'.numeric ≡ d.numeric
  strs : d'.strs ≡ ss
  vals : d'.vals ≡ vs

add_strs-Extended :
    (ss : List Str) (d : Dict)
    → IsInterned d.ids d.strs
    → Distinct (d.strs ++ ss)
    → length (d.strs ++ ss) < 2 ^ 32
    → Extended d (add_strs d ss) (d.strs ++ ss) d.vals
unfolding add_strs
add_strs-Extended [] d inv distinct small = record {
  numeric = refl;
  strs = sym (append_nil d.strs);
  vals = refl;
}
add_strs-Extended (s ∷ ss) d inv distinct small =
    let new = find_fresh d.ids d.strs s ss inv distinct in
    let len_sum = length-append d.strs (s ∷ ss) in
    let assoc = append_assoc d.strs (s ∷ []) ss in
    let rec =
      add_strs-Extended ss
        (record d { ids = put s (u32 (length d.strs)) d.ids; strs = d.strs ++ s ∷ [] })
        (IsInterned-add d.ids d.strs s inv new (omega arith)) (rw assoc distinct)
        (rw assoc small) in
    rw (get_or_add_new d s new)
      (record { numeric = rec.numeric; strs = rec.strs ∙ assoc; vals = rec.vals })

add_vals-Extended :
    (vs : List ℤ) (d : Dict)
    → IsInterned d.ids_n d.vals
    → Distinct (d.vals ++ vs)
    → length (d.vals ++ vs) < 2 ^ 32
    → Extended d (add_vals d vs) d.strs (d.vals ++ vs)
unfolding add_vals
add_vals-Extended [] d inv distinct small = record {
  numeric = refl;
  strs = refl;
  vals = sym (append_nil d.vals);
}
add_vals-Extended (v ∷ vs) d inv distinct small =
    let new = find_fresh d.ids_n d.vals v vs inv distinct in
    let len_sum = length-append d.vals (v ∷ vs) in
    let assoc = append_assoc d.vals (v ∷ []) vs in
    let rec =
      add_vals-Extended vs
        (record d { ids_n = put v (u32 (length d.vals)) d.ids_n; vals = d.vals ++ v ∷ [] })
        (IsInterned-add d.ids_n d.vals v inv new (omega arith)) (rw assoc distinct)
        (rw assoc small) in
    rw (get_or_add_n_new d v new)
      (record { numeric = rec.numeric; strs = rec.strs; vals = rec.vals ∙ assoc })

string_bytes-append :
    (s : Str) (rest : List ℕ) → string_bytes s ++ rest ≡ le_word 4 (length s) ++ (s ++ rest)
unfolding string_bytes
string_bytes-append s rest = append_assoc (le_word 4 (length s)) s rest

-- One stored string that the dictionary takes.
rd_strings-suc :
    (numeric : Bool) (n : ℕ) (d d' : Dict) (s : Str) (rest : List ℕ)
    → length s < 2 ^ 32
    → stored numeric d s ≡ ok d'
    → rd_strings numeric (suc n) d (string_bytes s ++ rest) ≡ rd_strings numeric n d' rest
unfolding rd_strings
rd_strings-suc numeric n d d' s rest small h =
    rw
      (
        string_bytes-append s rest,
        rd_word-le_word 4 (length s) (omega arith) (s ++ rest),
        rd-append (length s) s refl rest,
        h,
      )
      refl

rd_strings-strs :
    (ss : List Str) (d : Dict)
    → ((i : ℕ) (s : Str) → get_elem? ss i ≡ some s → length s < 2 ^ 32)
    → Reads (rd_strings false (length ss) d) (concat_map string_bytes ss) (add_strs d ss)
unfolding concat_map add_strs stored rd_strings
rd_strings-strs [] d h rest = refl
rd_strings-strs (s ∷ ss) d h rest =
    ap (rd_strings false (suc (length ss)) d)
      (append_assoc (string_bytes s) (concat_map string_bytes ss) rest)
    ∙ rd_strings-suc false (length ss) d (get_or_add d s).0 s (concat_map string_bytes ss ++ rest)
        (h 0 s refl) refl
    ∙ rd_strings-strs ss (get_or_add d s).0 (λ i t at. h (suc i) t at) rest

rd_strings-vals :
    (vs : List ℤ) (d : Dict)
    → ((i : ℕ) (v : ℤ) → get_elem? vs i ≡ some v → IsInt64 v)
    → Reads
        (rd_strings true (length vs) d)
        (concat_map string_bytes (map format_int vs))
        (add_vals d vs)
unfolding concat_map add_vals stored stored_val rd_strings
rd_strings-vals [] d h rest = refl
rd_strings-vals (v ∷ vs) d h rest =
    let word = h 0 v refl in
    let more = concat_map string_bytes (map format_int vs) in
    ap (rd_strings true (suc (length vs)) d) (append_assoc (string_bytes (format_int v)) more rest)
    ∙ rd_strings-suc true (length vs) d (get_or_add_n d v).0 (format_int v) (more ++ rest)
        (omega (arith, length-format_int v word)) (ap (stored_val d) (parse_int-format_int v word))
    ∙ rd_strings-vals vs (get_or_add_n d v).0 (λ i w at. h (suc i) w at) rest

-- A dictionary whose entries fit the file.
pub record IsStorable (d : Dict) : Type 0 where
  pub interned : IsDict d
  pub few_strs : length d.strs < 2 ^ 32
  pub few_vals : length d.vals < 2 ^ 32
  pub short : (i : ℕ) (s : Str) → get_elem? d.strs i ≡ some s → length s < 2 ^ 32
  pub words : (i : ℕ) (v : ℤ) → get_elem? d.vals i ≡ some v → IsInt64 v

pub reread : Bool → Dict → Dict
reread true d = add_vals (new_dict true) d.vals
reread false d = add_strs (new_dict false) d.strs

-- The same ids stand for the same values.
pub record SameValues (d d' : Dict) : Type 0 where
  pub size : len d' ≡ len d
  pub prints : (id : ℕ) → str d' id ≡ str d id

pub get_elem?-get_or {ℓ} :
    {A : Type ℓ} (l : List A) (i : ℕ) (a d : A) → get_elem? l i ≡ some a → get_or l i d ≡ a
get_elem?-get_or [] i a d h = cc
get_elem?-get_or (x ∷ l) zero a d h = cc
get_elem?-get_or (x ∷ l) (suc i) a d h = get_elem?-get_or l i a d h

len_strs : (d : Dict) → d.numeric ≡ false → len d ≡ length d.strs
unfolding len
len_strs d kind = rw kind refl

len_vals : (d : Dict) → d.numeric ≡ true → len d ≡ length d.vals
unfolding len
len_vals d kind = rw kind refl

entries_strs : (d : Dict) → d.numeric ≡ false → map (str d) (upto 0 (len d)) ≡ d.strs
unfolding str
entries_strs d kind =
    ap (λ n. map (str d) (upto 0 n)) (len_strs d kind)
    ∙ map-upto (λ s. s) (str d) 0 d.strs
        (λ i s at.
          rw kind (get_elem?-get_or d.strs (0 + i) s [] (ap (get_elem? d.strs) (omega arith) ∙ at)))
    ∙ map-id d.strs

entries_vals : (d : Dict) → d.numeric ≡ true → map (str d) (upto 0 (len d)) ≡ map format_int d.vals
unfolding str
entries_vals d kind =
    ap (λ n. map (str d) (upto 0 n)) (len_vals d kind)
    ∙ map-upto format_int (str d) 0 d.vals (λ i v at. rw kind (
        ap format_int
          (get_elem?-get_or d.vals (0 + i) v (pos 0) (ap (get_elem? d.vals) (omega arith) ∙ at))))

dict_bytes-entries :
    (d : Dict) (ss : List Str)
    → map (str d) (upto 0 (len d)) ≡ ss
    → dict_bytes d ≡ le_word 4 (len d) ++ concat_map string_bytes ss
unfolding dict_bytes
dict_bytes-entries d ss h =
    ap (λ t. le_word 4 (len d) ++ t)
      (concat_map-map string_bytes (str d) (upto 0 (len d)) ∙ ap (concat_map string_bytes) h)

reread-Extended :
    (numeric : Bool) (d : Dict)
    → IsStorable d
    → d.numeric ≡ numeric
    → Extended
        (new_dict numeric)
        (reread numeric d)
        (if numeric then [] else d.strs)
        (if numeric then d.vals else [])
unfolding reread new_dict
reread-Extended true d h kind =
    add_vals-Extended d.vals (new_dict true) IsInterned-empty
      (IsInterned-Distinct d.ids_n d.vals h.interned.numbers) h.few_vals
reread-Extended false d h kind =
    add_strs-Extended d.strs (new_dict false) IsInterned-empty
      (IsInterned-Distinct d.ids d.strs h.interned.strings) h.few_strs

pub reread-SameValues :
    (numeric : Bool) (d : Dict)
    → IsStorable d
    → d.numeric ≡ numeric
    → SameValues d (reread numeric d)
unfolding len str new_dict reread
reread-SameValues true d h kind =
    let e = reread-Extended true d h kind in
    record {
      size = rw (e.numeric, kind, e.vals) refl;
      prints = λ id. rw (e.numeric, kind, e.vals) refl;
    }
reread-SameValues false d h kind =
    let e = reread-Extended false d h kind in
    record {
      size = rw (e.numeric, kind, e.strs) refl;
      prints = λ id. rw (e.numeric, kind, e.strs) refl;
    }

rd_strings-entries :
    (numeric : Bool) (d : Dict) (ss : List Str)
    → IsStorable d
    → d.numeric ≡ numeric
    → map (str d) (upto 0 (len d)) ≡ ss
    → Reads
        (rd_strings numeric (len d) (new_dict numeric))
        (concat_map string_bytes ss)
        (reread numeric d)
unfolding reread
rd_strings-entries true d ss h kind same rest =
    rw (← same, entries_vals d kind, len_vals d kind)
      (rd_strings-vals d.vals (new_dict true) h.words rest)
rd_strings-entries false d ss h kind same rest =
    rw (← same, entries_strs d kind, len_strs d kind)
      (rd_strings-strs d.strs (new_dict false) h.short rest)

pub len-small : (d : Dict) → IsStorable d → len d < 256 ^ 4
unfolding len
len-small d h = let strs = h.few_strs in let vals = h.few_vals in ground arith

-- A dictionary is read back with the same values under the same ids.
pub rd_dict-dict_bytes :
    (dim : Dim) (d : Dict)
    → IsStorable d
    → d.numeric ≡ (dim.dim_type == dim_int)
    → Reads (rd_dict dim) (dict_bytes d) (reread (dim.dim_type == dim_int) d)
unfolding rd_dict ensure
rd_dict-dict_bytes dim d h kind rest =
    let numeric = dim.dim_type == dim_int in
    let ss = map (str d) (upto 0 (len d)) in
    let size : (len (reread numeric d) == len d) ≡ true =
      ground (arith, (reread-SameValues numeric d h kind).size) in
    rw
      (
        dict_bytes-entries d ss refl,
        append_assoc (le_word 4 (len d)) (concat_map string_bytes ss) rest,
        rd_word-le_word 4 (len d) (len-small d h) (concat_map string_bytes ss ++ rest),
        rd_strings-entries numeric d ss h kind refl rest,
        size,
      )
      refl
