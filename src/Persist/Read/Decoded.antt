-- ===== src/Persist/Read/Decoded.antt =====
-- persist.go and view.go: a view over what `readSnapshotFile` accepts, as `LoadSnapshot` publishes it.
use facetta.Prelude.{
  ℕ, zero, suc, ◌-◌, ◌^◌, ◌≤◌, ◌<◌, ◌≡◌, ap, Bool, true, false, Option, none, some, List, [], ◌∷◌,
  length, map, take, ◌==◌,
}
use mathlib.Core.Path.{subst}
use facetta.Prelude.Int.{ℤ}
use facetta.Prelude.Maps.{Str}
use facetta.Schema.{Schema, Dim, dim_int}
use facetta.Strconv.{parse_int}
use facetta.Result.{ok, >>=-eq-ok, ok_inj}
use facetta.Dict.{Dict, new_dict, len}
use facetta.Keys.{compute_shifts}
use facetta.Snapshot.{Snapshot}
use facetta.Snapshot.Build.Interned.{
  IsGrown, AreGrown, get_or_add-IsAdded, get_or_add_n-IsAdded, new_dict-IsGrown,
}
use facetta.Snapshot.Build.Decoded.{new_view-IsDecoded}
use facetta.View.{dict_at, new_view}
use facetta.Query.Scan.Meaning.{IsDecoded}
use facetta.Codec.{Hashes, FloatBits}
use facetta.Persist.Read.{
  rd, rd_word, rd_seq, rd_ids, rd_words, rd_strings, rd_dict, stored, stored_val, or_format, Table,
  rd_table, finish_snapshot, rd_header, rd_body, read_file,
}
use facetta.Persist.Read.Loaded.{ensure-eq-ok, rd_seq-cons, read_file-IsBase}

stored_val-IsGrown :
    (d d' : Dict) (v : Option ℤ) → IsGrown true d → stored_val d v ≡ ok d' → IsGrown true d'
unfolding stored_val
stored_val-IsGrown d d' none h e = cc
stored_val-IsGrown d d' (some v) h e =
    subst (IsGrown true) (ok_inj e) ((get_or_add_n-IsAdded d v h).grown)

stored-IsGrown :
    (numeric : Bool) (d d' : Dict) (s : Str)
    → IsGrown numeric d
    → stored numeric d s ≡ ok d'
    → IsGrown numeric d'
unfolding stored
stored-IsGrown true d d' s h e = stored_val-IsGrown d d' (parse_int s) h e
stored-IsGrown false d d' s h e =
    subst (IsGrown false) (ok_inj e) ((get_or_add-IsAdded d s h).grown)

rd_strings-IsGrown :
    (numeric : Bool) (n : ℕ) (d d' : Dict) (body rest : List ℕ)
    → IsGrown numeric d
    → rd_strings numeric n d body ≡ ok (d', rest)
    → IsGrown numeric d'
unfolding rd_strings
rd_strings-IsGrown numeric zero d d' body rest h e =
    subst (IsGrown numeric) (ap (λ p. p.0) (ok_inj e)) h
rd_strings-IsGrown numeric (suc n) d d' body rest h e =
    let ((size, mid), e₁, h₁) = >>=-eq-ok (rd_word 4 body) _ e in
    let ((s, end), e₂, h₂) = >>=-eq-ok (rd size mid) _ h₁ in
    let (d₁, e₃, h₃) = >>=-eq-ok (stored numeric d s) _ h₂ in
    rd_strings-IsGrown numeric n d₁ d' end rest (stored-IsGrown numeric d d₁ s h e₃) h₃

rd_dict-IsGrown :
    (dim : Dim) (d : Dict) (body rest : List ℕ)
    → rd_dict dim body ≡ ok (d, rest)
    → IsGrown (dim.dim_type == dim_int) d
unfolding rd_dict
rd_dict-IsGrown dim d body rest e =
    let numeric = dim.dim_type == dim_int in
    let ((count, mid), e₁, h₁) = >>=-eq-ok (rd_word 4 body) _ e in
    let ((d₁, end), e₂, h₂) = >>=-eq-ok (rd_strings numeric count (new_dict numeric) mid) _ h₁ in
    let (full, last) = ensure-eq-ok (len d₁ == count) _ h₂ in
    subst (IsGrown numeric) (ap (λ p. p.0) (ok_inj last))
      (rd_strings-IsGrown numeric count (new_dict numeric) d₁ mid end (new_dict-IsGrown numeric) e₂)

dicts-AreGrown :
    (dims : List Dim) (ds : List Dict) (body rest : List ℕ)
    → rd_seq (map rd_dict dims) body ≡ ok (ds, rest)
    → AreGrown dims ds
unfolding rd_seq
dicts-AreGrown [] ds body rest e = subst (AreGrown []) (ap (λ p. p.0) (ok_inj e)) tt
dicts-AreGrown (dim ∷ dims) ds body rest e =
    let (d, others, mid, one, more, same) = rd_seq-cons (rd_dict dim) (map rd_dict dims) body e in
    subst (AreGrown (dim ∷ dims)) same
      (rd_dict-IsGrown dim d body mid one, dicts-AreGrown dims others mid rest more)

rd_table-AreGrown :
    (sc : Schema) (n : ℕ) (t : Table) (body rest : List ℕ)
    → rd_table sc n body ≡ ok (t, rest)
    → AreGrown sc.dims t.dicts
unfolding rd_table
rd_table-AreGrown sc n t body rest h =
    let ((dicts, r), e, h₁) = >>=-eq-ok (rd_seq (map rd_dict sc.dims) body) _ h in
    let ((ids, r₁), e₁, h₂) = >>=-eq-ok (rd_seq (map (rd_ids n) (map len dicts)) r) _ h₁ in
    let ((mets, r₂), e₂, h₃) = >>=-eq-ok (rd_seq (map (λ m. rd_words n) sc.metrics) r₁) _ h₂ in
    let ((updated, r₃), e₃, h₄) = >>=-eq-ok (rd_words n r₂) _ h₃ in
    let ((expire, r₄), e₄, h₅) = >>=-eq-ok (rd_words n r₃) _ h₄ in
    subst (λ (q : Table). AreGrown sc.dims q.dicts) (ap (λ p. p.0) (ok_inj h₅))
      (dicts-AreGrown sc.dims dicts body r e)

module _ {F : Type 0} ⦃fb : FloatBits F⦄ (sc : Schema) where
  finish_snapshot-dicts :
      (top : ℤ) (n : ℕ) (t : Table) (rest : List ℕ) (s : Snapshot F)
      → finish_snapshot sc top n t rest ≡ ok s
      → t.dicts ≡ s.dicts
  unfolding finish_snapshot
  finish_snapshot-dicts top n t rest s h =
      let (exact, h₁) = ensure-eq-ok _ _ h in
      let (shifts, e, h₂) =
        >>=-eq-ok (or_format (compute_shifts (map len t.dicts) sc.index_dims)) _ h₁ in
      let (sorted, h₃) = ensure-eq-ok _ _ h₂ in ap (λ (q : Snapshot F). q.dicts) (ok_inj h₃)

module _ {F : Type 0} ⦃hs : Hashes⦄ ⦃fb : FloatBits F⦄ (sc : Schema) where
  -- For a schema whose index dimensions are among its dimensions: whatever bytes a file holds, the ids
  -- of a new view over a snapshot that `readSnapshotFile` accepts can be decoded, when no dimension
  -- has 2^32 values or more; and the view has an empty dictionary of extras for each dimension.
  pub read_file-IsDecoded :
      (cutoff : ℤ) (contents : List ℕ) (s : Snapshot F)
      → sc.index_dims ≤ length sc.dims
      → read_file sc cutoff contents ≡ ok s
      → ((d : ℕ) → d < length sc.dims → len (dict_at s.dicts d) < 2 ^ 32)
      → IsDecoded sc (new_view sc s) × (length (new_view sc s).extras ≡ length sc.dims)
  unfolding read_file rd_body
  read_file-IsDecoded cutoff contents s dims h few =
      let size = length contents - 4 in
      let (long, h₁) = ensure-eq-ok _ _ h in
      let (sound, h₂) = ensure-eq-ok _ _ h₁ in
      let (((top, n), rest), e, h₃) = >>=-eq-ok (rd_header sc cutoff (take size contents)) _ h₂ in
      let ((t, rest'), e', h₄) = >>=-eq-ok (rd_table sc n rest) _ h₃ in
      new_view-IsDecoded sc s (read_file-IsBase sc cutoff contents s dims h)
        (subst (AreGrown sc.dims) (finish_snapshot-dicts sc top n t rest' s h₄)
          (rd_table-AreGrown sc n t rest rest' e'))
        few
