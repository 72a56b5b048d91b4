-- ===== src/Snapshot/Build/Decoded.antt =====
-- snapshot.go and view.go: a view over what `buildFromRecords` returns, as `NewStore` and `ReplaceAll`
-- publish it.
use facetta.Prelude.{
  ℕ, zero, suc, ◌^◌, ◌<◌, ◌≤◌, ◌≡◌, refl, ap, Bool, true, false, List, [], ◌∷◌, length, map, arith,
}
use mathlib.Core.Path.{subst}
use facetta.Prelude.Int.{ℤ}
use facetta.Prelude.Maps.{str_eq, int_eq}
use facetta.Schema.{Schema, Dim, Record, is_int_in, is_int}
use facetta.Result.{ok, >>=-eq-ok, ok_inj}
use facetta.Dict.{Dict, new_dict, len}
use facetta.Dict.Laws.{IsDict-new_dict}
use facetta.Keys.{compute_shifts}
use facetta.Snapshot.{Snapshot, new_dicts}
use facetta.Snapshot.WellFormed.{IsBase}
use facetta.Snapshot.Build.{intern_records, make_snapshot, build_from_records}
use facetta.Snapshot.Build.Base.{build_from_records-IsBase}
use facetta.Snapshot.Build.Interned.{
  IsGrown, AreGrown, new_dicts-AreGrown, intern_records-AreRecorded,
}
use facetta.View.{dict_at, new_view, empty_delta}
use facetta.Query.Scan.Meaning.{IsPair, IsDecoded}

AreGrown-at :
    (dims : List Dim) (ds : List Dict) (k : ℕ)
    → AreGrown dims ds
    → k < length dims
    → IsGrown (is_int_in dims k) (dict_at ds k)
unfolding is_int_in
AreGrown-at [] ds k h lt = absurd (omega arith)
AreGrown-at (dim ∷ dims) [] k h lt = absurd h
AreGrown-at (dim ∷ dims) (d ∷ ds) zero h lt = h.0
AreGrown-at (dim ∷ dims) (d ∷ ds) (suc k) h lt = AreGrown-at dims ds k h.1 (omega arith)

dict_at-new_dicts :
    (dims : List Dim) (k : ℕ)
    → k < length dims
    → dict_at (new_dicts dims) k ≡ new_dict (is_int_in dims k)
unfolding is_int_in new_dicts
dict_at-new_dicts [] k lt = absurd (omega arith)
dict_at-new_dicts (dim ∷ dims) zero lt = refl
dict_at-new_dicts (dim ∷ dims) (suc k) lt = dict_at-new_dicts dims k (omega arith)

length-new_dicts : (dims : List Dim) → length (new_dicts dims) ≡ length dims
unfolding new_dicts
length-new_dicts [] = refl
length-new_dicts (dim ∷ dims) = ap suc (length-new_dicts dims)

len-new_dict : (numeric : Bool) → len (new_dict numeric) ≡ 0
unfolding new_dict len
len-new_dict true = refl
len-new_dict false = refl

new_dict-IsPair :
    (numeric : Bool) (d : Dict)
    → IsGrown numeric d
    → len d < 2 ^ 32
    → IsPair numeric d (new_dict numeric)
unfolding new_dict
new_dict-IsPair numeric d h few = record {
  kind = h.kind;
  kind_extra = refl;
  dict = h.dict few;
  extra = IsDict-new_dict numeric;
  apart = λ s i found. cc;
  apart_n = λ n i found. cc;
  few = let empty = len-new_dict numeric in omega arith;
}

module _ {F : Type 0} (sc : Schema) where
  build_from_records-AreGrown :
      (recs : List (Record F)) (cutoff now : ℤ) (s : Snapshot F)
      → build_from_records sc recs cutoff now ≡ ok s
      → AreGrown sc.dims s.dicts
  unfolding build_from_records make_snapshot
  build_from_records-AreGrown recs cutoff now s h =
      let ((dicts, rows), interned, h₁) =
        >>=-eq-ok (intern_records sc cutoff 0 (new_dicts sc.dims) recs) _ h in
      let (shifts, shifted, h₂) = >>=-eq-ok (compute_shifts (map len dicts) sc.index_dims) _ h₁ in
      let recorded =
        intern_records-AreRecorded sc cutoff 0 (new_dicts sc.dims) dicts recs rows
          (new_dicts-AreGrown sc.dims) interned in
      subst (AreGrown sc.dims) (ap (λ (q : Snapshot F). q.dicts) (ok_inj h₂)) recorded.grown

  -- Over a well-formed base with dictionaries in order and small enough.
  pub new_view-IsDecoded :
      (s : Snapshot F)
      → IsBase sc s
      → AreGrown sc.dims s.dicts
      → ((d : ℕ) → d < length sc.dims → len (dict_at s.dicts d) < 2 ^ 32)
      → IsDecoded sc (new_view sc s) × (length (new_view sc s).extras ≡ length sc.dims)
  unfolding new_view empty_delta is_int
  new_view-IsDecoded s base grown few = (
    record {
      base = base;
      pairs = λ d lt. rw (dict_at-new_dicts sc.dims d lt) (
          new_dict-IsPair (is_int_in sc.dims d) (dict_at s.dicts d)
            (AreGrown-at sc.dims s.dicts d grown lt) (few d lt));
      rows = λ r row at. cc;
    },
    length-new_dicts sc.dims,
  )

  -- The ids of a new view over a snapshot that `buildFromRecords` returns can be decoded, whatever
  -- records it was given, when no dimension has 2^32 values or more; and the view has an empty
  -- dictionary of extras for each dimension.
  pub build_from_records-IsDecoded :
      (recs : List (Record F)) (cutoff now : ℤ) (s : Snapshot F)
      → sc.index_dims ≤ length sc.dims
      → build_from_records sc recs cutoff now ≡ ok s
      → ((d : ℕ) → d < length sc.dims → len (dict_at s.dicts d) < 2 ^ 32)
      → IsDecoded sc (new_view sc s) × (length (new_view sc s).extras ≡ length sc.dims)
  build_from_records-IsDecoded recs cutoff now s dims h few =
      new_view-IsDecoded s (build_from_records-IsBase sc recs cutoff now s dims h)
        (build_from_records-AreGrown recs cutoff now s h) few
