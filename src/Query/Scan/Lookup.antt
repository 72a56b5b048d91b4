-- ===== src/Query/Scan/Lookup.antt =====
-- Resolving a value to an id: the id is the one of the rows that have the value.
use facetta.Prelude.{
  ℕ, ◌+◌, ◌<◌, ◌≡◌, refl, ◌∙◌, Bool, true, false, Option, none, some, List, [], length, ◌==◌,
  Bool-cases, inl, inr,
}
use facetta.Prelude.Int.{ℤ, pos, eqb_ℤ}
use facetta.Prelude.Maps.{Str, str_eq, int_eq, eqb_str}
use facetta.Schema.{Schema, is_int}
use facetta.Result.{ok, ok_inj}
use facetta.Strconv.{parse_int}
use facetta.Dict.{lookup, lookup_n, len, str}
use facetta.View.{
  View, dict_at, in_extras, or_extras, lookup_id, lookup_num_id, lookup_parsed, dim_string,
}
use facetta.View.Combined.{find_both_found, find_both_missing}
use facetta.Query.Match.{value_of, id_at}
use facetta.Query.Resolve.{resolve_value, or_non_integer}
use facetta.Query.Scan.Meaning.{value_is, int_is, IsPair}

-- The outcome of a lookup tells the ids of a value apart from the others.
abbrev pub Tells : Option ℕ → ℕ → Bool → Type 0
Tells none a b = b ≡ false
Tells (some id) a b = (a == id) ≡ b

Tells-find :
    (o : Option ℕ) (a : ℕ) (b : Bool)
    → ((id : ℕ) → o ≡ some id → (a == id) ≡ b)
    → (o ≡ none → b ≡ false)
    → Tells o a b
Tells-find none a b found missing = missing refl
Tells-find (some id) a b found missing = found id refl

module _ {F : Type 0} (sc : Schema) (v : View F) (di a : ℕ)
    (pair : IsPair (is_int sc di) (dict_at v.base.dicts di) (dict_at v.extras di))
    (lt : a < len (dict_at v.base.dicts di) + len (dict_at v.extras di)) where
  lookup_id-Tells :
      (s : Str) → is_int sc di ≡ false → Tells (lookup_id v di s) a (eqb_str (dim_string v di a) s)
  unfolding lookup_id lookup dim_string str len
  lookup_id-Tells s text =
      let d = dict_at v.base.dicts di in
      let x = dict_at v.extras di in
      let kind : d.numeric ≡ false = pair.kind ∙ text in
      let kind_extra : x.numeric ≡ false = pair.kind_extra ∙ text in
      let size : a < length d.strs + length x.strs = rw (kind, kind_extra) at lt in
      let few = rw (kind, kind_extra) at pair.few in
      rw (kind, kind_extra)
        (Tells-find _ a _
          (λ id h.
            find_both_found d.ids d.strs x.ids x.strs pair.dict.strings pair.extra.strings
              pair.apart few [] s a id size h)
          (λ h.
            find_both_missing d.ids d.strs x.ids x.strs pair.dict.strings pair.extra.strings
              pair.apart few [] s a size h))

  lookup_n-Tells :
      (n : ℤ)
      → is_int sc di ≡ true
      → Tells
          (or_extras
            (lookup_n (dict_at v.base.dicts di) n)
            (in_extras (len (dict_at v.base.dicts di)) (lookup_n (dict_at v.extras di) n)))
          a
          (eqb_ℤ (value_of v di a) n)
  unfolding lookup_n value_of len
  lookup_n-Tells n number =
      let d = dict_at v.base.dicts di in
      let x = dict_at v.extras di in
      let kind : d.numeric ≡ true = pair.kind ∙ number in
      let kind_extra : x.numeric ≡ true = pair.kind_extra ∙ number in
      let size : a < length d.vals + length x.vals = rw (kind, kind_extra) at lt in
      let few = rw (kind, kind_extra) at pair.few in
      rw kind (
        Tells-find _ a _
          (λ id h.
            find_both_found d.ids_n d.vals x.ids_n x.vals pair.dict.numbers pair.extra.numbers
              pair.apart_n few (pos 0) n a id size h)
          (λ h.
            find_both_missing d.ids_n d.vals x.ids_n x.vals pair.dict.numbers pair.extra.numbers
              pair.apart_n few (pos 0) n a size h))

  lookup_parsed-Tells :
      (o : Option ℤ) (s dim : Str) (ids : List ℕ) (found : Option ℕ)
      → is_int sc di ≡ true
      → id_at ids di ≡ a
      → or_non_integer s dim (lookup_parsed v di o) ≡ ok found
      → Tells found a (int_is sc v di ids o)
  unfolding lookup_parsed or_non_integer int_is
  lookup_parsed-Tells none s dim ids found number at h = cc
  lookup_parsed-Tells (some n) s dim ids found number at h =
      rw (at, ← ok_inj h) (lookup_n-Tells n number)

  pub resolve_value-Tells_at :
      (s dim : Str) (ids : List ℕ) (found : Option ℕ)
      → id_at ids di ≡ a
      → resolve_value sc v di dim s ≡ ok found
      → Tells found a (value_is sc v di ids s)
  unfolding resolve_value value_is lookup_num_id
  resolve_value-Tells_at s dim ids found at h = elim (Bool-cases (is_int sc di)) [
    | inl number ↦
        rw number (lookup_parsed-Tells (parse_int s) s dim ids found number at (rw number at h))
    | inr text ↦ rw (text, at, ← ok_inj (rw text at h)) (lookup_id-Tells s text)
  ]
