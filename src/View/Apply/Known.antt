-- ===== src/View/Apply/Known.antt =====
-- view.go: the ids that `applyDelta` resolves the values of a record to.
use facetta.Prelude.{
  ℕ, zero, suc, ◌+◌, ◌^◌, ◌≤◌, ◌<◌, ◌≡◌, refl, sym, ap, ◌∙◌, Bool, true, false, Option, none, some,
  List, [], ◌∷◌, ◌++◌, length, length-append, ◌==◌, arith, Bool-cases, inl, inr,
}
use mathlib.Core.Path.{subst}
use facetta.Prelude.Int.{ℤ}
use facetta.Prelude.Maps.{Str, find, str_eq, int_eq}
use facetta.Schema.{Dim, dim_int, is_int_in}
use facetta.Result.{ok, >>=-eq-ok, ok_inj}
use facetta.Strconv.{parse_int}
use facetta.Dict.{Dict, u32, lookup, lookup_n, len, get_or_add, get_or_add_n, add_str, add_val}
use facetta.Dict.Intern.{IsInterned-add, get_elem?-lt-length}
use facetta.View.{dict_at}
use facetta.Query.Match.{id_at}
use facetta.Query.Scan.Meaning.{IsPair}
use facetta.View.Apply.{
  Resolved, Tuple, extend_str, resolve_str, extend_val, resolve_val, resolve_parsed, resolve,
  resolve_all,
}

-- If the extras stay small enough for an id then they stay in order, and the id is one of the base or
-- of the extras.
pub record IsKnown (numeric : Bool) (d x : Dict) (x' : Dict) (id : ℕ) : Type 0 where
  pub more : len x ≤ len x'
  pub pair : len d + len x' < 2 ^ 32 → IsPair numeric d x'
  pub below : len d + len x' < 2 ^ 32 → id < len d + len x'

extend_str-IsKnown :
    (d x : Dict) (s : Str) (o : Option ℕ)
    → IsPair false d x
    → lookup d s ≡ none
    → lookup x s ≡ o
    → IsKnown false d x (extend_str (u32 (len d)) x s o).extras (extend_str (u32 (len d)) x s o).id
unfolding extend_str lookup len get_or_add add_str
extend_str-IsKnown d x s (some id) p absent h =
    let lt = get_elem?-lt-length x.strs id s (p.extra.strings.sound s id h) in
    record {
      more = omega arith;
      pair = λ few. p;
      below = λ few. rw (p.kind, p.kind_extra) (omega arith);
    }
extend_str-IsKnown d x s none p absent h =
    let size = length-append x.strs (s ∷ []) in
    rw h (record {
      more = rw (p.kind_extra) (omega arith);
      pair = λ few.
          let small : length d.strs + length (x.strs ++ s ∷ []) < 2 ^ 32 =
            rw (p.kind, p.kind_extra) at few in
          record {
            kind = p.kind;
            kind_extra = p.kind_extra;
            dict = p.dict;
            extra = record {
              strings = IsInterned-add x.ids x.strs s p.extra.strings h (omega arith);
              numbers = p.extra.numbers;
            };
            apart = λ s' i found. elim (Bool-cases (str_eq.eqb s s')) [
              | inl same ↦ ap (λ k. find k d.ids) (sym ((str_eq.eqb_iff s s').0 same)) ∙ absent
              | inr differ ↦ p.apart s' i (rw differ at found)
            ];
            apart_n = p.apart_n;
            few = few;
          };
      below = λ few. rw (p.kind, p.kind_extra) (omega arith);
    })

extend_val-IsKnown :
    (d x : Dict) (n : ℤ) (o : Option ℕ)
    → IsPair true d x
    → lookup_n d n ≡ none
    → lookup_n x n ≡ o
    → IsKnown true d x (extend_val (u32 (len d)) x n o).extras (extend_val (u32 (len d)) x n o).id
unfolding extend_val lookup_n len get_or_add_n add_val
extend_val-IsKnown d x n (some id) p absent h =
    let lt = get_elem?-lt-length x.vals id n (p.extra.numbers.sound n id h) in
    record {
      more = omega arith;
      pair = λ few. p;
      below = λ few. rw (p.kind, p.kind_extra) (omega arith);
    }
extend_val-IsKnown d x n none p absent h =
    let size = length-append x.vals (n ∷ []) in
    rw h (record {
      more = rw (p.kind_extra) (omega arith);
      pair = λ few.
          let small : length d.vals + length (x.vals ++ n ∷ []) < 2 ^ 32 =
            rw (p.kind, p.kind_extra) at few in
          record {
            kind = p.kind;
            kind_extra = p.kind_extra;
            dict = p.dict;
            extra = record {
              strings = p.extra.strings;
              numbers = IsInterned-add x.ids_n x.vals n p.extra.numbers h (omega arith);
            };
            apart = p.apart;
            apart_n = λ n' i found. elim (Bool-cases (int_eq.eqb n n')) [
              | inl same ↦ ap (λ k. find k d.ids_n) (sym ((int_eq.eqb_iff n n').0 same)) ∙ absent
              | inr differ ↦ p.apart_n n' i (rw differ at found)
            ];
            few = few;
          };
      below = λ few. rw (p.kind, p.kind_extra) (omega arith);
    })

resolve_str-IsKnown :
    (d x : Dict) (s : Str) (o : Option ℕ)
    → IsPair false d x
    → lookup d s ≡ o
    → IsKnown false d x (resolve_str d x s o).extras (resolve_str d x s o).id
unfolding resolve_str lookup len
resolve_str-IsKnown d x s (some id) p h =
    let lt = get_elem?-lt-length d.strs id s (p.dict.strings.sound s id h) in
    record { more = omega arith; pair = λ few. p; below = λ few. rw (p.kind) (omega arith) }
resolve_str-IsKnown d x s none p h = extend_str-IsKnown d x s (lookup x s) p h refl

resolve_val-IsKnown :
    (d x : Dict) (n : ℤ) (o : Option ℕ)
    → IsPair true d x
    → lookup_n d n ≡ o
    → IsKnown true d x (resolve_val d x n o).extras (resolve_val d x n o).id
unfolding resolve_val lookup_n len
resolve_val-IsKnown d x n (some id) p h =
    let lt = get_elem?-lt-length d.vals id n (p.dict.numbers.sound n id h) in
    record { more = omega arith; pair = λ few. p; below = λ few. rw (p.kind) (omega arith) }
resolve_val-IsKnown d x n none p h = extend_val-IsKnown d x n (lookup_n x n) p h refl

resolve_parsed-IsKnown :
    (d x : Dict) (o : Option ℤ) (i : ℕ) (s : Str) (r : Resolved)
    → IsPair true d x
    → resolve_parsed d x o i s ≡ ok r
    → IsKnown true d x r.extras r.id
unfolding resolve_parsed
resolve_parsed-IsKnown d x none i s r p h = cc
resolve_parsed-IsKnown d x (some n) i s r p h =
    subst (λ (q : Resolved). IsKnown true d x q.extras q.id) (ok_inj h)
      (resolve_val-IsKnown d x n (lookup_n d n) p refl)

resolve-IsKnown :
    (dim : Dim) (d x : Dict) (i : ℕ) (s : Str) (r : Resolved) (numeric : Bool)
    → (dim.dim_type == dim_int) ≡ numeric
    → IsPair numeric d x
    → resolve dim d x i s ≡ ok r
    → IsKnown numeric d x r.extras r.id
unfolding resolve
resolve-IsKnown dim d x i s r true e p h =
    resolve_parsed-IsKnown d x (parse_int s) i s r p (rw e at h)
resolve-IsKnown dim d x i s r false e p h =
    subst (λ (q : Resolved). IsKnown false d x q.extras q.id) (ok_inj (rw e at h))
      (resolve_str-IsKnown d x s (lookup d s) p refl)

cons-IsKnown :
    (dim : Dim) (dims : List Dim) (d x x' : Dict) (ds xs xs' : List Dict) (id : ℕ) (ids : List ℕ)
    → IsKnown (dim.dim_type == dim_int) d x x' id
    → ((k : ℕ)
        → k < length dims
        → IsKnown (is_int_in dims k) (dict_at ds k) (dict_at xs k) (dict_at xs' k) (id_at ids k))
    → (k : ℕ) → k < suc (length dims)
    → IsKnown
        (is_int_in (dim ∷ dims) k)
        (dict_at (d ∷ ds) k)
        (dict_at (x ∷ xs) k)
        (dict_at (x' ∷ xs') k)
        (id_at (id ∷ ids) k)
unfolding is_int_in
cons-IsKnown dim dims d x x' ds xs xs' id ids one each zero lt = one
cons-IsKnown dim dims d x x' ds xs xs' id ids one each (suc k) lt = each k (omega arith)

-- The same of each dimension of a record with a value for each.
pub resolve_all-IsKnown :
    (dims : List Dim) (ds xs : List Dict) (i : ℕ) (ss : List Str) (t : Tuple)
    → length ds ≡ length dims
    → length xs ≡ length dims
    → length ss ≡ length dims
    → ((k : ℕ) → k < length dims → IsPair (is_int_in dims k) (dict_at ds k) (dict_at xs k))
    → resolve_all dims ds xs i ss ≡ ok t
    → (length t.extras ≡ length dims)
      × ((k : ℕ)
          → k < length dims
          → IsKnown
              (is_int_in dims k)
              (dict_at ds k)
              (dict_at xs k)
              (dict_at t.extras k)
              (id_at t.ids k))
unfolding resolve_all is_int_in
resolve_all-IsKnown [] ds xs i ss t nd nx ns p h =
    let same : xs ≡ t.extras = ap (λ (q : Tuple). q.extras) (ok_inj h) in
    (sym (ap length same) ∙ nx, λ k lt. absurd (omega arith))
resolve_all-IsKnown (dim ∷ dims) [] xs i ss t nd nx ns p h = absurd (omega arith)
resolve_all-IsKnown (dim ∷ dims) (d ∷ ds) [] i ss t nd nx ns p h = absurd (omega arith)
resolve_all-IsKnown (dim ∷ dims) (d ∷ ds) (x ∷ xs) i [] t nd nx ns p h = absurd (omega arith)
resolve_all-IsKnown (dim ∷ dims) (d ∷ ds) (x ∷ xs) i (s ∷ ss) t nd nx ns p h =
    let (first, e, h₁) = >>=-eq-ok (resolve dim d x i s) _ h in
    let (rest, e₁, h₂) = >>=-eq-ok (resolve_all dims ds xs i ss) _ h₁ in
    let one =
      resolve-IsKnown dim d x i s first (dim.dim_type == dim_int) refl (p 0 (omega arith)) e in
    let (size, each) =
      resolve_all-IsKnown dims ds xs i ss rest (omega arith) (omega arith) (omega arith)
        (λ k lt. p (suc k) (omega arith)) e₁ in
    subst
      (λ (q : Tuple).
        (length q.extras ≡ suc (length dims))
        × ((k : ℕ)
            → k < suc (length dims)
            → IsKnown (is_int_in (dim ∷ dims) k) (dict_at (d ∷ ds) k) (dict_at (x ∷ xs) k)
                (dict_at q.extras k) (id_at q.ids k)))
      (ok_inj h₂)
      (
        ap suc size,
        cons-IsKnown dim dims d x first.extras ds xs rest.extras first.id rest.ids one each,
      )
