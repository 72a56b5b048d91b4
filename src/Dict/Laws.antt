-- ===== src/Dict/Laws.antt =====
-- dict.go: interning gives each value one id, and never moves an id.
use facetta.Prelude.{
  ℕ, ◌^◌, ◌<◌, ◌≡◌, refl, Bool, Option, none, some, List, ◌∷◌, [], ◌++◌, length, get_elem?,
  Option-cases, inl, inr, ◌⊎◌,
}
use facetta.Prelude.Int.{ℤ}
use facetta.Prelude.Maps.{Str, find, put, str_eq, int_eq}
use native.Mathlib.Nat.{mod-eq_of_lt}
use facetta.Dict.{Dict, u32, new_dict, get_or_add, get_or_add_n, add_str, add_val, lookup, lookup_n}
use facetta.Dict.Intern.{
  IsInterned, IsInterned-empty, IsInterned-add, get_elem?-append_left, get_elem?-append_end,
}

-- Both maps of a dictionary are inverse to their slices.
pub record IsDict (d : Dict) : Type 0 where
  pub strings : IsInterned d.ids d.strs
  pub numbers : IsInterned d.ids_n d.vals

pub IsDict-new_dict : (numeric : Bool) → IsDict (new_dict numeric)
unfolding new_dict
IsDict-new_dict numeric = record { strings = IsInterned-empty; numbers = IsInterned-empty }

-- What interning a value promises, in terms of the slice of values before and after.
pub record Interned {ℓ} {K : Type ℓ} (before after : List K) (k : K) (id : ℕ) : Type ℓ where
  pub holds : get_elem? after id ≡ some k
  pub keeps : (i : ℕ) (j : K) → get_elem? before i ≡ some j → get_elem? after i ≡ some j

-- `d'` and `id` are the outcome of interning `s` in `d`.
pub record InternedStr (d d' : Dict) (s : Str) (id : ℕ) : Type 0 where
  pub dict : IsDict d'
  pub slot : Interned d.strs d'.strs s id
  pub found : lookup d' s ≡ some id
  pub same_vals : d'.vals ≡ d.vals

pub record InternedVal (d d' : Dict) (v : ℤ) (id : ℕ) : Type 0 where
  pub dict : IsDict d'
  pub slot : Interned d.vals d'.vals v id
  pub found : lookup_n d' v ≡ some id
  pub same_strs : d'.strs ≡ d.strs

module _ (d : Dict) (inv : IsDict d) where
  add_str_lem :
      (s : Str) (found : Option ℕ)
      → find s d.ids ≡ found
      → length d.strs < 2 ^ 32
      → InternedStr d (add_str d s found).0 s (add_str d s found).1
  unfolding add_str lookup
  add_str_lem s (some id) h small = record {
    dict = inv;
    slot = record { holds = inv.strings.sound s id h; keeps = λ i j e. e };
    found = h;
    same_vals = refl;
  }
  add_str_lem s none h small = record {
    dict = record {
      strings = IsInterned-add d.ids d.strs s inv.strings h small;
      numbers = inv.numbers;
    };
    slot = record {
      holds = rw (mod-eq_of_lt small) (get_elem?-append_end d.strs s);
      keeps = λ i j e. get_elem?-append_left d.strs (s ∷ []) i j e;
    };
    found = rw ((str_eq.eqb_iff s s).1 refl) refl;
    same_vals = refl;
  }

  add_val_lem :
      (v : ℤ) (found : Option ℕ)
      → find v d.ids_n ≡ found
      → length d.vals < 2 ^ 32
      → InternedVal d (add_val d v found).0 v (add_val d v found).1
  unfolding add_val lookup_n
  add_val_lem v (some id) h small = record {
    dict = inv;
    slot = record { holds = inv.numbers.sound v id h; keeps = λ i j e. e };
    found = h;
    same_strs = refl;
  }
  add_val_lem v none h small = record {
    dict = record {
      strings = inv.strings;
      numbers = IsInterned-add d.ids_n d.vals v inv.numbers h small;
    };
    slot = record {
      holds = rw (mod-eq_of_lt small) (get_elem?-append_end d.vals v);
      keeps = λ i j e. get_elem?-append_left d.vals (v ∷ []) i j e;
    };
    found = rw ((int_eq.eqb_iff v v).1 refl) refl;
    same_strs = refl;
  }

  -- On a well-formed dictionary of fewer than 2^32 strings, `getOrAdd` returns an id under which the
  -- value stands and is found again, leaves every earlier id with its value, and keeps the
  -- dictionary well formed.
  pub get_or_add_lem :
      (s : Str) → length d.strs < 2 ^ 32 → InternedStr d (get_or_add d s).0 s (get_or_add d s).1
  unfolding get_or_add
  get_or_add_lem s small = add_str_lem s (find s d.ids) refl small

  -- The same of `getOrAddN` and the int64 values.
  pub get_or_add_n_lem :
      (v : ℤ) → length d.vals < 2 ^ 32 → InternedVal d (get_or_add_n d v).0 v (get_or_add_n d v).1
  unfolding get_or_add_n
  get_or_add_n_lem v small = add_val_lem v (find v d.ids_n) refl small

-- A value that has no id yet is appended.
pub get_or_add_new :
    (d : Dict) (s : Str)
    → find s d.ids ≡ none
    → (get_or_add d s).0
      ≡ record d { ids = put s (u32 (length d.strs)) d.ids; strs = d.strs ++ s ∷ [] }
unfolding get_or_add add_str
get_or_add_new d s h = rw h refl

pub get_or_add_n_new :
    (d : Dict) (v : ℤ)
    → find v d.ids_n ≡ none
    → (get_or_add_n d v).0
      ≡ record d { ids_n = put v (u32 (length d.vals)) d.ids_n; vals = d.vals ++ v ∷ [] }
unfolding get_or_add_n add_val
get_or_add_n_new d v h = rw h refl

-- The whole outcome, whether or not the value is new.
pub get_or_add-cases :
    (d : Dict) (s : Str)
    → ((i : ℕ) × (find s d.ids ≡ some i) × (get_or_add d s ≡ (d, i)))
      ⊎ ((find s d.ids ≡ none)
          × (get_or_add d s ≡ (
            record d { ids = put s (u32 (length d.strs)) d.ids; strs = d.strs ++ s ∷ [] },
            u32 (length d.strs),
          )))
unfolding get_or_add add_str
get_or_add-cases d s = elim (Option-cases (find s d.ids)) [
  | inl new ↦ inr (new, rw new refl)
  | inr (i, old) ↦ inl (i, old, rw old refl)
]

pub get_or_add_n-cases :
    (d : Dict) (v : ℤ)
    → ((i : ℕ) × (find v d.ids_n ≡ some i) × (get_or_add_n d v ≡ (d, i)))
      ⊎ ((find v d.ids_n ≡ none)
          × (get_or_add_n d v ≡ (
            record d { ids_n = put v (u32 (length d.vals)) d.ids_n; vals = d.vals ++ v ∷ [] },
            u32 (length d.vals),
          )))
unfolding get_or_add_n add_val
get_or_add_n-cases d v = elim (Option-cases (find v d.ids_n)) [
  | inl new ↦ inr (new, rw new refl)
  | inr (i, old) ↦ inl (i, old, rw old refl)
]
