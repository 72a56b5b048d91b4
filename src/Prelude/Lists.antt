-- ===== src/Prelude/Lists.antt =====
-- Lists measured and indexed by native numbers, under the library's names.
use Prim.Native.Nat.{ℕ, zero, suc, ◌+◌, ◌-◌, ◌<◌, min}
use mathlib.Core.Path.{◌≡◌, refl, ap}
use mathlib.Core.Logic.{◌≢◌}
use mathlib.Core.List.{List, [], ◌∷◌, ◌++◌, map}
use mathlib.Core.Option.{Option, none, some}
use native.Mathlib.Omega.{arith}

module _ {ℓ} {A : Type ℓ} where
  abbrev pub length : List A → ℕ
  length [] = 0
  length (x ∷ xs) = suc (length xs)

  abbrev pub get_elem? : List A → ℕ → Option A
  get_elem? [] i = none
  get_elem? (x ∷ xs) zero = some x
  get_elem? (x ∷ xs) (suc i) = get_elem? xs i

  -- A write out of bounds changes nothing.
  abbrev pub set : List A → ℕ → A → List A
  set [] i v = []
  set (x ∷ xs) zero v = v ∷ xs
  set (x ∷ xs) (suc i) v = x ∷ set xs i v

  pub length-append : (xs ys : List A) → length (xs ++ ys) ≡ length xs + length ys
  length-append [] ys = omega arith
  length-append (x ∷ xs) ys = omega (arith, length-append xs ys)

module _ {ℓ} {A : Type ℓ} where
  pub length-set : (xs : List A) (i : ℕ) (v : A) → length (set xs i v) ≡ length xs
  length-set [] i v = refl
  length-set (x ∷ xs) zero v = refl
  length-set (x ∷ xs) (suc i) v = ap suc (length-set xs i v)

  pub get_elem?-set_self :
      (xs : List A) (i : ℕ) (v : A) → i < length xs → get_elem? (set xs i v) i ≡ some v
  get_elem?-set_self [] i v h = elim h [ ]
  get_elem?-set_self (x ∷ xs) zero v h = refl
  get_elem?-set_self (x ∷ xs) (suc i) v h = get_elem?-set_self xs i v (omega arith)

  pub get_elem?-set_ne :
      (xs : List A) {i j : ℕ} (v : A) → i ≢ j → get_elem? (set xs i v) j ≡ get_elem? xs j
  get_elem?-set_ne [] v h = refl
  get_elem?-set_ne (x ∷ xs) {i = zero} {j = zero} v h = absurd (h refl)
  get_elem?-set_ne (x ∷ xs) {i = zero} {j = suc j} v h = refl
  get_elem?-set_ne (x ∷ xs) {i = suc i} {j = zero} v h = refl
  get_elem?-set_ne (x ∷ xs) {i = suc i} {j = suc j} v h = get_elem?-set_ne xs v (λ e. h (ap suc e))

module _ {ℓ} {A : Type ℓ} where
  abbrev pub get_or : List A → ℕ → A → A
  get_or [] i d = d
  get_or (x ∷ xs) zero d = x
  get_or (x ∷ xs) (suc i) d = get_or xs i d

  abbrev pub take : ℕ → List A → List A
  take zero xs = []
  take (suc n) [] = []
  take (suc n) (x ∷ xs) = x ∷ take n xs

  abbrev pub drop : ℕ → List A → List A
  drop zero xs = xs
  drop (suc n) [] = []
  drop (suc n) (x ∷ xs) = drop n xs

  abbrev pub replicate : ℕ → A → List A
  replicate zero a = []
  replicate (suc n) a = a ∷ replicate n a

  pub take-append-drop : (n : ℕ) (xs : List A) → take n xs ++ drop n xs ≡ xs
  take-append-drop zero xs = refl
  take-append-drop (suc n) [] = refl
  take-append-drop (suc n) (x ∷ xs) = rw (take-append-drop n xs)

  pub length-take : (n : ℕ) (xs : List A) → length (take n xs) ≡ min n (length xs)
  length-take zero xs = omega arith
  length-take (suc n) [] = omega arith
  length-take (suc n) (x ∷ xs) = omega (arith, length-take n xs)

  pub length-drop : (n : ℕ) (xs : List A) → length (drop n xs) ≡ length xs - n
  length-drop zero xs = omega arith
  length-drop (suc n) [] = omega arith
  length-drop (suc n) (x ∷ xs) = omega (arith, length-drop n xs)

  pub length-replicate : (n : ℕ) (a : A) → length (replicate n a) ≡ n
  length-replicate zero a = refl
  length-replicate (suc n) a = ap suc (length-replicate n a)

  pub length-map {κ} : {B : Type κ} (xs : List A) (f : A → B) → length (map f xs) ≡ length xs
  length-map [] f = refl
  length-map (x ∷ xs) f = ap suc (length-map xs f)

module _ {ℓ} {A : Type ℓ} where
  pub get_or-append_left :
      (l r : List A) (i : ℕ) (d : A) → i < length l → get_or (l ++ r) i d ≡ get_or l i d
  get_or-append_left [] r i d h = elim h [ ]
  get_or-append_left (x ∷ l) r zero d h = refl
  get_or-append_left (x ∷ l) r (suc i) d h = get_or-append_left l r i d (omega arith)

  pub get_or-append_end : (l : List A) (a d : A) → get_or (l ++ a ∷ []) (length l) d ≡ a
  get_or-append_end [] a d = refl
  get_or-append_end (x ∷ l) a d = get_or-append_end l a d

  pub get_or-set_self : (l : List A) (i : ℕ) (a d : A) → i < length l → get_or (set l i a) i d ≡ a
  get_or-set_self [] i a d h = elim h [ ]
  get_or-set_self (x ∷ l) zero a d h = refl
  get_or-set_self (x ∷ l) (suc i) a d h = get_or-set_self l i a d (omega arith)

  pub get_or-set_ne :
      (l : List A) (i j : ℕ) (a d : A) → i ≢ j → get_or (set l i a) j d ≡ get_or l j d
  get_or-set_ne [] i j a d h = refl
  get_or-set_ne (x ∷ l) zero zero a d h = absurd (h refl)
  get_or-set_ne (x ∷ l) zero (suc j) a d h = refl
  get_or-set_ne (x ∷ l) (suc i) zero a d h = refl
  get_or-set_ne (x ∷ l) (suc i) (suc j) a d h = get_or-set_ne l i j a d (λ e. h (ap suc e))

  pub get_elem?-map {κ} :
      {B : Type κ} (f : A → B) (l : List A) (i : ℕ) (a : A)
      → get_elem? l i ≡ some a
      → get_elem? (map f l) i ≡ some (f a)
  get_elem?-map f [] i a h = cc
  get_elem?-map f (x ∷ l) zero a h = cc
  get_elem?-map f (x ∷ l) (suc i) a h = get_elem?-map f l i a h

  pub take-append : (n : ℕ) (l r : List A) → length l ≡ n → take n (l ++ r) ≡ l
  take-append zero [] r h = refl
  take-append zero (x ∷ l) r h = absurd (omega arith)
  take-append (suc n) [] r h = absurd (omega arith)
  take-append (suc n) (x ∷ l) r h = ap (◌∷◌ x) (take-append n l r (omega arith))

  -- The elements behind the first `n`, counted on into the second list.
  pub drop-append : (n k : ℕ) (l r : List A) → length l ≡ n → drop (n + k) (l ++ r) ≡ drop k r
  drop-append zero k [] r h = ap (λ i. drop i r) (omega arith)
  drop-append zero k (x ∷ l) r h = absurd (omega arith)
  drop-append (suc n) k [] r h = absurd (omega arith)
  drop-append (suc n) k (x ∷ l) r h =
      let index : suc n + k ≡ suc (n + k) = omega arith in
      rw index (drop-append n k l r (omega arith))
