-- ===== src/Bitmap/Laws.antt =====
-- What the bitmaps of view.go store: a set of indices.
use facetta.Prelude.{
  ℕ, zero, suc, ◌+◌, ◌*◌, ◌/◌, ◌%◌, ◌^◌, ◌<◌, ◌≡◌, ◌≢◌, refl, sym, ◌∙◌, ap, true, false, List, [],
  ◌∷◌, length, get_or, set, replicate, length-set, arith, ltb, ◌==◌, if◌then◌else◌, Bool-cases,
  ==_iff, inl, inr, length-replicate,
}
use facetta.Prelude.Bits.{test_bit, bit_and-two_pow, test_bit-bit_or_self, test_bit-bit_or_ne}
use Prim.Native.Nat.{bit_or}
use mathlib.Core.Bool.{not, ◌&&◌}
use native.Mathlib.Decide.{ℕ_discrete}
use native.Mathlib.Nat.{one-le-pow}
use facetta.Bitmap.{bit_get, bit_set, make_bitmap}

get_or-set_self : (b : List ℕ) (i v : ℕ) → i < length b → get_or (set b i v) i 0 ≡ v
get_or-set_self [] i v h = elim h [ ]
get_or-set_self (x ∷ xs) zero v h = refl
get_or-set_self (x ∷ xs) (suc i) v h = get_or-set_self xs i v (omega arith)

get_or-set_ne : (b : List ℕ) (i j v : ℕ) → i ≢ j → get_or (set b i v) j 0 ≡ get_or b j 0
get_or-set_ne [] i j v h = refl
get_or-set_ne (x ∷ xs) zero zero v h = absurd (h refl)
get_or-set_ne (x ∷ xs) zero (suc j) v h = refl
get_or-set_ne (x ∷ xs) (suc i) zero v h = refl
get_or-set_ne (x ∷ xs) (suc i) (suc j) v h = get_or-set_ne xs i j v (λ e. h (ap suc e))

get_or-replicate : (n i v : ℕ) → get_or (replicate n v) i v ≡ v
get_or-replicate zero i v = refl
get_or-replicate (suc n) zero v = refl
get_or-replicate (suc n) (suc i) v = get_or-replicate n i v

test_bit-zero : (k : ℕ) → test_bit 0 k ≡ 0
test_bit-zero zero = refl
test_bit-zero (suc k) = test_bit-zero k

-- The bit of index `i`, in its word.
abbrev bit_at : List ℕ → ℕ → ℕ
bit_at b i = test_bit (get_or b (i / 64) 0) (i % 64)

bit_get_lem :
    (b : List ℕ) (i : ℕ)
    → bit_get b i ≡ (ltb (i / 64) (length b) && not (bit_at b i * 2 ^ (i % 64) == 0))
unfolding bit_get
bit_get_lem b i = rw (bit_and-two_pow (i % 64) (get_or b (i / 64) 0))

-- A bitmap of `n` bits has a word for each index below `n`.
pub length-make_bitmap : (n i : ℕ) → i < n → i / 64 < length (make_bitmap n)
unfolding make_bitmap
length-make_bitmap n i h = omega (arith, length-replicate ((n + 63) / 64) (get_or {A = ℕ} [] 0 0))

pub length-bit_set : (b : List ℕ) (i : ℕ) → length (bit_set b i) ≡ length b
unfolding bit_set
length-bit_set b i = length-set b (i / 64) _

-- A fresh bitmap is empty.
pub bit_get-make_bitmap : (n i : ℕ) → bit_get (make_bitmap n) i ≡ false
unfolding make_bitmap
bit_get-make_bitmap n i =
    let word = get_or-replicate ((n + 63) / 64) (i / 64) 0 in
    let clear : bit_at (replicate ((n + 63) / 64) 0) i ≡ 0 = rw word (test_bit-zero (i % 64)) in
    rw (bit_get_lem (replicate ((n + 63) / 64) 0) i) (ground (arith, clear))

bit_at-bit_set_self : (b : List ℕ) (i : ℕ) → i / 64 < length b → bit_at (bit_set b i) i ≡ 1
unfolding bit_set
bit_at-bit_set_self b i h =
    rw (get_or-set_self b (i / 64) (bit_or (get_or b (i / 64) 0) (2 ^ (i % 64))) h)
      (test_bit-bit_or_self (i % 64) (get_or b (i / 64) 0))

bit_at-bit_set_ne :
    (b : List ℕ) (i j : ℕ) → i / 64 < length b → i ≢ j → bit_at (bit_set b i) j ≡ bit_at b j
unfolding bit_set
bit_at-bit_set_ne b i j h ne = elim (ℕ_discrete (i / 64) (j / 64)) [
  | yes e ↦
      rw (← e, get_or-set_self b (i / 64) (bit_or (get_or b (i / 64) 0) (2 ^ (i % 64))) h)
        (test_bit-bit_or_ne (i % 64) (j % 64) (get_or b (i / 64) 0) (omega arith))
  | no d ↦
      rw (get_or-set_ne b (i / 64) (j / 64) (bit_or (get_or b (i / 64) 0) (2 ^ (i % 64))) d) refl
]

-- Setting a bit adds exactly that index, for indices that have a word.
pub bit_get-bit_set :
    (b : List ℕ) (i j : ℕ)
    → i / 64 < length b
    → bit_get (bit_set b i) j ≡ (if i == j then true else bit_get b j)
bit_get-bit_set b i j h = elim (Bool-cases (i == j)) [
  | inl e ↦
      let same : i ≡ j = (==_iff i j).0 e in
      rw (e, ← same, bit_get_lem (bit_set b i) i)
        (ground (arith, length-bit_set b i, bit_at-bit_set_self b i h, one-le-pow (i % 64) 2))
  | inr d ↦
      let kept = bit_at-bit_set_ne b i j h (λ same. cc (sym d ∙ (==_iff i j).1 same)) in
      rw (d, bit_get_lem (bit_set b i) j, bit_get_lem b j, kept, length-bit_set b i) refl
]
