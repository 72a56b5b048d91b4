-- ===== src/Prelude/Bits.antt =====
-- Laws of `|`, `&` and `<<` at variables, for the packed key and the row bitmaps.
use Prim.Native.Nat.{max, min, bit_or, bit_and, digits, bit_or-bitwise, bit_and-bitwise}
use Prim.Native.Nat.{ℕ, zero, suc, ◌+◌, ◌*◌, ◌/◌, ◌%◌, ◌^◌, ◌≤◌, ◌<◌}
use mathlib.Core.Path.{◌≡◌, refl, ap}
use mathlib.Core.Logic.{◌≢◌}
use native.Mathlib.Omega.{arith}
use native.Mathlib.Nat.{pow-suc}

-- The digit recursion that the native operations stand for does not depend on its fuel.
enough_digits :
    (z : ℕ → ℕ) (f : ℕ → ℕ → ℕ) (m n a b : ℕ) → a ≤ m → a ≤ n → digits z f m a b ≡ digits z f n a b
enough_digits z f zero zero a b hm hn = refl
enough_digits z f zero (suc n) zero b hm hn = refl
enough_digits z f zero (suc n) (suc a) b hm hn = absurd (omega arith)
enough_digits z f (suc m) zero zero b hm hn = refl
enough_digits z f (suc m) zero (suc a) b hm hn = absurd (omega arith)
enough_digits z f (suc m) (suc n) zero b hm hn = refl
enough_digits z f (suc m) (suc n) (suc a) b hm hn =
    ap (λ (t : ℕ). t * 2 + f (suc a % 2) (b % 2))
      (enough_digits z f m n (suc a / 2) (b / 2) (omega arith) (omega arith))

pub bit_or_halves : (a b : ℕ) → bit_or a b ≡ bit_or (a / 2) (b / 2) * 2 + max (a % 2) (b % 2)
bit_or_halves zero b = simp bit_or-bitwise (omega arith)
bit_or_halves (suc a) b = simp bit_or-bitwise (
    ap (λ (t : ℕ). t * 2 + max (suc a % 2) (b % 2))
      (enough_digits (λ y. y) max a (suc a / 2) (suc a / 2) (b / 2) (omega arith) (omega arith)))

pub bit_and_halves : (a b : ℕ) → bit_and a b ≡ bit_and (a / 2) (b / 2) * 2 + min (a % 2) (b % 2)
bit_and_halves zero b = simp bit_and-bitwise (omega arith)
bit_and_halves (suc a) b = simp bit_and-bitwise (
    ap (λ (t : ℕ). t * 2 + min (suc a % 2) (b % 2))
      (enough_digits (λ y. zero) min a (suc a / 2) (suc a / 2) (b / 2) (omega arith) (omega arith)))

bit_or-zero_below : (n a : ℕ) → a ≤ n → bit_or a 0 ≡ a
bit_or-zero_below n zero h = refl
bit_or-zero_below zero (suc a) h = absurd (omega arith)
bit_or-zero_below (suc n) (suc a) h =
    omega (arith, bit_or_halves (suc a) 0, bit_or-zero_below n (suc a / 2) (omega arith))

pub bit_or-zero : (a : ℕ) → bit_or a 0 ≡ a
bit_or-zero a = bit_or-zero_below a a (omega arith)

bit_and-zero_below : (n a : ℕ) → a ≤ n → bit_and a 0 ≡ 0
bit_and-zero_below n zero h = refl
bit_and-zero_below zero (suc a) h = absurd (omega arith)
bit_and-zero_below (suc n) (suc a) h =
    omega (arith, bit_and_halves (suc a) 0, bit_and-zero_below n (suc a / 2) (omega arith))

-- Bit `k` of a word.
abbrev pub test_bit : ℕ → ℕ → ℕ
test_bit w zero = w % 2
test_bit w (suc k) = test_bit (w / 2) k

pub test_bit-le-one : (w k : ℕ) → test_bit w k ≤ 1
test_bit-le-one w zero = omega arith
test_bit-le-one w (suc k) = test_bit-le-one (w / 2) k

two_pow-suc : (k : ℕ) → 2 ^ suc k ≡ 2 * 2 ^ k
two_pow-suc k = omega (arith, pow-suc 2 k)

bit_or-two_pow-suc : (k w : ℕ) → bit_or w (2 ^ suc k) ≡ bit_or (w / 2) (2 ^ k) * 2 + w % 2
bit_or-two_pow-suc k w = ground (arith, two_pow-suc k, bit_or_halves w (2 ^ suc k))

-- `w & (1 << k)` is not zero exactly when bit `k` is set.
pub bit_and-two_pow : (k w : ℕ) → bit_and w (2 ^ k) ≡ test_bit w k * 2 ^ k
bit_and-two_pow zero w =
    omega (arith, bit_and_halves w 1, bit_and-zero_below (w / 2) (w / 2) (omega arith))
bit_and-two_pow (suc k) w = ground (
  arith,
  two_pow-suc k,
  bit_and_halves w (2 ^ suc k),
  bit_and-two_pow k (w / 2),
  ap (λ (t : ℕ). test_bit (w / 2) k * t) (two_pow-suc k),
)

-- `w | (1 << k)` sets bit `k`, and changes no other bit.
pub test_bit-bit_or_self : (k w : ℕ) → test_bit (bit_or w (2 ^ k)) k ≡ 1
test_bit-bit_or_self zero w = omega (arith, bit_or_halves w 1)
test_bit-bit_or_self (suc k) w =
    let half : bit_or w (2 ^ suc k) / 2 ≡ bit_or (w / 2) (2 ^ k) =
      omega (arith, bit_or-two_pow-suc k w) in
    rw half (test_bit-bit_or_self k (w / 2))

pub test_bit-bit_or_ne : (k j w : ℕ) → k ≢ j → test_bit (bit_or w (2 ^ k)) j ≡ test_bit w j
test_bit-bit_or_ne zero zero w h = absurd (h refl)
test_bit-bit_or_ne zero (suc j) w h =
    ap (λ v. test_bit v j) (omega (arith, bit_or_halves w 1, bit_or-zero (w / 2)))
test_bit-bit_or_ne (suc k) zero w h = omega (arith, bit_or-two_pow-suc k w)
test_bit-bit_or_ne (suc k) (suc j) w h =
    let half : bit_or w (2 ^ suc k) / 2 ≡ bit_or (w / 2) (2 ^ k) =
      omega (arith, bit_or-two_pow-suc k w) in
    rw half (test_bit-bit_or_ne k j (w / 2) (λ e. h (ap suc e)))

-- `hi | lo` is a sum when `hi` is a multiple of `2 ^ k` and `lo` fits `k` bits.
pub bit_or_disjoint : (k hi lo : ℕ) → lo < 2 ^ k → bit_or (hi * 2 ^ k) lo ≡ hi * 2 ^ k + lo
bit_or_disjoint zero hi lo h = ground (arith, bit_or-zero (hi * 1))
bit_or_disjoint (suc k) hi lo h = ground (
  arith,
  two_pow-suc k,
  ap (λ (t : ℕ). hi * t) (two_pow-suc k),
  bit_or_halves (hi * 2 ^ suc k) lo,
  bit_or_disjoint k hi (lo / 2) (omega (arith, two_pow-suc k)),
)
