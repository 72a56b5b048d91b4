-- ===== src/Keys/Order.antt =====
-- The packed key as a mixed-radix number: it decides the order of the rows, and a prefix of the
-- index dimensions is an interval of keys.
use Prim.Native.Nat.{bit_or}
use facetta.Prelude.{ℕ, zero, suc, ◌+◌, ◌*◌, ◌^◌, ◌≤◌, ◌<◌, ◌≡◌, refl, ◌∙◌, List, [], ◌∷◌, arith}
use facetta.Prelude.Bits.{bit_or_disjoint}
use native.Mathlib.Nat.{one-le-pow, pow-suc, le_trans, pow-le-pow_right, mod-eq_of_lt}
use facetta.Keys.{total, fill_shifts, pack_from, pack_key, shl64}

pub two_pow-add : (a b : ℕ) → 2 ^ (a + b) ≡ 2 ^ a * 2 ^ b
two_pow-add zero b = let e : 0 + b ≡ b = omega arith in rw e (omega arith)
two_pow-add (suc a) b =
    let e : suc a + b ≡ suc (a + b) = omega arith in
    rw (e, pow-suc 2 (a + b), pow-suc 2 a, two_pow-add a b) (omega arith)

-- Ids within the widths, for the first dimensions.
abbrev pub Fits : List ℕ → List ℕ → Type 0
Fits ws [] = Unit
Fits [] (i ∷ is) = ⊥
Fits (w ∷ ws) (i ∷ is) = (i < 2 ^ w) × Fits ws is

-- The number that the shifted ids add up to.
unfoldable pub radix : List ℕ → List ℕ → ℕ
radix ws [] = 0
radix [] (i ∷ is) = 0
radix (w ∷ ws) (i ∷ is) = i * 2 ^ total ws + radix ws is

pub fill_shifts-total : (ws : List ℕ) → (fill_shifts ws).1 ≡ total ws
unfolding fill_shifts total
fill_shifts-total [] = refl
fill_shifts-total (w ∷ ws) = omega (arith, fill_shifts-total ws)

-- A digit below `2 ^ w` before a tail below `2 ^ t` stays below `2 ^ (w + t)`.
digit_room : (w t i r : ℕ) → i < 2 ^ w → r < 2 ^ t → i * 2 ^ t + r < 2 ^ (w + t)
digit_room w t i r hi hr = rw (two_pow-add w t) (grind arith)

pub radix-lt : (ws ids : List ℕ) → Fits ws ids → radix ws ids < 2 ^ total ws
unfolding radix total
radix-lt ws [] h = one-le-pow (total ws) 2 (omega arith)
radix-lt [] (i ∷ is) h = absurd h
radix-lt (w ∷ ws) (i ∷ is) h = digit_room w (total ws) i (radix ws is) h.0 (radix-lt ws is h.1)

-- One round of the packing loop appends a digit.
pack_digit :
    (w t hi i : ℕ)
    → w + t ≤ 64
    → i < 2 ^ w
    → bit_or (hi * 2 ^ (w + t)) (shl64 i t) ≡ (hi * 2 ^ w + i) * 2 ^ t
pack_digit w t hi i small h =
    let fits : i * 2 ^ t < 2 ^ (w + t) =
      omega (arith, digit_room w t i 0 h (one-le-pow t 2 (omega arith))) in
    let word : i * 2 ^ t < 2 ^ 64 = le_trans fits (pow-le-pow_right {n = 2} (omega arith) small) in
    let whole : shl64 i t ≡ i * 2 ^ t = mod-eq_of_lt word in
    rw (whole, bit_or_disjoint (w + t) hi (i * 2 ^ t) fits, two_pow-add w t) (omega arith)

pack_from-nil :
    (ws : List ℕ) (hi : ℕ)
    → pack_from (hi * 2 ^ total ws) (fill_shifts ws).0 [] ≡ hi * 2 ^ total ws + radix ws []
unfolding pack_from fill_shifts radix total
pack_from-nil [] hi = omega arith
pack_from-nil (w ∷ ws) hi = omega arith

pack_from-radix :
    (ws ids : List ℕ) (hi : ℕ)
    → total ws ≤ 64
    → Fits ws ids
    → pack_from (hi * 2 ^ total ws) (fill_shifts ws).0 ids ≡ hi * 2 ^ total ws + radix ws ids
unfolding pack_from fill_shifts radix total
pack_from-radix ws [] hi small h = pack_from-nil ws hi
pack_from-radix [] (i ∷ is) hi small h = absurd h
pack_from-radix (w ∷ ws) (i ∷ is) hi small h =
    let tail = pack_from-radix ws is (hi * 2 ^ w + i) (omega arith) h.1 in
    rw
      (fill_shifts-total ws, pack_digit w (total ws) hi i small h.0, tail, two_pow-add w (total ws))
      (omega arith)

-- Packing the index ids of a row with the computed shifts loses nothing and overlaps nowhere.
pub pack_key-radix :
    (ws ids : List ℕ) → total ws ≤ 64 → Fits ws ids → pack_key (fill_shifts ws).0 ids ≡ radix ws ids
unfolding pack_key
pack_key-radix ws ids small h =
    let zero_times : 0 * 2 ^ total ws ≡ 0 = omega arith in
    rw zero_times at (pack_from-radix ws ids 0 small h) ∙ omega arith
