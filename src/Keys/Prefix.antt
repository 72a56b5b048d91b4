-- ===== src/Keys/Prefix.antt =====
-- A prefix of the index dimensions is an interval of packed keys (the bounds `lo64` and `hi64` of
-- `plan` and `planExpand` in query.go).
use mathlib.Core.Path.{ap₂}
use native.Mathlib.Decide.{dec_lt}
use native.Mathlib.Nat.{one-le-pow, pow-le-pow_right}
use facetta.Prelude.{
  ℕ, suc, ◌+◌, ◌-◌, ◌*◌, ◌%◌, ◌^◌, ◌≤◌, ◌<◌, ◌≡◌, ◌↔◌, refl, List, [], ◌∷◌, take, length, get_or,
  arith,
}
use facetta.Prelude.Bits.{bit_or_disjoint}
use facetta.Keys.{total, fill_shifts, pack_key, shl64, key_span_top}
use facetta.Keys.Order.{Fits, radix, radix-lt, two_pow-add, fill_shifts-total, pack_key-radix}

-- The bits below the last dimension of a prefix.
pub span : List ℕ → List ℕ → ℕ
span ws [] = total ws
span [] (p ∷ ps) = 0
span (w ∷ ws) (p ∷ ps) = span ws ps

span-le-total : (ws ps : List ℕ) → Fits ws ps → (t : ℕ) × (total ws ≡ t + span ws ps)
unfolding span total
span-le-total ws [] h = (0, omega arith)
span-le-total [] (p ∷ ps) h = absurd h
span-le-total (w ∷ ws) (p ∷ ps) h = let (t, e) = span-le-total ws ps h.1 in (w + t, omega arith)

-- Below the key of a prefix there are `span` zero bits.
radix_prefix : (ws ps : List ℕ) → Fits ws ps → (q : ℕ) × (radix ws ps ≡ q * 2 ^ span ws ps)
unfolding span radix
radix_prefix ws [] h = (0, omega arith)
radix_prefix [] (p ∷ ps) h = absurd h
radix_prefix (w ∷ ws) (p ∷ ps) h =
    let (q, e) = radix_prefix ws ps h.1 in
    let (t, room) = span-le-total ws ps h.1 in
    (p * 2 ^ t + q, rw (room, two_pow-add t (span ws ps), e) (omega arith))

mul_step : (q m s : ℕ) → q * s < m * s → q * s + s ≤ m * s
mul_step q m s h = elim (dec_lt q m) [ yes p ↦ grind arith | no p ↦ absurd (grind arith) ]

-- The keys of a prefix end where a key of all the dimensions ends, or before.
prefix_room : (ws ps : List ℕ) → Fits ws ps → radix ws ps + 2 ^ span ws ps ≤ 2 ^ total ws
prefix_room ws ps h =
    let (q, e) = radix_prefix ws ps h in
    let (t, room) = span-le-total ws ps h in
    let whole : 2 ^ total ws ≡ 2 ^ t * 2 ^ span ws ps = rw room (two_pow-add t (span ws ps)) in
    omega (
      arith,
      whole,
      e,
      mul_step q (2 ^ t) (2 ^ span ws ps) (omega (arith, whole, e, radix-lt ws ps h)),
    )

-- The key of a row lies in the interval of a prefix.
abbrev pub InPrefix : List ℕ → List ℕ → List ℕ → Type 0
InPrefix ws ps ids = (radix ws ps ≤ radix ws ids) × (radix ws ids < radix ws ps + 2 ^ span ws ps)

prefix→interval :
    (ws ids ps : List ℕ)
    → Fits ws ids
    → Fits ws ps
    → length ps ≤ length ids
    → take (length ps) ids ≡ ps
    → InPrefix ws ps ids
unfolding span radix
prefix→interval ws ids [] fi fp len e = (omega arith, omega (arith, radix-lt ws ids fi))
prefix→interval ws [] (p ∷ ps) fi fp len e = absurd (omega arith)
prefix→interval [] (i ∷ ids) (p ∷ ps) fi fp len e = absurd fp
prefix→interval (w ∷ ws) (i ∷ ids) (p ∷ ps) fi fp len e =
    let same : i ≡ p = cc in
    let tail : take (length ps) ids ≡ ps = cc in
    let (lo, hi) = prefix→interval ws ids ps fi.1 fp.1 (omega arith) tail in
    rw same (omega arith, omega arith)

-- Leading digits of two numbers that lie closer than one unit of the leading digit.
digit_eq :
    (p i t a b s : ℕ)
    → p * t + a ≤ i * t + b
    → i * t + b < p * t + a + s
    → b < t
    → a + s ≤ t
    → i ≡ p
digit_eq p i t a b s lo hi hb room = elim (dec_lt i p) [
  | yes less ↦ let step : suc i * t ≤ p * t = grind arith in absurd (omega arith)
  | no not_less ↦ elim (dec_lt p i) [
    | yes more ↦ let step : suc p * t ≤ i * t = grind arith in absurd (omega arith)
    | no not_more ↦ omega arith
  ]
]

interval→prefix :
    (ws ids ps : List ℕ)
    → Fits ws ids
    → Fits ws ps
    → length ps ≤ length ids
    → InPrefix ws ps ids
    → take (length ps) ids ≡ ps
unfolding span radix
interval→prefix ws ids [] fi fp len e = refl
interval→prefix ws [] (p ∷ ps) fi fp len e = absurd (omega arith)
interval→prefix [] (i ∷ ids) (p ∷ ps) fi fp len e = absurd fp
interval→prefix (w ∷ ws) (i ∷ ids) (p ∷ ps) fi fp len e =
    let same : i ≡ p =
      digit_eq p i (2 ^ total ws) (radix ws ps) (radix ws ids) (2 ^ span ws ps) (omega arith)
        (omega arith) (radix-lt ws ids fi.1) (prefix_room ws ps fp.1) in
    let lead : i * 2 ^ total ws ≡ p * 2 ^ total ws = rw same in
    ap₂ ◌∷◌ same (interval→prefix ws ids ps fi.1 fp.1 (omega arith) (omega arith, omega arith))

-- Every width is positive.
abbrev pub AllPos : List ℕ → Type 0
AllPos [] = Unit
AllPos (w ∷ ws) = (0 < w) × AllPos ws

span-lt-total :
    (ws : List ℕ) (p : ℕ) (ps : List ℕ) → AllPos ws → Fits ws (p ∷ ps) → span ws (p ∷ ps) < total ws
unfolding span total
span-lt-total [] p ps pos h = absurd h
span-lt-total (w ∷ ws) p [] pos h = omega arith
span-lt-total (w ∷ ws) p (q ∷ ps) pos h = omega (arith, span-lt-total ws q ps pos.1 h.1)

-- The shift of the last dimension of a prefix.
last_shift :
    (ws : List ℕ) (p : ℕ) (ps : List ℕ)
    → Fits ws (p ∷ ps)
    → get_or (fill_shifts ws).0 (length ps) 0 ≡ span ws (p ∷ ps)
unfolding span fill_shifts
last_shift [] p ps h = absurd h
last_shift (w ∷ ws) p [] h = fill_shifts-total ws
last_shift (w ∷ ws) p (q ∷ ps) h = last_shift ws q ps h.1

-- `hi64` of a prefix is the last key of its interval.
key_span_top-radix :
    (ws ps : List ℕ)
    → Fits ws ps
    → span ws ps < 64
    → key_span_top (radix ws ps) (span ws ps) + 1 ≡ radix ws ps + 2 ^ span ws ps
unfolding key_span_top
key_span_top-radix ws ps h small =
    let s = span ws ps in
    let one = one-le-pow s 2 (omega arith) in
    let grows : 2 ^ s ≤ 2 ^ 63 = pow-le-pow_right {n = 2} (omega arith) {j = 63} (omega arith) in
    let word : shl64 1 s ≡ 2 ^ s = omega arith in
    let mask : (2 ^ s + (2 ^ 64 - 1)) % 2 ^ 64 ≡ 2 ^ s - 1 = omega arith in
    let (q, e) = radix_prefix ws ps h in
    rw (word, mask, e, bit_or_disjoint s q (2 ^ s - 1) (omega arith)) (omega arith)

-- With positive widths within 64 bits, a row's key lies between `lo64` and `hi64` of a nonempty
-- prefix of index ids exactly when the row has those ids.
pub pack_key-prefix_iff :
    (ws ids : List ℕ) (p : ℕ) (ps : List ℕ)
    → total ws ≤ 64
    → Fits ws ids
    → Fits ws (p ∷ ps)
    → AllPos ws
    → length ps < length ids
    → ((pack_key (fill_shifts ws).0 (p ∷ ps) ≤ pack_key (fill_shifts ws).0 ids)
        × (pack_key (fill_shifts ws).0 ids
            ≤ key_span_top
                (pack_key (fill_shifts ws).0 (p ∷ ps))
                (get_or (fill_shifts ws).0 (length ps) 0)))
      ↔ (take (suc (length ps)) ids ≡ p ∷ ps)
pack_key-prefix_iff ws ids p ps small fi fp pos len =
    let bits = span-lt-total ws p ps pos fp in
    let top = key_span_top-radix ws (p ∷ ps) fp (omega arith) in
    rw (last_shift ws p ps fp, pack_key-radix ws ids small fi, pack_key-radix ws (p ∷ ps) small fp)
      (
        λ h. interval→prefix ws ids (p ∷ ps) fi fp len (h.0, omega arith),
        λ e. let (lo, hi) = prefix→interval ws ids (p ∷ ps) fi fp len e in (lo, omega arith),
      )
