-- ===== src/Strconv/RoundTrip.antt =====
-- `strconv.ParseInt` reads back what `strconv.FormatInt` writes.
use native.Mathlib.Nat.{pow-suc}
use facetta.Prelude.{
  length, ℕ, zero, suc, ◌+◌, ◌-◌, ◌*◌, ◌/◌, ◌%◌, ◌^◌, ◌≤◌, ◌<◌, ◌≡◌, refl, ap, ◌∙◌, true, false,
  ◌&&◌, some, [], ◌∷◌, ltb, leb, ◌==◌, arith,
}
use facetta.Prelude.Int.{ℤ, pos, negsuc, pos_part, neg_part}
use facetta.Prelude.Maps.{Str}
use facetta.Strconv.{
  parse_digits, parse_abs, signed_pos, signed_neg, parse_int, format_digits, format_nat, format_int,
}

-- The values of Go's int64.
pub record IsInt64 (z : ℤ) : Type 0 where
  pub upper : pos_part z < 2 ^ 63
  pub lower : neg_part z ≤ 2 ^ 63

parse_digits-digit :
    (m d : ℕ) (s : Str) → d < 10 → parse_digits m ((b'0' + d) ∷ s) ≡ parse_digits (m * 10 + d) s
unfolding parse_digits
parse_digits-digit m d s h =
    let test : (leb b'0' (b'0' + d) && leb (b'0' + d) b'9') ≡ true = ground arith in
    let value : b'0' + d - b'0' ≡ d = omega arith in rw (test, value) refl

parse_digits-format_digits :
    (f n : ℕ) (acc : Str) → n ≤ f → parse_digits 0 (format_digits f n acc) ≡ parse_digits n acc
unfolding format_digits
parse_digits-format_digits zero zero acc h = refl
parse_digits-format_digits zero (suc n) acc h = absurd (omega arith)
parse_digits-format_digits (suc f) zero acc h = refl
parse_digits-format_digits (suc f) (suc n) acc h =
    parse_digits-format_digits f (suc n / 10) ((b'0' + suc n % 10) ∷ acc) (omega arith)
    ∙ parse_digits-digit (suc n / 10) (suc n % 10) acc (omega arith)
    ∙ ap (λ m. parse_digits m acc) (omega arith)

-- A text that starts with a digit.
abbrev Numeral : Str → Type 0
Numeral [] = ⊥
Numeral (c ∷ s) = (b'0' ≤ c) × (c ≤ b'9')

format_digits-Numeral : (f n : ℕ) (acc : Str) → Numeral acc → Numeral (format_digits f n acc)
unfolding format_digits
format_digits-Numeral zero n acc h = h
format_digits-Numeral (suc f) zero acc h = h
format_digits-Numeral (suc f) (suc n) acc h =
    format_digits-Numeral f (suc n / 10) ((b'0' + suc n % 10) ∷ acc) (omega arith)

format_nat-Numeral : (n : ℕ) → Numeral (format_nat n)
unfolding format_nat format_digits
format_nat-Numeral zero = omega arith
format_nat-Numeral (suc n) =
    format_digits-Numeral n (suc n / 10) ((b'0' + suc n % 10) ∷ []) (omega arith)

parse_abs-Numeral : (s : Str) → Numeral s → parse_abs s ≡ parse_digits 0 s
unfolding parse_abs
parse_abs-Numeral [] h = absurd h
parse_abs-Numeral (c ∷ s) h = refl

parse_int-Numeral : (s : Str) → Numeral s → parse_int s ≡ signed_pos (parse_abs s)
unfolding parse_int
parse_int-Numeral [] h = absurd h
parse_int-Numeral (c ∷ s) h =
    let minus : (c == b'-') ≡ false = ground arith in
    let plus : (c == b'+') ≡ false = ground arith in rw (minus, plus) refl

parse_digits-format_nat : (n : ℕ) → parse_digits 0 (format_nat n) ≡ some n
unfolding format_nat parse_digits
parse_digits-format_nat zero = refl
parse_digits-format_nat (suc n) = parse_digits-format_digits (suc n) (suc n) [] (omega arith)

parse_abs-format_nat : (n : ℕ) → parse_abs (format_nat n) ≡ some n
parse_abs-format_nat n =
    parse_abs-Numeral (format_nat n) (format_nat-Numeral n) ∙ parse_digits-format_nat n

signed_neg-suc : (n : ℕ) → suc n ≤ 2 ^ 63 → signed_neg (some (suc n)) ≡ some (negsuc n)
unfolding signed_neg
signed_neg-suc n h = ground arith

-- For every int64, `ParseInt` of what `FormatInt` writes is the number.
pub parse_int-format_int : (z : ℤ) → IsInt64 z → parse_int (format_int z) ≡ some z
unfolding format_int signed_pos parse_int
parse_int-format_int (pos n) h =
    parse_int-Numeral (format_nat n) (format_nat-Numeral n)
    ∙ ap signed_pos (parse_abs-format_nat n)
    ∙ rw (small n h.upper) refl
  where
    small : (n : ℕ) → n < 2 ^ 63 → ltb n (2 ^ 63) ≡ true
    small n h = ground arith
parse_int-format_int (negsuc n) h =
    ap signed_neg (parse_abs-format_nat (suc n)) ∙ signed_neg-suc n h.lower

-- A number below 10^k has at most `k` digits.
length-format_digits :
    (k f n : ℕ) (acc : Str) → n < 10 ^ k → length (format_digits f n acc) ≤ k + length acc
unfolding format_digits
length-format_digits k zero n acc h = omega arith
length-format_digits k (suc f) zero acc h = omega arith
length-format_digits zero (suc f) (suc n) acc h =
    let power : 10 ^ 0 ≡ 1 = refl in absurd (omega arith)
length-format_digits (suc k) (suc f) (suc n) acc h =
    let power : 10 ^ suc k ≡ 10 ^ k * 10 = pow-suc 10 k in
    let fewer : suc n / 10 < 10 ^ k = omega arith in
    omega (arith, length-format_digits k f (suc n / 10) ((b'0' + suc n % 10) ∷ acc) fewer)

length-format_nat : (n : ℕ) → n < 10 ^ 19 → length (format_nat n) ≤ 19
unfolding format_nat
length-format_nat zero h = omega arith
length-format_nat (suc n) h = omega (arith, length-format_digits 19 (suc n) (suc n) [] h)

-- An int64 is written in at most 20 bytes.
pub length-format_int : (z : ℤ) → IsInt64 z → length (format_int z) ≤ 20
unfolding format_int
length-format_int (pos n) h =
    let upper : n < 2 ^ 63 = h.upper in omega (arith, length-format_nat n (omega arith))
length-format_int (negsuc n) h =
    let lower : suc n ≤ 2 ^ 63 = h.lower in omega (arith, length-format_nat (suc n) (omega arith))
