-- ===== src/Strconv.antt =====
-- The library functions that the package uses on numerals: `strconv.ParseInt(s, 10, 64)` and
-- `strconv.FormatInt(v, 10)`.
pub mod RoundTrip
use facetta.Prelude.{
  ℕ, zero, suc, ◌+◌, ◌-◌, ◌*◌, ◌/◌, ◌%◌, ◌^◌, ◌&&◌, Option, none, some, [], ◌∷◌, ltb, leb, ◌==◌,
  if◌then◌else◌,
}
use facetta.Prelude.Int.{ℤ, pos, negsuc}
use facetta.Prelude.Maps.{Str}

parse_digits : ℕ → Str → Option ℕ
parse_digits n [] = some n
parse_digits n (c ∷ s) =
    if leb b'0' c && leb c b'9' then parse_digits (n * 10 + (c - b'0')) s else none

parse_abs : Str → Option ℕ
unfolding parse_digits
parse_abs [] = none
parse_abs (c ∷ s) = parse_digits 0 (c ∷ s)

signed_pos : Option ℕ → Option ℤ
signed_pos none = none
signed_pos (some n) = if ltb n (2 ^ 63) then some (pos n) else none

signed_neg : Option ℕ → Option ℤ
signed_neg none = none
signed_neg (some zero) = some (pos 0)
signed_neg (some (suc n)) = if ltb n (2 ^ 63) then some (negsuc n) else none

unfoldable pub parse_int : Str → Option ℤ
unfolding parse_abs signed_pos signed_neg
parse_int [] = none
parse_int (c ∷ s) =
    if c == b'-'
    then signed_neg (parse_abs s)
    else if c == b'+'
    then signed_pos (parse_abs s)
    else signed_pos (parse_abs (c ∷ s))

-- decimal digits, most significant first; the fuel is the number itself
format_digits : ℕ → ℕ → Str → Str
format_digits zero n acc = acc
format_digits (suc f) zero acc = acc
format_digits (suc f) (suc n) acc = format_digits f (suc n / 10) ((b'0' + suc n % 10) ∷ acc)

format_nat : ℕ → Str
unfolding format_digits
format_nat zero = b'0' ∷ []
format_nat (suc n) = format_digits (suc n) (suc n) []

unfoldable pub format_int : ℤ → Str
unfolding format_nat
format_int (pos n) = format_nat n
format_int (negsuc n) = b'-' ∷ format_nat (suc n)
