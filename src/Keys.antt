-- ===== src/Keys.antt =====
-- snapshot.go: the bit widths of the index dimensions and the packed index key.
pub mod Order
pub mod Prefix
pub mod Widths
use Prim.Native.Nat.{bit_or}
use facetta.Prelude.{
  ℕ, zero, suc, ◌+◌, ◌-◌, ◌*◌, ◌/◌, ◌%◌, ◌^◌, List, [], ◌∷◌, map, take, ltb, leb, if◌then◌else◌,
}
use facetta.Result.{Result, ok, err, key_overflow}

-- `bits.Len`; the fuel is the number itself
bit_len_fuel : ℕ → ℕ → ℕ
bit_len_fuel zero n = 0
bit_len_fuel (suc f) zero = 0
bit_len_fuel (suc f) (suc n) = suc (bit_len_fuel f (suc n / 2))

unfoldable pub bit_len : ℕ → ℕ
unfolding bit_len_fuel
bit_len n = bit_len_fuel n n

unfoldable pub dict_bits : ℕ → ℕ
unfolding bit_len
dict_bits n = if leb n 2 then 1 else bit_len (n - 1)

unfoldable pub total : List ℕ → ℕ
total [] = 0
total (w ∷ ws) = w + total ws

-- The loop runs from the last dimension to the first: the shifts and the sum of the widths so far.
pub fill_shifts : List ℕ → List ℕ × ℕ
fill_shifts [] = ([], 0)
fill_shifts (w ∷ ws) = let (shifts, s) = fill_shifts ws in (s ∷ shifts, s + w)

pub widths : List ℕ → ℕ → List ℕ
unfolding dict_bits
widths cards index_dims = map dict_bits (take index_dims cards)

unfoldable pub compute_shifts : List ℕ → ℕ → Result (List ℕ)
unfolding widths total fill_shifts
compute_shifts cards index_dims =
    let ws = widths cards index_dims in
    if ltb 64 (total ws) then err key_overflow else ok (fill_shifts ws).0

-- `uint64(a) << s`
abbrev pub shl64 : ℕ → ℕ → ℕ
shl64 a s = (a * 2 ^ s) % 2 ^ 64

pub pack_from : ℕ → List ℕ → List ℕ → ℕ
pack_from k [] ids = k
pack_from k (sh ∷ shifts) [] = k
pack_from k (sh ∷ shifts) (id ∷ ids) = pack_from (bit_or k (shl64 id sh)) shifts ids

unfoldable pub pack_key : List ℕ → List ℕ → ℕ
unfolding pack_from
pack_key shifts ids = pack_from 0 shifts ids

-- `lo | ((uint64(1) << s) - 1)`: the largest key with the bits of `lo` above bit `s`
pub key_span_top : ℕ → ℕ → ℕ
key_span_top lo s = bit_or lo ((shl64 1 s + (2 ^ 64 - 1)) % 2 ^ 64)
