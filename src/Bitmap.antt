-- ===== src/Bitmap.antt =====
-- view.go: bitmaps over rows and ids, in 64-bit words.
pub mod Laws
use Prim.Native.Nat.{bit_or, bit_and}
use facetta.Prelude.{
  ℕ, ◌+◌, ◌/◌, ◌%◌, ◌^◌, Bool, true, false, ◌&&◌, List, length, get_or, set, replicate, not, ltb,
  ◌==◌,
}

unfoldable pub bit_get : List ℕ → ℕ → Bool
bit_get b i = ltb (i / 64) (length b) && not (bit_and (get_or b (i / 64) 0) (2 ^ (i % 64)) == 0)

-- `b[i>>6] |= 1 << (i & 63)`; the word is there at every call
unfoldable pub bit_set : List ℕ → ℕ → List ℕ
bit_set b i = set b (i / 64) (bit_or (get_or b (i / 64) 0) (2 ^ (i % 64)))

-- `make([]uint64, (n+63)/64)`
unfoldable pub make_bitmap : ℕ → List ℕ
make_bitmap n = replicate ((n + 63) / 64) 0
