-- ===== src/Codec.antt =====
-- What the snapshot file takes from the standard library: CRC-32C (hash/crc32), FNV-1a (hash/fnv)
-- and the bits of a float64 (math). All are parameters.
use facetta.Prelude.{ℕ, ◌^◌, ◌<◌, ◌≡◌, List}

pub record Hashes : Type 0 where
  pub crc : List ℕ → ℕ
  pub fnv : List ℕ → ℕ

-- The hashes are words.
pub record IsHashes ⦃hs : Hashes⦄ : Type 0 where
  pub crc-lt : (b : List ℕ) → hs.crc b < 2 ^ 32
  pub fnv-lt : (b : List ℕ) → hs.fnv b < 2 ^ 64

pub record FloatBits (F : Type 0) : Type 0 where
  pub to_bits : F → ℕ
  pub of_bits : ℕ → F

-- The bits are a word, and give the number back.
pub record IsFloatBits (F : Type 0) ⦃fb : FloatBits F⦄ : Type 0 where
  pub to_bits-lt : (x : F) → fb.to_bits x < 2 ^ 64
  pub of_bits-to_bits : (x : F) → fb.of_bits (fb.to_bits x) ≡ x
