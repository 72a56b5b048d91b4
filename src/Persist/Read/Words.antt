-- ===== src/Persist/Read/Words.antt =====
-- persist.go: a reader gets back what the writer wrote, for words and sequences.
use facetta.Prelude.{
  ℕ, zero, suc, ◌-◌, ◌*◌, ◌/◌, ◌%◌, ◌^◌, ◌≤◌, ◌<◌, ◌≡◌, refl, ap, ◌∙◌, true, false, List, [], ◌∷◌,
  ◌++◌, length, drop, ltb, arith, length-append, take-append, drop-append,
}
use native.Mathlib.Nat.{pow-suc}
use facetta.Prelude.Int.{ℤ, pos, negsuc}
use facetta.Result.{ok}
use facetta.Strconv.RoundTrip.{IsInt64}
use facetta.Persist.{le_word, uint64, concat_map}
use facetta.Persist.Read.{Reader, rd, le_value, rd_word, rd_seq, int64}

-- The reader takes these bytes off the front, whatever follows, and returns the value.
abbrev pub Reads {ℓ} : {A : Type ℓ} → Reader A → List ℕ → A → Type ℓ
Reads r bytes a = (rest : List ℕ) → r (bytes ++ rest) ≡ ok (a, rest)

pub append_assoc {ℓ} : {A : Type ℓ} (a b c : List A) → (a ++ b) ++ c ≡ a ++ (b ++ c)
append_assoc [] b c = refl
append_assoc (x ∷ a) b c = ap (◌∷◌ x) (append_assoc a b c)

pub rd-append : (n : ℕ) (b : List ℕ) → length b ≡ n → Reads (rd n) b b
unfolding rd
rd-append n b h rest =
    let long : ltb (length (b ++ rest)) n ≡ false = ground (arith, length-append b rest) in
    let behind : drop n (b ++ rest) ≡ rest =
      ap (λ k. drop k (b ++ rest)) (omega arith) ∙ drop-append n 0 b rest h in
    rw (long, take-append n b rest h, behind) refl

pub length-le_word : (n v : ℕ) → length (le_word n v) ≡ n
unfolding le_word
length-le_word zero v = refl
length-le_word (suc n) v = ap suc (length-le_word n (v / 256))

pub le_value-le_word : (n v : ℕ) → v < 256 ^ n → le_value (le_word n v) ≡ v
unfolding le_value le_word
le_value-le_word zero v h = let one : 256 ^ 0 ≡ 1 = refl in omega arith
le_value-le_word (suc n) v h =
    let small : v / 256 < 256 ^ n =
      let power : 256 ^ suc n ≡ 256 ^ n * 256 = pow-suc 256 n in omega arith in
    omega (arith, le_value-le_word n (v / 256) small)

pub rd_word-le_word : (n v : ℕ) → v < 256 ^ n → Reads (rd_word n) (le_word n v) v
unfolding rd_word
rd_word-le_word n v h rest =
    rw (rd-append n (le_word n v) (length-le_word n v) rest, le_value-le_word n v h) refl

pub int64-uint64 : (z : ℤ) → IsInt64 z → int64 (uint64 z) ≡ z
unfolding int64 uint64
int64-uint64 (pos n) h =
    let upper : n < 2 ^ 63 = h.upper in
    let word : n % 2 ^ 64 ≡ n = omega arith in
    let test : ltb n (2 ^ 63) ≡ true = ground arith in rw (word, test) refl
int64-uint64 (negsuc n) h =
    let lower : suc n ≤ 2 ^ 63 = h.lower in
    let word : n % 2 ^ 64 ≡ n = omega arith in
    let test : ltb (2 ^ 64 - 1 - n) (2 ^ 63) ≡ false = ground arith in
    let back : 2 ^ 64 - 1 - (2 ^ 64 - 1 - n) ≡ n = omega arith in rw (word, test, back) refl

pub uint64-lt : (z : ℤ) → uint64 z < 2 ^ 64
unfolding uint64
uint64-lt (pos n) = omega arith
uint64-lt (negsuc n) = omega arith

-- Each reader takes what was written for one value.
abbrev pub ReadsEach : {X A : Type 0} → (X → List ℕ) → List (Reader A) → List X → List A → Type 0
ReadsEach write [] [] [] = Unit
ReadsEach write (r ∷ rs) (x ∷ xs) (a ∷ as') = Reads r (write x) a × ReadsEach write rs xs as'
ReadsEach write rs xs as' = ⊥

pub rd_seq-ReadsEach :
    {X A : Type 0} (write : X → List ℕ) (rs : List (Reader A)) (xs : List X) (as' : List A)
    → ReadsEach write rs xs as'
    → Reads (rd_seq rs) (concat_map write xs) as'
unfolding rd_seq concat_map
rd_seq-ReadsEach write [] [] [] h rest = refl
rd_seq-ReadsEach write [] [] (a ∷ as') h rest = absurd h
rd_seq-ReadsEach write [] (x ∷ xs) as' h rest = absurd h
rd_seq-ReadsEach write (r ∷ rs) [] as' h rest = absurd h
rd_seq-ReadsEach write (r ∷ rs) (x ∷ xs) [] h rest = absurd h
rd_seq-ReadsEach write (r ∷ rs) (x ∷ xs) (a ∷ as') h rest =
    rw
      (
        append_assoc (write x) (concat_map write xs) rest,
        h.0 (concat_map write xs ++ rest),
        rd_seq-ReadsEach write rs xs as' h.1 rest,
      )
      refl

pub append_nil {ℓ} : {A : Type ℓ} (a : List A) → a ++ [] ≡ a
append_nil [] = refl
append_nil (x ∷ a) = ap (◌∷◌ x) (append_nil a)
