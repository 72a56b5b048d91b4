-- ===== src/Keys/Widths.antt =====
-- The widths that `computeShifts` chooses hold every id of their dictionaries.
use native.Mathlib.Nat.{pow-suc}
use facetta.Prelude.{
  ℕ, zero, suc, ◌-◌, ◌/◌, ◌^◌, ◌≤◌, ◌<◌, ◌≡◌, refl, ap, ◌↔◌, get_or, length-take, List, [], ◌∷◌,
  take, length, arith, leb, Bool-cases, inl, inr,
}
use facetta.Result.{ok}
use facetta.Keys.{
  bit_len_fuel, bit_len, dict_bits, widths, total, fill_shifts, compute_shifts, pack_key,
  key_span_top,
}
use facetta.Keys.Order.{Fits}
use facetta.Keys.Prefix.{AllPos, pack_key-prefix_iff}

lt-bit_len_fuel : (f n : ℕ) → n ≤ f → n < 2 ^ bit_len_fuel f n
unfolding bit_len_fuel
lt-bit_len_fuel zero zero h = omega arith
lt-bit_len_fuel zero (suc n) h = absurd (omega arith)
lt-bit_len_fuel (suc f) zero h = omega arith
lt-bit_len_fuel (suc f) (suc n) h =
    let ih = lt-bit_len_fuel f (suc n / 2) (omega arith) in
    omega (arith, pow-suc 2 (bit_len_fuel f (suc n / 2)))

-- Ids below `n` fit `dictBits(n)` bits.
pub le-dict_bits : (n : ℕ) → n ≤ 2 ^ dict_bits n
unfolding dict_bits bit_len
le-dict_bits n = ground (arith, lt-bit_len_fuel (n - 1) (n - 1) (omega arith))

bit_len_fuel_pos : (f n : ℕ) → 0 < n → n ≤ f → 0 < bit_len_fuel f n
unfolding bit_len_fuel
bit_len_fuel_pos zero n h le = absurd (omega arith)
bit_len_fuel_pos (suc f) zero h le = absurd (omega arith)
bit_len_fuel_pos (suc f) (suc n) h le = omega arith

pub dict_bits_pos : (n : ℕ) → 0 < dict_bits n
unfolding dict_bits bit_len
dict_bits_pos n = elim (Bool-cases (leb n 2)) [
  | inl e ↦ rw e (omega arith)
  | inr e ↦ rw e (bit_len_fuel_pos (n - 1) (n - 1) (ground arith) (omega arith))
]

pub AllPos-widths : (cards : List ℕ) (k : ℕ) → AllPos (widths cards k)
unfolding widths
AllPos-widths cards zero = tt
AllPos-widths [] (suc k) = tt
AllPos-widths (c ∷ cards) (suc k) = (dict_bits_pos c, AllPos-widths cards k)

-- Each id is below the size of its dictionary.
abbrev pub Below : List ℕ → List ℕ → Type 0
Below cards [] = Unit
Below [] (i ∷ is) = ⊥
Below (c ∷ cards) (i ∷ is) = (i < c) × Below cards is

pub Fits-take : (cards ids : List ℕ) (k : ℕ) → Below cards ids → Fits (widths cards k) (take k ids)
unfolding widths
Fits-take cards ids zero h = tt
Fits-take cards [] (suc k) h = tt
Fits-take [] (i ∷ ids) (suc k) h = absurd h
Fits-take (c ∷ cards) (i ∷ ids) (suc k) h =
    (omega (arith, le-dict_bits c, h.0), Fits-take cards ids k h.1)

pub compute_shifts-eq-ok :
    (cards : List ℕ) (k : ℕ) {shifts : List ℕ}
    → compute_shifts cards k ≡ ok shifts
    → (shifts ≡ (fill_shifts (widths cards k)).0) × (total (widths cards k) ≤ 64)
unfolding compute_shifts
compute_shifts-eq-ok cards k h = ground arith

module _ {ℓ} {A : Type ℓ} where
  take-take_le : (n k : ℕ) (l : List A) → n ≤ k → take n (take k l) ≡ take n l
  take-take_le zero k l h = refl
  take-take_le (suc n) zero l h = absurd (omega arith)
  take-take_le (suc n) (suc k) [] h = refl
  take-take_le (suc n) (suc k) (x ∷ l) h = ap (◌∷◌ x) (take-take_le n k l (omega arith))

  take_of_length-le : (k : ℕ) (l : List A) → length l ≤ k → take k l ≡ l
  take_of_length-le zero [] h = refl
  take_of_length-le zero (x ∷ l) h = absurd (omega arith)
  take_of_length-le (suc k) [] h = refl
  take_of_length-le (suc k) (x ∷ l) h = ap (◌∷◌ x) (take_of_length-le k l (omega arith))

-- With the shifts that `computeShifts` returns, and ids below the sizes of their dictionaries, a
-- row's key lies in the interval that the planner computes from a nonempty prefix of index ids
-- exactly when the row's first ids are those of the prefix.
pub prefix_interval :
    (cards : List ℕ) (k : ℕ) (shifts ids : List ℕ) (p : ℕ) (ps : List ℕ)
    → compute_shifts cards k ≡ ok shifts
    → Below cards ids
    → Below cards (p ∷ ps)
    → length (p ∷ ps) ≤ k
    → length (p ∷ ps) ≤ length ids
    → ((pack_key shifts (p ∷ ps) ≤ pack_key shifts (take k ids))
        × (pack_key shifts (take k ids)
            ≤ key_span_top (pack_key shifts (p ∷ ps)) (get_or shifts (length ps) 0)))
      ↔ (take (length (p ∷ ps)) ids ≡ p ∷ ps)
prefix_interval cards k shifts ids p ps computed below prefix short long =
    let (shape, small) = compute_shifts-eq-ok cards k computed in
    let fits : Fits (widths cards k) (p ∷ ps) =
      rw (take_of_length-le k (p ∷ ps) short) at (Fits-take cards (p ∷ ps) k prefix) in
    let law =
      pack_key-prefix_iff (widths cards k) (take k ids) p ps small (Fits-take cards ids k below)
        fits (AllPos-widths cards k) (omega (arith, length-take k ids)) in
    rw (shape, ← take-take_le (length (p ∷ ps)) k ids short) law
