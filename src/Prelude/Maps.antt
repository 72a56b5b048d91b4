-- ===== src/Prelude/Maps.antt =====
-- Equality as an interface, Go strings as byte sequences, and Go maps as association lists.
use mathlib.Core.Path.{◌≡◌, refl, ap₂}
use mathlib.Core.Logic.{◌↔◌}
use mathlib.Core.Bool.{Bool, true, false, ◌&&◌}
use mathlib.Core.Option.{Option, none, some}
use mathlib.Core.List.{List, [], ◌∷◌}
use Prim.Native.Nat.{ℕ}
use Prim.Native.Char.{code}
use Prim.Native.String.{String}
use native.Mathlib.Omega.{arith}
use facetta.Prelude.Tests.{◌==◌, ==_iff, if◌then◌else◌}
use facetta.Prelude.Int.{ℤ, eqb_ℤ, eqb_ℤ_iff}

pub record Eq {ℓ} (A : Type ℓ) : Type ℓ where
  pub eqb : A → A → Bool
  pub eqb_iff : (a b : A) → (eqb a b ≡ true) ↔ (a ≡ b)

instance abbrev pub int_eq : Eq ℤ
int_eq = record { eqb = eqb_ℤ; eqb_iff = eqb_ℤ_iff }

-- A Go string: its bytes.
abbrev pub Str : Type 0
Str = List ℕ

-- The bytes of an ASCII literal.
abbrev pub bytes : String → Str
bytes String.[] = []
bytes (String.◌∷◌ c s) = code c ∷ bytes s

abbrev pub eqb_str : Str → Str → Bool
eqb_str [] [] = true
eqb_str [] (b ∷ t) = false
eqb_str (a ∷ s) [] = false
eqb_str (a ∷ s) (b ∷ t) = (a == b) && eqb_str s t

pub eqb_str_sound : (s t : Str) → eqb_str s t ≡ true → s ≡ t
eqb_str_sound [] [] h = refl
eqb_str_sound [] (b ∷ t) h = ground arith
eqb_str_sound (a ∷ s) [] h = ground arith
eqb_str_sound (a ∷ s) (b ∷ t) h =
    ap₂ ◌∷◌ ((==_iff a b).0 (ground arith)) (eqb_str_sound s t (ground arith))

pub eqb_str_refl : (s : Str) → eqb_str s s ≡ true
eqb_str_refl [] = refl
eqb_str_refl (a ∷ s) = rw ((==_iff a a).1 refl) (eqb_str_refl s)

pub eqb_str_iff : (s t : Str) → (eqb_str s t ≡ true) ↔ (s ≡ t)
eqb_str_iff s t = (eqb_str_sound s t, λ e. rw (← e) (eqb_str_refl s))

instance abbrev pub str_eq : Eq Str
str_eq = record { eqb = eqb_str; eqb_iff = eqb_str_iff }

module _ {ℓ κ} {K : Type ℓ} {V : Type κ} ⦃e : Eq K⦄ where
  -- `m[k]`, with the comma-ok form as an option
  abbrev pub find : K → List (K × V) → Option V
  find k [] = none
  find k ((j, v) ∷ m) = if e.eqb j k then some v else find k m

  -- `m[k] = v`: the new entry hides an old one
  abbrev pub put : K → V → List (K × V) → List (K × V)
  put k v m = (k, v) ∷ m
