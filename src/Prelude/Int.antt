-- ===== src/Prelude/Int.antt =====
-- Go's `int` as an integer: the program only compares and prints its settings, and never adds them.
use Prim.Native.Nat.{ℕ, ◌≤◌}
use mathlib.Core.Path.{◌≡◌, refl}
use mathlib.Core.Bool.{Bool, true, false, ◌||◌}
use native.Mathlib.Omega.{arith}
use hamara_tunnel.Prelude.Tests.{ltb, eqb}

-- `negsuc n` is -(n + 1).
pub data ℤ : Type 0 where
  pos : ℕ → ℤ
  negsuc : ℕ → ℤ

abbrev pub eqb_ℤ : ℤ → ℤ → Bool
eqb_ℤ (pos a) (pos b) = eqb a b
eqb_ℤ (negsuc a) (negsuc b) = eqb a b
eqb_ℤ _ _ = false

-- `n < lo || n > hi`, for bounds that are not negative
abbrev pub outside : ℕ → ℕ → ℤ → Bool
outside lo hi (pos n) = ltb n lo || ltb hi n
outside lo hi (negsuc n) = true

-- `n` is a number from `lo` to `hi`.
abbrev pub InRange : ℕ → ℕ → ℤ → Type 0
InRange lo hi z = (n : ℕ) × (z ≡ pos n) × (lo ≤ n) × (n ≤ hi)

pub outside-eq-false : (lo hi : ℕ) (z : ℤ) → outside lo hi z ≡ false → InRange lo hi z
outside-eq-false lo hi (pos n) h = (n, refl, ground arith, ground arith)
outside-eq-false lo hi (negsuc n) h = cc

pub eqb_ℤ-eq : (a b : ℤ) → eqb_ℤ a b ≡ true → a ≡ b
eqb_ℤ-eq (pos a) (pos b) h = ground arith
eqb_ℤ-eq (negsuc a) (negsuc b) h = ground arith
eqb_ℤ-eq (pos a) (negsuc b) h = cc
eqb_ℤ-eq (negsuc a) (pos b) h = cc
