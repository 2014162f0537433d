-- ===== src/Prelude/Bits.antt =====
-- Setting a bit of a word with `|` and testing it with `&`, at every position.
use Prim.Native.Nat.{
  ℕ, zero, suc, ◌+◌, ◌*◌, ◌/◌, ◌%◌, ◌^◌, ◌≤◌, min, max, bit_and, bit_or, digits, bit_and-bitwise,
  bit_or-bitwise,
}
use native.Mathlib.Nat.{pow-suc}
use mathlib.Core.Path.{◌≡◌, refl, ap}
use mathlib.Core.Logic.{◌≢◌}
use native.Mathlib.Omega.{arith}

-- The fuel of the digit recursion does not matter, once there is enough.
enough_digits :
    (base : ℕ → ℕ) (digit : ℕ → ℕ → ℕ) (n m x y : ℕ)
    → x ≤ n
    → x ≤ m
    → digits base digit n x y ≡ digits base digit m x y
enough_digits base digit zero zero x y h k = refl
enough_digits base digit zero (suc m) zero y h k = refl
enough_digits base digit zero (suc m) (suc x) y h k = absurd (omega arith)
enough_digits base digit (suc n) zero zero y h k = refl
enough_digits base digit (suc n) zero (suc x) y h k = absurd (omega arith)
enough_digits base digit (suc n) (suc m) zero y h k = refl
enough_digits base digit (suc n) (suc m) (suc x) y h k =
    ap (λ (d : ℕ). d * 2 + digit (suc x % 2) (y % 2))
      (enough_digits base digit n m (suc x / 2) (y / 2) (omega arith) (omega arith))

and_low : (x y : ℕ) → bit_and x y ≡ bit_and (x / 2) (y / 2) * 2 + min (x % 2) (y % 2)
and_low zero y = omega (arith, bit_and-bitwise 0 y, bit_and-bitwise 0 (y / 2))
and_low (suc x) y = omega (
  arith,
  bit_and-bitwise (suc x) y,
  bit_and-bitwise (suc x / 2) (y / 2),
  enough_digits (λ _. zero) min x (suc x / 2) (suc x / 2) (y / 2) (omega arith) (omega arith),
)

or_low : (x y : ℕ) → bit_or x y ≡ bit_or (x / 2) (y / 2) * 2 + max (x % 2) (y % 2)
or_low zero y = omega (arith, bit_or-bitwise 0 y, bit_or-bitwise 0 (y / 2))
or_low (suc x) y = omega (
  arith,
  bit_or-bitwise (suc x) y,
  bit_or-bitwise (suc x / 2) (y / 2),
  enough_digits (λ d. d) max x (suc x / 2) (suc x / 2) (y / 2) (omega arith) (omega arith),
)

and_nothing : (n x : ℕ) → x ≤ n → bit_and x 0 ≡ 0
and_nothing n zero h = bit_and-bitwise 0 0
and_nothing zero (suc x) h = absurd (omega arith)
and_nothing (suc n) (suc x) h =
    omega (arith, and_low (suc x) 0, and_nothing n (suc x / 2) (omega arith))

-- The lowest bit.
and_one : (x : ℕ) → bit_and x 1 ≡ x % 2
and_one x = omega (arith, and_low x 1, and_nothing (x / 2) (x / 2) (omega arith))

half : (m : ℕ) → m * 2 / 2 ≡ m
half m = omega arith

and_double : (x m : ℕ) → bit_and x (m * 2) ≡ bit_and (x / 2) m * 2
and_double x m = omega (arith, and_low x (m * 2), ap (bit_and (x / 2)) (half m))

or_half : (x y : ℕ) → bit_or x y / 2 ≡ bit_or (x / 2) (y / 2)
or_half x y = omega (arith, or_low x y)

twice_pow : (k : ℕ) → 2 ^ suc k ≡ 2 ^ k * 2
twice_pow k = pow-suc 2 k

abbrev HasBit : ℕ → ℕ → Type 0
HasBit w k = bit_and w (2 ^ k) ≢ 0

HasBit-suc : (w k : ℕ) → HasBit (w / 2) k → HasBit w (suc k)
HasBit-suc w k h e = h (omega (arith, and_double w (2 ^ k), ap (bit_and w) (twice_pow k)))

HasBit-half : (w k : ℕ) → HasBit w (suc k) → HasBit (w / 2) k
HasBit-half w k h e = h (omega (arith, and_double w (2 ^ k), ap (bit_and w) (twice_pow k)))

-- The bit that was set is set.
pub bit_or-sets : (k w : ℕ) → bit_and (bit_or w (2 ^ k)) (2 ^ k) ≢ 0
bit_or-sets zero w = omega (arith, and_low (bit_or w 1) 1, or_low w 1)
bit_or-sets (suc k) w =
    HasBit-suc (bit_or w (2 ^ suc k)) k
      (rw (or_half w (2 ^ suc k), twice_pow k, half (2 ^ k)) (bit_or-sets k (w / 2)))

-- A bit that was set before stays set.
pub bit_or-keeps : (k w v : ℕ) → bit_and w (2 ^ k) ≢ 0 → bit_and (bit_or w v) (2 ^ k) ≢ 0
bit_or-keeps zero w v h = omega (arith, and_one w, and_one (bit_or w v), or_low w v)
bit_or-keeps (suc k) w v h =
    HasBit-suc (bit_or w v) k
      (rw (or_half w v) (bit_or-keeps k (w / 2) (v / 2) (HasBit-half w k h)))
