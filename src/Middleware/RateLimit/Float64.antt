-- ===== src/Middleware/RateLimit/Float64.antt =====
-- The numbers of type float64 that the limiters count in. The type and its operations are parameters;
-- IsRounded and IsSharing say what the bounds rely on.
use native.Mathlib.Nat.{mul_assoc, add-mul-div_right, zero-div}
use rivaas.Prelude.{
  ap, ◌∙◌, ℕ, ◌+◌, ◌-◌, ◌*◌, ◌/◌, ◌≤◌, ◌<◌, ◌≡◌, refl, max, Bool, false, le→not_ltb, arith, ltb,
  leb,
}
use rivaas.Prelude.Int.{ℤ, pos, pos_part, ltb_ℤ}

-- float64(n), float64(d) of a duration, Duration.Seconds, the operators, the built-in max, and int(x).
pub record Float64 (W : Type 0) : Type 0 where
  pub of_int : ℤ → W
  pub seconds : ℤ → W
  pub add : W → W → W
  pub sub : W → W → W
  pub mul : W → W → W
  pub div : W → W → W
  pub maximum : W → W → W
  pub greater : W → W → Bool
  pub at_least : W → W → Bool
  pub to_int : W → ℤ

abbrev pub second : ℕ
second = 1000000000

-- Tokens up to `burst`, of which IEEE 754 says, while the burst is below 2 ^ 53: a float64 that is no
-- negative number or NaN is a whole number of units (2 ^ -1074, times 10 ^ -9), and anything else
-- counts as zero; comparisons are by value; a token is taken away exactly; and where the exact sum
-- is within the burst, what is added for `elapsed` nanoseconds, of which each brings `step` units, is
-- rounded up by `slack` units at most.
pub record IsRounded {W : Type 0} (f : Float64 W) (rate burst slack : ℕ) : Type 0 where
  pub value : W → ℕ
  pub unit : ℕ
  pub step : ℕ
  pub unit_positive : 0 < unit
  pub unit_step : unit * rate ≡ second * step
  pub value_burst : value (f.of_int (pos burst)) ≡ burst * unit
  pub greater_burst : (x : W) → f.greater x (f.of_int (pos burst)) ≡ ltb (burst * unit) (value x)
  pub at_least_one : (x : W) → f.at_least x (f.of_int (pos 1)) ≡ leb unit (value x)
  pub sub_one :
      (x : W)
      → unit ≤ value x
      → value x ≤ burst * unit
      → value (f.sub x (f.of_int (pos 1))) + unit ≡ value x
  pub add_elapsed :
      (x : W) (elapsed : ℕ)
      → value x + elapsed * step ≤ burst * unit
      → value (f.add x (f.mul (f.seconds (pos elapsed)) (f.of_int (pos rate))))
        ≤ value x + elapsed * step + slack

-- Shares from 0 to 1, and counts up to `most`: the rest of a window is such a share, and a count to
-- which a share of another is added does not become less.
pub record IsSharing {W : Type 0} (f : Float64 W) (most : ℕ) : Type 1 where
  pub IsShare : W → Type 0
  pub rest-IsShare :
      (elapsed window : ℕ)
      → elapsed ≤ window
      → 0 < window
      → IsShare (
          f.maximum
            (f.of_int (pos 0))
            (f.sub (f.of_int (pos 1)) (f.div (f.of_int (pos elapsed)) (f.of_int (pos window)))))
  pub add_share :
      (a b : ℕ) (x : W)
      → a ≤ most
      → b ≤ most
      → IsShare x
      → ltb_ℤ (f.to_int (f.add (f.of_int (pos a)) (f.mul (f.of_int (pos b)) x))) (pos a) ≡ false

-- The laws can be met: by whole billionths, without a sign.
abbrev pub Billionths : Type 0
Billionths = ℕ

abbrev pub billionths : Float64 Billionths
billionths = record {
  of_int = λ n. pos_part n * second;
  seconds = pos_part;
  add = λ a b. a + b;
  sub = λ a b. a - b;
  mul = λ a b. a * b / second;
  div = λ a b. a * second / b;
  maximum = max;
  greater = λ a b. ltb b a;
  at_least = λ a b. leb b a;
  to_int = λ a. pos (a / second);
}

mul-le-div : (w a b : ℕ) → 0 < w → a ≤ (a * w + b) / w
mul-le-div w a b h = grind arith

not_below : (a y : ℕ) → ltb ((a * second + y) / second + 0) (a + 0) ≡ false
not_below a y = le→not_ltb _ _ (omega (arith, mul-le-div second a y (omega arith)))

pub mul-div : (w a b c : ℕ) → 0 < w → c + a * (b * w) / w ≤ c + a * b + 0
mul-div w a b c h =
    let zero_first : a * (b * w) ≡ 0 + a * b * w = omega (arith, mul_assoc a b w) in
    let whole = ap (λ x. x / w) zero_first ∙ add-mul-div_right 0 (a * b) h in
    omega (arith, whole, zero-div w)

pub billionths-IsSharing : (most : ℕ) → IsSharing billionths most
billionths-IsSharing most = record {
  IsShare = λ x. Unit;
  rest-IsShare = λ elapsed window h k. tt;
  add_share = λ a b x h k l. not_below a (b * second * x / second);
}

abbrev pub billionths-IsRounded : (rate burst : ℕ) → IsRounded billionths rate burst 0
billionths-IsRounded rate burst = record {
  value = λ x. x;
  unit = second;
  step = rate;
  unit_positive = omega arith;
  unit_step = refl;
  value_burst = refl;
  greater_burst = λ x. refl;
  at_least_one = λ x. refl;
  sub_one = λ x h k. omega arith;
  add_elapsed = λ x elapsed h. mul-div second elapsed rate x (omega arith);
}
