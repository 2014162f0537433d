-- ===== src/Router/Quality.antt =====
-- The quality of an Accept header's part (router/accept.go: parseQuality), in thousandths; `none`
-- is the -1 of the source.
pub mod Bounds
mod Tests
use rivaas.Prelude.{
  ℕ, zero, suc, ◌+◌, ◌-◌, ◌*◌, ◌/◌, Bool, true, false, ◌||◌, not, List, [], ◌∷◌, Option, none, some,
  ◌==◌, ltb, leb, if◌then◌else◌, ◌>>=◌, length, Bytes,
}

unfoldable pub all_zero : Bytes → Bool
all_zero [] = true
all_zero (a ∷ s) = if a == b'0' then all_zero s else false

-- The loop over the decimals, of which `n` are still read.
unfoldable pub decimals : ℕ → ℕ → ℕ → Bytes → Option ℕ
decimals zero multiplier result s = some result
decimals (suc n) multiplier result [] = some result
decimals (suc n) multiplier result (a ∷ s) =
    let rest = decimals n (multiplier / 10) (result + (a - b'0') * multiplier) s in
    if ltb a b'0' || ltb b'9' a then none else rest

-- What follows the first digit: nothing, or a dot and at least one more byte.
unfoldable pub after_first : ℕ → (Bytes → Option ℕ) → Bytes → Option ℕ
after_first whole fraction [] = some whole
after_first whole fraction (b ∷ []) = none
after_first whole fraction (b ∷ c ∷ s) = if b == b'.' then fraction (c ∷ s) else none

unfoldable pub parse_quality : Bytes → Option ℕ
unfolding all_zero decimals after_first
parse_quality [] = none
parse_quality (a ∷ s) =
    if ltb 5 (length (a ∷ s))
    then none
    else if a == b'1'
    then after_first 1000 (λ t. if all_zero t then some 1000 else none) s
    else if a == b'0'
    then after_first 0 (decimals 3 100 0) s
    else none
