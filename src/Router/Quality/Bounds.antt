-- ===== src/Router/Quality/Bounds.antt =====
-- The values that parseQuality returns.
use rivaas.Prelude.{
  ℕ, zero, suc, ◌+◌, ◌-◌, ◌*◌, ◌/◌, ◌≤◌, ◌<◌, ◌≡◌, ◌||◌, [], ◌∷◌, some, ltb, Bytes, arith, inl, inr,
  Bool-cases,
}
use rivaas.Router.Quality.{decimals, after_first, parse_quality}

-- Three decimals are read as thousandths.
parse_quality-digits :
    (d e f : ℕ)
    → d < 10
    → e < 10
    → f < 10
    → parse_quality (b'0' ∷ b'.' ∷ (d + b'0') ∷ (e + b'0') ∷ (f + b'0') ∷ [])
      ≡ some (d * 100 + e * 10 + f)
unfolding parse_quality
parse_quality-digits d e f hd he hf = ground arith

-- What `n` more digits can add.
weight : ℕ → ℕ → ℕ
weight zero multiplier = 0
weight (suc n) multiplier = 9 * multiplier + weight n (multiplier / 10)

decimals-bound : (n m r q : ℕ) (s : Bytes) → decimals n m r s ≡ some q → q ≤ r + weight n m
unfolding decimals weight
decimals-bound zero m r q s h = ground arith
decimals-bound (suc n) m r q [] h = ground arith
decimals-bound (suc n) m r q (a ∷ s) h = elim (Bool-cases (ltb a b'0' || ltb b'9' a)) [
  | inl bad ↦ absurd (ground arith)
  | inr digit ↦
      let rest = decimals-bound n (m / 10) (r + (a - b'0') * m) q s (ground arith) in
      let small : a - b'0' ≤ 9 = ground arith in grind (arith, rest, small)
]

-- A quality is at most 1.
parse_quality-bound : (s : Bytes) (q : ℕ) → parse_quality s ≡ some q → q ≤ 1000
unfolding parse_quality after_first weight
parse_quality-bound [] q h = absurd (ground arith)
parse_quality-bound (a ∷ []) q h = ground arith
parse_quality-bound (a ∷ b ∷ []) q h = absurd (ground arith)
parse_quality-bound (a ∷ b ∷ c ∷ s) q h = ground (arith, decimals-bound 3 100 0 q (c ∷ s))
