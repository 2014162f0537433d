-- ===== src/Middleware/RateLimit/TokenBucket/Paid.antt =====
-- What a bucket has left and what it has let through.
use native.Mathlib.Nat.{mul-le-mul_right, add-mul}
use rivaas.Prelude.{
  ℕ, suc, ◌+◌, ◌*◌, ◌≤◌, ◌<◌, ◌≡◌, refl, Bool, true, false, Option, none, some, arith, ltb→lt, ltb,
  leb, sym, ap, ◌∙◌, ◌-◌, Bool-cases, inl, inr,
}
use rivaas.Prelude.Int.{pos, sub_ℕ}
use rivaas.Middleware.RateLimit.Float64.{Float64, IsRounded, second}
use rivaas.Middleware.RateLimit.TokenBucket.{Bucket, cap, refill, spend, entry_or_full}

unfoldable pub count_if : Bool → ℕ → ℕ
count_if true n = suc n
count_if false n = n

not_ltb→le : {a b : ℕ} → ltb a b ≡ false → b ≤ a
not_ltb→le h = ground arith

leb→le : {a b : ℕ} → leb a b ≡ true → a ≤ b
leb→le h = ground arith

not_leb→lt : {a b : ℕ} → leb a b ≡ false → b < a
not_leb→lt h = ground arith

pub sub_ℕ_le : (a b : ℕ) → a ≤ b → sub_ℕ b a ≡ pos (b - a)
sub_ℕ_le a b h = ground arith

regain : (a b c : ℕ) → a ≤ b → (b - a) * c + a * c ≡ b * c
regain a b c h =
    let whole : b - a + a ≡ b = omega arith in sym (add-mul (b - a) a c) ∙ ap (λ d. d * c) whole

module _ {W : Type 0} (f : Float64 W) (rate burst slack : ℕ) (r : IsRounded f rate burst slack)
    (t0 : ℕ) where
  -- What a bucket has left and what was let through add up to the burst and the rate's share, but for
  -- the slack of `m` events.
  abbrev pub Paid : ℕ → ℕ → Bucket W → Type 0
  Paid m n b =
      n * r.unit + r.value b.tokens + t0 * r.step
      ≤ burst * r.unit + b.last_update * r.step + m * slack

  abbrev pub IsCapped : Bucket W → Type 0
  IsCapped b = r.value b.tokens ≤ burst * r.unit

  cap-value :
      (t : W) → (r.value (cap f burst t) ≤ burst * r.unit) × (r.value (cap f burst t) ≤ r.value t)
  unfolding cap
  cap-value t = elim (Bool-cases (f.greater t (f.of_int (pos burst)))) [
    | inl over ↦
        let big : burst * r.unit < r.value t = ltb→lt _ _ (sym (r.greater_burst t) ∙ over) in
        rw (over, r.value_burst) (omega arith, omega arith)
    | inr fits ↦
        let small : r.value t ≤ burst * r.unit = not_ltb→le (sym (r.greater_burst t) ∙ fits) in
        rw fits (small, omega arith)
  ]

  refill-Paid :
      (m n now : ℕ) (b : Bucket W)
      → b.last_update ≤ now
      → Paid m n b
      → Paid (suc m) n (refill f rate burst now b)
  unfolding refill
  refill-Paid m n now b h p =
      let t =
        f.add b.tokens (f.mul (f.seconds (pos (now - b.last_update))) (f.of_int (pos rate))) in
      let grows : (now - b.last_update) * r.step + b.last_update * r.step ≡ now * r.step =
        regain b.last_update now r.step h in
      let (le_burst, le_sum) = cap-value t in
      rw (sub_ℕ_le b.last_update now h)
        (elim (Bool-cases
          (leb (r.value b.tokens + (now - b.last_update) * r.step) (burst * r.unit))) [
            | inl fits ↦
                let sum = r.add_elapsed b.tokens (now - b.last_update) (leb→le fits) in omega arith
            | inr over ↦ let more = not_leb→lt over in omega arith
          ])

  spend-Paid :
      (m n : ℕ) (b : Bucket W)
      → IsCapped b
      → Paid m n b
      → Paid m (count_if (spend f rate b).1.allowed n) (spend f rate b).0
  unfolding spend count_if
  spend-Paid m n b c p = elim (Bool-cases (leb r.unit (r.value b.tokens))) [
    | inl enough ↦
        let left = r.sub_one b.tokens (leb→le enough) c in
        rw (r.at_least_one b.tokens ∙ enough) (grind arith)
    | inr few ↦ rw (r.at_least_one b.tokens ∙ few) p
  ]

  -- The same of a key, which may have no bucket yet, at the time `t`.
  abbrev pub Accounted : ℕ → ℕ → ℕ → Option (Bucket W) → Type 0
  Accounted t m n none = n * r.unit + t0 * r.step ≤ t * r.step + m * slack
  Accounted t m n (some b) = Paid m n b × IsCapped b × (b.last_update ≤ t)

  pub Accounted-later :
      (t now m n : ℕ) (o : Option (Bucket W))
      → t ≤ now
      → Accounted t m n o
      → Accounted now (suc m) n o
  Accounted-later t now m n none h a =
      let grows : t * r.step ≤ now * r.step = mul-le-mul_right r.step h in
      let more : m * slack ≤ suc m * slack = mul-le-mul_right slack (omega arith) in omega arith
  Accounted-later t now m n (some b) h (a, c, l) =
      let more : m * slack ≤ suc m * slack = mul-le-mul_right slack (omega arith) in
      (omega arith, c, omega arith)

  pub Accounted-le :
      (t m n : ℕ) (o : Option (Bucket W))
      → Accounted t m n o
      → n * r.unit + t0 * r.step ≤ burst * r.unit + t * r.step + m * slack
  Accounted-le t m n none a = omega arith
  Accounted-le t m n (some b) (p, c, l) =
      let grows : b.last_update * r.step ≤ t * r.step = mul-le-mul_right r.step l in omega arith

  -- A bucket that is dropped had the time to fill up.
  pub Accounted-dropped :
      (now m n : ℕ) (b : Bucket W)
      → burst ≤ 3600 * rate
      → b.last_update + 3600 * second < now
      → Paid m n b
      → n * r.unit + t0 * r.step ≤ now * r.step + m * slack
  Accounted-dropped now m n b small old p =
      let grows : (b.last_update + 3600 * second) * r.step ≤ now * r.step =
        mul-le-mul_right r.step (omega arith) in
      let full : burst * r.unit ≤ 3600 * rate * r.unit = mul-le-mul_right r.unit small in
      let hour : 3600 * rate * r.unit ≡ 3600 * second * r.step = grind (arith, r.unit_step) in
      let spread = add-mul b.last_update (3600 * second) r.step in omega arith

  refill-IsCapped : (now : ℕ) (b : Bucket W) → IsCapped (refill f rate burst now b)
  unfolding refill
  refill-IsCapped now b = (cap-value _).0

  spend-IsCapped :
      (b : Bucket W)
      → IsCapped b
      → IsCapped (spend f rate b).0 × ((spend f rate b).0.last_update ≡ b.last_update)
  unfolding spend
  spend-IsCapped b c = elim (Bool-cases (leb r.unit (r.value b.tokens))) [
    | inl enough ↦
        let left = r.sub_one b.tokens (leb→le enough) c in
        rw (r.at_least_one b.tokens ∙ enough) (omega arith, refl)
    | inr few ↦ rw (r.at_least_one b.tokens ∙ few) (c, refl)
  ]

  entry_or_full-Paid :
      (t now m n : ℕ) (o : Option (Bucket W))
      → t ≤ now
      → Accounted t m n o
      → Paid m n (entry_or_full f burst now o) × ((entry_or_full f burst now o).last_update ≤ now)
  unfolding entry_or_full
  entry_or_full-Paid t now m n none h a =
      let grows : t * r.step ≤ now * r.step = mul-le-mul_right r.step h in
      (omega (arith, r.value_burst), omega arith)
  entry_or_full-Paid t now m n (some b) h (a, c, l) = (a, omega arith)

  -- One request of the key.
  pub request-Accounted :
      (t now m n : ℕ) (o : Option (Bucket W))
      → t ≤ now
      → Accounted t m n o
      → let b = refill f rate burst now (entry_or_full f burst now o) in
        Accounted now (suc m) (count_if (spend f rate b).1.allowed n) (some (spend f rate b).0)
  unfolding refill
  request-Accounted t now m n o h a =
      let entry = entry_or_full f burst now o in
      let (p, l) = entry_or_full-Paid t now m n o h a in
      let capped = refill-IsCapped now entry in
      let (c, same) = spend-IsCapped (refill f rate burst now entry) capped in
      (
        spend-Paid (suc m) n (refill f rate burst now entry) capped (refill-Paid m n now entry l p),
        c,
        omega (arith, same),
      )
