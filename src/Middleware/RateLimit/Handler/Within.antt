-- ===== src/Middleware/RateLimit/Handler/Within.antt =====
-- How many requests of one window the sliding window lets through.
use native.Mathlib.Nat.{div-mul-le_self}
use rivaas.Prelude.{
  ℕ, suc, ◌+◌, ◌*◌, ◌%◌, ◌-◌, ◌≤◌, ◌<◌, ◌≡◌, ◌==◌, refl, ap, ◌∙◌, sym, Bool, true, false, List, [],
  ◌∷◌, Option, none, some, arith, length, if◌then◌else◌, Bytes, eqb, eqb→eq, find_key, put_key,
  find_key-put_key_self, find_key-put_key_ne, Bool-cases, inl, inr, ltb,
}
use rivaas.Prelude.Int.{ℤ, pos, ltb_ℤ}
use rivaas.Middleware.RateLimit.Float64.{Float64, IsSharing, second}
use rivaas.Middleware.RateLimit.TokenBucket.Paid.{count_if, sub_ℕ_le}
use rivaas.Middleware.RateLimit.Window.{Counts, Entries, window_start_of, rolled, incremented, incr}
use rivaas.Middleware.RateLimit.Handler.{
  CommonOptions, exceeded, with_sliding_window, in_memory, after_incr, effective_usage, elapsed_in,
  prev_weight,
}
use rivaas.Middleware.RateLimit.Handler.Passed.{IsStrict}

module _ {W : Type 0} (f : Float64 W) where
  -- The requests of a key that the sliding window lets through, among those of all keys.
  unfoldable pub serve_window :
      ℕ → ℕ → CommonOptions → Bytes → List (Bytes × ℕ) → Entries × ℕ → Entries × ℕ
  unfolding count_if with_sliding_window in_memory
  serve_window window limit opts key [] (m, n) = (m, n)
  serve_window window limit opts key ((k, now) ∷ rs) (m, n) =
      let (m', outcome) = with_sliding_window f in_memory window limit opts false k now m in
      serve_window window limit opts key rs (m', if eqb k key then count_if outcome.next n else n)

-- Every request falls into the window that starts at `w`.
abbrev pub Within : ℕ → ℕ → List (Bytes × ℕ) → Type 0
Within window w [] = Unit
Within window w ((k, now) ∷ rs) = (window_start_of window now ≡ w) × Within window w rs

-- An entry of the window `w` or of one before, of which no count grows past `most` by `k` requests.
abbrev pub IsPast : ℕ → ℕ → ℕ → Option Counts → Type 0
IsPast most w k none = k ≤ most
IsPast most w k (some c) = (c.window_start ≤ w) × (c.current + k ≤ most) × (c.previous ≤ most)

-- What was let through in the window `w` was counted.
abbrev Counted : ℕ → ℕ → Option Counts → Type 0
Counted w n none = n ≤ 0
Counted w n (some c) = n ≤ (if ltb c.window_start w then 0 else c.current)

window_start_of-le : (window now : ℕ) → window_start_of window now * second ≤ now
unfolding window_start_of
window_start_of-le window now = elim (Bool-cases (window == 0)) [
  | inl nothing ↦ rw nothing (div-mul-le_self now second)
  | inr some_time ↦
      let whole = div-mul-le_self (now - now % window) second in
      let less : now - now % window ≤ now = omega arith in rw some_time (omega arith)
]

elapsed_in-eq :
    (window now : ℕ) (c : Counts)
    → c.window_start * second ≤ now
    → (e : ℕ) × (elapsed_in window now c ≡ pos e) × (e ≤ window)
unfolding elapsed_in
elapsed_in-eq window now c h = elim (Bool-cases (ltb window (now - c.window_start * second))) [
  | inl late ↦ (window, rw (sub_ℕ_le _ _ h) (ground arith), omega arith)
  | inr early ↦ (now - c.window_start * second, rw (sub_ℕ_le _ _ h) (ground arith), ground arith)
]

below : (a limit : ℕ) (x : ℤ) → ltb_ℤ x (pos a) ≡ false → ltb_ℤ x (pos limit) ≡ true → a < limit
below a limit x h k = ground arith

rolled-IsPast :
    (most w k n : ℕ) (o : Option Counts)
    → IsPast most w k o
    → Counted w n o
    → (n ≤ (rolled w o).current)
      × ((rolled w o).window_start ≡ w)
      × ((rolled w o).current + k ≤ most)
      × ((rolled w o).previous ≤ most)
unfolding rolled
rolled-IsPast most w k n none p a = (omega arith, refl, omega arith, omega arith)
rolled-IsPast most w k n (some c) (early, fits, last) a = elim (Bool-cases (ltb c.window_start w)) [
  | inl old ↦ rw old (rw old at a, refl, omega arith, omega arith)
  | inr same ↦ rw same (rw same at a, ground arith, fits, last)
]

incremented-IsPast :
    (most w k n limit : ℕ) (c : Counts) (b : Bool)
    → (b ≡ true → c.current < limit)
    → n ≤ limit
    → n ≤ c.current
    → c.window_start ≡ w
    → c.current + suc k ≤ most
    → c.previous ≤ most
    → (count_if b n ≤ limit)
      × IsPast most w k (some (incremented w (some c)))
      × Counted w (count_if b n) (some (incremented w (some c)))
unfolding incremented count_if
incremented-IsPast most w k n limit c true under fits a start room last =
    let p = under refl in ground arith
incremented-IsPast most w k n limit c false under fits a start room last = ground arith

IsPast-less : (most w k : ℕ) (o : Option Counts) → IsPast most w (suc k) o → IsPast most w k o
IsPast-less most w k none p = omega arith
IsPast-less most w k (some c) (early, fits, last) = (early, omega arith, last)

-- One request: what it does to the entry of its key, and to those of the others.
module _ {W : Type 0} (f : Float64 W) where
  with_sliding_window_self :
      (window limit now : ℕ) (opts : CommonOptions) (k : Bytes) (m : Entries)
      → let w = window_start_of window now in
        let c = rolled w (find_key k m) in
        (find_key k (with_sliding_window f in_memory window limit opts false k now m).0
          ≡ some (incremented w (some c)))
        × ((with_sliding_window f in_memory window limit opts false k now m).1
            ≡ after_incr f window limit opts false now c)
  unfolding with_sliding_window in_memory incr
  with_sliding_window_self window limit now opts k m =
      let w = window_start_of window now in
      let c = rolled w (find_key k m) in
      (
        find_key-put_key_self k _ (put_key k c m)
            ∙ ap (λ o. some (incremented w o)) (find_key-put_key_self k c m),
        refl,
      )

  with_sliding_window_other :
      (window limit now : ℕ) (opts : CommonOptions) (k key : Bytes) (m : Entries)
      → eqb k key ≡ false
      → find_key key (with_sliding_window f in_memory window limit opts false k now m).0
        ≡ find_key key m
  unfolding with_sliding_window in_memory incr
  with_sliding_window_other window limit now opts k key m other =
      find_key-put_key_ne key k _ _ other ∙ find_key-put_key_ne key k _ m other

not_true : {b : Bool} → b ≡ false → b ≡ true → ⊥
not_true e h = ground arith

exceeded-next :
    (opts : CommonOptions) (reset : ℕ) (sent : List (Bytes × ℕ))
    → IsStrict opts
    → (exceeded opts false reset sent).next ≡ false
unfolding exceeded
exceeded-next opts reset sent strict = ground arith

module _ {W : Type 0} (f : Float64 W) (most : ℕ) (shares : IsSharing f most) (window limit w : ℕ)
    (opts : CommonOptions) (key : Bytes) (positive : 0 < window) (strict : IsStrict opts) where
  effective_usage-not_below :
      (now : ℕ) (c : Counts)
      → c.window_start * second ≤ now
      → c.current ≤ most
      → c.previous ≤ most
      → ltb_ℤ (f.to_int (effective_usage f window now c)) (pos c.current) ≡ false
  unfolding effective_usage prev_weight
  effective_usage-not_below now c begun fits last =
      let (e, eq, short) = elapsed_in-eq window now c begun in
      rw (effective_usage, eq)
        (shares.add_share c.current c.previous _ fits last
          (shares.rest-IsShare e window short positive))

  next-after_incr :
      (now : ℕ) (c : Counts)
      → c.window_start * second ≤ now
      → c.current ≤ most
      → c.previous ≤ most
      → (after_incr f window limit opts false now c).next ≡ true
      → c.current < limit
  unfolding after_incr
  next-after_incr now c begun fits last h =
      let full = effective_usage-not_below now c begun fits last in
      elim (Bool-cases (ltb_ℤ (f.to_int (effective_usage f window now c)) (pos limit))) [
        | inl under ↦ below c.current limit (f.to_int (effective_usage f window now c)) full under
        | inr over ↦ absurd (not_true (exceeded-next opts _ _ strict) (rw over at h))
      ]

  own_request-Counted :
      (now k n : ℕ) (m : Entries)
      → window_start_of window now ≡ w
      → n ≤ limit
      → IsPast most w (suc k) (find_key key m)
      → Counted w n (find_key key m)
      → let (m', outcome) = with_sliding_window f in_memory window limit opts false key now m in
        let n' = count_if outcome.next n in
        (n' ≤ limit) × IsPast most w k (find_key key m') × Counted w n' (find_key key m')
  own_request-Counted now k n m e fits p a =
      let (entry, outcome) = with_sliding_window_self f window limit now opts key m in
      let (count, start, room, last) = rolled-IsPast most w (suc k) n (find_key key m) p a in
      let begun : (rolled w (find_key key m)).window_start * second ≤ now =
        rw (start ∙ sym e) (window_start_of-le window now) in
      rw (entry, outcome, e)
        (incremented-IsPast most w k n limit (rolled w (find_key key m)) _
          (next-after_incr now _ begun (omega arith) last) fits count start room last)

  request-Counted :
      (k : Bytes) (now left n : ℕ) (m : Entries)
      → window_start_of window now ≡ w
      → n ≤ limit
      → IsPast most w (suc left) (find_key key m)
      → Counted w n (find_key key m)
      → let (m', outcome) = with_sliding_window f in_memory window limit opts false k now m in
        let n' = if eqb k key then count_if outcome.next n else n in
        (n' ≤ limit) × IsPast most w left (find_key key m') × Counted w n' (find_key key m')
  request-Counted k now left n m e fits p a = elim (Bool-cases (eqb k key)) [
    | inl same ↦ rw same (rw (eqb→eq k key same) (own_request-Counted now left n m e fits p a))
    | inr other ↦ rw other (
      fits,
      rw (with_sliding_window_other f window limit now opts k key m other)
          (IsPast-less most w left (find_key key m) p),
      rw (with_sliding_window_other f window limit now opts k key m other) a,
    )
  ]

  serve_window-le_from :
      (rs : List (Bytes × ℕ)) (n : ℕ) (m : Entries)
      → Within window w rs
      → n ≤ limit
      → IsPast most w (length rs) (find_key key m)
      → Counted w n (find_key key m)
      → (serve_window f window limit opts key rs (m, n)).1 ≤ limit
  unfolding serve_window
  serve_window-le_from [] n m i fits p a = fits
  serve_window-le_from ((k, now) ∷ rs) n m (e, i) fits p a =
      let (fits', p', a') = request-Counted k now (length rs) n m e fits p a in
      serve_window-le_from rs _ _ i fits' p' a'

Counted-zero : (w : ℕ) (o : Option Counts) → Counted w 0 o
Counted-zero w none = omega arith
Counted-zero w (some c) = ground arith

-- Of the requests of one key whose times fall into one window, at most `limit` go on to the next
-- handler, if the handler refuses requests or calls back, the entry that the store has for the key is
-- none of a later window, and no count grows past `most`, up to which the counts are exact.
pub serve_window-le :
    {W : Type 0} (f : Float64 W) (most window limit w : ℕ) (opts : CommonOptions) (key : Bytes)
    (rs : List (Bytes × ℕ)) (m : Entries)
    → IsSharing f most
    → 0 < window
    → IsStrict opts
    → Within window w rs
    → IsPast most w (length rs) (find_key key m)
    → (serve_window f window limit opts key rs (m, 0)).1 ≤ limit
serve_window-le f most window limit w opts key rs m shares positive strict i past =
    serve_window-le_from f most shares window limit w opts key positive strict rs 0 m i
      (omega arith) past (Counted-zero w (find_key key m))
