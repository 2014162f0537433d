-- ===== src/Middleware/RateLimit/TokenBucket/Limit.antt =====
-- How many requests of one key the bucket lets through.
use native.Mathlib.Nat.{mul-le-mul_right}
use rivaas.Prelude.{
  ℕ, suc, ◌+◌, ◌*◌, ◌≤◌, ◌≡◌, refl, false, List, [], ◌∷◌, Option, none, some, arith, ltb→lt, ap,
  length, if◌then◌else◌, Bytes, eqb, eqb_refl, eqb→eq, find_key, find_key-put_key, IsMap,
  put_key-IsMap, delete_where-IsMap, find_key-delete_where, ◌>>=◌, Bool-cases, inl, inr,
}
use rivaas.Middleware.RateLimit.Float64.{Float64, IsRounded}
use rivaas.Middleware.RateLimit.TokenBucket.{Bucket, Store, allow, is_stale, sweep, new_store}
use rivaas.Middleware.RateLimit.TokenBucket.Paid.{
  count_if, Accounted, Accounted-later, Accounted-le, Accounted-dropped, request-Accounted,
}

-- A request of a key, or a round of the cleanup, at a time.
pub data Event : Type 0 where
  request : Bytes → ℕ → Event
  cleanup : ℕ → Event

zero_more : (m : ℕ) → m + 0 ≡ m
zero_more m = omega arith

zero_first : (m : ℕ) → 0 + m ≡ m
zero_first m = omega arith

one_more : (m n : ℕ) → m + suc n ≡ suc m + n
one_more m n = omega arith

-- The events are in the order of time, from `t` on, and `end` is not before the last.
abbrev pub InOrder : ℕ → List Event → ℕ → Type 0
InOrder t [] end = t ≤ end
InOrder t (request k now ∷ es) end = (t ≤ now) × InOrder now es end
InOrder t (cleanup now ∷ es) end = (t ≤ now) × InOrder now es end

module _ {W : Type 0} (f : Float64 W) where
  -- The store after some events, and how many requests of the key were let through.
  unfoldable pub run : Bytes → List Event → Store W × ℕ → Store W × ℕ
  unfolding count_if
  run key [] (s, n) = (s, n)
  run key (cleanup now ∷ es) (s, n) = run key es (sweep now s, n)
  run key (request k now ∷ es) (s, n) =
      let (s', answer) = allow f k now s in
      run key es (s', if eqb k key then count_if answer.allowed n else n)

module _ {W : Type 0} (f : Float64 W) (rate burst slack : ℕ) (r : IsRounded f rate burst slack)
    (t0 : ℕ) (key : Bytes) where
  -- The key is accounted for in the store.
  record Holds (t m : ℕ) (s : Store W) (n : ℕ) : Type 0 where
    is_map : IsMap s.entries
    same_rate : s.rate ≡ rate
    same_burst : s.burst ≡ burst
    accounted : Accounted f rate burst slack r t0 t m n (find_key key s.entries)

  allow-Holds :
      (t now m n : ℕ) (s : Store W)
      → t ≤ now
      → Holds t m s n
      → Holds now (suc m) (allow f key now s).0 (count_if (allow f key now s).1.allowed n)
  unfolding allow
  allow-Holds t now m n s h v = record {
    is_map = put_key-IsMap key _ s.entries v.is_map;
    same_rate = v.same_rate;
    same_burst = v.same_burst;
    accounted = rw (find_key-put_key key key _ s.entries) (
        rw (eqb_refl key, v.same_rate, v.same_burst)
          (request-Accounted f rate burst slack r t0 t now m n (find_key key s.entries) h
            v.accounted));
  }

  allow_other-Holds :
      (k : Bytes) (t now m n : ℕ) (s : Store W)
      → eqb k key ≡ false
      → t ≤ now
      → Holds t m s n
      → Holds now (suc m) (allow f k now s).0 n
  unfolding allow
  allow_other-Holds k t now m n s e h v = record {
    is_map = put_key-IsMap k _ s.entries v.is_map;
    same_rate = v.same_rate;
    same_burst = v.same_burst;
    accounted = rw (find_key-put_key key k _ s.entries) (
        rw e (
          Accounted-later f rate burst slack r t0 t now m n (find_key key s.entries) h
            v.accounted));
  }

  request-Holds :
      (k : Bytes) (t now m n : ℕ) (s : Store W)
      → t ≤ now
      → Holds t m s n
      → let (s', answer) = allow f k now s in
        Holds now (suc m) s' (if eqb k key then count_if answer.allowed n else n)
  request-Holds k t now m n s h v = elim (Bool-cases (eqb k key)) [
    | inl same ↦ rw same (rw (eqb→eq k key same) (allow-Holds t now m n s h v))
    | inr other ↦ rw other (allow_other-Holds k t now m n s other h v)
  ]

  is_stale-Accounted :
      (t now m n : ℕ) (o : Option (Bucket W))
      → burst ≤ 3600 * rate
      → t ≤ now
      → Accounted f rate burst slack r t0 t m n o
      → Accounted f rate burst slack r t0 now
          (suc m)
          n
          (o >>= λ b. if is_stale now b then none else some b)
  is_stale-Accounted t now m n none small h a =
      Accounted-later f rate burst slack r t0 t now m n none h a
  is_stale-Accounted t now m n (some b) small h a = elim (Bool-cases (is_stale now b)) [
    | inl stale ↦ rw stale (
        Accounted-later f rate burst slack r t0 now now m n none (omega arith)
          (Accounted-dropped f rate burst slack r t0 now m n b small (ltb→lt _ _ stale) a.0))
    | inr fresh ↦ rw fresh (Accounted-later f rate burst slack r t0 t now m n (some b) h a)
  ]

  sweep-Holds :
      (t now m n : ℕ) (s : Store W)
      → burst ≤ 3600 * rate
      → t ≤ now
      → Holds t m s n
      → Holds now (suc m) (sweep now s) n
  unfolding sweep
  sweep-Holds t now m n s small h v = record {
    is_map = delete_where-IsMap (is_stale now) s.entries v.is_map;
    same_rate = v.same_rate;
    same_burst = v.same_burst;
    accounted =
        rw (find_key-delete_where (is_stale now) key s.entries v.is_map)
          (is_stale-Accounted t now m n (find_key key s.entries) small h v.accounted);
  }

  run-Holds :
      (es : List Event) (t end m n : ℕ) (s : Store W)
      → burst ≤ 3600 * rate
      → InOrder t es end
      → Holds t m s n
      → (last : ℕ) × (last ≤ end)
        × Holds last (m + length es) (run f key es (s, n)).0 (run f key es (s, n)).1
  unfolding run
  run-Holds [] t end m n s small o v = (t, o, rw (zero_more m) v)
  run-Holds (cleanup now ∷ es) t end m n s small (h, o) v =
      let (last, l, v') =
        run-Holds es now end (suc m) n (sweep now s) small o (sweep-Holds t now m n s small h v) in
      (last, l, rw (one_more m (length es)) v')
  run-Holds (request k now ∷ es) t end m n s small (h, o) v =
      let (last, l, v') =
        run-Holds es now end (suc m) _ _ small o (request-Holds k t now m n s h v) in
      (last, l, rw (one_more m (length es)) v')

-- Of the requests of one key that reach a new store from the time `t0` on, in the order of time and
-- with rounds of the cleanup between them, the bucket lets through at most `burst`, what the rate
-- gives from `t0` to `end`, and the slack of each event. The cleanup is harmless if a bucket fills up
-- within the hour.
pub run-new_store-le :
    {W : Type 0} (f : Float64 W) (rate burst slack t0 end : ℕ) (key : Bytes) (es : List Event)
    (r : IsRounded f rate burst slack)
    → burst ≤ 3600 * rate
    → InOrder t0 es end
    → (run f key es (new_store rate burst, 0)).1 * r.unit + t0 * r.step
      ≤ burst * r.unit + end * r.step + length es * slack
unfolding new_store find_key
run-new_store-le f rate burst slack t0 end key es r small o =
    let (last, l, v) =
      run-Holds f rate burst slack r t0 key es t0 end 0 0 (new_store rate burst) small o
        record { is_map = tt; same_rate = refl; same_burst = refl; accounted = omega arith } in
    let le = Accounted-le f rate burst slack r t0 last (0 + length es) _ _ v.accounted in
    let grows : last * r.step ≤ end * r.step = mul-le-mul_right r.step l in
    let none_before : (0 + length es) * slack ≡ length es * slack =
      ap (λ m. m * slack) (zero_first (length es)) in
    omega arith
