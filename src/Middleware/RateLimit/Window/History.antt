-- ===== src/Middleware/RateLimit/Window/History.antt =====
-- What the window's counts say about the calls that were made.
use rivaas.Prelude.{
  ℕ, ◌+◌, ◌≤◌, ◌<◌, ◌≡◌, refl, sym, ◌∙◌, Bool, true, false, List, [], ◌∷◌, Option, none, some,
  arith, ltb, ◌>>=◌, ◌/◌, ◌-◌, ◌==◌, if◌then◌else◌, Bytes, eqb, eqb→eq, find_key, put_key,
  find_key-put_key, IsMap, put_key-IsMap, delete_where-IsMap, find_key-delete_where, Bool-cases,
  inl, inr,
}
use rivaas.Middleware.RateLimit.Float64.{second}
use rivaas.Middleware.RateLimit.Window.{
  Counts, Entries, window_start_of, rolled, get_counts, incremented, incr, is_old, sweep,
}

-- A call of Incr or of GetCounts for a key at a time, or a round of the cleanup.
pub data Call : Type 0 where
  counted : Bytes → ℕ → Call
  asked : Bytes → ℕ → Call
  cleaned : ℕ → Call

-- The abstract view: the windows in which a key was touched, the newest first, and whether each touch
-- counts.
abbrev pub History : Type 0
History = List (ℕ × Bool)

unfoldable pub tally : ℕ → History → ℕ
tally w [] = 0
tally w ((v, counts) ∷ h) = (if v == w then if counts then 1 else 0 else 0) + tally w h

-- The count of the last window before `w` in which the key was touched.
unfoldable pub tally_before : ℕ → History → ℕ
unfolding tally
tally_before w [] = 0
tally_before w ((v, counts) ∷ h) =
    let earlier = tally_before w h in if v == w then earlier else tally v ((v, counts) ∷ h)

unfoldable pub view : History → Option Counts
unfolding tally tally_before
view [] = none
view ((w, counts) ∷ h) = some record {
  current = tally w ((w, counts) ∷ h);
  previous = tally_before w ((w, counts) ∷ h);
  window_start = w;
}

-- No window of the history is after `w`, and they stand in order.
abbrev pub UpTo : ℕ → History → Type 0
UpTo w [] = Unit
UpTo w ((v, counts) ∷ h) = (v ≤ w) × UpTo v h

tally-above : (w v : ℕ) (h : History) → v < w → UpTo v h → tally w h ≡ 0
unfolding tally
tally-above w v [] l u = refl
tally-above w v ((x, counts) ∷ h) l (m, u) = ground (arith, tally-above w x h (omega arith) u)

view-incremented :
    (w : ℕ) (h : History) → UpTo w h → view ((w, true) ∷ h) ≡ some (incremented w (view h))
unfolding view incremented tally tally_before
view-incremented w [] u = ground arith
view-incremented w ((v, counts) ∷ h) (l, u) = ground (arith, tally-above w v h)

view-rolled : (w : ℕ) (h : History) → UpTo w h → view ((w, false) ∷ h) ≡ some (rolled w (view h))
unfolding view rolled tally tally_before
view-rolled w [] u = ground arith
view-rolled w ((v, counts) ∷ h) (l, u) = ground (arith, tally-above w v h)

unfoldable pub run : ℕ → List Call → Entries → Entries
run window [] m = m
run window (counted key now ∷ calls) m = run window calls (incr key window now m)
run window (asked key now ∷ calls) m = run window calls (get_counts key window now m).0
run window (cleaned now ∷ calls) m = run window calls (sweep now m)

-- The history of one key. The cleanup forgets it, if it ended long ago.
unfoldable pub touch : Bytes → Bytes → ℕ × Bool → History → History
touch key k t h = if eqb k key then t ∷ h else h

unfoldable pub forget : ℕ → History → History
forget now [] = []
forget now ((w, counts) ∷ h) = if ltb w (now / second - 7200) then [] else (w, counts) ∷ h

unfoldable pub history : Bytes → ℕ → List Call → History → History
unfolding touch forget
history key window [] h = h
history key window (counted k now ∷ calls) h =
    history key window calls (touch key k (window_start_of window now, true) h)
history key window (asked k now ∷ calls) h =
    history key window calls (touch key k (window_start_of window now, false) h)
history key window (cleaned now ∷ calls) h = history key window calls (forget now h)

-- The windows of the calls for the key do not go back, from `w` on.
abbrev pub Forward : Bytes → ℕ → ℕ → List Call → Type 0
Forward key window w [] = Unit
Forward key window w (counted k now ∷ calls) =
    (w ≤ window_start_of window now) × Forward key window (window_start_of window now) calls
Forward key window w (asked k now ∷ calls) =
    (w ≤ window_start_of window now) × Forward key window (window_start_of window now) calls
Forward key window w (cleaned now ∷ calls) = Forward key window w calls

UpTo-later : (w v : ℕ) (h : History) → w ≤ v → UpTo w h → UpTo v h
UpTo-later w v [] l u = tt
UpTo-later w v ((x, counts) ∷ h) l (m, u) = (omega arith, u)

touch-UpTo :
    (key k : Bytes) (w v : ℕ) (counts : Bool) (h : History)
    → w ≤ v
    → UpTo w h
    → UpTo v (touch key k (v, counts) h)
unfolding touch
touch-UpTo key k w v counts h l u = elim (Bool-cases (eqb k key)) [
  | inl same ↦ rw same (omega arith, UpTo-later w v h l u)
  | inr other ↦ rw other (UpTo-later w v h l u)
]

forget-UpTo : (now w : ℕ) (h : History) → UpTo w h → UpTo w (forget now h)
unfolding forget
forget-UpTo now w [] u = tt
forget-UpTo now w ((v, counts) ∷ h) u = elim (Bool-cases (ltb v (now / second - 7200))) [
  | inl old ↦ rw old tt
  | inr fresh ↦ rw fresh u
]

view-forget :
    (now : ℕ) (h : History)
    → view (forget now h) ≡ (view h >>= λ c. if is_old now c then none else some c)
unfolding forget view
view-forget now [] = refl
view-forget now ((w, counts) ∷ h) = ground arith

-- What the store has for the key is the view of its history.
abbrev Shows : Bytes → History → Entries → Type 0
Shows key h m = (find_key key m ≡ view h) × IsMap m

put_key-Shows :
    (key k : Bytes) (t : ℕ × Bool) (update : Option Counts → Counts) (h : History) (m : Entries)
    → view (t ∷ h) ≡ some (update (view h))
    → Shows key h m
    → Shows key (touch key k t h) (put_key k (update (find_key k m)) m)
unfolding touch
put_key-Shows key k t update h m stepped (e, i) = (
  find_key-put_key key k _ m ∙ elim (Bool-cases (eqb k key)) [
    | inl same ↦ rw same (rw (eqb→eq k key same) (rw e (sym stepped)))
    | inr other ↦ rw other e
  ],
  put_key-IsMap k _ m i,
)

sweep-Shows :
    (key : Bytes) (now : ℕ) (h : History) (m : Entries)
    → Shows key h m
    → Shows key (forget now h) (sweep now m)
unfolding sweep
sweep-Shows key now h m (e, i) = (
  find_key-delete_where (is_old now) key m i ∙ rw e (sym (view-forget now h)),
  delete_where-IsMap (is_old now) m i,
)

run-Shows :
    (key : Bytes) (window w : ℕ) (calls : List Call) (h : History) (m : Entries)
    → Forward key window w calls
    → UpTo w h
    → Shows key h m
    → Shows key (history key window calls h) (run window calls m)
unfolding run history incr get_counts
run-Shows key window w [] h m f u s = s
run-Shows key window w (counted k now ∷ calls) h m (l, f) u s =
    let w' = window_start_of window now in
    run-Shows key window w' calls _ _ f (touch-UpTo key k w w' true h l u) (
      put_key-Shows key k (w', true) (incremented w') h m
        (view-incremented w' h (UpTo-later w w' h l u)) s)
run-Shows key window w (asked k now ∷ calls) h m (l, f) u s =
    let w' = window_start_of window now in
    run-Shows key window w' calls _ _ f (touch-UpTo key k w w' false h l u)
      (put_key-Shows key k (w', false) (rolled w') h m (view-rolled w' h (UpTo-later w w' h l u)) s)
run-Shows key window w (cleaned now ∷ calls) h m f u s =
    run-Shows key window w calls _ _ f (forget-UpTo now w h u) (sweep-Shows key now h m s)

-- After any calls of Incr and GetCounts and rounds of the cleanup on a new store, in which the windows
-- do not go back, the entry of a key holds the number of its Incr calls in the newest window that a
-- call touched, that of the window touched before it, however long ago, and the newest window. There
-- is none if no call touched the key, or the cleanup dropped all.
pub find_key-run :
    (key : Bytes) (window : ℕ) (calls : List Call)
    → Forward key window 0 calls
    → find_key key (run window calls []) ≡ view (history key window calls [])
unfolding find_key view
find_key-run key window calls f = (run-Shows key window 0 calls [] [] f tt (refl, tt)).0
