-- ===== src/Router/Params/Reads.antt =====
-- Reading a parameter after it was stored, and after the context was reset.
use rivaas.Prelude.{
  ℕ, zero, suc, ◌+◌, ◌≤◌, ◌<◌, ◌≡◌, refl, ◌≢◌, List, arith, if◌then◌else◌, length, set, Bytes, eqb,
  eqb_iff, get_elem?-set_self, get_elem?-set_ne, get_elem?-some, length-set,
}
use rivaas.Router.Params.{
  Params, Read, found, missing, panic, scan, read_overflow, param, reset, store, IsValid,
}

or_else : Read → Read → Read
or_else (found v) r = found v
or_else missing r = r
or_else panic r = panic

scan-suc :
    (key : Bytes) (ks vs : List Bytes) (n i : ℕ)
    → scan key ks vs (suc n) i ≡ or_else (scan key ks vs n i) (scan key ks vs 1 (i + n))
unfolding scan or_else
scan-suc key ks vs zero i = ground arith
scan-suc key ks vs (suc n) i = ground (arith, scan-suc key ks vs n (i + 1), omega_shift)
  where
    omega_shift : i + 1 + n ≡ i + suc n
    omega_shift = omega arith

scan-set :
    (key : Bytes) (ks vs : List Bytes) (n i j : ℕ) (k v : Bytes)
    → i + n ≤ j
    → scan key (set ks j k) (set vs j v) n i ≡ scan key ks vs n i
unfolding scan
scan-set key ks vs zero i j k v h = refl
scan-set key ks vs (suc n) i j k v h = ground (
  arith,
  get_elem?-set_ne ks j i k,
  get_elem?-set_ne vs j i v,
  scan-set key ks vs n (i + 1) j k v,
)

-- Within the arrays no read panics.
pub scan-ne-panic :
    (key : Bytes) (ks vs : List Bytes) (n i : ℕ)
    → i + n ≤ length ks
    → i + n ≤ length vs
    → scan key ks vs n i ≢ panic
unfolding scan
scan-ne-panic key ks vs zero i h k = λ e. cc
scan-ne-panic key ks vs (suc n) i h k = ground (
  arith,
  get_elem?-some ks i (omega arith),
  get_elem?-some vs i (omega arith),
  scan-ne-panic key ks vs n (i + 1),
)

scan-store_slot :
    (key k v : Bytes) (ks vs : List Bytes) (n : ℕ)
    → n < length ks
    → n < length vs
    → scan key (set ks n k) (set vs n v) 1 n ≡ (if eqb k key then found v else missing)
unfolding scan
scan-store_slot key k v ks vs n h h' =
    ground (arith, get_elem?-set_self ks n k h, get_elem?-set_self vs n v h')

scan-found_store :
    (key k v : Bytes) (ks vs : List Bytes) (n : ℕ)
    → n < length ks
    → n < length vs
    → scan key (set ks n k) (set vs n v) (n + 1) 0
      ≡ or_else (scan key ks vs n 0) (if eqb k key then found v else missing)
scan-found_store key k v ks vs n h h' = ground (
  arith,
  scan-suc key (set ks n k) (set vs n v) n 0,
  scan-set key ks vs n 0 n k v (omega arith),
  scan-store_slot key k v ks vs n h h',
)

-- A stored parameter that was not bound before is read back, and no other read changes. With the
-- slots full the value goes to the map.
param-store :
    (p : Params) (key k v : Bytes)
    → IsValid p
    → param k p ≡ missing
    → param key (store k v p) ≡ (if eqb k key then found v else param key p)
unfolding param store read_overflow or_else
param-store p key k v ok unbound = ground (
  arith,
  eqb_iff k key,
  scan-found_store key k v p.keys p.values p.count,
  scan-ne-panic key p.keys p.values p.count 0,
)

-- Storing keeps the arrays at eight slots and the count within them.
pub store-IsValid : (p : Params) (k v : Bytes) → IsValid p → IsValid (store k v p)
unfolding store
store-IsValid p k v ok = ground (arith, length-set p.keys p.count k, length-set p.values p.count v)

-- A read of a valid context finds a value or nothing, and never leaves the arrays.
param-ne-panic : (p : Params) (key : Bytes) → IsValid p → param key p ≢ panic
unfolding param read_overflow
param-ne-panic p key ok = ground (arith, scan-ne-panic key p.keys p.values p.count 0)

-- After `reset` no parameter of the earlier request can be read, whatever the count was.
pub param-reset : (p : Params) (key : Bytes) → param key (reset p) ≡ missing
unfolding param reset scan read_overflow
param-reset p key = ground arith
