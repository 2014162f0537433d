-- ===== src/Router/Radix/Constraints.antt =====
-- The two paths of `validateConstraints` agree where the parameter names are distinct.
use mathlib.Core.Option
use rivaas.Prelude.{
  ℕ, zero, suc, ◌+◌, ◌≤◌, ◌<◌, ◌≡◌, refl, ap, ◌∙◌, ◌≢◌, Bool, List, [], ◌∷◌, ◌++◌, Option, none,
  some, arith, Bytes, eqb, eqb→eq, inl, inr, Bool-cases, Option-cases, length, get_elem?,
  get_elem?-some,
}
use rivaas.Router.Params.{
  Dict, Params, Read, found, missing, panic, lookup, insert, param, scan, IsValid, read_overflow,
}
use rivaas.Router.Params.Reads.{scan-ne-panic}
use rivaas.Router.Radix.Defs.{Constraint}
use rivaas.Router.Radix.Lookup.{
  holds, holds_in, validate_few, validate_many, validate_constraints, collect, merged,
}

abbrev pub overflow_of : Params → Dict
overflow_of p = Option.get_or p.overflow []

-- No two slots in use have one key, and the map has none of their keys.
pub record Distinct (p : Params) : Type 0 where
  pub apart :
      (i j : ℕ) (k : Bytes)
      → i < j
      → j < p.count
      → get_elem? p.keys i ≡ some k
      → get_elem? p.keys j ≢ some k
  pub separate :
      (i : ℕ) (k : Bytes)
      → i < p.count
      → get_elem? p.keys i ≡ some k
      → lookup k (overflow_of p) ≡ none

-- A key that no slot has is not found by the scan.
scan-missing :
    (key : Bytes) (ks vs : List Bytes) (n i : ℕ)
    → i + n ≤ length ks
    → ((j : ℕ) → i ≤ j → j < i + n → get_elem? ks j ≢ some key)
    → scan key ks vs n i ≡ missing
unfolding scan
scan-missing key ks vs zero i h no_slot = refl
scan-missing key ks vs (suc n) i h no_slot =
    let (k, e) = get_elem?-some ks i (omega arith) in
    let rest =
      scan-missing key ks vs n (i + 1) (omega arith)
        (λ j p q. no_slot j (omega arith) (omega arith)) in
    ground (arith, e, rest, eqb→eq k key, no_slot i)

-- A key that the scan finds stands in a slot.
scan-found :
    (key v : Bytes) (ks vs : List Bytes) (n i : ℕ)
    → scan key ks vs n i ≡ found v
    → (j : ℕ) × (j < i + n) × (get_elem? ks j ≡ some key)
unfolding scan
scan-found key v ks vs zero i h = cc
scan-found key v ks vs (suc n) i h = elim (Option-cases (get_elem? ks i)) [
  | inl e ↦ absurd (ground arith)
  | inr (k, e) ↦ elim (Bool-cases (eqb k key)) [
    | inl same ↦ (i, omega arith, ground (arith, eqb→eq k key))
    | inr other ↦
        let (j, below, here) = scan-found key v ks vs n (i + 1) (ground arith) in
        (j, omega arith, here)
  ]
]

abbrev or_lookup : Read → Option Bytes → Option Bytes
or_lookup (found v) o = some v
or_lookup missing o = o
or_lookup panic o = o

-- One slot of `collect`: a later slot with the same key would win, and there is none.
collect_slot :
    (p : Params) (key k v : Bytes) (m : Dict) (n i : ℕ)
    → get_elem? p.keys i ≡ some k
    → get_elem? p.values i ≡ some v
    → (k ≡ key → scan key p.keys p.values n (i + 1) ≡ missing)
    → lookup key (collect n (i + 1) p (insert k v m))
      ≡ or_lookup (scan key p.keys p.values n (i + 1)) (lookup key (insert k v m))
    → lookup key (collect (suc n) i p m)
      ≡ or_lookup (scan key p.keys p.values (suc n) i) (lookup key m)
unfolding collect scan lookup insert
collect_slot p key k v m n i e e' later ih = ground (arith, eqb→eq k key)

lookup-collect :
    (p : Params) (key : Bytes) (m : Dict) (n i : ℕ)
    → Distinct p
    → i + n ≤ p.count
    → p.count ≤ length p.keys
    → p.count ≤ length p.values
    → lookup key (collect n i p m) ≡ or_lookup (scan key p.keys p.values n i) (lookup key m)
unfolding collect scan
lookup-collect p key m zero i d h hk hv = refl
lookup-collect p key m (suc n) i d h hk hv =
    slot (get_elem?-some p.keys i (omega arith)) (get_elem?-some p.values i (omega arith))
      (λ k v. lookup-collect p key (insert k v m) n (i + 1) d (omega arith) hk hv)
  where
    later :
        (k : Bytes)
        → get_elem? p.keys i ≡ some k
        → k ≡ key
        → scan key p.keys p.values n (i + 1) ≡ missing
    later k e same =
        scan-missing key p.keys p.values n (i + 1) (omega arith)
          (λ j a b. d.apart i j key (omega arith) (omega arith) (e ∙ ap some same))

    slot :
        ((k : Bytes) × (get_elem? p.keys i ≡ some k))
        → ((v : Bytes) × (get_elem? p.values i ≡ some v))
        → ((k v : Bytes)
            → lookup key (collect n (i + 1) p (insert k v m))
              ≡ or_lookup (scan key p.keys p.values n (i + 1)) (lookup key (insert k v m)))
        → lookup key (collect (suc n) i p m)
          ≡ or_lookup (scan key p.keys p.values (suc n) i) (lookup key m)
    slot (k, e) (v, e') ih = collect_slot p key k v m n i e e' (later k e) (ih k v)

lookup-append :
    (key : Bytes) (a b : Dict)
    → lookup key (a ++ b)
      ≡ or_lookup (elim (lookup key a) [ none ↦ missing | some v ↦ found v ]) (lookup key b)
unfolding lookup
lookup-append key [] b = refl
lookup-append key ((k, v) ∷ a) b = ground (arith, lookup-append key a b)

-- What `Param` reads is what the merged map holds.
holds-merged :
    (p : Params) (key : Bytes) (m : Bytes → Bool)
    → IsValid p
    → Distinct p
    → holds m (param key p) ≡ holds_in m (lookup key (merged p))
unfolding holds holds_in param merged read_overflow lookup
holds-merged p key m ok d = by_scan (scan key p.keys p.values p.count 0) refl
  where
    slots :
        lookup key (collect p.count 0 p []) ≡ or_lookup (scan key p.keys p.values p.count 0) none
    slots = lookup-collect p key [] p.count 0 d (omega arith) (omega arith) (omega arith)

    by_scan :
        (r : Read)
        → scan key p.keys p.values p.count 0 ≡ r
        → holds m (param key p) ≡ holds_in m (lookup key (merged p))
    by_scan (found v) e =
        let (j, below, here) = scan-found key v p.keys p.values p.count 0 e in
        let nothing = d.separate j key (omega arith) here in
        ground (arith, slots, lookup-append key (overflow_of p) (collect p.count 0 p []), nothing)
    by_scan missing e =
        ground (arith, slots, lookup-append key (overflow_of p) (collect p.count 0 p []))
    by_scan panic e =
        absurd (scan-ne-panic key p.keys p.values p.count 0 (omega arith) (omega arith) e)

validate_many-merged :
    (cs : List Constraint) (p : Params)
    → IsValid p
    → Distinct p
    → validate_many cs (merged p) ≡ validate_few cs p
unfolding validate_many validate_few
validate_many-merged [] p ok d = refl
validate_many-merged (c ∷ cs) p ok d =
    cc (holds-merged p c.param c.match_string ok d, validate_many-merged cs p ok d)

-- Where the parameter names are distinct the map of the slow path gives the answer of the fast
-- path: every constraint's name is bound, and its pattern matches the value that `Param` reads.
validate_constraints-eq-few :
    (cs : List Constraint) (p : Params)
    → IsValid p
    → Distinct p
    → validate_constraints cs p ≡ validate_few cs p
unfolding validate_constraints
validate_constraints-eq-few [] p ok d = unfold validate_few in refl
validate_constraints-eq-few (c ∷ cs) p ok d = ground (arith, validate_many-merged (c ∷ cs) p ok d)
