-- ===== src/Router/Params.antt =====
-- The route parameters of a `Context` (router/context.go): two arrays of eight slots, a count, and
-- a map for what does not fit.
pub mod Reads
mod Tests
use mathlib.Core.Option
use rivaas.Prelude.{
  ℕ, zero, suc, ◌+◌, ◌≤◌, ◌<◌, min, ◌≡◌, refl, Bool, true, false, List, [], ◌∷◌, Option, none, some,
  arith, ltb, if◌then◌else◌, length, get_elem?, set, replicate, Bytes, eqb,
}

-- map[string]string, as an association list whose first entry for a key counts.
abbrev pub Dict : Type 0
Dict = List (Bytes × Bytes)

unfoldable pub lookup : Bytes → Dict → Option Bytes
lookup key [] = none
lookup key ((k, v) ∷ m) = if eqb k key then some v else lookup key m

unfoldable pub insert : Bytes → Bytes → Dict → Dict
insert key v m = (key, v) ∷ m

-- The fields paramCount, paramKeys, paramValues and Params; `none` is the nil map.
pub record Params : Type 0 where
  pub count : ℕ
  pub keys : List Bytes
  pub values : List Bytes
  pub overflow : Option Dict

abbrev pub max_slots : ℕ
max_slots = 8

unfoldable pub fresh : Params
fresh = record {
  count = 0;
  keys = replicate max_slots [];
  values = replicate max_slots [];
  overflow = none;
}

-- A write into the map, which is made on the first use.
unfoldable pub set_param_map : Bytes → Bytes → Params → Params
unfolding insert
set_param_map key value p = record p {
  overflow = some (insert key value (Option.get_or p.overflow []));
}

unfoldable pub set_param : ℕ → Bytes → Bytes → Params → Params
unfolding set_param_map
set_param i key value p =
    if ltb i max_slots
    then record p { keys = set p.keys i key; values = set p.values i value }
    else set_param_map key value p

unfoldable pub set_param_count : ℕ → Params → Params
set_param_count n p = record p { count = n }

-- What a read of a parameter gives: a value, nothing, or an index beyond the array.
pub data Read : Type 0 where
  found : Bytes → Read
  missing : Read
  panic : Read

-- The loop over the slots, `n` of them left, from slot `i`.
unfoldable pub scan : Bytes → List Bytes → List Bytes → ℕ → ℕ → Read
scan key keys values zero i = missing
scan key keys values (suc n) i = elim (get_elem? keys i) [
  | none ↦ panic
  | some k ↦ elim (eqb k key) [
    | true ↦ elim (get_elem? values i) [ none ↦ panic | some v ↦ found v ]
    | false ↦ scan key keys values n (i + 1)
  ]
]

-- The read from the map; a nil map holds nothing.
unfoldable pub read_overflow : Bytes → Params → Read
unfolding lookup
read_overflow key p = elim (lookup key (Option.get_or p.overflow [])) [
  | none ↦ missing
  | some v ↦ found v
]

-- `Context.Param`, before the missing value becomes the empty string.
unfoldable pub param : Bytes → Params → Read
unfolding scan read_overflow
param key p = elim (scan key p.keys p.values p.count 0) [
  | found v ↦ found v
  | missing ↦ read_overflow key p
  | panic ↦ panic
]

-- The loop of `reset` over the used slots.
unfoldable pub clear_slots : ℕ → ℕ → List Bytes → List Bytes
clear_slots zero i slots = slots
clear_slots (suc n) i slots = clear_slots n (i + 1) (set slots i [])

-- The part of `reset` that is about parameters. `clear` empties the map and keeps it.
unfoldable pub reset : Params → Params
unfolding clear_slots
reset p =
    let cleared = Option.map (λ (m : Dict). let e : Dict = [] in e) p.overflow in
    if ltb 0 p.count
    then record {
      count = 0;
      keys = clear_slots (min p.count max_slots) 0 p.keys;
      values = clear_slots (min p.count max_slots) 0 p.values;
      overflow = cleared;
    }
    else record p { overflow = cleared }

-- What `getRoute` does with a captured value: the next slot, or the map when the slots are full.
unfoldable pub store : Bytes → Bytes → Params → Params
unfolding set_param_map
store key value p =
    if ltb p.count max_slots
    then record p {
      count = p.count + 1;
      keys = set p.keys p.count key;
      values = set p.values p.count value;
    }
    else set_param_map key value p

-- The arrays have eight slots, and the count stays within them.
pub record IsValid (p : Params) : Type 0 where
  pub keys_length : length p.keys ≡ max_slots
  pub values_length : length p.values ≡ max_slots
  pub within : p.count ≤ max_slots
