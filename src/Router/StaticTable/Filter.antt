-- ===== src/Router/StaticTable/Filter.antt =====
-- The bloom filter of a compiled table, and what it answers from its map.
use rivaas.Prelude.{
  ℕ, ◌≡◌, refl, sym, Bool, true, false, List, [], ◌∷◌, none, some, arith, ◌==◌, ==_iff, ltb, ◌>>=◌,
  if◌then◌else◌, length, All, Bytes, Bool-cases, Option-cases, inl, inr,
}
use rivaas.Compiler.Fnv.{Fnv}
use rivaas.Compiler.Bloom.{BloomFilter, new_bloom_filter, add, test, test_with_precomputed_hash}
use rivaas.Compiler.Bloom
use rivaas.Compiler.Bloom.Membership.{add_keeps_hash, test_total}
use rivaas.Router.StaticTable.{StaticRoute, RouteTable, put_route, find_route, get_compiled}

if_same {κ} : {A : Type κ} (b : Bool) {x : A} → (if b then x else x) ≡ x
if_same true = refl
if_same false = refl

module _ {ℓ} {H : Type ℓ} where
  abbrev pub Present : BloomFilter → List (ℕ × StaticRoute H) → Type 0
  Present bf m = All (λ e. test_with_precomputed_hash e.0 bf ≡ some true) m

  pub record IsValid (t : RouteTable H) : Type 0 where
    pub bloom_valid : Bloom.IsValid t.bloom
    pub present : Present t.bloom t.routes

  pub Present-keeps :
      (fnv : Fnv) (text : Bytes) (bf bf' : BloomFilter) (m : List (ℕ × StaticRoute H))
      → add fnv text bf ≡ some bf'
      → Present bf m
      → Present bf' m
  Present-keeps fnv text bf bf' [] h p = tt
  Present-keeps fnv text bf bf' ((k, r) ∷ m) h (p, ps) =
      (add_keeps_hash fnv k text bf bf' h p, Present-keeps fnv text bf bf' m h ps)

  pub Present-put_route :
      (bf : BloomFilter) (hash : ℕ) (r : StaticRoute H) (m : List (ℕ × StaticRoute H))
      → test_with_precomputed_hash hash bf ≡ some true
      → Present bf m
      → Present bf (put_route hash r m)
  unfolding put_route
  Present-put_route bf hash r [] t p = (t, tt)
  Present-put_route bf hash r ((k, s) ∷ m) t (p, ps) = elim (Bool-cases (k == hash)) [
    | inl same ↦ rw same (t, ps)
    | inr other ↦ rw other (p, Present-put_route bf hash r m t ps)
  ]

  find_route-Present :
      (bf : BloomFilter) (hash : ℕ) (m : List (ℕ × StaticRoute H)) (r : StaticRoute H)
      → Present bf m
      → find_route hash m ≡ some r
      → test_with_precomputed_hash hash bf ≡ some true
  unfolding find_route
  find_route-Present bf hash [] r p h = absurd (ground arith)
  find_route-Present bf hash ((k, s) ∷ m) r (p, ps) h = elim (Bool-cases (k == hash)) [
    | inl same ↦ rw (sym ((==_iff k hash).0 same)) p
    | inr other ↦ find_route-Present bf hash m r ps (ground arith)
  ]

  pub find_route-put_route :
      (hash k : ℕ) (r : StaticRoute H) (m : List (ℕ × StaticRoute H))
      → find_route hash (put_route k r m) ≡ (if k == hash then some r else find_route hash m)
  unfolding find_route put_route
  find_route-put_route hash k r [] = refl
  find_route-put_route hash k r ((j, s) ∷ m) = ground (arith, find_route-put_route hash k r m)

  -- The bloom filter of a table changes none of its answers.
  pub get_compiled-eq-find_route :
      (fnv : Fnv) (path : Bytes) (t : RouteTable H)
      → IsValid t
      → get_compiled fnv path t ≡ some (find_route (fnv.sum64 path) t.routes)
  unfolding get_compiled test test_with_precomputed_hash
  get_compiled-eq-find_route fnv path t v = elim (Bool-cases (ltb (length t.routes) 10)) [
    | inl few ↦ rw few
    | inr many ↦ rw many (filtered (test_total (fnv.sum64 path) t.bloom v.bloom_valid))
  ]
    where
      filtered :
          ((b : Bool) × (test_with_precomputed_hash (fnv.sum64 path) t.bloom ≡ some b))
          → (test fnv path t.bloom >>= λ present.
              some (if present then find_route (fnv.sum64 path) t.routes else none))
            ≡ some (find_route (fnv.sum64 path) t.routes)
      filtered (b, e) = elim (Option-cases (find_route (fnv.sum64 path) t.routes)) [
        | inl nothing ↦ rw (e, nothing, if_same b)
        | inr (r, found) ↦
            rw (find_route-Present t.bloom (fnv.sum64 path) t.routes r v.present found)
      ]
