-- ===== src/Compiler/Table/Static.antt =====
-- The static table: the bloom filter and the flag of frozen tables never change an answer.
use rivaas.Prelude.{
  ℕ, ◌+◌, ◌<◌, ◌≡◌, refl, sym, ap, ◌∙◌, Bool, true, false, not, ◌&&◌, [], ◌∷◌, ◌++◌, Option, none,
  some, arith, ◌==◌, ==_iff, ltb, leb, if◌then◌else◌, ◌>>=◌, length, Bytes, All, inl, inr,
  Option-cases, Bool-cases,
}
use rivaas.Compiler.Fnv.{Fnv, hash_from, fnv_offset_basis, hash_from-append, word}
use rivaas.Compiler.Bloom.{BloomFilter, new_bloom_filter, add, test, test_with_precomputed_hash}
use rivaas.Compiler.Bloom
use rivaas.Compiler.Bloom.Membership.{
  add_total, add_keeps_hash, add-test_hash, new_bloom_filter-IsValid, test_total,
}
use rivaas.Compiler.Route.{CompiledRoute, IsHashed}
use rivaas.Compiler.Table.{
  RouteMap, RouteCompiler, find_hash, put_hash, delete_hash, new_route_compiler, add_route, freeze,
  has_static_routes, lookup_static, build_first_segment_index, min_routes_for_indexing,
}

-- LookupStatic's hash of a method and a path.
abbrev pub request_hash : Bytes → Bytes → ℕ
request_hash method path = hash_from fnv_offset_basis (method ++ path)

if_same {ℓ} : {A : Type ℓ} (b : Bool) {x : A} → (if b then x else x) ≡ x
if_same true = refl
if_same false = refl

some_if {ℓ} :
    {A : Type ℓ} (b : Bool) (x y : A) → some (if b then x else y) ≡ (if b then some x else some y)
some_if true x y = refl
some_if false x y = refl

module _ {ℓ} {H : Type ℓ} where
  -- The filter has every hash of the map.
  abbrev pub Present : BloomFilter → RouteMap H → Type 0
  Present bf m = All (λ e. test_with_precomputed_hash e.0 bf ≡ some true) m

  pub record IsValid (rc : RouteCompiler H) : Type 0 where
    pub bloom_valid : Bloom.IsValid rc.static_bloom
    pub present : Present rc.static_bloom rc.static_routes
    pub flag : rc.frozen ≡ true → rc.has_static ≡ ltb 0 (length rc.static_routes)

  Present-keeps :
      (fnv : Fnv) (t : Bytes) (bf bf' : BloomFilter) (m : RouteMap H)
      → add fnv t bf ≡ some bf'
      → Present bf m
      → Present bf' m
  Present-keeps fnv t bf bf' [] h p = tt
  Present-keeps fnv t bf bf' ((k, r) ∷ m) h (p, ps) =
      (add_keeps_hash fnv k t bf bf' h p, Present-keeps fnv t bf bf' m h ps)

  Present-put :
      (bf : BloomFilter) (hash : ℕ) (r : CompiledRoute H) (m : RouteMap H)
      → test_with_precomputed_hash hash bf ≡ some true
      → Present bf m
      → Present bf (put_hash hash r m)
  unfolding put_hash
  Present-put bf hash r [] t p = (t, tt)
  Present-put bf hash r ((k, s) ∷ m) t (p, ps) = elim (Bool-cases (k == hash)) [
    | inl same ↦ rw same (t, ps)
    | inr other ↦ rw other (p, Present-put bf hash r m t ps)
  ]

  pub Present-delete :
      (bf : BloomFilter) (hash : ℕ) (m : RouteMap H)
      → Present bf m
      → Present bf (delete_hash hash m)
  unfolding delete_hash
  Present-delete bf hash [] p = tt
  Present-delete bf hash ((k, s) ∷ m) (p, ps) = elim (Bool-cases (k == hash)) [
    | inl same ↦ rw same ps
    | inr other ↦ rw other (p, Present-delete bf hash m ps)
  ]

  find_hash-Present :
      (bf : BloomFilter) (hash : ℕ) (m : RouteMap H) (r : CompiledRoute H)
      → Present bf m
      → find_hash hash m ≡ some r
      → test_with_precomputed_hash hash bf ≡ some true
  unfolding find_hash
  find_hash-Present bf hash [] r p h = absurd (ground arith)
  find_hash-Present bf hash ((k, s) ∷ m) r (p, ps) h = elim (Bool-cases (k == hash)) [
    | inl same ↦ rw (sym ((==_iff k hash).0 same)) p
    | inr other ↦ find_hash-Present bf hash m r ps (ground arith)
  ]

  find_hash-put :
      (hash k : ℕ) (r : CompiledRoute H) (m : RouteMap H)
      → find_hash hash (put_hash k r m) ≡ (if k == hash then some r else find_hash hash m)
  unfolding find_hash put_hash
  find_hash-put hash k r [] = refl
  find_hash-put hash k r ((j, s) ∷ m) = ground (arith, find_hash-put hash k r m)

  -- What the filter lets through or holds back is what the map has or has not.
  filtered :
      (bf : BloomFilter) (hash : ℕ) (m : RouteMap H)
      → Bloom.IsValid bf
      → Present bf m
      → (test_with_precomputed_hash hash bf >>= λ b. some (if b then find_hash hash m else none))
        ≡ some (find_hash hash m)
  filtered bf hash m v p =
      let (b, t) = test_total hash bf v in
      elim (Option-cases (find_hash hash m)) [
        | inl e ↦ rw (t, e, if_same b)
        | inr (r, e) ↦ rw (find_hash-Present bf hash m r p e)
      ]

  has_static_routes-eq :
      (rc : RouteCompiler H) → IsValid rc → has_static_routes rc ≡ ltb 0 (length rc.static_routes)
  unfolding has_static_routes
  has_static_routes-eq rc v = elim (Bool-cases rc.frozen) [ inl e ↦ rw e (v.flag e) | inr e ↦ rw e ]

  empty_map : (hash : ℕ) (m : RouteMap H) → ltb 0 (length m) ≡ false → find_hash hash m ≡ none
  unfolding find_hash
  empty_map hash [] h = refl
  empty_map hash (e ∷ m) h = absurd (ground arith)

  -- The answer of `LookupStatic` is the route that the map has for the hash of the request's
  -- method and path: neither the bloom filter nor the flag of a frozen table changes it, and it
  -- does not panic.
  pub lookup_static-eq-find :
      (method path : Bytes) (rc : RouteCompiler H)
      → IsValid rc
      → lookup_static method path rc ≡ some (find_hash (request_hash method path) rc.static_routes)
  unfolding lookup_static
  lookup_static-eq-find method path rc v =
      let hash = request_hash method path in
      rw (sym (hash_from-append fnv_offset_basis method path), has_static_routes-eq rc v)
        (elim (Bool-cases (ltb 0 (length rc.static_routes))) [
          | inl some_route ↦ elim (Bool-cases (ltb (length rc.static_routes) 10)) [
            | inl few ↦ rw (some_route, few)
            | inr many ↦
                rw (some_route, many)
                  (filtered rc.static_bloom hash rc.static_routes v.bloom_valid v.present)
          ]
          | inr empty ↦ rw (empty, empty_map hash rc.static_routes empty)
        ])

  pub new_route_compiler-IsValid :
      (size n : ℕ) → 0 < size → size + 63 < word → IsValid (new_route_compiler size n)
  unfolding new_route_compiler
  new_route_compiler-IsValid size n p h = record {
    bloom_valid = new_bloom_filter-IsValid size n p h;
    present = tt;
    flag = λ e. cc;
  }

  added_answer :
      (fnv : Fnv) (r : CompiledRoute H) (rc rc' : RouteCompiler H)
      → IsHashed fnv r
      → rc'.static_routes ≡ put_hash r.hash r rc.static_routes
      → IsValid rc
      → IsValid rc'
      → (method path : Bytes)
      → lookup_static method path rc' ≡ (
          if request_hash r.method r.pattern == request_hash method path
          then some (some r)
          else lookup_static method path rc)
  added_answer fnv r rc rc' hashed put v v' method path =
      let asked = request_hash method path in
      let h : r.hash ≡ request_hash r.method r.pattern =
        hashed ∙ fnv.sum64_lem (r.method ++ r.pattern) in
      let pick : ℕ → Option (Option (CompiledRoute H)) =
        λ k. if k == asked then some (some r) else some (find_hash asked rc.static_routes) in
      rw
        (
          lookup_static-eq-find method path rc' v',
          lookup_static-eq-find method path rc v,
          put,
          find_hash-put asked r.hash r rc.static_routes,
        )
        (some_if (r.hash == asked) (some r) (find_hash asked rc.static_routes) ∙ ap pick h)

  -- Registering a static route before the freeze does not panic and keeps the table valid, and
  -- from then on exactly the requests with the hash of its method and pattern get it. Any other
  -- request gets what it got before.
  pub lookup_static-add_route :
      (fnv : Fnv) (r : CompiledRoute H) (rc : RouteCompiler H)
      → IsValid rc
      → IsHashed fnv r
      → rc.frozen ≡ false
      → r.is_static ≡ true
      → (rc' : RouteCompiler H) × (add_route fnv r rc ≡ some rc')
        × IsValid rc'
        × ((method path : Bytes)
            → lookup_static method path rc' ≡ (
                if request_hash r.method r.pattern == request_hash method path
                then some (some r)
                else lookup_static method path rc))
  unfolding add_route
  lookup_static-add_route fnv r rc v hashed thawed static =
      let (bloom, added, bloom_valid) =
        add_total fnv (r.method ++ r.pattern) rc.static_bloom v.bloom_valid in
      let rc' : RouteCompiler H = record rc {
        static_routes = put_hash r.hash r rc.static_routes;
        static_bloom = bloom;
      } in
      let same : fnv.sum64 (r.method ++ r.pattern) ≡ r.hash = sym hashed in
      let here : test_with_precomputed_hash r.hash bloom ≡ some true =
        rw same at (add-test_hash fnv (r.method ++ r.pattern) rc.static_bloom bloom added) in
      let v' : IsValid rc' = record {
        bloom_valid = bloom_valid;
        present = Present-put bloom r.hash r rc.static_routes here (
            Present-keeps fnv (r.method ++ r.pattern) rc.static_bloom bloom rc.static_routes added
              v.present);
        flag = λ e. cc;
      } in
      (
        rc',
        rw (static, added),
        v',
        λ method path. added_answer fnv r rc rc' hashed refl v v' method path,
      )

  freeze_routes :
      (rc : RouteCompiler H)
      → ((freeze rc).static_routes ≡ rc.static_routes)
        × ((freeze rc).static_bloom ≡ rc.static_bloom)
        × ((freeze rc).has_static ≡ ltb 0 (length rc.static_routes))
  unfolding freeze build_first_segment_index
  freeze_routes rc =
      elim (Bool-cases (
        not rc.has_first_segment_index && leb min_routes_for_indexing (length rc.dynamic_routes))) [
          | inl e ↦ rw e (refl, refl, refl)
          | inr e ↦ rw e (refl, refl, refl)
        ]

  freeze-IsValid : (rc : RouteCompiler H) → IsValid rc → IsValid (freeze rc)
  freeze-IsValid rc v =
      let (routes, bloom, flag) = freeze_routes rc in
      record {
        bloom_valid = rw bloom v.bloom_valid;
        present = rw (bloom, routes) v.present;
        flag = λ e. rw (flag, routes);
      }

  -- A frozen table answers as it did before.
  lookup_static-freeze :
      (rc : RouteCompiler H) (method path : Bytes)
      → IsValid rc
      → lookup_static method path (freeze rc) ≡ lookup_static method path rc
  lookup_static-freeze rc method path v = rw (
    lookup_static-eq-find method path (freeze rc) (freeze-IsValid rc v),
    lookup_static-eq-find method path rc v,
    (freeze_routes rc).0,
  )
