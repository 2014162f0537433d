-- ===== src/Compiler/Table/Removal.antt =====
-- The removal of a route from the static table.
use rivaas.Prelude.{
  ℕ, ◌≡◌, refl, ap, ◌∙◌, ◌≢◌, Bool, true, false, [], ◌∷◌, ◌++◌, Option, none, some, arith, ◌==◌,
  ==_iff, if◌then◌else◌, All, Bytes, inl, inr, Bool-cases, Option-cases,
}
use rivaas.Compiler.Fnv.{Fnv}
use rivaas.Compiler.Route.{CompiledRoute}
use rivaas.Compiler.Table.{
  RouteMap, RouteCompiler, find_hash, put_hash, delete_hash, remove_route, drop_dynamic,
  lookup_static,
}
use rivaas.Compiler.Table.Static.{request_hash, Present-delete, IsValid, lookup_static-eq-find}

some-none {κ} :
    {A : Type κ} (b : Bool) (x : Option A)
    → some (if b then none else x) ≡ (if b then some none else some x)
some-none true x = refl
some-none false x = refl

module _ {ℓ} {H : Type ℓ} where
  -- The map has one entry for a hash.
  abbrev pub IsMap : RouteMap H → Type 0
  IsMap [] = Unit
  IsMap ((k, r) ∷ m) = All (λ e. e.0 ≢ k) m × IsMap m

  find_hash-none : (hash : ℕ) (m : RouteMap H) → All (λ e. e.0 ≢ hash) m → find_hash hash m ≡ none
  unfolding find_hash
  find_hash-none hash [] a = refl
  find_hash-none hash ((k, r) ∷ m) (ne, a) = ground (arith, ==_iff k hash, find_hash-none hash m a)

  All-put_hash :
      (j k : ℕ) (r : CompiledRoute H) (m : RouteMap H)
      → k ≢ j
      → All (λ e. e.0 ≢ j) m
      → All (λ e. e.0 ≢ j) (put_hash k r m)
  unfolding put_hash
  All-put_hash j k r [] ne a = (ne, tt)
  All-put_hash j k r ((i, s) ∷ m) ne (ne', a) = elim (Bool-cases (i == k)) [
    | inl same ↦ rw same (ne, a)
    | inr other ↦ rw other (ne', All-put_hash j k r m ne a)
  ]

  -- A registration keeps one entry for a hash.
  pub put_hash-IsMap :
      (k : ℕ) (r : CompiledRoute H) (m : RouteMap H) → IsMap m → IsMap (put_hash k r m)
  unfolding put_hash
  put_hash-IsMap k r [] u = (tt, tt)
  put_hash-IsMap k r ((i, s) ∷ m) (a, u) = elim (Bool-cases (i == k)) [
    | inl same ↦ rw same ((rw ((==_iff i k).0 same) at a), u)
    | inr other ↦
        rw other (All-put_hash i k r m (λ e. ground (arith, ==_iff i k)) a, put_hash-IsMap k r m u)
  ]

  find_hash-delete_hash :
      (hash k : ℕ) (m : RouteMap H)
      → IsMap m
      → find_hash hash (delete_hash k m) ≡ (if k == hash then none else find_hash hash m)
  unfolding find_hash delete_hash
  find_hash-delete_hash hash k [] u = ground arith
  find_hash-delete_hash hash k ((i, s) ∷ m) (a, u) = ground (
    arith,
    ==_iff i k,
    ==_iff i hash,
    ==_iff k hash,
    find_hash-none i m a,
    find_hash-delete_hash hash k m u,
  )

  All-delete_hash :
      (j k : ℕ) (m : RouteMap H) → All (λ e. e.0 ≢ j) m → All (λ e. e.0 ≢ j) (delete_hash k m)
  unfolding delete_hash
  All-delete_hash j k [] a = tt
  All-delete_hash j k ((i, s) ∷ m) (ne, a) = elim (Bool-cases (i == k)) [
    | inl same ↦ rw same a
    | inr other ↦ rw other (ne, All-delete_hash j k m a)
  ]

  delete_hash-IsMap : (k : ℕ) (m : RouteMap H) → IsMap m → IsMap (delete_hash k m)
  unfolding delete_hash
  delete_hash-IsMap k [] u = tt
  delete_hash-IsMap k ((i, s) ∷ m) (a, u) = elim (Bool-cases (i == k)) [
    | inl same ↦ rw same u
    | inr other ↦ rw other (All-delete_hash i k m a, delete_hash-IsMap k m u)
  ]

  remove_route-statics :
      (fnv : Fnv) (method pattern : Bytes) (rc : RouteCompiler H)
      → ((remove_route fnv method pattern rc).static_routes
          ≡ delete_hash (fnv.sum64 (method ++ pattern)) rc.static_routes)
        × ((remove_route fnv method pattern rc).static_bloom ≡ rc.static_bloom)
        × ((remove_route fnv method pattern rc).frozen ≡ rc.frozen)
  unfolding remove_route
  remove_route-statics fnv method pattern rc =
      elim (Option-cases (drop_dynamic method pattern rc.dynamic_routes)) [
        | inl e ↦ rw (remove_route, e) (refl, refl, refl)
        | inr (rs, e) ↦ rw (remove_route, e) (refl, refl, refl)
      ]

  remove_route-IsValid :
      (fnv : Fnv) (method pattern : Bytes) (rc : RouteCompiler H)
      → IsValid rc
      → rc.frozen ≡ false
      → IsValid (remove_route fnv method pattern rc)
  remove_route-IsValid fnv method pattern rc v thawed =
      let (routes, bloom, frozen) = remove_route-statics fnv method pattern rc in
      record {
        bloom_valid = rw bloom v.bloom_valid;
        present =
            rw (bloom, routes)
              (Present-delete rc.static_bloom (fnv.sum64 (method ++ pattern)) rc.static_routes
                v.present);
        flag = λ e. cc;
      }

  -- Before the freeze the removal of a route keeps the table valid and its hashes single, and from then on the requests
  -- with the hash of its method and pattern get no static route. Any other request gets what it got
  -- before.
  pub lookup_static-remove_route :
      (fnv : Fnv) (m pattern : Bytes) (rc : RouteCompiler H)
      → IsValid rc
      → IsMap rc.static_routes
      → rc.frozen ≡ false
      → IsValid (remove_route fnv m pattern rc)
        × IsMap (remove_route fnv m pattern rc).static_routes
        × ((method path : Bytes)
            → lookup_static method path (remove_route fnv m pattern rc) ≡ (
                if request_hash m pattern == request_hash method path
                then some none
                else lookup_static method path rc))
  lookup_static-remove_route fnv m pattern rc v u thawed =
      let v' = remove_route-IsValid fnv m pattern rc v thawed in
      (
        v',
        rw (remove_route-statics fnv m pattern rc).0
            (delete_hash-IsMap (fnv.sum64 (m ++ pattern)) rc.static_routes u),
        λ method path.
            let asked = request_hash method path in
            let pick : ℕ → Option (Option (CompiledRoute H)) =
              λ k. if k == asked then some none else some (find_hash asked rc.static_routes) in
            rw
              (
                lookup_static-eq-find method path (remove_route fnv m pattern rc) v',
                lookup_static-eq-find method path rc v,
                (remove_route-statics fnv m pattern rc).0,
                find_hash-delete_hash asked (fnv.sum64 (m ++ pattern)) rc.static_routes u,
              )
              (some-none (fnv.sum64 (m ++ pattern) == asked) (find_hash asked rc.static_routes)
                ∙ ap pick (fnv.sum64_lem (m ++ pattern))),
      )
