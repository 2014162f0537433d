-- ===== src/Router/Registration/Frozen.antt =====
-- Freeze keeps the trees, and its tables are valid.
use rivaas.Prelude.{
  ℕ, ◌+◌, ◌<◌, max, true, false, ◌≡◌, refl, sym, ap, ◌∙◌, subst, arith, List, [], ◌∷◌, Bool, Option,
  none, some, ◌>>=◌, if◌then◌else◌, Bytes, inl, inr, Option-cases,
}
use rivaas.Compiler.Fnv.{Fnv, word}
use rivaas.Router.StaticTable.{RouteTable, optimal_bloom_filter_size, count_static_routes}
use rivaas.Router.StaticTable.Filter.{IsValid}
use rivaas.Router.StaticTable.Compiled.{compile_static_routes_total}
use rivaas.Router.Trees.{
  Method, method_of, MethodTrees, no_trees, root_of, with_root, get_tree, get, post, put, delete,
  patch, head, options,
}
use rivaas.Router.Trees.Lookup.{root_of-with_root, root_of-with_root_cases}
use rivaas.Router.Registration.{Router}
use rivaas.Router.Registration.Warmup.{
  bloom_size, register_all, compile_method, compile_methods, compile_all_routes,
  compile_version_routes, do_warmup, warmup, freeze,
}
use rivaas.Compiler.Table

-- A size of the filters that does not overflow when it is rounded up.
abbrev pub IsSmall : ℕ → Type 0
IsSmall size = max size 1000000 + 63 < word

pub if_false {ℓ} : {A : Type ℓ} (b : Bool) (x y : A) → b ≡ false → (if b then x else y) ≡ y
if_false b x y h = rw h refl

bloom_size-small : (size n : ℕ) → IsSmall size → max (bloom_size size n) 100 + 63 < word
unfolding bloom_size optimal_bloom_filter_size
bloom_size-small size n small = ground arith

module _ {ℓ} {H : Type ℓ} where
  abbrev pub IsValidIfAny : Option (RouteTable H) → Type 0
  IsValidIfAny none = Unit
  IsValidIfAny (some t) = IsValid t

  abbrev pub AllValid : MethodTrees (RouteTable H) → Type 0
  AllValid tables = (m : Method) → IsValidIfAny (root_of m tables)

  with_root-AllValid :
      (m : Method) (t : RouteTable H) (tables : MethodTrees (RouteTable H))
      → IsValid t
      → AllValid tables
      → AllValid (with_root m t tables)
  with_root-AllValid m t tables v all w = elim (root_of-with_root_cases m w t tables) [
    | inl same ↦
        subst (λ u. IsValidIfAny (root_of u (with_root m t tables))) same
          (subst IsValidIfAny (sym (root_of-with_root m t tables)) v)
    | inr kept ↦ subst IsValidIfAny (sym kept) (all w)
  ]

  pub get_tree-IsValidIfAny :
      (method : Bytes) (tables : MethodTrees (RouteTable H))
      → AllValid tables
      → IsValidIfAny (get_tree method tables)
  unfolding get_tree
  get_tree-IsValidIfAny method tables all = elim (Option-cases (method_of method)) [
    | inl unknown ↦ rw unknown tt
    | inr (m, known) ↦ rw known (all m)
  ]

pub no_trees-AllValid {ℓ} : (H : Type ℓ) → AllValid (no_trees {T = RouteTable H})
unfolding no_trees root_of
no_trees-AllValid H get = tt
no_trees-AllValid H _ = tt

module _ {ℓ} {H : Type ℓ} where
  -- A step that changes the tables only, and keeps them valid.
  abbrev TablesOnly : Option (Router H) → Router H → Type ℓ
  TablesOnly step r =
      (tables : MethodTrees (RouteTable H)) × (step ≡ some (record r { tables = tables }))
      × AllValid tables

module _ {ℓ} {H : Type ℓ} (fnv : Fnv) (quote_meta : Bytes → Bytes)
    (compile : Bytes → Option (Bytes → Bool)) where
  compile_method_total :
      (m : Method) (r : Router H)
      → IsSmall r.bloom_filter_size
      → AllValid r.tables
      → TablesOnly (compile_method fnv quote_meta compile m r) r
  unfolding compile_method
  compile_method_total m r small all = elim (Option-cases (root_of m r.trees)) [
    | inl empty ↦ (r.tables, rw (compile_method, empty) refl, all)
    | inr (t, there) ↦
        let size = bloom_size r.bloom_filter_size (count_static_routes t) in
        let (u, e, v) =
          compile_static_routes_total fnv size r.bloom_hash_functions t
            (bloom_size-small r.bloom_filter_size (count_static_routes t) small) in
        (
          with_root m u r.tables,
          rw (compile_method, there, e) refl,
          with_root-AllValid m u r.tables v all,
        )
  ]

  compile_methods_total :
      (ms : List Method) (r : Router H)
      → IsSmall r.bloom_filter_size
      → AllValid r.tables
      → TablesOnly (compile_methods fnv quote_meta compile ms r) r
  unfolding compile_methods
  compile_methods_total [] r small all = (r.tables, refl, all)
  compile_methods_total (m ∷ ms) r small all =
      let (tables, e, v) = compile_method_total m r small all in
      let (tables', e', v') = compile_methods_total ms (record r { tables = tables }) small v in
      (tables', rw (compile_methods, e) e', v')

  do_warmup_total :
      (r s : Router H)
      → s.has_engine ≡ false
      → IsSmall s.bloom_filter_size
      → AllValid s.tables
      → register_all fnv quote_meta compile r.pending (record r { warmed_up = true; pending = [] })
        ≡ some s
      → TablesOnly (do_warmup fnv quote_meta compile r) s
  unfolding do_warmup compile_all_routes compile_version_routes
  do_warmup_total r s bare small all registered =
      let (tables, e, v) =
        compile_methods_total (get ∷ post ∷ put ∷ delete ∷ patch ∷ head ∷ options ∷ []) s small
          all in
      (tables, rw (registered, e) (if_false s.has_engine _ _ bare), v)

  -- Freeze of a router without an engine whose pending routes can be registered returns, with valid
  -- tables and otherwise what that registration left.
  pub freeze_total :
      (r s : Router H)
      → r.frozen ≡ false
      → r.warmed_up ≡ false
      → s.has_engine ≡ false
      → IsSmall s.bloom_filter_size
      → AllValid s.tables
      → register_all fnv quote_meta compile r.pending
          (record r { frozen = true; warmed_up = true; pending = [] })
        ≡ some s
      → (tables : MethodTrees (RouteTable H)) × (freeze fnv quote_meta compile r
          ≡ some (record s { tables = tables; route_compiler = Table.freeze s.route_compiler }))
        × AllValid tables
  unfolding freeze warmup
  freeze_total r s free cold bare small all registered =
      let (tables, e, v) =
        do_warmup_total (record r { frozen = true }) s bare small all registered in
      (
        tables,
        if_false r.frozen _ _ free
            ∙ ap
                (λ (w : Option (Router H)).
                  w >>= λ u. some (record u { route_compiler = Table.freeze u.route_compiler }))
                (if_false r.warmed_up _ _ cold ∙ e),
        v,
      )
