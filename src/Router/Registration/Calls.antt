-- ===== src/Router/Registration/Calls.antt =====
-- A configuration as the list of its calls, and the route that it wants for a request.
use rivaas.Prelude.{
  Bool, true, false, ◌&&◌, ◌≡◌, refl, ap, ◌∙◌, List, [], ◌∷◌, ◌++◌, append-nil, append_assoc,
  Option, none, some, ◌>>=◌, Bytes, eqb,
}
use rivaas.Compiler.Fnv.{Fnv}
use rivaas.Router.Registration.{Route, Router, new_route, add_middleware, add_route, admit}
use rivaas.Router.Registration.Groups.{Group, new_group, sub_group, add_to_group, joined-append}

-- Use, or a route in groups that stand in one another, the outermost first.
pub data Call {ℓ} (H : Type ℓ) : Type ℓ where
  used : List H → Call H
  routed : List (Bytes × List H) → Bytes → Bytes → List H → Call H

module _ {ℓ} {H : Type ℓ} where
  unfoldable pub nested : List (Bytes × List H) → Group H → Group H
  unfolding sub_group
  nested [] g = g
  nested ((prefix, ms) ∷ groups) g = nested groups (sub_group prefix ms g)

  -- What is written before the path, and what runs before the handlers.
  unfoldable pub prefixed : List (Bytes × List H) → Bytes → Bytes
  prefixed [] path = path
  prefixed ((prefix, ms) ∷ groups) path = prefix ++ prefixed groups path

  unfoldable pub wrapped : List (Bytes × List H) → List H → List H
  wrapped [] handlers = handlers
  wrapped ((prefix, ms) ∷ groups) handlers = ms ++ wrapped groups handlers

  -- The middleware of all calls of Use, those after a route included.
  unfoldable pub middleware_of : List (Call H) → List H
  middleware_of [] = []
  middleware_of (used ms ∷ calls) = ms ++ middleware_of calls
  middleware_of (routed groups method path handlers ∷ calls) = middleware_of calls

  unfoldable pub routes_of : List (Call H) → List (Route H)
  unfolding prefixed wrapped
  routes_of [] = []
  routes_of (used ms ∷ calls) = routes_of calls
  routes_of (routed groups method path handlers ∷ calls) =
      new_route [] method (prefixed groups path) (wrapped groups handlers) ∷ routes_of calls

  -- The handlers of the last of these routes for the method and the path.
  unfoldable pub own_if : Bool → List H → Option (List H) → Option (List H)
  own_if on handlers (some later) = some later
  own_if true handlers none = some handlers
  own_if false handlers none = none

  unfoldable pub wanted : List (Route H) → Bytes → Bytes → Option (List H)
  unfolding own_if
  wanted [] method path = none
  wanted (rt ∷ rts) method path =
      own_if (eqb rt.method method && eqb rt.path path) rt.handlers (wanted rts method path)

  -- The group within groups has all prefixes and all middleware, the outermost first.
  nested-prefix :
      (groups : List (Bytes × List H)) (g : Group H) (path : Bytes)
      → (nested groups g).prefix ++ path ≡ g.prefix ++ prefixed groups path
  unfolding nested prefixed
  nested-prefix [] g path = refl
  nested-prefix ((prefix, ms) ∷ groups) g path =
      nested-prefix groups (sub_group prefix ms g) path
      ∙ ap (λ s. s ++ prefixed groups path) (joined-append g.prefix prefix)
      ∙ append_assoc g.prefix prefix (prefixed groups path)

  nested-middleware :
      (groups : List (Bytes × List H)) (g : Group H) (handlers : List H)
      → (nested groups g).middleware ++ handlers ≡ g.middleware ++ wrapped groups handlers
  unfolding nested wrapped
  nested-middleware [] g handlers = refl
  nested-middleware ((prefix, ms) ∷ groups) g handlers =
      nested-middleware groups (sub_group prefix ms g) handlers
      ∙ append_assoc g.middleware ms (wrapped groups handlers)

module _ {ℓ} {H : Type ℓ} (fnv : Fnv) (quote_meta : Bytes → Bytes)
    (compile : Bytes → Option (Bytes → Bool)) where
  -- A route in the innermost of some groups.
  unfoldable pub route_in :
      List (Bytes × List H) → Bytes → Bytes → List H → Router H → Option (Router H)
  unfolding nested
  route_in [] method path handlers r = add_route fnv quote_meta compile method path handlers r
  route_in ((prefix, ms) ∷ groups) method path handlers r =
      add_to_group fnv quote_meta compile method path handlers (nested groups (new_group prefix ms))
        r

  unfoldable pub run : List (Call H) → Router H → Option (Router H)
  run [] r = some r
  run (used ms ∷ calls) r = run calls (add_middleware ms r)
  run (routed groups method path handlers ∷ calls) r =
      route_in groups method path handlers r >>= run calls

  route_in-add_route :
      (groups : List (Bytes × List H)) (method path : Bytes) (handlers : List H) (r : Router H)
      → route_in groups method path handlers r
        ≡ add_route fnv quote_meta compile method (prefixed groups path) (wrapped groups handlers) r
  unfolding route_in add_to_group new_group prefixed wrapped
  route_in-add_route [] method path handlers r = refl
  route_in-add_route ((prefix, ms) ∷ groups) method path handlers r =
      let g = new_group prefix ms in
      rw
        (
          joined-append (nested groups g).prefix path,
          nested-prefix groups g path,
          nested-middleware groups g handlers,
        )
        refl

  pub add_route-waits :
      (method path : Bytes) (handlers : List H) (r : Router H)
      → r.warmed_up ≡ false
      → r.frozen ≡ false
      → add_route fnv quote_meta compile method path handlers r
        ≡ some (record r { pending = r.pending ++ new_route [] method path handlers ∷ [] })
  unfolding add_route admit
  add_route-waits method path handlers r cold free = rw (add_route, free, cold) refl

  -- The calls on a router that is neither warmed up nor frozen only fill its lists.
  pub run-waits :
      (calls : List (Call H)) (r : Router H)
      → r.warmed_up ≡ false
      → r.frozen ≡ false
      → run calls r
        ≡ some (record r {
          middleware = r.middleware ++ middleware_of calls;
          pending = r.pending ++ routes_of calls;
        })
  unfolding run middleware_of routes_of add_middleware
  run-waits [] r cold free = rw (append-nil r.middleware, append-nil r.pending) refl
  run-waits (used ms ∷ calls) r cold free =
      run-waits calls (add_middleware ms r) cold free
      ∙ rw (append_assoc r.middleware ms (middleware_of calls)) refl
  run-waits (routed groups method path handlers ∷ calls) r cold free =
      let rt = new_route [] method (prefixed groups path) (wrapped groups handlers) in
      rw
        (
          route_in-add_route groups method path handlers r,
          add_route-waits method (prefixed groups path) (wrapped groups handlers) r cold free,
        )
        (run-waits calls (record r { pending = r.pending ++ rt ∷ [] }) cold free
          ∙ rw (append_assoc r.pending (rt ∷ []) (routes_of calls)) refl)
