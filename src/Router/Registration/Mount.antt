-- ===== src/Router/Registration/Mount.antt =====
-- Mount of a subrouter whose routes still wait (Mount, mergeSubrouterRoutes and mountRoute of
-- router/route_bridge.go, router/route/mount.go, the Where functions and SetName of
-- router/route/route.go). `none` is a panic. The handler for routes that are not found, the description,
-- the tags and the list of the routes for inspection are not part of the model.
pub mod Waiting
use rivaas.Prelude.{
  ℕ, Bool, true, false, not, ◌&&◌, ◌==◌, List, [], ◌∷◌, ◌++◌, length, Option, none, some, ◌>>=◌,
  if◌then◌else◌, Bytes, codes, eqb, is_empty, find_key, put_key,
}
use rivaas.Compiler.Fnv.{Fnv}
use rivaas.Middleware.TrailingSlash.{trim_suffix}
use rivaas.Router.Constraints.{
  ParamConstraint, unconstrained, int, float, uuid, regex, enum, date, date_time, Compiled,
  extract_constraint_pattern,
}
use rivaas.Router.Registration.{
  Route, Router, new_route, add_route, where_pending, where_typed, where_registered, name_pending,
  register_route,
}

-- MountConfig
pub record MountConfig {ℓ} (H : Type ℓ) : Type ℓ where
  pub inherit_middleware : Bool
  pub extra_middleware : List H
  pub name_prefix : Bytes

-- MountOption
pub data MountOption {ℓ} (H : Type ℓ) : Type ℓ where
  inherit : MountOption H
  with_middleware : List H → MountOption H
  named : Bytes → MountOption H

-- The prefix without a slash at its end and with one at its start.
unfoldable pub slash_before : Bytes → Bytes
slash_before [] = codes "/"
slash_before (a ∷ prefix) = if a == b'/' then a ∷ prefix else b'/' ∷ a ∷ prefix

unfoldable pub mount_prefix : Bytes → Bytes
unfolding slash_before trim_suffix
mount_prefix prefix = slash_before (trim_suffix prefix (codes "/"))

unfoldable pub mounted_path : Bytes → Bytes → Bytes
mounted_path prefix path = if eqb path (codes "/") then prefix else prefix ++ path

-- The kinds for which the switch of mountRoute has a case.
unfoldable pub is_copied : ParamConstraint → Bool
is_copied unconstrained = false
is_copied int = true
is_copied float = true
is_copied uuid = true
is_copied (regex _) = true
is_copied (enum _) = true
is_copied date = true
is_copied date_time = true

module _ {ℓ} {H : Type ℓ} where
  unfoldable pub apply_mount_option : MountOption H → MountConfig H → MountConfig H
  apply_mount_option inherit cfg = record cfg { inherit_middleware = true }
  apply_mount_option (with_middleware ms) cfg = record cfg {
    extra_middleware = cfg.extra_middleware ++ ms;
  }
  apply_mount_option (named prefix) cfg = record cfg { name_prefix = prefix }

  unfoldable pub apply_mount_options : List (MountOption H) → MountConfig H → MountConfig H
  unfolding apply_mount_option
  apply_mount_options [] cfg = cfg
  apply_mount_options (opt ∷ opts) cfg = apply_mount_options opts (apply_mount_option opt cfg)

  -- BuildMountConfig
  unfoldable pub build_mount_config : List (MountOption H) → MountConfig H
  unfolding apply_mount_options
  build_mount_config opts =
      apply_mount_options opts
        (record { inherit_middleware = false; extra_middleware = []; name_prefix = [] })

  -- What runs before the handlers of a mounted route.
  unfoldable pub mount_chain : MountConfig H → List H → List H → List H
  mount_chain cfg own subs =
      (if cfg.inherit_middleware then own else []) ++ subs ++ cfg.extra_middleware

module _ {ℓ} {H : Type ℓ} (fnv : Fnv) (quote_meta : Bytes → Bytes)
    (compile : Bytes → Option (Bytes → Bool)) where
  -- The constraints of a mounted route that waits, each made again from its pattern
  unfoldable pub restrict_pending : ℕ → List Compiled → Router H → Option (Router H)
  unfolding where_pending extract_constraint_pattern
  restrict_pending i [] r = some r
  restrict_pending i (c ∷ cs) r =
      where_pending fnv quote_meta compile i c.param (extract_constraint_pattern c.text) r
      >>= restrict_pending i cs

  unfoldable pub type_pending : ℕ → List (Bytes × ParamConstraint) → Router H → Router H
  unfolding where_typed is_copied
  type_pending i [] r = r
  type_pending i ((param, pc) ∷ typed) r =
      type_pending i typed
        (if is_copied pc then where_typed fnv quote_meta compile i param pc r else r)

  -- The same on a router that is warmed up, where each change registers the route again
  unfoldable pub restrict_registered :
      List Compiled → Route H → Router H → Option (Route H × Router H)
  unfolding where_registered extract_constraint_pattern
  restrict_registered [] rt r = some (rt, r)
  restrict_registered (c ∷ cs) rt r =
      where_registered fnv quote_meta compile c.param (extract_constraint_pattern c.text) rt r
      >>= λ both. restrict_registered cs both.0 both.1

  -- WhereInt and its like on a route that is registered
  unfoldable pub where_typed_registered :
      Bytes → ParamConstraint → Route H → Router H → Option (Route H × Router H)
  unfolding register_route
  where_typed_registered param pc rt r =
      let rt' : Route H = record rt { typed = put_key param pc rt.typed } in
      register_route fnv quote_meta compile rt' r >>= λ r'. some (rt', r')

  unfoldable pub type_registered :
      List (Bytes × ParamConstraint) → Route H → Router H → Option (Route H × Router H)
  unfolding where_typed_registered is_copied
  type_registered [] rt r = some (rt, r)
  type_registered ((param, pc) ∷ typed) rt r =
      (if is_copied pc then where_typed_registered param pc rt r else some (rt, r)) >>= λ both.
      type_registered typed both.0 both.1

  unfoldable pub name_registered : Bytes → Route H → Router H → Option (Router H)
  name_registered name rt r = if r.frozen then none else elim (find_key name r.named_routes) [
    | some other ↦ none
    | none ↦
        some (record r { named_routes = put_key name (record rt { name = name }) r.named_routes })
  ]

  -- mountRoute, after the route is added: on one that waits and on one that is registered
  unfoldable pub finish_pending : ℕ → Bytes → Route H → Router H → Option (Router H)
  unfolding restrict_pending type_pending name_pending
  finish_pending i name_prefix rt r = restrict_pending i rt.constraints r >>= λ r'.
      let r'' = type_pending i rt.typed r' in
      if is_empty rt.name
      then some r''
      else name_pending fnv quote_meta compile [] (name_prefix ++ rt.name) i r''

  unfoldable pub finish_registered : Route H → Bytes → Route H → Router H → Option (Router H)
  unfolding restrict_registered type_registered name_registered
  finish_registered added name_prefix rt r = do
    both ← restrict_registered rt.constraints added r
    both' ← type_registered rt.typed both.0 both.1
    if is_empty rt.name
        then some both'.1
        else name_registered (name_prefix ++ rt.name) both'.0 both'.1

  -- mountRoute
  unfoldable pub mount_route : Bytes → List H → Bytes → Route H → Router H → Option (Router H)
  unfolding add_route finish_pending finish_registered mounted_path new_route
  mount_route prefix chain name_prefix rt r =
      let path = mounted_path prefix rt.path in
      add_route fnv quote_meta compile rt.method path (chain ++ rt.handlers) r >>= λ r'.
      if r.warmed_up
      then finish_registered (new_route [] rt.method path (chain ++ rt.handlers)) name_prefix rt r'
      else finish_pending (length r.pending) name_prefix rt r'

  unfoldable pub mount_routes :
      Bytes → List H → Bytes → List (Route H) → Router H → Option (Router H)
  unfolding mount_route
  mount_routes prefix chain name_prefix [] r = some r
  mount_routes prefix chain name_prefix (rt ∷ rts) r =
      mount_route prefix chain name_prefix rt r >>= mount_routes prefix chain name_prefix rts

  -- Mount, as far as it moves the routes that wait in the subrouter; those of a subrouter that is warmed
  -- up are read back from its trees, which is not part of the model.
  unfoldable pub mount_pending :
      Bytes → Router H → List (MountOption H) → Router H → Option (Router H)
  unfolding mount_routes mount_prefix mount_chain build_mount_config
  mount_pending prefix sub opts r =
      let cfg = build_mount_config opts in
      mount_routes (mount_prefix prefix) (mount_chain cfg r.middleware sub.middleware)
        cfg.name_prefix sub.pending r
