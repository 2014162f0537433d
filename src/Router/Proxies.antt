-- ===== src/Router/Proxies.antt =====
-- The address of the client behind trusted proxies (router/proxies.go: ClientIP, lastUntrustedXFF).
-- The package net is not of the repository: its parser of addresses, of ranges and of host and port
-- are parameters. A diagnostic event for a long header is left out.
pub mod Walk
mod Tests
use mathlib.Core.List.{reverse}
use rivaas.Prelude.{
  ℕ, zero, suc, ◌+◌, ◌≡◌, Bool, true, false, ◌&&◌, ◌||◌, not, List, [], ◌∷◌, Option, none, some,
  leb, ltb, ◌==◌, ◌>>=◌, if◌then◌else◌, length, get_elem?, Bytes, codes, eqb, is_empty, split,
}
use rivaas.Compiler.Route.{trim_space}

-- What is used of the package net. An address is known by its text, `net.IP.String`.
pub record Net {ℓ} (Range : Type ℓ) : Type ℓ where
  -- net.ParseIP and String
  pub parse_ip : Bytes → Option Bytes
  -- net.IPNet.Contains, of an address that ParseIP gave
  pub range_has : Range → Bytes → Bool
  -- net.ParseCIDR
  pub parse_cidr : Bytes → Option Range
  -- the host of net.SplitHostPort
  pub split_host : Bytes → Option Bytes

-- realIPConfig
pub record RealIpConfig {ℓ} (Range : Type ℓ) : Type ℓ where
  pub cidrs : List Range
  pub headers : List Bytes
  pub max_hops : ℕ

-- What ClientIP reads of a request; `header` is http.Header.Get.
pub record Request : Type 0 where
  pub remote_addr : Bytes
  pub header : Bytes → Bytes

-- The loop of splitAndTrim
unfoldable pub trim_parts : List Bytes → List Bytes
unfolding trim_space is_empty
trim_parts [] = []
trim_parts (part ∷ parts) =
    let rest = trim_parts parts in
    if is_empty (trim_space part) then rest else trim_space part ∷ rest

unfoldable pub split_and_trim : Bytes → ℕ → List Bytes
unfolding trim_parts split
split_and_trim s sep = if is_empty s then [] else trim_parts (split sep s)

module _ {ℓ} {Range : Type ℓ} (net : Net Range) where
  -- The loop of compileProxies over the ranges; `none` is the error.
  unfoldable pub parse_cidrs : List Bytes → Option (List Range)
  parse_cidrs [] = some []
  parse_cidrs (cidr ∷ cidrs) = do
    range ← net.parse_cidr cidr
    ranges ← parse_cidrs cidrs
    some (range ∷ ranges)

  -- compileProxies; a limit of 0 stands for one that is not positive
  unfoldable pub compile_proxies : List Bytes → List Bytes → ℕ → Option (RealIpConfig Range)
  unfolding parse_cidrs
  compile_proxies proxies headers max_hops = do
    cidrs ← parse_cidrs proxies
    some (record {
      cidrs = cidrs;
      headers = elim headers [
        | [] ↦ codes "X-Forwarded-For" ∷ codes "X-Real-IP" ∷ []
        | h ∷ hs ↦ h ∷ hs
      ];
      max_hops = if max_hops == 0 then 1 else max_hops;
    })

  unfoldable pub in_ranges : List Range → Bytes → Bool
  in_ranges [] ip = false
  in_ranges (range ∷ ranges) ip = net.range_has range ip || in_ranges ranges ip

  -- isTrusted
  unfoldable pub is_trusted : RealIpConfig Range → Bytes → Bool
  unfolding in_ranges
  is_trusted cfg ip = elim (net.parse_ip ip) [
    | none ↦ false
    | some parsed ↦ in_ranges cfg.cidrs parsed
  ]

  -- parseOneIP
  unfoldable pub parse_one_ip : Bytes → Bytes
  unfolding trim_space is_empty
  parse_one_ip s =
      if is_empty (trim_space s)
      then []
      else elim (net.parse_ip (trim_space s)) [ none ↦ [] | some ip ↦ ip ]

  -- The walk from right to left: the parts that are left stand with the rightmost first, so that
  -- the index of the next is the number of those after it.
  unfoldable pub walk_back : RealIpConfig Range → ℕ → ℕ → List Bytes → ℕ
  unfolding is_trusted parse_one_ip
  walk_back cfg hops boundary [] = boundary
  walk_back cfg hops boundary (part ∷ before) =
      let ip = parse_one_ip part in
      let i = length before in
      let skip = walk_back cfg hops boundary before in
      let more = walk_back cfg (hops + 1) i before in
      let go_on = walk_back cfg hops i before in
      if is_empty ip
      then skip
      else if is_trusted cfg ip
      then (if ltb 0 cfg.max_hops && leb cfg.max_hops (hops + 1) then i else more)
      else go_on

  unfoldable pub first_part : List Bytes → Bytes
  unfolding parse_one_ip
  first_part [] = []
  first_part (part ∷ _) = parse_one_ip part

  -- The address at the boundary, or the leftmost.
  unfoldable pub address_at : Option Bytes → List Bytes → Bytes
  unfolding first_part parse_one_ip
  address_at none parts = first_part parts
  address_at (some part) parts =
      if is_empty (parse_one_ip part) then first_part parts else parse_one_ip part

  unfoldable pub last_address : RealIpConfig Range → List Bytes → Bytes
  unfolding walk_back address_at
  last_address cfg parts =
      address_at (get_elem? parts (walk_back cfg 0 (length parts) (reverse parts))) parts

  -- lastUntrustedXFF
  unfoldable pub last_untrusted_xff : Bytes → RealIpConfig Range → Bytes
  unfolding last_address split_and_trim
  last_untrusted_xff xff cfg = last_address cfg (split_and_trim xff b',')

  unfoldable pub client_ip_from_remote_addr : Bytes → Bytes
  client_ip_from_remote_addr addr =
      if is_empty addr then [] else elim (net.split_host addr) [ none ↦ addr | some host ↦ host ]

  -- One header of the loop of ClientIP. The names of the single-address headers are canonical.
  unfoldable pub header_ip : RealIpConfig Range → Request → Bytes → Bytes
  unfolding last_untrusted_xff parse_one_ip
  header_ip cfg request name =
      if eqb name (codes "X-Forwarded-For")
      then last_untrusted_xff (request.header name) cfg
      else parse_one_ip (request.header name)

  unfoldable pub first_header_ip : RealIpConfig Range → Request → List Bytes → Bytes → Bytes
  unfolding header_ip
  first_header_ip cfg request [] remote = remote
  first_header_ip cfg request (name ∷ names) remote =
      let rest = first_header_ip cfg request names remote in
      let ip = header_ip cfg request name in if is_empty ip then rest else ip

  -- ClientIP; `none` is a router without trusted proxies
  unfoldable pub client_ip : Option (RealIpConfig Range) → Request → Bytes
  unfolding first_header_ip is_trusted client_ip_from_remote_addr
  client_ip none request = client_ip_from_remote_addr request.remote_addr
  client_ip (some cfg) request =
      let remote = client_ip_from_remote_addr request.remote_addr in
      if not (is_trusted cfg remote) then remote else first_header_ip cfg request cfg.headers remote
