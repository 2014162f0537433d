-- ===== src/Router/Proxies/Tests.antt =====
-- Runs of the walk over X-Forwarded-For, with a small stand-in for the package net.
use rivaas.Prelude.{
  ℕ, ◌≡◌, refl, List, [], ◌∷◌, some, none, arith, if◌then◌else◌, Bytes, codes, contains, has_prefix,
  prepend,
}
use rivaas.Router.Proxies.{
  Net, RealIpConfig, last_address, last_untrusted_xff, parse_one_ip, is_trusted,
}
use rivaas.Router.Proxies.Walk.{count_trusted, last_address-leftmost}

-- A text with a dot is an address, and a range is a prefix.
abbrev dotted : Net Bytes
dotted = record {
  parse_ip = λ s. if contains b'.' s then some s else none;
  range_has = λ range ip. has_prefix ip range;
  parse_cidr = λ s. some s;
  split_host = λ s. none;
}

abbrev hops : ℕ → RealIpConfig Bytes
hops n = record { cidrs = codes "10." ∷ []; headers = codes "X-Forwarded-For" ∷ []; max_hops = n }

abbrev proxies : List Bytes
proxies = codes "203.0.113.1" ∷ codes "10.0.0.1" ∷ []

-- The example of the comment on lastUntrustedXFF, with the default limit and with a larger one.
default_limit :
    last_untrusted_xff dotted (codes "203.0.113.1, 10.0.0.1, 10.0.0.2") (hops 1) ≡ codes "10.0.0.2"
unfolding last_untrusted_xff contains has_prefix prepend
default_limit = refl

larger_limit :
    last_untrusted_xff dotted (codes "203.0.113.1, 10.0.0.1, 10.0.0.2") (hops 3)
    ≡ codes "203.0.113.1"
unfolding last_untrusted_xff contains has_prefix prepend
larger_limit = refl

last_address-leftmost_example :
    last_address dotted (hops 2) (codes "6.6.6.6" ∷ proxies) ≡ codes "6.6.6.6"
unfolding parse_one_ip contains has_prefix count_trusted is_trusted
last_address-leftmost_example =
    last_address-leftmost dotted (hops 2) (codes "6.6.6.6") proxies refl (omega arith)
