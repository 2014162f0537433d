-- ===== src/Router/Version/Lifecycle/Tests.antt =====
-- A version after its end.
use rivaas.Prelude.{ℕ, true, [], ◌∷◌, some, Bytes, codes, find_key}
use rivaas.Router.Version.Lifecycle.{Lifecycle, Policy, set_lifecycle_headers}
use rivaas.Router.Version.Lifecycle.Headers.{Announces, end_of, set_lifecycle_headers-Announces}

abbrev old : Lifecycle
old = record {
  is_deprecated = true;
  deprecated_at = some 5;
  sunset_date = some 10;
  migration_url = [];
  successor = codes "v2";
}

abbrev strict : Policy
strict = record {
  send_version_header = true;
  send_warning299 = true;
  enforce_sunset = true;
  lifecycles = (codes "v1", old) ∷ [];
}

abbrev stamp : ℕ → Bytes
stamp t = t ∷ []

set_lifecycle_headers-Announces_example :
    Announces stamp stamp strict 11
      (end_of (find_key (codes "v1") strict.lifecycles))
      []
      (set_lifecycle_headers stamp stamp strict 11 (codes "v1") [])
set_lifecycle_headers-Announces_example =
    set_lifecycle_headers-Announces stamp stamp strict 11 (codes "v1") []
