-- ===== src/Middleware/TrailingSlash.antt =====
-- The policies for a slash at the end of a path (middleware/trailingslash/trailingslash.go). The
-- method String of net/url is a parameter: it writes the text of a Location. New runs the same tests
-- behind the choice of the route, and is not modelled.
pub mod Settled
mod Tests
use rivaas.Prelude.{
  Bool, true, false, Option, none, some, ◌++◌, if◌then◌else◌, Bytes, codes, eqb, has_suffix,
  cut_suffix,
}

pub data Policy : Type 0 where
  policy_remove : Policy
  policy_add : Policy
  policy_strict : Policy

-- The parts of a URL that matter here: the path, and all that stands behind it.
pub record Url : Type 0 where
  pub path : Bytes
  pub query : Bytes

-- Either the wrapped handler gets the request, or the client is answered with 308 and a Location.
pub data Answer : Type 0 where
  served : Url → Answer
  redirected : Bytes → Answer

-- strings.TrimSuffix
unfoldable pub or_whole : Bytes → Option Bytes → Bytes
or_whole s none = s
or_whole s (some stem) = stem

unfoldable pub trim_suffix : Bytes → Bytes → Bytes
unfolding or_whole
trim_suffix s p = or_whole s (cut_suffix s p)

module _ (url_string : Url → Bytes) where
  -- redirect308HTTP
  unfoldable pub redirect308_http : Url → Bytes → Answer
  redirect308_http url new_path = redirected (url_string (record url { path = new_path }))

  -- The switch of Wrap: the flag is hasSlash.
  unfoldable pub wrap_by : Policy → Bool → Url → Answer
  unfolding redirect308_http
  wrap_by policy_remove true url = redirect308_http url (trim_suffix url.path (codes "/"))
  wrap_by policy_remove false url = served url
  wrap_by policy_add true url = served url
  wrap_by policy_add false url = redirect308_http url (url.path ++ codes "/")
  wrap_by policy_strict _ url = served url

  -- Wrap
  unfoldable pub wrap : Policy → Url → Answer
  unfolding wrap_by
  wrap policy url =
      if eqb url.path (codes "/")
      then served url
      else wrap_by policy (has_suffix url.path (codes "/")) url
