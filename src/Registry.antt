-- ===== src/Registry.antt =====
-- internal/providers/registry.go: which provider serves a URL. `url.Parse` is a parameter: the host of
-- the URL, or `none` for an error. The order of the entries of `host_map` is the order in which the
-- `range` loop meets them.
pub mod Resolution
pub mod Names
mod Tests
use mathlib.Core.List.{reverse}
use webridge.Prelude.{
  ℕ, Bool, true, false, Option, none, some, List, [], ◌∷◌, ◌++◌, map, if◌then◌else◌, Text, text,
  ◌==◌,
}
use webridge.Prelude.Table.{Table, lookup, insert}
use webridge.Strings.{to_lower, has_suffix, before, drop_dot}

pub record Provider : Type 0 where
  pub name : Text
  pub hosts : List Text

pub record Registry : Type 0 where
  pub providers : Table Provider
  pub host_map : Table Provider

abbrev pub new_registry : Registry
new_registry = record { providers = []; host_map = [] }

add_hosts : Provider → List Text → Table Provider → Table Provider
add_hosts p [] m = m
add_hosts p (h ∷ hs) m = add_hosts p hs (insert (to_lower h) p m)

unfoldable pub register : Registry → Provider → Registry
unfolding add_hosts
register r p = record {
  providers = insert p.name p r.providers;
  host_map = add_hosts p p.hosts r.host_map;
}

unfoldable pub get_provider_names : Registry → List Text
get_provider_names r = map (λ e. e.1.name) r.providers

pub data Resolved : Type 0 where
  found : Provider → Resolved
  bad_url no_provider : Resolved

-- The loop over `hostMap`.
by_suffix : Text → Table Provider → Resolved
by_suffix host [] = no_provider
by_suffix host ((h, p) ∷ m) = if has_suffix host (b'.' ∷ h) then found p else by_suffix host m

-- The host in lower case, with no port and no dot at its end.
unfoldable pub host_name : Text → Text
host_name host = drop_dot (before b':' (to_lower host)).0

by_host : Table Provider → Text → Option Provider → Resolved
by_host m host (some p) = found p
by_host m host none = by_suffix host m

unfoldable pub resolve_provider : (Text → Option Text) → Registry → Text → Resolved
unfolding by_suffix by_host
resolve_provider parse r raw_url = elim (parse raw_url) [
  | none ↦ bad_url
  | some host ↦ by_host r.host_map (host_name host) (lookup (host_name host) r.host_map)
]
