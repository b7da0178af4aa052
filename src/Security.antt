-- ===== src/Security.antt =====
-- internal/middleware/security.go and the client address of internal/middleware/ratelimit.go. The
-- functions of `net` and `net/url` are parameters.
pub mod Addresses
mod Tests
use webridge.Prelude.{
  ℕ, Bool, true, false, ◌&&◌, ◌||◌, not, Option, none, some, List, [], ◌∷◌, eqb, if◌then◌else◌,
  Text, text, not_empty,
}
use webridge.Strings.{trim_left, trim_right, trim_space, before}

-- What the program asks of a `net.IP`.
pub record Address : Type 0 where
  pub is_v4 : Bool
  pub is_private : Bool
  pub is_loopback : Bool
  pub is_link_local_unicast : Bool
  pub is_link_local_multicast : Bool

abbrev is_bracket : ℕ → Bool
is_bracket c = eqb c b'[' || eqb c b']'

-- `strings.Trim(host, "[]")`, then what stands before the first colon
unfoldable pub literal_of : Text → Text
literal_of host = (before b':' (trim_right is_bracket (trim_left is_bracket host))).0

blocks : Option Address → Bool
blocks none = false
blocks (some ip) =
    ip.is_private || (ip.is_loopback || (ip.is_link_local_unicast || ip.is_link_local_multicast))

unfoldable pub is_private_ip : (Text → Option Address) → Text → Bool
unfolding blocks
is_private_ip parse_ip host = blocks (parse_ip (literal_of host))

-- `url.Parse` gives the host, or `none` for an error.
unfoldable pub host_of : (Text → Option Text) → Text → Text
host_of parse raw_url = elim (parse raw_url) [ none ↦ raw_url | some host ↦ host ]

-- `ValidateURL`: whether the request goes on to the next handler.
unfoldable pub validates : (Text → Option Text) → (Text → Option Address) → Text → Bool
validates parse parse_ip url_param =
    if not (not_empty url_param)
    then true
    else not (is_private_ip parse_ip (host_of parse url_param))

-- The header fields of a request (empty where absent) and its peer's address.
pub record Peer : Type 0 where
  pub forwarded_for : Text
  pub real_ip : Text
  pub remote_addr : Text

-- `ClientIP`; `net.SplitHostPort` gives the host, or `none` for an error. Without a comma
-- `before` gives the whole field.
unfoldable pub client_ip : (Text → Option Text) → Peer → Text
client_ip split_host_port r =
    if not_empty r.forwarded_for
    then trim_space (before b',' r.forwarded_for).0
    else if not_empty r.real_ip
    then r.real_ip
    else elim (split_host_port r.remote_addr) [ none ↦ r.remote_addr | some host ↦ host ]
