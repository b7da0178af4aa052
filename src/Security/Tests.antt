-- ===== src/Security/Tests.antt =====
-- Hosts for internal/middleware/security.go.
use webridge.Prelude.{
  ◌≡◌, refl, Bool, true, false, Option, none, some, Text, text, ◌==◌, eq_iff, if◌then◌else◌, arith,
}
use webridge.Strings.{before, trim_left, trim_right, attach}
use webridge.Security.{Address, literal_of, is_private_ip}
use webridge.Security.Addresses.{Lacks, is_private_ip_v4}

abbrev address : Bool → Bool → Address
address v4 private = record {
  is_v4 = v4;
  is_private = private;
  is_loopback = false;
  is_link_local_unicast = false;
  is_link_local_multicast = false;
}

-- It reads two literals.
abbrev parse_ip : Text → Option Address
parse_ip t =
    if t == text "10.0.0.1"
    then some (address true true)
    else if t == text "fd00::1"
    then some (address false true)
    else none

reads_v4 : (s : Text) (ip : Address) → parse_ip s ≡ some ip → Lacks b':' s → ip.is_v4 ≡ true
unfolding text
reads_v4 s ip e h = ground (arith, eq_iff s (text "10.0.0.1"), eq_iff s (text "fd00::1"))

is_private_ip_v4_example :
    (ip : Address) × (parse_ip (literal_of (text "10.0.0.1:80")) ≡ some ip) × (ip.is_v4 ≡ true)
unfolding is_private_ip literal_of trim_left trim_right attach before text ◌==◌
is_private_ip_v4_example = is_private_ip_v4 parse_ip (text "10.0.0.1:80") reads_v4 refl

passes : is_private_ip parse_ip (text "[fd00::1]") ≡ false
unfolding is_private_ip literal_of trim_left trim_right attach before text ◌==◌
passes = refl
