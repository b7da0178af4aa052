-- ===== src/Ldap/Tests.antt =====
-- Logins at a small directory, for internal/auth/ldap.go.
use webridge.Prelude.{◌≡◌, refl, true, ◌&&◌, some, [], ◌∷◌, Text, text, ◌==◌, not_empty}
use webridge.Samples.{ldap}
use webridge.Config.{LdapConfig}
use webridge.Ldap.{Directory, ldap_auth}
use webridge.Ldap.Binds.{ldap_auth_sound}

-- Every name is bound with the password `svc`; one entry is found for each user.
abbrev small : Directory
small = record {
  dial = λ scheme host port. true;
  start_tls = true;
  bind = λ dn password. not_empty password && (password == text "svc");
  search = λ base filter username. some (username ∷ []);
}

ldap_auth_sound_example :
    (dn : Text) × (small.bind (text "cn=svc") (text "svc") ≡ true)
    × (small.search (text "dc=example") (text "(uid=%s)") (text "bob") ≡ some (dn ∷ []))
    × (small.bind dn (text "svc") ≡ true)
unfolding ldap_auth not_empty text ◌==◌
ldap_auth_sound_example = ldap_auth_sound small ldap (text "bob") (text "svc") refl

abbrev anonymous : LdapConfig
anonymous = record ldap { bind_dn = []; bind_password = [] }
