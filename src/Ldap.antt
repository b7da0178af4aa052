-- ===== src/Ldap.antt =====
-- internal/auth/ldap.go. The directory is not modelled: a `Directory` says what one connection of
-- github.com/go-ldap/ldap answers.
pub mod Binds
mod Tests
use webridge.Prelude.{
  ℕ, Bool, true, false, ◌&&◌, not, Option, none, some, List, [], ◌∷◌, if◌then◌else◌, eqb, Text,
  text, ◌==◌, ℤ, pos_part, neg_part,
}
use webridge.Prelude.Table.{lookup, insert}
use webridge.Config.{LdapConfig}
use webridge.Auth.{User, Service}

-- `DialURL` of the scheme, host and port, `StartTLS`, `Bind` of a name and a password, and the DNs
-- that `Search` finds below the base, by the filter and the user's name (`none`: an error).
pub record Directory : Type 0 where
  pub dial : Text → Text → ℤ → Bool
  pub start_tls : Bool
  pub bind : Text → Text → Bool
  pub search : Text → Text → Text → Option (List Text)

-- The result of `ldapAuth` and `imapAuth`: yes, no without an error, or an error.
pub data Verdict : Type 0 where
  accepted rejected errored : Verdict

abbrev is_port : ℕ → ℤ → Bool
is_port n p = eqb (pos_part p) n && eqb (neg_part p) 0

user_bind : Directory → Text → Option (List Text) → Verdict
user_bind d password (some (dn ∷ [])) = if d.bind dn password then accepted else errored
user_bind d password _ = errored

unfoldable pub ldap_auth : Directory → LdapConfig → Text → Text → Verdict
unfolding user_bind
ldap_auth d lc username password =
    let ldaps = is_port 636 lc.port in
    if not (d.dial (if ldaps then text "ldaps" else text "ldap") lc.host lc.port)
    then errored
    else if (lc.use_tls && not ldaps) && not d.start_tls
    then errored
    else if not (d.bind lc.bind_dn lc.bind_password)
    then errored
    else user_bind d password (d.search lc.base_dn lc.user_filter username)

-- `append([]string{}, groups...)`
abbrev pub groups_of : Option (List Text) → List Text
groups_of none = []
groups_of (some gs) = gs

abbrev pub external_user : Text → Option (List Text) → User
external_user source groups = record {
  hash = [];
  salt = [];
  role = text "user";
  groups = groups_of groups;
  source = source;
}

abbrev add_user : Service → Text → User → Service × User
add_user s name u = (record s { users = insert name u s.users }, u)

provision_found : Service → Text → Option User → Service × User
provision_found s username none =
    add_user s username (external_user (text "ldap") s.ldap_cfg.default_groups)
provision_found s username (some u) =
    if u.source == text "ldap"
    then (s, u)
    else add_user s username (external_user (text "ldap") s.ldap_cfg.default_groups)

unfoldable pub provision_ldap : Service → Text → Service × User
unfolding provision_found
provision_ldap s username = provision_found s username (lookup username s.users)
