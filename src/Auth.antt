-- ===== src/Auth.antt =====
-- internal/auth/auth.go: the state of the service, credentials, sessions and permissions.
pub mod Accounts
pub mod Guards
pub mod Me
pub mod Sessions
mod Tests
use webridge.Prelude.{
  ℕ, zero, suc, ◌+◌, Bool, true, false, ◌&&◌, ◌||◌, not, Option, none, some, List, [], ◌∷◌, ◌++◌,
  keep, ltb, leb, if◌then◌else◌, Text, text, ◌==◌, not_empty, ℤ, pos, is_positive, pos_part,
}
use webridge.Prelude.Table.{Table, lookup, insert, erase}
use webridge.Strings.{has}
use webridge.Config.{AuthConfig, UserConfig, LdapConfig, ImapEmailConfig}
use webridge.Bruteforce.{Bruteforce, new_bruteforce}

abbrev pub valid_perms : List Text
valid_perms = text "download" ∷ text "audit" ∷ text "users" ∷ text "groups" ∷ []

pub record User : Type 0 where
  pub hash : Text
  pub salt : Text
  pub role : Text
  pub groups : List Text
  pub source : Text

unfoldable pub zeros : ℕ → Text
zeros zero = []
zeros (suc n) = 0 ∷ zeros n

-- the user that `verify` returns for an unknown name
abbrev pub unknown_user : User
unknown_user = record { hash = zeros 32; salt = zeros 16; role = []; groups = []; source = [] }

pub record Session : Type 0 where
  pub username : Text
  pub role : Text
  pub expires : ℕ

-- A group is its permissions.
pub record Service : Type 0 where
  pub users : Table User
  pub groups : Table (List Text)
  pub sessions : Table Session
  pub ttl : ℕ
  pub ldap_cfg : LdapConfig
  pub imap_cfg : ImapEmailConfig
  pub bf : Bruteforce
  pub ldap_file : Text
  pub imap_file : Text
  pub config_file : Text

abbrev pub is_admin : User → Bool
is_admin u = u.role == text "admin"

-- `role` with anything but "admin" read as "user"
abbrev role_of : Text → Text
role_of role = if role == text "admin" then role else text "user"

-- the groups of a new local user
abbrev pub groups_for : Text → List Text
groups_for role = if role == text "admin" then [] else text "users" ∷ []

-- Permissions.

-- The permissions of the groups that exist, group after group; the map of the source holds the
-- texts of this list.
unfoldable pub union_of : Table (List Text) → List Text → List Text
union_of groups [] = []
union_of groups (g ∷ gs) = elim (lookup g groups) [
  | none ↦ union_of groups gs
  | some perms ↦ perms ++ union_of groups gs
]

perms_of : Table (List Text) → Option User → List Text
perms_of groups none = []
perms_of groups (some u) = if is_admin u then valid_perms else union_of groups u.groups

unfoldable pub effective_perms : Service → Text → List Text
unfolding perms_of
effective_perms s username = perms_of s.groups (lookup username s.users)

unfoldable pub perms_list : Service → Text → List Text
perms_list s username = keep (λ p. has p (effective_perms s username)) valid_perms

-- Sessions. `RequireAuth` with the cookie, if there is one: the state after it, and the session that
-- the request runs under.
session_at : Service → ℕ → Text → Option Session → Service × Option Session
session_at s now token none = (s, none)
session_at s now token (some sess) =
    if ltb sess.expires now
    then (record s { sessions = erase token s.sessions }, none)
    else (s, some sess)

unfoldable pub require_auth : Service → ℕ → Option Text → Service × Option Session
unfolding session_at
require_auth s now none = (s, none)
require_auth s now (some token) = session_at s now token (lookup token s.sessions)

-- What a guarded route answers: 401, 403, or the handler runs under the session.
pub data Access : Type 0 where
  unauthorized forbidden : Access
  granted : Session → Access

require_perm : Text → Service → Session → Access
require_perm perm s sess =
    if has perm (effective_perms s sess.username) then granted sess else forbidden

-- `guard` of cmd/server/main.go: `RequireAuth(RequirePerm(perm)(h))`
unfoldable pub guard : Text → Service → ℕ → Option Text → Service × Access
unfolding require_perm
guard perm s now cookie =
    let (s', found) = require_auth s now cookie in
    (s', elim found [ none ↦ unauthorized | some sess ↦ require_perm perm s' sess ])

-- `Logout`: the state after it, and the session that it ended.
unfoldable pub logout : Service → Option Text → Service × Option Session
logout s none = (s, none)
logout s (some token) = (record s { sessions = erase token s.sessions }, lookup token s.sessions)

-- Credentials. `crypto/sha256` and the salts that `crypto/rand` gives are parameters.
module _ (sha256 : Text → Text) where
  unfoldable pub hash_password : Text → Text → Text
  hash_password salt pw = sha256 (salt ++ pw)

  -- The user, whether it exists, and whether the password fits.
  verify_user : Option User → Text → User × Bool × Bool
  verify_user none password = (unknown_user, false, false)
  verify_user (some u) password =
      if not (not_empty u.hash)
      then (u, true, false)
      else (u, true, sha256 (u.salt ++ password) == u.hash)

  unfoldable pub verify : Service → Text → Text → User × Bool × Bool
  unfolding verify_user
  verify s username password = verify_user (lookup username s.users) password

  abbrev pub configured_user : Text → UserConfig → User
  configured_user salt c = record {
    hash = hash_password salt c.password;
    salt = salt;
    role = role_of c.role;
    groups = groups_for (role_of c.role);
    source = text "local";
  }

  -- The loop of `New` over the configured users; `salts n` is the salt of the n-th call.
  unfoldable pub load_users : (ℕ → Text) → ℕ → List UserConfig → Table User → Table User
  load_users salts n [] users = users
  load_users salts n (c ∷ cs) users = load_users salts (suc n) cs (
      if not_empty c.username && not_empty c.password
      then insert c.username (configured_user (salts n) c) users
      else users)

  -- `New`; the overrides are the JSON files' contents where they could be read and decoded.
  unfoldable pub new_service :
      AuthConfig
      → LdapConfig
      → ImapEmailConfig
      → Option LdapConfig
      → Option ImapEmailConfig
      → Text
      → Text
      → Text
      → (ℕ → Text)
      → Service
  unfolding load_users
  new_service cfg ldap imap ldap_override imap_override ldap_file imap_file config_file salts =
      record {
        users = load_users salts 0 cfg.users [];
        groups = (text "users", text "download" ∷ []) ∷ (text "admin", valid_perms) ∷ [];
        sessions = [];
        ttl = if is_positive cfg.session_ttl then pos_part cfg.session_ttl else 86_400_000_000_000;
        ldap_cfg = elim ldap_override [ none ↦ ldap | some ov ↦ ov ];
        imap_cfg = elim imap_override [ none ↦ imap | some ov ↦ ov ];
        bf = new_bruteforce cfg.login_rate_limit;
        ldap_file = ldap_file;
        imap_file = imap_file;
        config_file = config_file;
      }
