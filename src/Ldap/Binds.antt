-- ===== src/Ldap/Binds.antt =====
-- When internal/auth/ldap.go accepts a password.
use webridge.Prelude.{
  ◌≡◌, refl, Bool, true, false, not, Option, some, List, [], ◌∷◌, if◌then◌else◌, Text, arith,
}
use webridge.Config.{LdapConfig}
use webridge.Ldap.{Directory, Verdict, accepted, errored, ldap_auth, user_bind}

user_bind_accepts :
    (d : Directory) (password : Text) (found : Option (List Text))
    → user_bind d password found ≡ accepted
    → (dn : Text) × (found ≡ some (dn ∷ [])) × (d.bind dn password ≡ true)
unfolding user_bind
user_bind_accepts d password (some (dn ∷ [])) h = (dn, refl, ground arith)
user_bind_accepts d password _ h = cc

true_of_not : (b : Bool) → not b ≡ false → b ≡ true
true_of_not true h = refl
true_of_not false h = cc

gate :
    (b : Bool) (v : Verdict) → (if b then errored else v) ≡ accepted → (b ≡ false) × (v ≡ accepted)
gate true v h = cc
gate false v h = (refl, h)

-- A password is accepted only if the service bind succeeds, the search finds the user once, and the
-- directory binds this one entry with the password.
pub ldap_auth_sound :
    (d : Directory) (lc : LdapConfig) (username password : Text)
    → ldap_auth d lc username password ≡ accepted
    → (dn : Text) × (d.bind lc.bind_dn lc.bind_password ≡ true)
      × (d.search lc.base_dn lc.user_filter username ≡ some (dn ∷ []))
      × (d.bind dn password ≡ true)
unfolding ldap_auth
ldap_auth_sound d lc username password h =
    let (_, after_dial) = gate _ _ h in
    let (_, after_tls) = gate _ _ after_dial in
    let (service, after_bind) = gate _ _ after_tls in
    let (dn, found, bound) =
      user_bind_accepts d password (d.search lc.base_dn lc.user_filter username) after_bind in
    (dn, true_of_not _ service, found, bound)

-- Where `Bind` refuses an empty password, as go-ldap's does, and no bind password is configured, every
-- login ends with an error.
pub ldap_auth_anonymous :
    (d : Directory) (lc : LdapConfig) (username password : Text)
    → ((dn : Text) → d.bind dn [] ≡ false)
    → lc.bind_password ≡ []
    → ldap_auth d lc username password ≡ errored
unfolding ldap_auth
ldap_auth_anonymous d lc username password refuses e = ground (arith, refuses lc.bind_dn)
