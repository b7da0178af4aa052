-- ===== src/Login/Demotion.antt =====
-- A login through the directory registers an email user anew (`provisionLDAP` of
-- internal/auth/ldap.go), and so takes an admin's role away.
use webridge.Prelude.{
  ◌+◌, ◌≡◌, refl, Bool, true, false, ◌&&◌, some, [], Text, text, ◌==◌, not_empty, eq_iff, eq_refl,
  arith,
}
use webridge.Prelude.Table.{lookup, insert, lookup-insert, count-insert_old}
use webridge.Auth.{User, Service, verify, is_admin}
use webridge.Bruteforce.{check}
use webridge.Ldap.{accepted, ldap_auth, provision_ldap, external_user}
use webridge.World.{World, audited}
use webridge.UserAdmin.{admin_count}
use webridge.Login.{
  LoginRequest, Outside, authenticate, try_ldap, try_imap, login, checked, finish, admit,
}
use webridge.Login.Sources.{after_check}

-- the user that the directory's login registers
abbrev pub registered : Service → User
registered s = external_user (text "ldap") s.ldap_cfg.default_groups

role_differs : (text "user" == text "admin") ≡ false
unfolding text ◌==◌
role_differs = refl

sources_differ : (text "imap" == text "ldap") ≡ false
unfolding text ◌==◌
sources_differ = refl

module _ (o : Outside) (s : Service) (username password : Text) (u : User) where
  users-authenticate :
      lookup username s.users ≡ some u
      → u.source ≡ text "imap"
      → u.hash ≡ []
      → s.ldap_cfg.enabled ≡ true
      → ldap_auth o.directory s.ldap_cfg username password ≡ accepted
      → ((authenticate o s username password).svc.users ≡ insert username (registered s) s.users)
        × ((authenticate o s username password).ok ≡ true)
  unfolding authenticate try_ldap try_imap verify provision_ldap not_empty
  users-authenticate e source hash enabled took =
      ground (arith, sources_differ, eq_refl (text "imap"))

users-checked :
    (o : Outside) (ip : Text) (w : World) (req : LoginRequest) (answer : Bool × Text)
    → answer.0 ≡ false
    → (authenticate o w.svc req.username req.password).ok ≡ true
    → (checked o ip req w answer).0.svc.users
      ≡ (authenticate o w.svc req.username req.password).svc.users
unfolding checked finish admit audited
users-checked o ip w req (true, reason) h k = cc
users-checked o ip w req (false, reason) h k = ground arith

users-login :
    (o : Outside) (ip : Text) (w : World) (req : LoginRequest) (u : User)
    → (not_empty req.username && not_empty req.password) ≡ true
    → (check w.svc.bf o.clock.at_check o.clock.at_until ip req.username).1.0 ≡ false
    → lookup req.username w.svc.users ≡ some u
    → u.source ≡ text "imap"
    → u.hash ≡ []
    → w.svc.ldap_cfg.enabled ≡ true
    → ldap_auth o.directory w.svc.ldap_cfg req.username req.password ≡ accepted
    → (login o ip w (some req)).0.svc.users ≡ insert req.username (registered w.svc) w.svc.users
unfolding login
users-login o ip w req u given free e source hash enabled took =
    let s = after_check o ip w req.username in
    let (users, ok) =
      users-authenticate o s req.username req.password u e source hash enabled took in
    ground (
      arith,
      users,
      ok,
      users-checked o ip (record w { svc = s }) req
          (check w.svc.bf o.clock.at_check o.clock.at_until ip req.username).1,
    )

-- A user that signed in by email and was made an admin, with no local password: where the directory
-- is enabled and takes the same name, a login that passes the brute-force check stores a plain user
-- under the name, and there is one admin less.
pub login_demotes :
    (o : Outside) (ip : Text) (w : World) (req : LoginRequest) (u : User)
    → (not_empty req.username && not_empty req.password) ≡ true
    → (check w.svc.bf o.clock.at_check o.clock.at_until ip req.username).1.0 ≡ false
    → lookup req.username w.svc.users ≡ some u
    → u.source ≡ text "imap"
    → u.hash ≡ []
    → u.role ≡ text "admin"
    → w.svc.ldap_cfg.enabled ≡ true
    → ldap_auth o.directory w.svc.ldap_cfg req.username req.password ≡ accepted
    → (lookup req.username (login o ip w (some req)).0.svc.users ≡ some (registered w.svc))
      × (admin_count (login o ip w (some req)).0.svc + 1 ≡ admin_count w.svc)
login_demotes o ip w req u given free e source hash role enabled took =
    let users = users-login o ip w req u given free e source hash enabled took in
    (
      rw users (
          ground (
            arith,
            lookup-insert req.username req.username (registered w.svc) w.svc.users,
            eq_refl req.username,
          )),
      rw users (
          ground (
            arith,
            count-insert_old is_admin req.username (registered w.svc) u w.svc.users,
            role_differs,
            eq_iff u.role (text "admin"),
          )),
    )
