-- ===== src/Login.antt =====
-- The handlers `Login` and `Logout` of internal/auth/auth.go.
pub mod Sources
pub mod Own
pub mod Opened
pub mod Demotion
mod Tests
use webridge.Prelude.{
  ℕ, ◌+◌, Bool, true, false, ◌&&◌, ◌||◌, not, Option, none, some, List, [], ◌∷◌, if◌then◌else◌,
  Text, text, ◌==◌, not_empty,
}
use webridge.Prelude.Table.{insert}
use webridge.Auth.{User, Session, Service, verify, logout}
use webridge.Bruteforce.{Bruteforce, check, record_failure, reset}
use webridge.Ldap.{Directory, Verdict, accepted, rejected, errored, ldap_auth, provision_ldap}
use webridge.Imap.{MailServer, imap_auth, imap_domain_allowed, provision_imap}
use webridge.World.{World, Reply, reply, with_service, audited}

pub record LoginRequest : Type 0 where
  pub username : Text
  pub password : Text

-- The readings of the clock in one request, in the order in which they are made.
pub record Clock : Type 0 where
  pub at_check : ℕ
  pub at_until : ℕ
  pub at_failure : ℕ
  pub at_session : ℕ
  pub at_audit : ℕ

-- What the request meets outside the program: hash, directory, mail server, clock and the random token.
pub record Outside : Type 0 where
  pub sha256 : Text → Text
  pub directory : Directory
  pub mail : MailServer
  pub clock : Clock
  pub token : Text

-- The variables of the handler between its steps.
pub record Attempt : Type 0 where
  pub svc : Service
  pub user : User
  pub ok : Bool
  pub source : Text
  pub pending : Bool

-- External fallbacks apply to unknown users, and to users of an external source.
abbrev pub can_fallback : User → Bool → Bool
can_fallback u exists = not exists || u.source == text "ldap" || u.source == text "imap"

after_ldap : Attempt → Text → Verdict → Attempt
after_ldap a username accepted =
    let (s, u) = provision_ldap a.svc username in
    record a { svc = s; user = u; ok = true; source = text "ldap" }
after_ldap a username _ = a

-- what `provisionIMAP` returned
with_imap_user : Attempt → Service → Option User → Attempt
with_imap_user a s none = record a { svc = s; pending = true }
with_imap_user a s (some u) = record a { svc = s; user = u; ok = true; source = text "imap" }

after_imap : Attempt → Text → Verdict → Attempt
after_imap a username accepted =
    let (s, found) = provision_imap a.svc username in with_imap_user a s found
after_imap a username _ = a

module _ (o : Outside) where
  -- the settings are read before the fallbacks
  unfoldable pub try_ldap : Bool → Text → Text → Attempt → Attempt
  unfolding after_ldap
  try_ldap fallback username password a =
      if not a.ok && (fallback && a.svc.ldap_cfg.enabled)
      then after_ldap a username (ldap_auth o.directory a.svc.ldap_cfg username password)
      else a

  unfoldable pub try_imap : Bool → Text → Text → Attempt → Attempt
  unfolding after_imap with_imap_user
  try_imap fallback username password a =
      if not a.ok
        && (fallback && (a.svc.imap_cfg.enabled && imap_domain_allowed a.svc.imap_cfg username))
      then after_imap a username (imap_auth o.mail a.svc.imap_cfg username password)
      else a

  abbrev pub local_attempt : Service → User → Bool → Attempt
  local_attempt s u ok = record {
    svc = s;
    user = u;
    ok = ok;
    source = text "local";
    pending = false;
  }

  -- the credentials: local, then the directory, then the mail server
  unfoldable pub authenticate : Service → Text → Text → Attempt
  unfolding try_ldap try_imap
  authenticate s username password =
      let (u, exists, ok) = verify o.sha256 s username password in
      let fallback = can_fallback u exists in
      try_imap fallback username password
        (try_ldap fallback username password (local_attempt s u ok))

  unfoldable pub refuse : Text → Text → World → Bool → World × Reply
  refuse ip username w pending =
      let s = record w.svc { bf = record_failure w.svc.bf o.clock.at_failure ip username } in
      let w' = audited o.clock.at_audit (with_service w s) (text "login_failed") username ip [] in
      if pending
      then (
        audited o.clock.at_audit w' (text "login_unapproved") username ip [],
        reply 403
            (text "email sign-in is not approved yet; ask an administrator to enable your account"),
      )
      else (w', reply 401 (text "Invalid credentials"))

  unfoldable pub admit : Text → Text → World → User → Text → World × Reply
  admit ip username w u source =
      let s = record w.svc {
        bf = reset w.svc.bf ip username;
        sessions =
            insert o.token
              (record {
                username = username;
                role = u.role;
                expires = o.clock.at_session + w.svc.ttl;
              })
              w.svc.sessions;
      } in
      (
        audited o.clock.at_audit (with_service w s) (text "login_success") username ip source,
        reply 200 [],
      )

  pub finish : Text → Text → World → Attempt → World × Reply
  finish ip username w a =
      if a.ok
      then admit ip username (with_service w a.svc) a.user a.source
      else refuse ip username (with_service w a.svc) a.pending

  -- The rest of the handler, given the answer of the brute-force check.
  checked : Text → LoginRequest → World → Bool × Text → World × Reply
  checked ip req w (true, reason) =
      (audited o.clock.at_audit w (text "login_locked") req.username ip reason, reply 423 reason)
  checked ip req w (false, reason) =
      finish ip req.username w (authenticate w.svc req.username req.password)

  unfoldable pub login : Text → World → Option LoginRequest → World × Reply
  unfolding checked finish
  login ip w none = (w, reply 400 (text "username and password required"))
  login ip w (some req) =
      let (bf, answer) = check w.svc.bf o.clock.at_check o.clock.at_until ip req.username in
      if not (not_empty req.username && not_empty req.password)
      then (w, reply 400 (text "username and password required"))
      else checked ip req (with_service w (record w.svc { bf = bf })) answer

-- `Logout`; only a session that existed is logged.
unfoldable pub log_out : ℕ → Text → World → Option Text → World × Reply
log_out now ip w cookie =
    let (s, ended) = logout w.svc cookie in
    (
      elim ended [
        | none ↦ with_service w s
        | some sess ↦ audited now (with_service w s) (text "logout") sess.username ip []
      ],
      reply 204 [],
    )
