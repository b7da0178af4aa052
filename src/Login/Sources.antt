-- ===== src/Login/Sources.antt =====
-- Which credentials open a session, and for how long (`Login` of internal/auth/auth.go).
use webridge.Prelude.{
  ℕ, ◌+◌, ◌≡◌, ◌≢◌, ◌⊎◌, inl, inr, refl, ◌∙◌, Bool, true, false, ◌&&◌, none, some, ltb,
  if◌then◌else◌, Text, text, not_empty, eq_iff, eq_refl, arith,
}
use webridge.Prelude.Table.{lookup, insert, lookup-insert}
use webridge.Auth.{User, Session, Service, verify, require_auth}
use webridge.Bruteforce.{check}
use webridge.Ldap.{accepted, ldap_auth, provision_ldap}
use webridge.Imap.{imap_auth, imap_domain_allowed, provision_imap}
use webridge.World.{World, audited}
use webridge.Login.{
  LoginRequest, Outside, Attempt, can_fallback, local_attempt, try_ldap, try_imap, authenticate,
  login, checked, finish, admit, refuse,
}

-- No user, or one of an external source.
abbrev pub IsForeign : Service → (Text → Text) → Text → Text → Type 0
IsForeign s sha256 username password =
    can_fallback (verify sha256 s username password).0 (verify sha256 s username password).1 ≡ true

-- What a login rests on.
pub data Evidence (o : Outside) (s : Service) (username password : Text) : Type 0 where
  local : (verify o.sha256 s username password).2 ≡ true → Evidence o s username password
  directory :
      IsForeign s o.sha256 username password
      → s.ldap_cfg.enabled ≡ true
      → ldap_auth o.directory s.ldap_cfg username password ≡ accepted
      → Evidence o s username password
  mail :
      IsForeign s o.sha256 username password
      → s.imap_cfg.enabled ≡ true
      → imap_domain_allowed s.imap_cfg username ≡ true
      → imap_auth o.mail s.imap_cfg username password ≡ accepted
      → (provision_imap s username).1 ≢ none
      → Evidence o s username password

module _ (o : Outside) (s : Service) (username password : Text) where
  ldap_step :
      (u : User) (ok b : Bool)
      → (try_ldap o b username password (local_attempt o s u ok) ≡ local_attempt o s u ok)
        ⊎ ((b ≡ true)
            × (s.ldap_cfg.enabled ≡ true)
            × (ldap_auth o.directory s.ldap_cfg username password ≡ accepted))
  unfolding try_ldap
  ldap_step u ok b = ground arith

  imap_step :
      (u : User) (ok b : Bool)
      → (try_imap o b username password (local_attempt o s u ok)).ok ≡ true
      → (ok ≡ true)
        ⊎ ((b ≡ true)
            × (s.imap_cfg.enabled ≡ true)
            × (imap_domain_allowed s.imap_cfg username ≡ true)
            × (imap_auth o.mail s.imap_cfg username password ≡ accepted)
            × ((provision_imap s username).1 ≢ none))
  unfolding try_imap
  imap_step u ok b h = ground arith

  -- If the credentials pass, they are a local password that fits, or the directory took them, or the
  -- mail server did for an allowed domain and a user that may be provisioned; the external ones only
  -- where there is no local user of that name.
  pub authenticate_sound :
      (authenticate o s username password).ok ≡ true → Evidence o s username password
  unfolding authenticate
  authenticate_sound h =
      let (u, exists, ok) = verify o.sha256 s username password in
      elim (ldap_step u ok (can_fallback u exists)) [
        | inl same ↦ elim (imap_step u ok (can_fallback u exists) (rw same at h)) [
          | inl fits ↦ local fits
          | inr (foreign, enabled, allowed, took, known) ↦ mail foreign enabled allowed took known
        ]
        | inr (foreign, enabled, took) ↦ directory foreign enabled took
      ]

  -- A user with neither external source is judged by the local password alone.
  pub authenticate_local :
      (u : User)
      → lookup username s.users ≡ some u
      → u.source ≢ text "ldap"
      → u.source ≢ text "imap"
      → authenticate o s username password
        ≡ local_attempt o s u (verify o.sha256 s username password).2
  unfolding authenticate try_ldap try_imap verify
  authenticate_local u e p q =
      ground (arith, eq_iff u.source (text "ldap"), eq_iff u.source (text "imap"))

-- The fallbacks change no session and not how long sessions last.
pub record KeepsSessions (s : Service) (a : Attempt) : Type 0 where
  pub sessions : a.svc.sessions ≡ s.sessions
  pub ttl : a.svc.ttl ≡ s.ttl

module _ (o : Outside) (b : Bool) (username password : Text) (a : Attempt) where
  try_ldap-KeepsSessions : KeepsSessions a.svc (try_ldap o b username password a)
  unfolding try_ldap provision_ldap
  try_ldap-KeepsSessions = ground arith

  try_imap-KeepsSessions : KeepsSessions a.svc (try_imap o b username password a)
  unfolding try_imap provision_imap
  try_imap-KeepsSessions = ground arith

pub authenticate-KeepsSessions :
    (o : Outside) (s : Service) (username password : Text)
    → KeepsSessions s (authenticate o s username password)
unfolding authenticate
authenticate-KeepsSessions o s username password =
    let (u, exists, ok) = verify o.sha256 s username password in
    let b = can_fallback u exists in
    let one = try_ldap-KeepsSessions o b username password (local_attempt o s u ok) in
    let two =
      try_imap-KeepsSessions o b username password
        (try_ldap o b username password (local_attempt o s u ok)) in
    record { sessions = two.sessions ∙ one.sessions; ttl = two.ttl ∙ one.ttl }

require_auth_found :
    (s : Service) (now : ℕ) (token : Text) (sess : Session)
    → lookup token s.sessions ≡ some sess
    → (require_auth s now (some token)).1 ≡ (if ltb sess.expires now then none else some sess)
unfolding require_auth
require_auth_found s now token sess e = ground arith

-- the service once the brute-force check has been made
abbrev pub after_check : Outside → Text → World → Text → Service
after_check o ip w username = record w.svc {
  bf = (check w.svc.bf o.clock.at_check o.clock.at_until ip username).0;
}

pub finish_sessions :
    (o : Outside) (ip username : Text) (w : World) (a : Attempt)
    → (finish o ip username w a).0.svc.sessions ≡ (
        if a.ok
        then insert o.token
            (record {
              username = username;
              role = a.user.role;
              expires = o.clock.at_session + a.svc.ttl;
            })
            a.svc.sessions
        else a.svc.sessions)
unfolding finish admit refuse audited
finish_sessions o ip username w a = ground arith

finish_status :
    (o : Outside) (ip username : Text) (w : World) (a : Attempt)
    → ((a.ok ≡ true) × ((finish o ip username w a).1.status ≡ 200))
      ⊎ ((a.ok ≡ false) × ((finish o ip username w a).1.status ≢ 200))
unfolding finish refuse admit
finish_status o ip username w a = ground arith

module _ (o : Outside) (ip : Text) (w : World) (req : LoginRequest) where
  abbrev pub attempt : Attempt
  attempt = authenticate o (after_check o ip w req.username) req.username req.password

  checked_refused :
      (answer : Bool × Text)
      → (checked o ip req (record w { svc = after_check o ip w req.username }) answer).1.status
        ≢ 200
      → (checked o ip req
          (record w { svc = after_check o ip w req.username })
          answer).0.svc.sessions
        ≡ w.svc.sessions
  unfolding checked audited
  checked_refused (true, reason) h = refl
  checked_refused (false, reason) h = ground (
    arith,
    finish_status o ip req.username (record w { svc = after_check o ip w req.username }) attempt,
    finish_sessions o ip req.username (record w { svc = after_check o ip w req.username }) attempt,
    (authenticate-KeepsSessions o (after_check o ip w req.username) req.username
        req.password).sessions,
  )

  -- A request whose body decodes, and which is not answered with 200, opens and closes no session.
  pub login_refused :
      (login o ip w (some req)).1.status ≢ 200
      → (login o ip w (some req)).0.svc.sessions ≡ w.svc.sessions
  unfolding login
  login_refused h =
      ground (
        arith,
        checked_refused (check w.svc.bf o.clock.at_check o.clock.at_until ip req.username).1,
      )

  checked_opens :
      (answer : Bool × Text)
      → (checked o ip req (record w { svc = after_check o ip w req.username }) answer).1.status
        ≡ 200
      → (answer.0 ≡ false)
        × (attempt.ok ≡ true)
        × ((checked o ip req
              (record w { svc = after_check o ip w req.username })
              answer).0.svc.sessions
            ≡ insert o.token
                (record {
                  username = req.username;
                  role = attempt.user.role;
                  expires = o.clock.at_session + w.svc.ttl;
                })
                w.svc.sessions)
  unfolding checked
  checked_opens (true, reason) h = absurd (omega arith)
  checked_opens (false, reason) h =
      let kept =
        authenticate-KeepsSessions o (after_check o ip w req.username) req.username req.password in
      let status =
        finish_status o ip req.username (record w { svc = after_check o ip w req.username })
          attempt in
      let sessions =
        finish_sessions o ip req.username (record w { svc = after_check o ip w req.username })
          attempt in
      (refl, ground arith, ground (arith, kept.sessions, kept.ttl))

  login_opens_sessions :
      (login o ip w (some req)).1.status ≡ 200
      → ((not_empty req.username && not_empty req.password) ≡ true)
        × ((check w.svc.bf o.clock.at_check o.clock.at_until ip req.username).1.0 ≡ false)
        × (attempt.ok ≡ true)
        × ((login o ip w (some req)).0.svc.sessions
            ≡ insert o.token
                (record {
                  username = req.username;
                  role = attempt.user.role;
                  expires = o.clock.at_session + w.svc.ttl;
                })
                w.svc.sessions)
  unfolding login
  login_opens_sessions h =
      ground
        (arith, checked_opens (check w.svc.bf o.clock.at_check o.clock.at_until ip req.username).1)

  -- A request that is answered with 200 had a username and a password, passed the brute-force check,
  -- and its credentials rest on `Evidence`; afterwards the token opens a session of that user
  -- until the time to live has passed, and none later.
  pub login_opens :
      (now : ℕ)
      → (login o ip w (some req)).1.status ≡ 200
      → ((not_empty req.username && not_empty req.password) ≡ true)
        × ((check w.svc.bf o.clock.at_check o.clock.at_until ip req.username).1.0 ≡ false)
        × Evidence o (after_check o ip w req.username) req.username req.password
        × ((require_auth (login o ip w (some req)).0.svc now (some o.token)).1 ≡ (
            if ltb (o.clock.at_session + w.svc.ttl) now
            then none
            else some (record {
              username = req.username;
              role = attempt.user.role;
              expires = o.clock.at_session + w.svc.ttl;
            })))
  login_opens now h =
      let (given, free, ok, sessions) = login_opens_sessions h in
      let sess : Session = record {
        username = req.username;
        role = attempt.user.role;
        expires = o.clock.at_session + w.svc.ttl;
      } in
      (
        given,
        free,
        authenticate_sound o (after_check o ip w req.username) req.username req.password ok,
        require_auth_found (login o ip w (some req)).0.svc now o.token sess (
            rw sessions
              (ground (arith, lookup-insert o.token o.token sess w.svc.sessions, eq_refl o.token))),
      )
