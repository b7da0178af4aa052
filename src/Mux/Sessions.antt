-- ===== src/Mux/Sessions.antt =====
-- Which requests open a session.
use webridge.Prelude.{ℕ, ◌≡◌, refl, ◌⊎◌, inl, inr, Option, none, some, Text, arith}
use webridge.Prelude.Table.{lookup, lookup-erase, IsMap, erase-IsMap}
use webridge.Auth.{Session, Service, require_auth, logout, guard}
use webridge.World.{World, with_service, audited}
use webridge.Server.{Gate, anyone, signed_in, guarded, routes, Entry, refused, runs, pass_gate}
use webridge.Login.{LoginRequest, login, log_out}
use webridge.Login.Opened.{login-sessions}
use webridge.UserAdmin.Sessions.{create_user-sessions, update_user-sessions, delete_user-sessions}
use webridge.GroupAdmin.Sessions.{
  create_group-sessions, update_group-sessions, delete_group-sessions,
}
use webridge.Admin.{
  AdminRequest, creates_user, updates_user, deletes_user, creates_group, updates_group,
  deletes_group, handle,
}
use webridge.Settings.{Disk, bruteforce_config_handler, bruteforce_reset_handler}
use webridge.Settings.Status.{bruteforce_state_handler}
use webridge.Settings.Access.{
  update_ldap-KeepsAccess, update_imap-KeepsAccess, test_imap-KeepsAccess,
}
use webridge.Mux.{
  Call, logs_in, logs_out, administers, puts_ldap, puts_imap, tests_imap, reads_locks, puts_limits,
  resets_locks, other_call, route_of, gate_in, Visit, run, name_of, enter, serve,
}

require_auth-IsMap :
    (s : Service) (now : ℕ) (cookie : Option Text)
    → IsMap s.sessions
    → IsMap (require_auth s now cookie).0.sessions
unfolding require_auth
require_auth-IsMap s now none d = d
require_auth-IsMap s now (some other) d = ground (arith, d, erase-IsMap other s.sessions)

pub pass_gate-IsMap :
    (g : Gate) (s : Service) (now : ℕ) (cookie : Option Text)
    → IsMap s.sessions
    → IsMap (pass_gate g s now cookie).0.sessions
unfolding pass_gate guard
pass_gate-IsMap anyone s now cookie d = d
pass_gate-IsMap signed_in s now cookie d = require_auth-IsMap s now cookie d
pass_gate-IsMap (guarded perm) s now cookie d = require_auth-IsMap s now cookie d

module _ (token : Text) (sess : Session) where
  Had : Service → Type 0
  Had s = lookup token s.sessions ≡ some sess

  require_auth-Had :
      (s : Service) (now : ℕ) (cookie : Option Text) → Had (require_auth s now cookie).0 → Had s
  unfolding Had require_auth
  require_auth-Had s now none h = h
  require_auth-Had s now (some other) h = ground (arith, h, lookup-erase other token s.sessions)

  pass_gate-Had :
      (g : Gate) (s : Service) (now : ℕ) (cookie : Option Text)
      → Had (pass_gate g s now cookie).0
      → Had s
  unfolding pass_gate guard
  pass_gate-Had anyone s now cookie h = h
  pass_gate-Had signed_in s now cookie h = require_auth-Had s now cookie h
  pass_gate-Had (guarded perm) s now cookie h = require_auth-Had s now cookie h

  log_out-Had :
      (now : ℕ) (ip : Text) (w : World) (cookie : Option Text)
      → Had (log_out now ip w cookie).0.svc
      → Had w.svc
  unfolding Had log_out logout audited
  log_out-Had now ip w none h = h
  log_out-Had now ip w (some other) h = ground (arith, h, lookup-erase other token w.svc.sessions)

  handle-Had :
      (sha256 : Text → Text) (now : ℕ) (ip by : Text) (w : World) (r : AdminRequest)
      → IsMap w.svc.sessions
      → Had (handle sha256 now ip by w r).svc
      → Had w.svc
  unfolding Had handle
  handle-Had sha256 now ip by w (creates_user salt req) d h =
      rw (← create_user-sessions sha256 now ip salt w req) h
  handle-Had sha256 now ip by w (updates_user salt name req) d h =
      rw (← update_user-sessions sha256 now ip salt w name req) h
  handle-Had sha256 now ip by w (deletes_user name) d h =
      delete_user-sessions sha256 now ip w name token sess d h
  handle-Had sha256 now ip by w (creates_group req) d h =
      rw (← create_group-sessions now ip by w req) h
  handle-Had sha256 now ip by w (updates_group name req) d h =
      rw (← update_group-sessions now ip by w name req) h
  handle-Had sha256 now ip by w (deletes_group name) d h =
      rw (← delete_group-sessions now ip by w name) h

  -- The call is a login that has the token and the user of the session.
  abbrev Opens : Visit → Call → Type 0
  Opens v c =
      (req : LoginRequest) × (c ≡ logs_in (some req))
      × (token ≡ v.outside.token)
      × (sess.username ≡ req.username)

  module _ {Files : Type 0} (disk : Disk Files) where
    run-Had :
        (w : World) (files : Files) (v : Visit) (by : Text) (c : Call)
        → IsMap w.svc.sessions
        → Had (run disk (w, files) v by c).0.svc
        → Opens v c ⊎ Had w.svc
    unfolding run Had bruteforce_state_handler bruteforce_config_handler bruteforce_reset_handler
        login
    run-Had w files v by (logs_in none) d h = inr h
    run-Had w files v by (logs_in (some req)) d h =
        elim (login-sessions v.outside v.ip token sess w req h) [
          | inl (fresh, own) ↦ inl (req, refl, fresh, own)
          | inr old ↦ inr old
        ]
    run-Had w files v by logs_out d h = inr (log_out-Had v.now v.ip w v.cookie h)
    run-Had w files v by (administers r) d h =
        inr (handle-Had v.outside.sha256 v.now v.ip by w r d h)
    run-Had w files v by (puts_ldap req) d h =
        inr (rw (← (update_ldap-KeepsAccess disk v.now v.ip by w files req).sessions) h)
    run-Had w files v by (puts_imap req) d h =
        inr (rw (← (update_imap-KeepsAccess disk v.now v.ip by w files req).sessions) h)
    run-Had w files v by (tests_imap req) d h =
        inr (rw (← (test_imap-KeepsAccess v.outside.mail v.now v.ip by w req).sessions) h)
    run-Had w files v by reads_locks d h = inr h
    run-Had w files v by (puts_limits none) d h = inr h
    run-Had w files v by (puts_limits (some cfg)) d h = inr h
    run-Had w files v by (resets_locks none) d h = inr h
    run-Had w files v by (resets_locks (some body)) d h = inr h
    run-Had w files v by (other_call method pattern effect) d h = inr h

    enter-Had :
        (w : World) (files : Files) (v : Visit) (e : Service × Entry)
        → IsMap e.0.sessions
        → Had (enter disk (w, files) v e).0.svc
        → Opens v v.call ⊎ Had e.0
    unfolding enter
    enter-Had w files v (s, refused) d h = inr h
    enter-Had w files v (s, runs sess') d h =
        run-Had (with_service w s) files v (name_of sess') v.call d h

    -- A session that there is after a request was there before, where no token is twice then, or the request is a
    -- login for its user and with its token.
    pub serve-sessions :
        (w : World) (files : Files) (v : Visit)
        → IsMap w.svc.sessions
        → lookup token (serve disk (w, files) v).0.svc.sessions ≡ some sess
        → ((req : LoginRequest) × (v.call ≡ logs_in (some req))
            × (token ≡ v.outside.token)
            × (sess.username ≡ req.username))
          ⊎ (lookup token w.svc.sessions ≡ some sess)
    unfolding serve Had
    serve-sessions w files v d h =
        let gate = gate_in routes (route_of v.call) in
        let e = pass_gate gate w.svc v.now v.cookie in
        elim (enter-Had w files v e (pass_gate-IsMap gate w.svc v.now v.cookie d) h) [
          | inl new ↦ inl new
          | inr kept ↦ inr (pass_gate-Had gate w.svc v.now v.cookie kept)
        ]
