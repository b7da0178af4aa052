-- ===== src/Mux/Provenance.antt =====
-- Where the sessions come from that there are after requests to the server.
use webridge.Prelude.{ℕ, ◌≡◌, ◌⊎◌, inl, inr, Option, none, some, List, [], ◌∷◌, Text, arith}
use webridge.Prelude.Table.{lookup, IsMap, erase-IsMap}
use webridge.Auth.{Session, Service, logout}
use webridge.World.{World, with_service, audited}
use webridge.Server.{routes, Entry, refused, runs, pass_gate}
use webridge.Login.{LoginRequest, log_out}
use webridge.Login.Opened.{login-IsMap}
use webridge.UserAdmin.Sessions.{create_user-sessions, update_user-sessions, delete_user-IsMap}
use webridge.GroupAdmin.Sessions.{
  create_group-sessions, update_group-sessions, delete_group-sessions,
}
use webridge.Admin.{
  AdminRequest, creates_user, updates_user, deletes_user, creates_group, updates_group,
  deletes_group, handle,
}
use webridge.Settings.{Disk, bruteforce_config_handler, bruteforce_reset_handler}
use webridge.Settings.Status.{bruteforce_state_handler}
use webridge.Settings.Access.{
  update_ldap-KeepsAccess, update_imap-KeepsAccess, test_imap-KeepsAccess,
}
use webridge.Startup.{Machine, App, start}
use webridge.Startup.Accounts.{world_of, start-sessions}
use webridge.Mux.{
  Call, logs_in, logs_out, administers, puts_ldap, puts_imap, tests_imap, reads_locks, puts_limits,
  resets_locks, other_call, route_of, gate_in, Visit, run, name_of, enter, serve,
}
use webridge.Mux.Sessions.{pass_gate-IsMap, serve-sessions}
use webridge.Mux.Shown.{serve_all}

log_out-IsMap :
    (now : ℕ) (ip : Text) (w : World) (cookie : Option Text)
    → IsMap w.svc.sessions
    → IsMap (log_out now ip w cookie).0.svc.sessions
unfolding log_out logout audited
log_out-IsMap now ip w none d = d
log_out-IsMap now ip w (some other) d = ground (arith, d, erase-IsMap other w.svc.sessions d)

handle-IsMap :
    (sha256 : Text → Text) (now : ℕ) (ip by : Text) (w : World) (r : AdminRequest)
    → IsMap w.svc.sessions
    → IsMap (handle sha256 now ip by w r).svc.sessions
unfolding handle
handle-IsMap sha256 now ip by w (creates_user salt req) d =
    rw (create_user-sessions sha256 now ip salt w req) d
handle-IsMap sha256 now ip by w (updates_user salt name req) d =
    rw (update_user-sessions sha256 now ip salt w name req) d
handle-IsMap sha256 now ip by w (deletes_user name) d = delete_user-IsMap sha256 now ip w name d
handle-IsMap sha256 now ip by w (creates_group req) d = rw (create_group-sessions now ip by w req) d
handle-IsMap sha256 now ip by w (updates_group name req) d =
    rw (update_group-sessions now ip by w name req) d
handle-IsMap sha256 now ip by w (deletes_group name) d =
    rw (delete_group-sessions now ip by w name) d

no_session : (token : Text) (sess : Session) → lookup token [] ≡ some sess → ⊥
unfolding lookup
no_session token sess h = ground (arith, h)

-- One of the requests is a login for the user of the session, and has its token as the new one.
abbrev pub IsOpened : Text → Session → List Visit → Type 0
IsOpened token sess [] = ⊥
IsOpened token sess (v ∷ vs) =
    ((req : LoginRequest) × (v.call ≡ logs_in (some req))
      × (token ≡ v.outside.token)
      × (sess.username ≡ req.username))
    ⊎ IsOpened token sess vs

module _ {Files : Type 0} (disk : Disk Files) where
  run-IsMap :
      (w : World) (files : Files) (v : Visit) (by : Text) (c : Call)
      → IsMap w.svc.sessions
      → IsMap (run disk (w, files) v by c).0.svc.sessions
  unfolding run bruteforce_state_handler bruteforce_config_handler bruteforce_reset_handler
  run-IsMap w files v by (logs_in req) d = login-IsMap v.outside v.ip w req d
  run-IsMap w files v by logs_out d = log_out-IsMap v.now v.ip w v.cookie d
  run-IsMap w files v by (administers r) d = handle-IsMap v.outside.sha256 v.now v.ip by w r d
  run-IsMap w files v by (puts_ldap req) d =
      rw ((update_ldap-KeepsAccess disk v.now v.ip by w files req).sessions) d
  run-IsMap w files v by (puts_imap req) d =
      rw ((update_imap-KeepsAccess disk v.now v.ip by w files req).sessions) d
  run-IsMap w files v by (tests_imap req) d =
      rw ((test_imap-KeepsAccess v.outside.mail v.now v.ip by w req).sessions) d
  run-IsMap w files v by reads_locks d = d
  run-IsMap w files v by (puts_limits none) d = d
  run-IsMap w files v by (puts_limits (some cfg)) d = d
  run-IsMap w files v by (resets_locks none) d = d
  run-IsMap w files v by (resets_locks (some body)) d = d
  run-IsMap w files v by (other_call method pattern effect) d = d

  enter-IsMap :
      (w : World) (files : Files) (v : Visit) (e : Service × Entry)
      → IsMap e.0.sessions
      → IsMap (enter disk (w, files) v e).0.svc.sessions
  unfolding enter
  enter-IsMap w files v (s, refused) d = d
  enter-IsMap w files v (s, runs sess) d =
      run-IsMap (with_service w s) files v (name_of sess) v.call d

  serve-IsMap :
      (w : World) (files : Files) (v : Visit)
      → IsMap w.svc.sessions
      → IsMap (serve disk (w, files) v).0.svc.sessions
  unfolding serve
  serve-IsMap w files v d =
      let gate = gate_in routes (route_of v.call) in
      enter-IsMap w files v (pass_gate gate w.svc v.now v.cookie)
        (pass_gate-IsMap gate w.svc v.now v.cookie d)

  serve_all-sessions :
      (w : World) (files : Files) (vs : List Visit) (token : Text) (sess : Session)
      → IsMap w.svc.sessions
      → lookup token (serve_all disk (w, files) vs).0.svc.sessions ≡ some sess
      → IsOpened token sess vs ⊎ (lookup token w.svc.sessions ≡ some sess)
  unfolding serve_all
  serve_all-sessions w files [] token sess d h = inr h
  serve_all-sessions w files (v ∷ vs) token sess d h =
      let (w', files') = serve disk (w, files) v in
      elim (serve_all-sessions w' files' vs token sess (serve-IsMap w files v d) h) [
        | inl later ↦ inl (inr later)
        | inr old ↦ elim (serve-sessions token sess disk w files v d old) [
          | inl new ↦ inl (inl new)
          | inr older ↦ inr older
        ]
      ]

  -- Each session that there is after a start and any requests was opened by one of them: it is a login for the user
  -- of the session, and the random token of this request is the one that the session is found under.
  pub serve_all-IsOpened :
      {L : Type 0} (m : Machine) (flag : Option Text) (app : App L) (files : Files)
      (vs : List Visit) (token : Text) (sess : Session)
      → start m flag ≡ some app
      → lookup token (serve_all disk (world_of app, files) vs).0.svc.sessions ≡ some sess
      → IsOpened token sess vs
  serve_all-IsOpened m flag app files vs token sess e h =
      let empty = start-sessions m flag app e in
      elim (serve_all-sessions (world_of app) files vs token sess (rw empty tt) h) [
        | inl opened ↦ opened
        | inr old ↦ absurd (no_session token sess (rw (← empty) old))
      ]
