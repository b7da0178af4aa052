-- ===== src/Mux/Shown.antt =====
-- After any requests since the start, what `Me` of internal/auth/auth.go shows is what the gates go by.
use webridge.Prelude.{ℕ, ◌≡◌, ◌↔◌, ap, true, Option, none, some, List, [], ◌∷◌, Text}
use webridge.Strings.{has}
use webridge.Auth.{Session, Service, granted, require_auth, guard}
use webridge.Auth.Me.{me}
use webridge.World.{World, with_service}
use webridge.Server.{routes, Entry, refused, runs, pass_gate}
use webridge.Login.{login}
use webridge.Login.Own.{login-Keeps}
use webridge.Admin.{handle-HasValidGroups}
use webridge.GroupAdmin.Grants.{HasValidGroups}
use webridge.GroupAdmin.Shown.{me-guard}
use webridge.Settings.{Disk, bruteforce_config_handler, bruteforce_reset_handler}
use webridge.Settings.Access.{
  update_ldap-KeepsAccess, update_imap-KeepsAccess, test_imap-KeepsAccess,
}
use webridge.Settings.Status.{bruteforce_state_handler}
use webridge.Startup.{Machine, App, start}
use webridge.Startup.Accounts.{world_of, start-HasValidGroups}
use webridge.Mux.{
  Call, logs_in, logs_out, administers, puts_ldap, puts_imap, tests_imap, reads_locks, puts_limits,
  resets_locks, other_call, route_of, gate_in, Visit, run, name_of, enter, serve,
}
use webridge.Mux.Access.{accounts-pass_gate, accounts-log_out}

module _ {Files : Type 0} (disk : Disk Files) where
  run-HasValidGroups :
      (w : World) (files : Files) (v : Visit) (by : Text) (c : Call)
      → HasValidGroups w.svc.groups
      → HasValidGroups (run disk (w, files) v by c).0.svc.groups
  unfolding run bruteforce_state_handler bruteforce_config_handler bruteforce_reset_handler login
  run-HasValidGroups w files v by (logs_in none) h = h
  run-HasValidGroups w files v by (logs_in (some req)) h =
      rw ((login-Keeps v.outside v.ip w req).groups) h
  run-HasValidGroups w files v by logs_out h =
      rw (ap (λ a. a.groups) (accounts-log_out disk v.now v.ip w v.cookie)) h
  run-HasValidGroups w files v by (administers r) h =
      handle-HasValidGroups v.outside.sha256 v.now v.ip by w r h
  run-HasValidGroups w files v by (puts_ldap req) h =
      rw ((update_ldap-KeepsAccess disk v.now v.ip by w files req).groups) h
  run-HasValidGroups w files v by (puts_imap req) h =
      rw ((update_imap-KeepsAccess disk v.now v.ip by w files req).groups) h
  run-HasValidGroups w files v by (tests_imap req) h =
      rw ((test_imap-KeepsAccess v.outside.mail v.now v.ip by w req).groups) h
  run-HasValidGroups w files v by reads_locks h = h
  run-HasValidGroups w files v by (puts_limits none) h = h
  run-HasValidGroups w files v by (puts_limits (some cfg)) h = h
  run-HasValidGroups w files v by (resets_locks none) h = h
  run-HasValidGroups w files v by (resets_locks (some body)) h = h
  run-HasValidGroups w files v by (other_call method pattern effect) h = h

  enter-HasValidGroups :
      (w : World) (files : Files) (v : Visit) (e : Service × Entry)
      → HasValidGroups e.0.groups
      → HasValidGroups (enter disk (w, files) v e).0.svc.groups
  unfolding enter
  enter-HasValidGroups w files v (s, refused) h = h
  enter-HasValidGroups w files v (s, runs sess) h =
      run-HasValidGroups (with_service w s) files v (name_of sess) v.call h

  -- Requests one after the other.
  unfoldable pub serve_all : World × Files → List Visit → World × Files
  serve_all s [] = s
  serve_all s (v ∷ vs) = serve_all (serve disk s v) vs

  serve_all-HasValidGroups :
      (s : World × Files) (vs : List Visit)
      → HasValidGroups s.0.svc.groups
      → HasValidGroups (serve_all s vs).0.svc.groups
  unfolding serve_all serve
  serve_all-HasValidGroups s [] h = h
  serve_all-HasValidGroups (w, files) (v ∷ vs) h =
      let gate = gate_in routes (route_of v.call) in
      let same = ap (λ a. a.groups) (accounts-pass_gate gate w.svc v.now v.cookie) in
      serve_all-HasValidGroups (serve disk (w, files) v) vs
        (enter-HasValidGroups w files v (pass_gate gate w.svc v.now v.cookie) (rw same h))

  -- In the state after a start and any requests: for a request with a session, Me lists a permission exactly if a route
  -- that asks for this permission runs its handler for the same request.
  pub serve_all-me :
      {L : Type 0} (m : Machine) (flag : Option Text) (app : App L) (files : Files)
      (vs : List Visit) (s : Service) (now : ℕ) (cookie : Option Text) (sess : Session) (p : Text)
      → start m flag ≡ some app
      → (serve_all (world_of app, files) vs).0.svc ≡ s
      → require_auth s now cookie ≡ (s, some sess)
      → (has p (me s sess).permissions ≡ true) ↔ ((guard p s now cookie).1 ≡ granted sess)
  serve_all-me m flag app files vs s now cookie sess p e same valid =
      me-guard s now cookie sess p valid (
        rw (← ap (λ x. x.groups) same)
          (serve_all-HasValidGroups (world_of app, files) vs (start-HasValidGroups m flag app e)))
