-- ===== src/Mux.antt =====
-- Whole requests to the routes of cmd/server/main.go: the gate that the table of the routes has for a
-- call, and the handler behind it on the service, the audit log and the files. A call carries what its
-- handler decodes of the request; the calls that do not touch the service are one constructor, with what
-- their handler does to the audit log.
pub mod Access
pub mod Shown
pub mod Sessions
pub mod Provenance
mod Tests
use webridge.Prelude.{
  ℕ, Bool, true, false, ◌&&◌, Option, none, some, List, [], ◌∷◌, if◌then◌else◌, Text, text, ◌==◌,
}
use webridge.Config.{LoginRateConfig, LdapConfig, ImapEmailConfig}
use webridge.Auth.{Service, Session}
use webridge.Audit.{Log}
use webridge.World.{World, with_service}
use webridge.Server.{Gate, anyone, Route, routes, Entry, refused, runs, pass_gate}
use webridge.Login.{LoginRequest, Outside, login, log_out}
use webridge.Admin.{
  AdminRequest, creates_user, updates_user, deletes_user, creates_group, updates_group,
  deletes_group, handle,
}
use webridge.Settings.{
  Disk, ResetRequest, update_ldap, update_imap, test_imap, bruteforce_config_handler,
  bruteforce_reset_handler,
}
use webridge.Settings.Status.{bruteforce_state_handler}

pub data Call : Type 0 where
  logs_in : Option LoginRequest → Call
  logs_out : Call
  administers : AdminRequest → Call
  puts_ldap : Option LdapConfig → Call
  puts_imap : Option ImapEmailConfig → Call
  tests_imap : Option (Text × Text) → Call
  reads_locks : Call
  puts_limits : Option LoginRateConfig → Call
  resets_locks : Option ResetRequest → Call
  other_call : Text → Text → (Log → Log) → Call

-- The method and the pattern of the route that serves a call.
unfoldable pub route_of : Call → Text × Text
route_of (logs_in req) = (text "POST", text "/api/v1/auth/login")
route_of logs_out = (text "POST", text "/api/v1/auth/logout")
route_of (administers (creates_user salt req)) = (text "POST", text "/api/v1/admin/users")
route_of (administers (updates_user salt name req)) =
    (text "PUT", text "/api/v1/admin/users/{username}")
route_of (administers (deletes_user name)) = (text "DELETE", text "/api/v1/admin/users/{username}")
route_of (administers (creates_group req)) = (text "POST", text "/api/v1/admin/groups")
route_of (administers (updates_group name req)) = (text "PUT", text "/api/v1/admin/groups/{name}")
route_of (administers (deletes_group name)) = (text "DELETE", text "/api/v1/admin/groups/{name}")
route_of (puts_ldap req) = (text "PUT", text "/api/v1/admin/ldap")
route_of (puts_imap req) = (text "PUT", text "/api/v1/admin/imap")
route_of (tests_imap req) = (text "POST", text "/api/v1/admin/imap/test")
route_of reads_locks = (text "GET", text "/api/v1/admin/bruteforce")
route_of (puts_limits req) = (text "PUT", text "/api/v1/admin/bruteforce/config")
route_of (resets_locks req) = (text "POST", text "/api/v1/admin/bruteforce/reset")
route_of (other_call method pattern effect) = (method, pattern)

unfoldable pub gate_in : List Route → Text × Text → Gate
gate_in [] wanted = anyone
gate_in (r ∷ rs) wanted =
    if r.method == wanted.0 && r.pattern == wanted.1 then r.gate else gate_in rs wanted

-- A request: the clock's reading, the client's address, the session cookie, the call, and what the call
-- meets outside of the program.
pub record Visit : Type 0 where
  pub now : ℕ
  pub ip : Text
  pub cookie : Option Text
  pub call : Call
  pub outside : Outside

abbrev pub name_of : Option Session → Text
name_of none = []
name_of (some sess) = sess.username

module _ {Files : Type 0} (disk : Disk Files) where
  -- The handler, with the name of the session that it runs under.
  unfoldable pub run : World × Files → Visit → Text → Call → World × Files
  run (w, files) v by (logs_in req) = ((login v.outside v.ip w req).0, files)
  run (w, files) v by logs_out = ((log_out v.now v.ip w v.cookie).0, files)
  run (w, files) v by (administers r) = (handle v.outside.sha256 v.now v.ip by w r, files)
  run (w, files) v by (puts_ldap req) =
      let r = update_ldap disk v.now v.ip by w files req in (r.0, r.1)
  run (w, files) v by (puts_imap req) =
      let r = update_imap disk v.now v.ip by w files req in (r.0, r.1)
  run (w, files) v by (tests_imap req) = ((test_imap v.outside.mail v.now v.ip by w req).0, files)
  run (w, files) v by reads_locks = ((bruteforce_state_handler w v.now).0, files)
  run (w, files) v by (puts_limits req) = ((bruteforce_config_handler w req).0, files)
  run (w, files) v by (resets_locks req) = ((bruteforce_reset_handler w req).0, files)
  run (w, files) v by (other_call method pattern effect) = (record w { log = effect w.log }, files)

  enter : World × Files → Visit → Service × Entry → World × Files
  enter (w, files) v (s, refused) = (with_service w s, files)
  enter (w, files) v (s, runs sess) = run (with_service w s, files) v (name_of sess) v.call

  unfoldable pub serve : World × Files → Visit → World × Files
  unfolding enter
  serve (w, files) v =
      enter (w, files) v (pass_gate (gate_in routes (route_of v.call)) w.svc v.now v.cookie)
