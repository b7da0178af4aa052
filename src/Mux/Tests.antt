-- ===== src/Mux/Tests.antt =====
-- Whole requests to the server of cmd/server/main.go at concrete inputs.
use webridge.Prelude.{
  ℕ, ◌≡◌, ◌↔◌, ◌⊎◌, refl, true, false, Option, none, some, List, [], ◌∷◌, Text, text, ◌==◌,
  not_empty,
}
use webridge.Prelude.Table.{Table, lookup, insert}
use webridge.Strings.{has}
use webridge.Samples.{world, service, hash, env, machine}
use webridge.Config.{LdapConfig}
use webridge.Config.Load.{Env, missing, defaults, apply_env, load}
use webridge.Auth.{Service, Session, granted, require_auth, guard}
use webridge.Auth.Me.{me}
use webridge.World.{World}
use webridge.Login.{LoginRequest, Clock, Outside, login}
use webridge.Login.Own.{Keeps}
use webridge.Admin.{deletes_user, deletes_group}
use webridge.Settings.{Disk, contents, encoded, keys}
use webridge.Startup.{App, start, built, config_path}
use webridge.Startup.Accounts.{world_of}
use webridge.Mux.{Call, logs_in, administers, Visit, route_of, gate_in, run, serve}
use webridge.Mux.Access.{accounts, IsAdmitted, serve-accounts}
use webridge.Mux.Provenance.{IsOpened, serve_all-IsOpened}
use webridge.Mux.Shown.{serve_all, serve_all-me}

abbrev disk : Disk (Table Text)
disk = record {
  make_dir = λ path files. (files, none);
  write = λ path d files. (insert path d files, none);
  read = λ path files. contents [];
  encode_ldap = λ c. encoded c.host;
  decode_ldap = λ d. none;
  encode_imap = λ c. encoded c.host;
  decode_yaml = λ d. keys [];
  ldap_node = λ c. c.host;
  imap_node = λ c. c.host;
  encode_yaml = λ raw. encoded [];
}

abbrev outside : Outside
outside = record {
  sha256 = hash;
  directory = record {
    dial = λ scheme host port. false;
    start_tls = false;
    bind = λ dn password. false;
    search = λ base filter username. none;
  };
  mail = record {
    dial_start_tls = λ host port. false;
    dial_tls = λ host port. false;
    login = λ email password. false;
  };
  clock = record { at_check = 10; at_until = 11; at_failure = 12; at_session = 13; at_audit = 14 };
  token = text "t3";
}

abbrev visit : Option Text → Call → Visit
visit cookie c = record {
  now = 20;
  ip = text "10.0.0.1";
  cookie = cookie;
  call = c;
  outside = outside;
}

-- A user without the permission asks for the deletion of the admin.
abbrev attack : Visit
attack = visit (some (text "t2")) (administers (deletes_user (text "root")))

serve-accounts_example :
    ((req : LoginRequest) × (attack.call ≡ logs_in (some req))
      × Keeps req.username service (serve disk (world, []) attack).0.svc)
    ⊎ ((accounts (serve disk (world, []) attack).0.svc ≡ accounts service)
        ⊎ IsAdmitted service 20 (some (text "t2")))
serve-accounts_example = serve-accounts disk world [] attack

refused_attack : (serve disk (world, []) attack).0.svc.users ≡ service.users
unfolding serve route_of gate_in webridge.Server.routes webridge.Server.pass_gate guard require_auth
    webridge.Auth.effective_perms webridge.Auth.union_of lookup has text ◌==◌
    webridge.Server.entry_of
refused_attack = refl

abbrev app : App ℕ
app = built machine (text "/etc/webridge.yaml") (apply_env env defaults)

starts : start machine none ≡ some app
unfolding start load config_path webridge.Config.Load.get_config_path not_empty text ◌==◌
starts = refl

abbrev visits : List Visit
visits =
    visit none (logs_in (some (record { username = text "admin"; password = text "admin123" })))
    ∷ visit (some (text "t3")) (administers (deletes_group (text "users")))
    ∷ []

abbrev later : Service
later = (serve_all disk (world_of app, []) visits).0.svc

abbrev admin_session : Session
admin_session = record {
  username = text "admin";
  role = text "admin";
  expires = 86_400_000_000_013;
}

has_session : require_auth later 100 (some (text "t3")) ≡ (later, some admin_session)
unfolding serve_all serve require_auth lookup insert apply_env defaults text ◌==◌ not_empty has
    gate_in route_of run built guard login webridge.Server.pass_gate webridge.Server.routes
    webridge.Server.entry_of webridge.Bruteforce.check webridge.Auth.new_service
    webridge.Bruteforce.new_bruteforce webridge.Login.authenticate webridge.Auth.verify
    webridge.Auth.hash_password webridge.Login.admit webridge.World.audited
    webridge.Auth.effective_perms webridge.Admin.handle webridge.GroupAdmin.delete_group
has_session = refl

serve_all-me_example :
    (has (text "audit") (me later admin_session).permissions ≡ true)
    ↔ ((guard (text "audit") later 100 (some (text "t3"))).1 ≡ granted admin_session)
serve_all-me_example =
    serve_all-me disk machine none app [] visits later 100 (some (text "t3")) admin_session
      (text "audit") starts refl has_session

has_opened : lookup (text "t3") later.sessions ≡ some admin_session
unfolding serve_all serve lookup insert apply_env defaults text ◌==◌ not_empty has gate_in route_of
    run built guard login webridge.Server.pass_gate webridge.Server.routes webridge.Server.entry_of
    webridge.Bruteforce.check webridge.Auth.new_service webridge.Bruteforce.new_bruteforce
    webridge.Login.authenticate webridge.Auth.verify webridge.Auth.hash_password
    webridge.Login.admit webridge.World.audited webridge.Auth.effective_perms webridge.Admin.handle
    webridge.GroupAdmin.delete_group require_auth
has_opened = refl

serve_all-IsOpened_example : IsOpened (text "t3") admin_session visits
serve_all-IsOpened_example =
    serve_all-IsOpened disk machine none app [] visits (text "t3") admin_session starts has_opened
