-- ===== src/Samples.antt =====
-- Data for the tests: events, and a service with an admin, a user and a session for each.
use webridge.Prelude.{
  ℕ, true, false, none, some, [], ◌∷◌, ◌++◌, Text, text, ◌==◌, if◌then◌else◌, pos,
}
use webridge.Config.{LoginRateConfig, LdapConfig, ImapEmailConfig}
use webridge.Event.{Event}
use webridge.Audit.{Log, event_of}
use webridge.Auth.{User, Session, Service, valid_perms}
use webridge.World.{World}
use webridge.Config.Load.{Env, missing}
use webridge.Startup.{Machine, Opening}

abbrev pub event : ℕ → Event
event n = event_of n (text "login_success") (text "bob") (text "10.0.0.1") []

abbrev pub settings : LoginRateConfig
settings = record {
  max_attempts = pos 5;
  window_minutes = pos 15;
  backoff_base = pos 1;
  backoff_max_minutes = pos 64;
}

abbrev pub ldap : LdapConfig
ldap = record {
  enabled = true;
  host = text "ldap.example.com";
  port = pos 389;
  use_tls = false;
  insecure_skip_verify = false;
  bind_dn = text "cn=svc";
  bind_password = text "svc";
  base_dn = text "dc=example";
  user_filter = text "(uid=%s)";
  default_groups = some (text "users" ∷ []);
}

abbrev pub imap : ImapEmailConfig
imap = record {
  enabled = true;
  host = text "mail.example.com";
  port = pos 993;
  use_start_tls = false;
  insecure_skip_verify = false;
  allowed_domains = text "Example.COM" ∷ text " alt.org " ∷ [];
  auto_provision = true;
  default_groups = some (text "users" ∷ []);
}

-- The hash of the tests leaves a text as it is behind one byte.
abbrev pub hash : Text → Text
hash t = 1 ∷ t

abbrev pub root : User
root = record {
  hash = hash (text "sroot");
  salt = text "s";
  role = text "admin";
  groups = [];
  source = text "local";
}

abbrev pub bob : User
bob = record {
  hash = hash (text "sbob");
  salt = text "s";
  role = text "user";
  groups = text "users" ∷ [];
  source = text "local";
}

abbrev pub session_of : Text → Text → Session
session_of username role = record { username = username; role = role; expires = 1000 }

abbrev pub service : Service
service = record {
  users = (text "root", root) ∷ (text "bob", bob) ∷ [];
  groups = (text "users", text "download" ∷ []) ∷ (text "admin", valid_perms) ∷ [];
  sessions =
      (text "t1", session_of (text "root") (text "admin"))
      ∷ (text "t2", session_of (text "bob") (text "user"))
      ∷ [];
  ttl = 500;
  ldap_cfg = ldap;
  imap_cfg = imap;
  bf = record { by_ip = []; by_user = []; cfg = settings };
  ldap_file = [];
  imap_file = [];
  config_file = [];
}

abbrev pub log : Log
log = record { events = []; max = 3; store = none; active = pos 0; logins = 0; login_fails = 0 }

abbrev pub world : World
world = record { svc = service; log = log }

-- A machine where CONFIG_PATH is set, and there is no configuration.
abbrev pub env : Env
env = record {
  get = λ key. if key == text "CONFIG_PATH" then text "/etc/webridge.yaml" else [];
  atoi = λ s. none;
  parse_duration = λ s. none;
  parse_bool = λ s. none;
}

-- A database that cannot be opened.
abbrev pub no_database : Opening
no_database = record { makes_dir = true; opens = false; has_schema = true; rows = [] }

abbrev pub machine : Machine
machine = record {
  env = env;
  read = λ path. missing;
  unmarshal = λ bytes c. none;
  opening = λ path. no_database;
  cutoff = λ days. [];
  purges = λ s. true;
  join = λ path name. text "/etc/" ++ name;
  ldap_at = λ path. none;
  imap_at = λ path. none;
  sha256 = hash;
  salts = λ n. n ∷ [];
}
