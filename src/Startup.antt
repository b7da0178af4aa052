-- ===== src/Startup.antt =====
-- The start and the stop of cmd/server/main.go: what is built of the configuration, and what happens to
-- the audit store at both ends. The command line, the environment, the disk, SQLite and the random salts
-- are parameters; the server's socket and its lines in the log are not modelled.
pub mod Accounts
pub mod Paths
pub mod Stop
mod Tests
use webridge.Prelude.{
  ℕ, suc, negsuc, ◌++◌, Bool, true, false, Option, none, some, List, [], ◌∷◌, if◌then◌else◌, Text,
  text, ◌==◌, not_empty, ℤ, pos,
}
use webridge.Itoa.{itoa}
use webridge.Config.{LdapConfig, ImapEmailConfig, ServerConfig, LoggingConfig, Config}
use webridge.Config.Load.{Env, File, load, get_config_path}
use webridge.Event.{Event}
use webridge.Store.{Store, Answers, close}
use webridge.Store.Sql.{Statement, purge}
use webridge.Audit.{Log, new_with_store}
use webridge.Auth.{Service, new_service}
use webridge.Redirects.{ClientConfig}
use webridge.Registry.{Registry}
use webridge.RateLimit.{RateLimiter, new_rate_limiter}
use webridge.Clients.Services.{registry}

-- The levels of log/slog.
pub data Level : Type 0 where
  level_debug level_info level_warn level_error : Level

pub record Logger : Type 0 where
  pub level : Level
  pub is_json : Bool

abbrev level_of : Text → Level
level_of level =
    if level == text "debug"
    then level_debug
    else if level == text "info"
    then level_info
    else if level == text "warn"
    then level_warn
    else if level == text "error"
    then level_error
    else level_info

unfoldable pub setup_logger : LoggingConfig → Logger
setup_logger cfg = record { level = level_of cfg.level; is_json = cfg.format == text "json" }

-- What `OpenStore` meets: whether the directory, the database and its tables are there or can be made,
-- and the rows that the table has.
pub record Opening : Type 0 where
  pub makes_dir : Bool
  pub opens : Bool
  pub has_schema : Bool
  pub rows : List Event

pub data Opened : Type 0 where
  opened : Store → Opened
  not_opened : Text → Opened

-- The errors less what the system says of them.
unfoldable pub open_store : Opening → Opened
open_store o =
    if o.makes_dir
    then (if o.opens
        then (if o.has_schema
            then opened (record { ch = []; batch = []; rows = o.rows })
            else not_opened (text "audit store: schema: "))
        else not_opened (text "audit store: open: "))
    else not_opened (text "audit store: mkdir: ")

-- `auditStore` stays nil on an error.
abbrev pub store_of : Opened → Option Store
store_of (opened s) = some s
store_of (not_opened e) = none

-- The settings that each of the five clients is made with.
abbrev pub client_config : Config → ClientConfig
client_config cfg = record {
  request_timeout = cfg.we_transfer.request_timeout;
  max_redirects = cfg.we_transfer.max_redirects;
}

-- The fields of `http.Server` but its handler.
pub record HttpServer : Type 0 where
  pub addr : Text
  pub read_timeout : ℤ
  pub write_timeout : ℤ
  pub idle_timeout : ℤ
  pub max_header_bytes : ℤ

abbrev decimal : ℤ → Text
decimal (pos n) = itoa n
decimal (negsuc n) = text "-" ++ itoa (suc n)

unfoldable pub http_server : ServerConfig → HttpServer
http_server cfg = record {
  addr = cfg.host ++ (text ":" ++ decimal cfg.port);
  read_timeout = cfg.read_timeout;
  write_timeout = cfg.write_timeout;
  idle_timeout = cfg.idle_timeout;
  max_header_bytes = cfg.max_header_bytes;
}

-- What the process has when it begins to serve.
pub record App (L : Type 0) : Type 0 where
  pub config : Config
  pub logger : Logger
  pub clients : ClientConfig
  pub registry : Registry
  pub limiter : RateLimiter L
  pub purged : List Statement
  pub log : Log
  pub service : Service
  pub server : HttpServer

-- What the process meets outside: `read` is `os.ReadFile` of the configuration, `purges` whether the
-- statement succeeds, `join` is `filepath.Join` behind `filepath.Dir`; the overrides are as for `New`.
pub record Machine : Type 0 where
  pub env : Env
  pub read : Text → File
  pub unmarshal : Text → Config → Option Config
  pub opening : Text → Opening
  pub cutoff : ℤ → Text
  pub purges : Statement → Bool
  pub join : Text → Text → Text
  pub ldap_at : Text → Option LdapConfig
  pub imap_at : Text → Option ImapEmailConfig
  pub sha256 : Text → Text
  pub salts : ℕ → Text

-- A variable of the environment, or what stands for it where it is not set.
abbrev or_else : Text → Text → Text
or_else value fallback = if not_empty value then value else fallback

module _ (m : Machine) where
  -- `*configPath`, with the argument of `-config` where it is given.
  unfoldable pub config_path : Option Text → Text
  config_path flag = elim flag [ none ↦ get_config_path m.env | some p ↦ p ]

  unfoldable pub ldap_file : Text → Text
  ldap_file path =
      or_else (m.env.get (text "LDAP_SETTINGS_FILE")) (m.join path (text "ldap-settings.json"))

  unfoldable pub imap_file : Text → Text
  imap_file path =
      or_else (m.env.get (text "IMAP_SETTINGS_FILE")) (m.join path (text "imap-settings.json"))

  unfoldable pub config_file : Text → Text
  config_file path = or_else (m.env.get (text "CONFIG_PATH")) path

  abbrev pub opened_store : Config → Option Store
  opened_store cfg = store_of (open_store (m.opening cfg.audit.db_path))

  abbrev pub startup_purge : Config → List Statement
  startup_purge cfg = elim (opened_store cfg) [
    | none ↦ []
    | some s ↦ purge m.cutoff m.purges cfg.audit.retention_days
  ]

  abbrev pub startup_service : Text → Config → Service
  startup_service path cfg =
      new_service m.sha256 cfg.auth cfg.ldap cfg.imap (m.ldap_at (ldap_file path))
        (m.imap_at (imap_file path)) (ldap_file path) (imap_file path) (config_file path) m.salts

  unfoldable pub built : {L : Type 0} → Text → Config → App L
  built path cfg = record {
    config = cfg;
    logger = setup_logger cfg.logging;
    clients = client_config cfg;
    registry = registry;
    limiter = new_rate_limiter cfg.limits.rate_limit_per_minute;
    purged = startup_purge cfg;
    log = new_with_store (pos 5000) (opened_store cfg);
    service = startup_service path cfg;
    server = http_server cfg.server;
  }

  -- `main` until it serves; `none`: the configuration cannot be loaded, and the process exits with 1.
  unfoldable pub start : {L : Type 0} → Option Text → Option (App L)
  unfolding built
  start flag = elim (load m.env m.unmarshal (m.read (config_path flag))) [
    | none ↦ none
    | some cfg ↦ some (built (config_path flag) cfg)
  ]

-- The end of `main` after the signal: the exit status and the store. Where `Shutdown` fails, `os.Exit`
-- runs no deferred `Close`.
unfoldable pub stop : Bool → Answers → List Bool → Option Store → ℕ × Option Store
stop shuts_down db ticks none = (if shuts_down then 0 else 1, none)
stop shuts_down db ticks (some s) = if shuts_down then (0, some (close db ticks s)) else (1, some s)
