-- ===== src/Config/Load.antt =====
-- `Load` of internal/config/config.go. The environment, the parsers of strconv and time, the disk and
-- YAML are parameters.
pub mod Environment
mod Tests
use webridge.Prelude.{
  ℕ, ◌*◌, ◌^◌, Bool, true, false, Option, none, some, List, [], ◌∷◌, if◌then◌else◌, Text, text,
  not_empty, ℤ, pos,
}
use webridge.Config.{
  LoginRateConfig, UserConfig, LdapConfig, ImapEmailConfig, AuthConfig, AuditConfig, ServerConfig,
  WeTransferConfig, LimitsConfig, LoggingConfig, UiConfig, Config,
}

abbrev pub seconds : ℕ → ℤ
seconds n = pos (n * 10 ^ 9)

abbrev users_group : Option (List Text)
users_group = some (text "users" ∷ [])

unfoldable pub defaults : Config
defaults = record {
  server = record {
    host = text "0.0.0.0";
    port = pos 8080;
    read_timeout = seconds 30;
    write_timeout = pos 0;
    idle_timeout = seconds 120;
    max_header_bytes = pos 1048576;
  };
  we_transfer = record { request_timeout = seconds 30; max_redirects = pos 10 };
  audit = record {
    db_path = text "data/audit.db";
    retention_days = pos 90;
    access_log_dir = text "data/logs";
  };
  limits = record {
    max_concurrent_downloads = pos 50;
    max_file_size_gb = pos 2;
    rate_limit_per_minute = pos 30;
  };
  logging = record { level = text "info"; format = text "json" };
  ui = record { enabled = true; title = text "File Download Portal"; max_url_length = pos 2048 };
  auth = record {
    session_ttl = seconds (24 * 3600);
    users =
        record { username = text "admin"; password = text "admin123"; role = text "admin" }
        ∷ record { username = text "user"; password = text "user123"; role = text "user" }
        ∷ [];
    login_rate_limit = record {
      max_attempts = pos 5;
      window_minutes = pos 15;
      backoff_base = pos 1;
      backoff_max_minutes = pos 64;
    };
  };
  ldap = record {
    enabled = false;
    host = [];
    port = pos 389;
    use_tls = false;
    insecure_skip_verify = false;
    bind_dn = [];
    bind_password = [];
    base_dn = [];
    user_filter = text "(uid=%s)";
    default_groups = users_group;
  };
  imap = record {
    enabled = false;
    host = [];
    port = pos 993;
    use_start_tls = false;
    insecure_skip_verify = false;
    allowed_domains = [];
    auto_provision = false;
    default_groups = users_group;
  };
}

-- `os.Getenv` (empty where the variable is not set), `strconv.Atoi`, `time.ParseDuration` and
-- `strconv.ParseBool`.
pub record Env : Type 0 where
  pub get : Text → Text
  pub atoi : Text → Option ℤ
  pub parse_duration : Text → Option ℤ
  pub parse_bool : Text → Option Bool

abbrev set {ℓ} : {A : Type ℓ} → Option A → A → A
set none old = old
set (some new) old = new

module _ (env : Env) where
  unfoldable pub set_str : Text → Text → Text
  set_str key p = if not_empty (env.get key) then env.get key else p

  unfoldable pub set_int : Text → ℤ → ℤ
  set_int key p = set (env.atoi (env.get key)) p

  unfoldable pub set_dur : Text → ℤ → ℤ
  set_dur key p = set (env.parse_duration (env.get key)) p

  unfoldable pub set_bool : Text → Bool → Bool
  set_bool key p = set (env.parse_bool (env.get key)) p

  unfoldable pub apply_env : Config → Config
  apply_env c = record c {
    server = record {
      host = set_str (text "PROXY_SERVER_HOST") c.server.host;
      port = set_int (text "PROXY_SERVER_PORT") c.server.port;
      read_timeout = set_dur (text "PROXY_SERVER_READ_TIMEOUT") c.server.read_timeout;
      write_timeout = set_dur (text "PROXY_SERVER_WRITE_TIMEOUT") c.server.write_timeout;
      idle_timeout = set_dur (text "PROXY_SERVER_IDLE_TIMEOUT") c.server.idle_timeout;
      max_header_bytes = set_int (text "PROXY_SERVER_MAX_HEADER_BYTES") c.server.max_header_bytes;
    };
    we_transfer = record {
      request_timeout =
          set_dur (text "PROXY_WETRANSFER_REQUEST_TIMEOUT") c.we_transfer.request_timeout;
      max_redirects = set_int (text "PROXY_WETRANSFER_MAX_REDIRECTS") c.we_transfer.max_redirects;
    };
    audit = record {
      db_path = set_str (text "PROXY_AUDIT_DB_PATH") c.audit.db_path;
      retention_days = set_int (text "PROXY_AUDIT_RETENTION_DAYS") c.audit.retention_days;
      access_log_dir = set_str (text "PROXY_AUDIT_ACCESS_LOG_DIR") c.audit.access_log_dir;
    };
    limits = record {
      max_concurrent_downloads =
          set_int (text "PROXY_LIMITS_MAX_CONCURRENT_DOWNLOADS") c.limits.max_concurrent_downloads;
      max_file_size_gb = set_int (text "PROXY_LIMITS_MAX_FILE_SIZE_GB") c.limits.max_file_size_gb;
      rate_limit_per_minute =
          set_int (text "PROXY_LIMITS_RATE_LIMIT_PER_MINUTE") c.limits.rate_limit_per_minute;
    };
    logging = record {
      level = set_str (text "PROXY_LOGGING_LEVEL") c.logging.level;
      format = set_str (text "PROXY_LOGGING_FORMAT") c.logging.format;
    };
    ui = record {
      enabled = set_bool (text "PROXY_UI_ENABLED") c.ui.enabled;
      title = set_str (text "PROXY_UI_TITLE") c.ui.title;
      max_url_length = set_int (text "PROXY_UI_MAX_URL_LENGTH") c.ui.max_url_length;
    };
  }

-- What `os.ReadFile` says of the file.
pub data File : Type 0 where
  missing unreadable : File
  contents : Text → File

-- `yaml.Unmarshal` over the defaults, where it gives a configuration.
over : (Text → Config → Option Config) → File → Option Config
over unmarshal missing = some defaults
over unmarshal unreadable = none
over unmarshal (contents bytes) = unmarshal bytes defaults

-- `Load`; `none` is an error.
unfoldable pub load : Env → (Text → Config → Option Config) → File → Option Config
unfolding over
load env unmarshal file = elim (over unmarshal file) [
  | none ↦ none
  | some c ↦ some (apply_env env c)
]

unfoldable pub get_config_path : Env → Text
get_config_path env =
    if not_empty (env.get (text "CONFIG_PATH"))
    then env.get (text "CONFIG_PATH")
    else text "/app/config/config.yaml"

-- A node of YAML, as far as `UnmarshalYAML` of `Duration` looks at it: its tag, and what decoding it to
-- an int64 and to a string gives.
pub record Node : Type 0 where
  pub is_int : Bool
  pub as_int : Option ℤ
  pub as_string : Option Text

unfoldable pub unmarshal_duration : Env → Node → Option ℤ
unmarshal_duration env n =
    if n.is_int then n.as_int else elim n.as_string [ none ↦ none | some s ↦ env.parse_duration s ]
