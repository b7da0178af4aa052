-- ===== src/Config.antt =====
-- internal/config/config.go: the settings as records. A duration is a number of nanoseconds.
pub mod Load
use webridge.Prelude.{Text, ℤ, Bool, List, Option}

pub record LoginRateConfig : Type 0 where
  pub max_attempts : ℤ
  pub window_minutes : ℤ
  pub backoff_base : ℤ
  pub backoff_max_minutes : ℤ

pub record UserConfig : Type 0 where
  pub username : Text
  pub password : Text
  pub role : Text

-- `default_groups` is `none` for a nil slice.
pub record LdapConfig : Type 0 where
  pub enabled : Bool
  pub host : Text
  pub port : ℤ
  pub use_tls : Bool
  pub insecure_skip_verify : Bool
  pub bind_dn : Text
  pub bind_password : Text
  pub base_dn : Text
  pub user_filter : Text
  pub default_groups : Option (List Text)

pub record ImapEmailConfig : Type 0 where
  pub enabled : Bool
  pub host : Text
  pub port : ℤ
  pub use_start_tls : Bool
  pub insecure_skip_verify : Bool
  pub allowed_domains : List Text
  pub auto_provision : Bool
  pub default_groups : Option (List Text)

pub record AuthConfig : Type 0 where
  pub session_ttl : ℤ
  pub users : List UserConfig
  pub login_rate_limit : LoginRateConfig

pub record AuditConfig : Type 0 where
  pub db_path : Text
  pub retention_days : ℤ
  pub access_log_dir : Text

pub record ServerConfig : Type 0 where
  pub host : Text
  pub port : ℤ
  pub read_timeout : ℤ
  pub write_timeout : ℤ
  pub idle_timeout : ℤ
  pub max_header_bytes : ℤ

pub record WeTransferConfig : Type 0 where
  pub request_timeout : ℤ
  pub max_redirects : ℤ

pub record LimitsConfig : Type 0 where
  pub max_concurrent_downloads : ℤ
  pub max_file_size_gb : ℤ
  pub rate_limit_per_minute : ℤ

pub record LoggingConfig : Type 0 where
  pub level : Text
  pub format : Text

pub record UiConfig : Type 0 where
  pub enabled : Bool
  pub title : Text
  pub max_url_length : ℤ

pub record Config : Type 0 where
  pub server : ServerConfig
  pub we_transfer : WeTransferConfig
  pub audit : AuditConfig
  pub limits : LimitsConfig
  pub logging : LoggingConfig
  pub ui : UiConfig
  pub auth : AuthConfig
  pub ldap : LdapConfig
  pub imap : ImapEmailConfig
