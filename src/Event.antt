-- ===== src/Event.antt =====
-- `Event` of internal/audit/audit.go.
use webridge.Prelude.{ℕ, Text, ℤ}

pub record Event : Type 0 where
  pub time : ℕ
  pub action : Text
  pub user : Text
  pub ip : Text
  pub detail : Text
  pub url : Text
  pub provider : Text
  pub filename : Text
  pub file_size : ℤ
  pub resolved_url : Text
  pub bytes_transferred : ℤ
  pub duration_ms : ℕ
  pub sha256 : Text
  pub client_ua : Text
