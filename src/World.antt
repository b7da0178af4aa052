-- ===== src/World.antt =====
-- What a handler of the service reads and writes, and what it answers: the service of
-- internal/auth, the audit log, and a status with its message. The JSON bodies of the answers that
-- are no errors are not modelled.
use webridge.Prelude.{ℕ, Text}
use webridge.Auth.{Service}
use webridge.Audit.{Log, add}

pub record World : Type 0 where
  pub svc : Service
  pub log : Log

pub record Reply : Type 0 where
  pub status : ℕ
  pub message : Text

abbrev pub reply : ℕ → Text → Reply
reply status message = record { status = status; message = message }

abbrev pub with_service : World → Service → World
with_service w s = record w { svc = s }

-- `auditLog.Add`, at the clock's reading `now`
unfoldable pub audited : ℕ → World → Text → Text → Text → Text → World
unfolding add
audited now w action user ip detail = record w { log = add now w.log action user ip detail }
