-- ===== src/Auth/Me.antt =====
-- `Me` of internal/auth/auth.go.
use webridge.Prelude.{Bool, List, Text, not_empty}
use webridge.Auth.{Session, Service, valid_perms, perms_list}

pub record Profile : Type 0 where
  pub authenticated : Bool
  pub username : Text
  pub role : Text
  pub permissions : List Text
  pub all_perms : List Text

-- The name and the role are those of the session that the request runs under.
unfoldable pub me : Service → Session → Profile
me s sess = record {
  authenticated = not_empty sess.username;
  username = sess.username;
  role = sess.role;
  permissions = perms_list s sess.username;
  all_perms = valid_perms;
}
