-- ===== src/Auth/Sessions.antt =====
-- What the end of a session means (`Logout`, `RequireAuth` of internal/auth/auth.go).
use webridge.Prelude.{
  ℕ, ◌<◌, ◌≡◌, ◌≢◌, none, some, if◌then◌else◌, Text, ◌==◌, eq_iff, eq_refl, arith,
}
use webridge.Prelude.Table.{lookup, lookup-erase}
use webridge.Auth.{Session, Service, require_auth, logout}

-- After a logout the token opens no session at any time, and another token opens what it opened before.
pub require_auth-logout :
    (s : Service) (now : ℕ) (token token' : Text)
    → token ≢ token'
    → ((require_auth (logout s (some token)).0 now (some token)).1 ≡ none)
      × ((require_auth (logout s (some token)).0 now (some token')).1
          ≡ (require_auth s now (some token')).1)
unfolding require_auth logout
require_auth-logout s now token token' h = (
  ground (arith, lookup-erase token token s.sessions, eq_refl token),
  ground (arith, lookup-erase token token' s.sessions, eq_iff token token'),
)

-- A request with an expired session is refused, and removes this session from the service; it
-- removes no other.
pub require_auth-expired :
    (s : Service) (now : ℕ) (token : Text) (sess : Session)
    → lookup token s.sessions ≡ some sess
    → sess.expires < now
    → ((require_auth s now (some token)).1 ≡ none)
      × (lookup token (require_auth s now (some token)).0.sessions ≡ none)
      × ((token' : Text)
          → lookup token' (require_auth s now (some token)).0.sessions
            ≡ (if token == token' then none else lookup token' s.sessions))
unfolding require_auth
require_auth-expired s now token sess e h = (
  ground arith,
  ground (arith, lookup-erase token token s.sessions, eq_refl token),
  λ token'. ground (arith, lookup-erase token token' s.sessions),
)
