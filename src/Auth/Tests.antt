-- ===== src/Auth/Tests.antt =====
-- Runs of internal/auth/auth.go, and the theorems at concrete inputs.
use webridge.Prelude.{
  ◌≤◌, ◌≡◌, ◌≢◌, ◌↔◌, refl, true, false, none, some, Text, text, ◌==◌, not_empty, arith,
  if◌then◌else◌,
}
use webridge.Prelude.Table.{lookup, erase}
use webridge.Strings.{has}
use webridge.Samples.{service, session_of, hash}
use webridge.Auth.{
  granted, unauthorized, forbidden, guard, require_auth, verify, effective_perms, union_of,
}
use webridge.Auth.Guards.{IsAllowed, guard-granted_iff}
use webridge.Auth.Sessions.{require_auth-expired}

guard-granted_iff_example :
    ((guard (text "download") service 900 (some (text "t2"))).1
      ≡ granted (session_of (text "bob") (text "user")))
    ↔ ((token : Text) × (some (text "t2") ≡ some token)
        × (lookup token service.sessions ≡ some (session_of (text "bob") (text "user")))
        × (900 ≤ 1000)
        × IsAllowed service (text "bob") (text "download"))
guard-granted_iff_example =
    guard-granted_iff (text "download") service 900 (some (text "t2"))
      (session_of (text "bob") (text "user"))

answers :
    ((guard (text "download") service 900 (some (text "t2"))).1
      ≡ granted (session_of (text "bob") (text "user")))
    × ((guard (text "users") service 900 (some (text "t2"))).1 ≡ forbidden)
    × ((guard (text "users") service 900 (some (text "t1"))).1
        ≡ granted (session_of (text "root") (text "admin")))
    × ((guard (text "users") service 1001 (some (text "t1"))).1 ≡ unauthorized)
unfolding guard require_auth effective_perms union_of lookup erase has text ◌==◌
answers = (refl, refl, refl, refl)

tokens_differ : text "t1" ≢ text "t2"
unfolding text
tokens_differ = ground arith

expired_session :
    ((require_auth service 1001 (some (text "t2"))).1 ≡ none)
    × (lookup (text "t2") (require_auth service 1001 (some (text "t2"))).0.sessions ≡ none)
    × ((token' : Text)
        → lookup token' (require_auth service 1001 (some (text "t2"))).0.sessions
          ≡ (if text "t2" == token' then none else lookup token' service.sessions))
unfolding lookup text ◌==◌
expired_session =
    require_auth-expired service 1001 (text "t2") (session_of (text "bob") (text "user")) refl
      (omega arith)

passwords :
    ((verify hash service (text "bob") (text "bob")).2 ≡ true)
    × ((verify hash service (text "bob") (text "root")).2 ≡ false)
unfolding verify lookup not_empty text ◌==◌
passwords = (refl, refl)
