-- ===== src/UserAdmin/Tests.antt =====
-- Requests to the user handlers of internal/auth/admin.go, and the theorems at concrete inputs.
use webridge.Prelude.{
  ℕ, ◌≡◌, ◌≢◌, refl, none, some, List, [], ◌∷◌, Text, text, ◌==◌, not_empty, arith,
}
use webridge.Prelude.Table.{lookup, erase, retain, count}
use webridge.Samples.{world, hash, session_of}
use webridge.Auth.{require_auth}
use webridge.World.{audited}
use webridge.UserAdmin.{
  CreateUserRequest, UpdateUserRequest, PublicUser, list_users, update_user, delete_user,
  unknown_group, updated,
}
use webridge.UserAdmin.Deletion.{user_of, delete_user-require_auth, delete_user-others}

abbrev home : Text
home = text "10.0.0.1"

abbrev names : List PublicUser
names =
    record { username = text "root"; role = text "admin"; groups = []; source = text "local" }
    ∷ record {
      username = text "bob";
      role = text "user";
      groups = text "users" ∷ [];
      source = text "local";
    }
    ∷ []

listed : list_users world.svc.users ≡ names
unfolding list_users not_empty text
listed = refl

delete_user-require_auth_example :
    (lookup (text "bob") (delete_user hash 5 home world (text "bob")).0.svc.users ≡ none)
    × (user_of
          (require_auth (delete_user hash 5 home world (text "bob")).0.svc 6 (some (text "t2"))).1
        ≢ some (text "bob"))
unfolding delete_user require_auth lookup erase retain count text ◌==◌ audited
delete_user-require_auth_example =
    delete_user-require_auth hash 5 home world (text "bob") 6 (some (text "t2")) (refl, (refl, tt))
      refl

names_differ : text "root" ≢ text "bob"
unfolding text
names_differ = ground arith

delete_user-others_example :
    (lookup (text "root") (delete_user hash 5 home world (text "bob")).0.svc.users
      ≡ lookup (text "root") world.svc.users)
    × (lookup (text "t1") (delete_user hash 5 home world (text "bob")).0.svc.sessions
        ≡ some (session_of (text "root") (text "admin")))
unfolding delete_user lookup erase retain count text ◌==◌ audited
delete_user-others_example =
    delete_user-others hash 5 home world (text "bob") (text "root") (text "t1")
      (session_of (text "root") (text "admin")) refl names_differ refl names_differ

last_admin : (delete_user hash 5 home world (text "root")).1.status ≡ 409
unfolding delete_user lookup count text ◌==◌
last_admin = refl

abbrev eve : CreateUserRequest
eve = record { username = text "eve"; password = text "pw"; role = text "user" }

abbrev demotion : UpdateUserRequest
demotion = record { role = some (text "user"); password = none; groups = none }

is_refused : (update_user hash 5 home (text "x") world (text "root") (some demotion)).1.status ≡ 409
unfolding update_user updated unknown_group lookup count text ◌==◌
is_refused = refl

status_differs : ◌≢◌ {A = ℕ} 409 204
status_differs = ground arith
