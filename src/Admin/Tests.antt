-- ===== src/Admin/Tests.antt =====
-- Sequences of requests to the handlers of internal/auth/admin.go at concrete inputs.
use webridge.Prelude.{◌≡◌, ◌⊎◌, refl, none, some, List, [], ◌∷◌, text, ◌==◌, arith}
use webridge.Prelude.Table.{lookup, count}
use webridge.Strings.{has}
use webridge.Samples.{world, service, hash}
use webridge.Audit.{event_of}
use webridge.UserAdmin.Logged.{HasEvent}
use webridge.Admin.Logged.{handle-Logged}
use webridge.UserAdmin.{UpdateUserRequest}
use webridge.UserAdmin.LastAdmin.{IsSound}
use webridge.GroupAdmin.Grants.{HasValidGroups}
use webridge.Admin.{AdminRequest, updates_user, deletes_user, updates_group, deletes_group, handle}

abbrev demote : UpdateUserRequest
demote = record { role = some (text "user"); password = none; groups = none }

abbrev requests : List AdminRequest
requests =
    updates_user [] (text "root") (some demote)
    ∷ deletes_user (text "root")
    ∷ deletes_user (text "bob")
    ∷ updates_group (text "users") (some (text "audit" ∷ text "audit" ∷ []))
    ∷ deletes_group (text "users")
    ∷ []

service-IsSound : IsSound service
unfolding lookup count text ◌==◌
service-IsSound = record {
  users = (refl, (refl, tt));
  sessions = (refl, (refl, tt));
  admin = omega arith;
}

service-IsValid : HasValidGroups service.groups
unfolding lookup has
service-IsValid = record { valid = λ g perms p found listed. ground arith }

abbrev promotion : AdminRequest
promotion =
    updates_user [] (text "bob")
      (some (record { role = some (text "admin"); password = none; groups = none }))

handle-Logged_example :
    (handle hash 5 (text "10.0.0.1") (text "root") world promotion ≡ world)
    ⊎ ((e : HasEvent 5
          (text "10.0.0.1")
          world
          (handle hash 5 (text "10.0.0.1") (text "root") world promotion))
        × (e.user ≡ text "bob"))
handle-Logged_example = handle-Logged hash 5 (text "10.0.0.1") (text "root") world promotion

-- The event of the promotion names the user that is promoted.
promotion_logged :
    (handle hash 5 (text "10.0.0.1") (text "root") world promotion).log.events
    ≡ event_of 5 (text "user_updated") (text "bob") (text "10.0.0.1") (text "role=admin ") ∷ []
unfolding handle webridge.UserAdmin.update_user ◌==◌ text lookup webridge.World.audited
    webridge.UserAdmin.update_detail
promotion_logged = refl
