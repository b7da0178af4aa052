-- ===== src/GroupAdmin/Tests.antt =====
-- Requests to the group handlers of internal/auth/admin.go, and the theorems at concrete inputs.
use webridge.Prelude.{◌≡◌, refl, List, [], ◌∷◌, Text, text, ◌==◌, arith}
use webridge.Prelude.Table.{lookup}
use webridge.Strings.{has}
use webridge.Samples.{world, service, root, bob}
use webridge.Auth.{valid_perms}
use webridge.GroupAdmin.Shown.{list_groups}
use webridge.GroupAdmin.{unknown, normalize_perms, leave_all}
use webridge.GroupAdmin.Grants.{HasValidGroups}

abbrev twice : List Text
twice = text "audit" ∷ text "download" ∷ text "audit" ∷ []

abbrev once : List Text
once = text "audit" ∷ text "download" ∷ []

is_unknown : normalize_perms (text "audit" ∷ text "root" ∷ []) ≡ unknown (text "root")
unfolding normalize_perms has text ◌==◌
is_unknown = refl

service-HasValidGroups : HasValidGroups service.groups
unfolding lookup has
service-HasValidGroups = record { valid = λ g perms p found listed. ground arith }

bob_left :
    leave_all (text "users") world.svc.users
    ≡ (text "root", root) ∷ (text "bob", record bob { groups = [] }) ∷ []
unfolding leave_all text ◌==◌
bob_left = refl

groups_shown :
    list_groups service.groups
    ≡ record { name = text "users"; permissions = text "download" ∷ [] }
      ∷ record { name = text "admin"; permissions = valid_perms }
      ∷ []
unfolding list_groups
groups_shown = refl
