-- ===== src/GroupAdmin/Shown.antt =====
-- What clients are shown of groups and permissions (internal/auth/admin.go, internal/auth/auth.go).
use webridge.Prelude.{ℕ, ◌≡◌, ◌↔◌, true, Option, some, List, [], ◌∷◌, Text, arith}
use webridge.Prelude.Table.{Table}
use webridge.Strings.{has}
use webridge.Auth.{Service, Session, granted, require_auth, guard}
use webridge.Auth.Me.{me}
use webridge.GroupAdmin.Grants.{HasValidGroups, perms_list_lem}

pub record PublicGroup : Type 0 where
  pub name : Text
  pub permissions : List Text

unfoldable pub list_groups : Table (List Text) → List PublicGroup
list_groups [] = []
list_groups ((name, perms) ∷ groups) =
    record { name = name; permissions = perms } ∷ list_groups groups

-- A request with a session: Me lists a permission for it exactly if a route that asks for this permission
-- runs its handler for the same request, where every group grants valid permissions only.
pub me-guard :
    (s : Service) (now : ℕ) (cookie : Option Text) (sess : Session) (p : Text)
    → require_auth s now cookie ≡ (s, some sess)
    → HasValidGroups s.groups
    → (has p (me s sess).permissions ≡ true) ↔ ((guard p s now cookie).1 ≡ granted sess)
unfolding me guard
me-guard s now cookie sess p e h = ground (arith, e, perms_list_lem s sess.username p h)
