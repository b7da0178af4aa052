-- ===== src/GroupAdmin/Sessions.antt =====
-- The group handlers of internal/auth/admin.go leave the sessions.
use webridge.Prelude.{ℕ, ◌≡◌, refl, Option, none, some, List, Text, arith}
use webridge.World.{World, audited}
use webridge.GroupAdmin.{CreateGroupRequest, create_group, update_group, delete_group}

module _ (now : ℕ) (ip by : Text) (w : World) where
  pub create_group-sessions :
      (req : Option CreateGroupRequest)
      → (create_group now ip by w req).0.svc.sessions ≡ w.svc.sessions
  unfolding create_group audited
  create_group-sessions none = refl
  create_group-sessions (some req) = ground arith

  pub update_group-sessions :
      (name : Text) (perms : Option (List Text))
      → (update_group now ip by w name perms).0.svc.sessions ≡ w.svc.sessions
  unfolding update_group audited
  update_group-sessions name none = refl
  update_group-sessions name (some perms) = ground arith

  pub delete_group-sessions :
      (name : Text) → (delete_group now ip by w name).0.svc.sessions ≡ w.svc.sessions
  unfolding delete_group audited
  delete_group-sessions name = ground arith
