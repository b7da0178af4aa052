-- ===== src/Admin.antt =====
-- Sequences of requests to the user and group handlers of internal/auth/admin.go.
pub mod Logged
mod Tests
use webridge.Prelude.{ℕ, ◌≡◌, refl, Option, List, [], ◌∷◌, Text}
use webridge.World.{World}
use webridge.UserAdmin.{CreateUserRequest, UpdateUserRequest, create_user, update_user, delete_user}
use webridge.UserAdmin.LastAdmin.{
  IsSound, create_user-IsSound, update_user-IsSound, delete_user-IsSound,
}
use webridge.UserAdmin.Updates.{groups-create_user, groups-update_user, groups-delete_user}
use webridge.GroupAdmin.{CreateGroupRequest, create_group, update_group, delete_group}
use webridge.GroupAdmin.Members.{create_group-IsSound, update_group-IsSound, delete_group-IsSound}
use webridge.GroupAdmin.Grants.{
  HasValidGroups, create_group-HasValidGroups, update_group-HasValidGroups,
  delete_group-HasValidGroups,
}

-- A request with the random salt that its handler draws.
pub data AdminRequest : Type 0 where
  creates_user : Text → Option CreateUserRequest → AdminRequest
  updates_user : Text → Text → Option UpdateUserRequest → AdminRequest
  deletes_user : Text → AdminRequest
  creates_group : Option CreateGroupRequest → AdminRequest
  updates_group : Text → Option (List Text) → AdminRequest
  deletes_group : Text → AdminRequest

module _ (sha256 : Text → Text) (now : ℕ) (ip by : Text) where
  unfoldable pub handle : World → AdminRequest → World
  handle w (creates_user salt req) = (create_user sha256 now ip salt w req).0
  handle w (updates_user salt name req) = (update_user sha256 now ip salt w name req).0
  handle w (deletes_user name) = (delete_user sha256 now ip w name).0
  handle w (creates_group req) = (create_group now ip by w req).0
  handle w (updates_group name req) = (update_group now ip by w name req).0
  handle w (deletes_group name) = (delete_group now ip by w name).0

  pub handle_all : World → List AdminRequest → World
  handle_all w [] = w
  handle_all w (r ∷ rs) = handle_all (handle w r) rs

  handle-IsSound : (w : World) (r : AdminRequest) → IsSound w.svc → IsSound (handle w r).svc
  unfolding handle
  handle-IsSound w (creates_user salt req) h = create_user-IsSound sha256 now ip salt w req h
  handle-IsSound w (updates_user salt name req) h =
      update_user-IsSound sha256 now ip salt w name req h
  handle-IsSound w (deletes_user name) h = delete_user-IsSound sha256 now ip w name h
  handle-IsSound w (creates_group req) h = create_group-IsSound now ip by w req h
  handle-IsSound w (updates_group name req) h = update_group-IsSound now ip by w name req h
  handle-IsSound w (deletes_group name) h = delete_group-IsSound now ip by w name h

  -- Whatever requests reach the user and group handlers, and however they are answered: if there is
  -- an admin before, there is one after, and each user and session stands once.
  pub handle_all-IsSound :
      (w : World) (rs : List AdminRequest) → IsSound w.svc → IsSound (handle_all w rs).svc
  unfolding handle_all
  handle_all-IsSound w [] h = h
  handle_all-IsSound w (r ∷ rs) h = handle_all-IsSound (handle w r) rs (handle-IsSound w r h)

  pub handle-HasValidGroups :
      (w : World) (r : AdminRequest)
      → HasValidGroups w.svc.groups
      → HasValidGroups (handle w r).svc.groups
  unfolding handle
  handle-HasValidGroups w (creates_user salt req) h =
      rw (groups-create_user sha256 now ip w salt req) h
  handle-HasValidGroups w (updates_user salt name req) h =
      rw (groups-update_user sha256 now ip w salt name req) h
  handle-HasValidGroups w (deletes_user name) h = rw (groups-delete_user sha256 now ip w name) h
  handle-HasValidGroups w (creates_group req) h = create_group-HasValidGroups now ip by w req h
  handle-HasValidGroups w (updates_group name req) h =
      update_group-HasValidGroups now ip by w name req h
  handle-HasValidGroups w (deletes_group name) h = delete_group-HasValidGroups now ip by w name h

  -- Whatever requests reach the user and group handlers, groups that grant valid permissions only still do.
  pub handle_all-HasValidGroups :
      (w : World) (rs : List AdminRequest)
      → HasValidGroups w.svc.groups
      → HasValidGroups (handle_all w rs).svc.groups
  unfolding handle_all
  handle_all-HasValidGroups w [] h = h
  handle_all-HasValidGroups w (r ∷ rs) h =
      handle_all-HasValidGroups (handle w r) rs (handle-HasValidGroups w r h)
