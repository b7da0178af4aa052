-- ===== src/GroupAdmin.antt =====
-- The group handlers of internal/auth/admin.go. Arguments as in the user handlers.
pub mod Validity
pub mod Grants
pub mod Members
pub mod Shown
pub mod Logged
pub mod Sessions
mod Tests
use webridge.Prelude.{
  ℕ, Bool, true, false, ◌&&◌, not, Option, none, some, List, [], ◌∷◌, ◌++◌, keep, if◌then◌else◌,
  Text, text, ◌==◌, not_empty,
}
use webridge.Prelude.Table.{Table, lookup, insert, erase}
use webridge.Strings.{has}
use webridge.Auth.{User, Service, valid_perms}
use webridge.World.{World, Reply, reply, with_service, audited}

pub data Perms : Type 0 where
  normal : List Text → Perms
  unknown : Text → Perms

-- The loop over the permissions; `out` is both `out` and the keys of `seen`.
normalize_from : List Text → List Text → Perms
normalize_from out [] = normal out
normalize_from out (p ∷ ps) =
    let rest = normalize_from (if has p out then out else out ++ p ∷ []) ps in
    if not (has p valid_perms) then unknown p else rest

unfoldable pub normalize_perms : List Text → Perms
unfolding normalize_from
normalize_perms ps = normalize_from [] ps

pub record CreateGroupRequest : Type 0 where
  pub name : Text
  pub permissions : List Text

abbrev is_other : Text → Text → Bool
is_other name g = not (g == name)

-- The group goes from every user's list.
unfoldable pub leave_all : Text → Table User → Table User
leave_all name [] = []
leave_all name ((k, u) ∷ users) =
    (k, record u { groups = keep (is_other name) u.groups }) ∷ leave_all name users

module _ (now : ℕ) (ip : Text) (by : Text) where
  create_from : World → Text → List Text → Option (List Text) → World × Reply
  create_from w name perms (some old) = (w, reply 409 (text "Group already exists"))
  create_from w name perms none = (
    audited now (with_service w (record w.svc { groups = insert name perms w.svc.groups }))
        (text "group_created") by ip name,
    reply 201 [],
  )

  create_checked : World → Text → Perms → World × Reply
  create_checked w name (unknown p) = (w, reply 400 (text "Unknown permission: " ++ p))
  create_checked w name (normal perms) = create_from w name perms (lookup name w.svc.groups)

  unfoldable pub create_group : World → Option CreateGroupRequest → World × Reply
  unfolding create_checked create_from
  create_group w none = (w, reply 400 (text "group name required"))
  create_group w (some req) =
      if not_empty req.name
      then create_checked w req.name (normalize_perms req.permissions)
      else (w, reply 400 (text "group name required"))

  update_from : World → Text → List Text → Option (List Text) → World × Reply
  update_from w name perms none = (w, reply 404 (text "Group not found"))
  update_from w name perms (some old) = (
    audited now (with_service w (record w.svc { groups = insert name perms w.svc.groups }))
        (text "group_updated") by ip name,
    reply 204 [],
  )

  update_checked : World → Text → Perms → World × Reply
  update_checked w name (unknown p) = (w, reply 400 (text "Unknown permission: " ++ p))
  update_checked w name (normal perms) = update_from w name perms (lookup name w.svc.groups)

  -- The body's permissions.
  unfoldable pub update_group : World → Text → Option (List Text) → World × Reply
  unfolding update_checked update_from
  update_group w name none = (w, reply 400 (text "invalid body"))
  update_group w name (some permissions) = update_checked w name (normalize_perms permissions)

  delete_found : World → Text → Option (List Text) → World × Reply
  delete_found w name none = (w, reply 404 (text "Group not found"))
  delete_found w name (some old) = (
    audited now
        (with_service w
          (record w.svc { groups = erase name w.svc.groups; users = leave_all name w.svc.users }))
        (text "group_deleted") by ip name,
    reply 204 [],
  )

  unfoldable pub delete_group : World → Text → World × Reply
  unfolding delete_found
  delete_group w name = delete_found w name (lookup name w.svc.groups)
