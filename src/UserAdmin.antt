-- ===== src/UserAdmin.antt =====
-- The user handlers of internal/auth/admin.go. A request is `none` where its body is no JSON of the
-- shape; `by` and `ip` are the session's user and the client's address, `now` the time of the audit
-- event, and `salt` what `crypto/rand` gives.
pub mod LastAdmin
pub mod Deletion
pub mod Logged
pub mod Sessions
pub mod Updates
mod Tests
use webridge.Prelude.{
  ℕ, Bool, true, false, ◌&&◌, ◌||◌, not, Option, none, some, List, [], ◌∷◌, ◌++◌, leb,
  if◌then◌else◌, Text, text, ◌==◌, not_empty,
}
use webridge.Prelude.Table.{Table, lookup, insert, erase, retain, count}
use webridge.Auth.{User, Session, Service, is_admin, groups_for, hash_password}
use webridge.World.{World, Reply, reply, with_service, audited}

pub record CreateUserRequest : Type 0 where
  pub username : Text
  pub password : Text
  pub role : Text

-- A pointer field is `none` where the body leaves it out.
pub record UpdateUserRequest : Type 0 where
  pub role : Option Text
  pub password : Option Text
  pub groups : Option (List Text)

pub record PublicUser : Type 0 where
  pub username : Text
  pub role : Text
  pub groups : List Text
  pub source : Text

unfoldable pub list_users : Table User → List PublicUser
list_users [] = []
list_users ((name, u) ∷ users) =
    record {
      username = name;
      role = u.role;
      groups = u.groups;
      source = if not_empty u.source then u.source else text "local";
    }
    ∷ list_users users

abbrev pub admin_count : Service → ℕ
admin_count s = count is_admin s.users

-- "—" in UTF-8
abbrev dash : Text
dash = 226 ∷ 128 ∷ 148 ∷ []

abbrev pub known_role : Text → Bool
known_role role = role == text "admin" || role == text "user"

abbrev pub is_external : User → Bool
is_external u = u.source == text "ldap" || u.source == text "imap"

-- The first group of the list that is not there.
unfoldable pub unknown_group : Table (List Text) → List Text → Option Text
unknown_group groups [] = none
unknown_group groups (g ∷ gs) = elim (lookup g groups) [
  | none ↦ some g
  | some perms ↦ unknown_group groups gs
]

unfoldable pub update_detail : UpdateUserRequest → Text
update_detail req =
    elim req.role [ none ↦ [] | some role ↦ text "role=" ++ role ++ text " " ]
    ++ elim req.password [ none ↦ [] | some pw ↦ text "password=changed " ]
    ++ elim req.groups [ none ↦ [] | some gs ↦ text "groups=updated" ]

module _ (sha256 : Text → Text) (now : ℕ) (ip : Text) where
  create_from : Text → World → CreateUserRequest → Option User → World × Reply
  create_from salt w req (some u) = (w, reply 409 (text "User already exists"))
  create_from salt w req none =
      let s = record w.svc {
        users =
            insert req.username
              (record {
                hash = hash_password sha256 salt req.password;
                salt = salt;
                role = req.role;
                groups = groups_for req.role;
                source = [];
              })
              w.svc.users;
      } in
      (
        audited now (with_service w s) (text "user_created") req.username ip
            (text "role=" ++ req.role),
        reply 201 [],
      )

  unfoldable pub create_user : Text → World → Option CreateUserRequest → World × Reply
  unfolding create_from
  create_user salt w none =
      (w, reply 400 (text "username, password and role (admin|user) required"))
  create_user salt w (some req) =
      if not_empty req.username && not_empty req.password && known_role req.role
      then create_from salt w req (lookup req.username w.svc.users)
      else (w, reply 400 (text "username, password and role (admin|user) required"))

  -- The role after the request, `*req.Role` where it is given.
  abbrev pub new_role : Option Text → User → Text
  new_role none u = u.role
  new_role (some role) u = role

  abbrev pub bad_role : Option Text → Bool
  bad_role none = false
  bad_role (some role) = not (known_role role)

  abbrev pub sets_password : Option Text → Bool
  sets_password none = false
  sets_password (some pw) = not_empty pw

  abbrev pub unknown_in : Table (List Text) → Option (List Text) → Option Text
  unknown_in groups none = none
  unknown_in groups (some gs) = unknown_group groups gs

  -- the last admin would get another role
  abbrev pub demotes : Option Text → User → Bool
  demotes none u = false
  demotes (some role) u = is_admin u && not (role == text "admin")

  -- the fields that the request gives
  unfoldable pub updated : Text → UpdateUserRequest → User → User
  updated salt req u = record {
    hash = elim req.password [
      | none ↦ u.hash
      | some pw ↦ if not_empty pw then hash_password sha256 salt pw else u.hash
    ];
    salt = if sets_password req.password then salt else u.salt;
    role = new_role req.role u;
    groups = elim req.groups [ none ↦ u.groups | some gs ↦ gs ];
    source = u.source;
  }

  update_known : Text → World → Text → UpdateUserRequest → User → Option Text → World × Reply
  update_known salt w name req u (some g) = (w, reply 400 (text "Unknown group: " ++ g))
  update_known salt w name req u none =
      if demotes req.role u && leb (admin_count w.svc) 1
      then (w, reply 409 (text "Cannot demote the last admin"))
      else (
        audited now
            (with_service w (record w.svc { users = insert name (updated salt req u) w.svc.users }))
            (text "user_updated") name ip (update_detail req),
        reply 204 [],
      )

  update_found : Text → World → Text → UpdateUserRequest → Option User → World × Reply
  unfolding update_known
  update_found salt w name req none = (w, reply 404 (text "User not found"))
  update_found salt w name req (some u) =
      if is_external u && sets_password req.password
      then (
        w,
        reply 400 (
            text "Cannot set password for "
            ++ u.source
            ++ text " users "
            ++ dash
            ++ text " they authenticate externally"),
      )
      else update_known salt w name req u (unknown_in w.svc.groups req.groups)

  unfoldable pub update_user : Text → World → Text → Option UpdateUserRequest → World × Reply
  unfolding update_found
  update_user salt w name none = (w, reply 400 (text "invalid body"))
  update_user salt w name (some req) =
      if bad_role req.role
      then (w, reply 400 (text "role must be admin or user"))
      else update_found salt w name req (lookup name w.svc.users)

  abbrev pub is_not_of : Text → Session → Bool
  is_not_of name sess = not (sess.username == name)

  delete_found : World → Text → Option User → World × Reply
  delete_found w name none = (w, reply 404 (text "User not found"))
  delete_found w name (some u) =
      if is_admin u && leb (admin_count w.svc) 1
      then (w, reply 409 (text "Cannot delete the last admin"))
      else (
        audited now
            (with_service w (record w.svc {
              users = erase name w.svc.users;
              sessions = retain (is_not_of name) w.svc.sessions;
            }))
            (text "user_deleted") name ip [],
        reply 204 [],
      )

  unfoldable pub delete_user : World → Text → World × Reply
  unfolding delete_found
  delete_user w name = delete_found w name (lookup name w.svc.users)
