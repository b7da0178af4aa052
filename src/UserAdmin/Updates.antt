-- ===== src/UserAdmin/Updates.antt =====
-- What the user handlers of internal/auth/admin.go change, and what a refused request leaves.
use webridge.Prelude.{
  ℕ, ◌≡◌, ◌≢◌, ◌↔◌, refl, true, Option, none, some, [], ◌++◌, Text, not_empty, eq_iff, eq_refl,
  arith,
}
use webridge.Prelude.Table.{lookup, insert, lookup-insert}
use webridge.Auth.{User, Service, hash_password, verify, groups_for}
use webridge.World.{World, audited}
use webridge.UserAdmin.{
  CreateUserRequest, UpdateUserRequest, create_user, create_from, update_user, update_found,
  update_known, unknown_in, delete_user, delete_found,
}

module _ (sha256 : Text → Text) (now : ℕ) (ip : Text) where
  create_from_refused :
      (salt : Text) (w : World) (req : CreateUserRequest) (o : Option User)
      → (create_from sha256 now ip salt w req o).1.status ≢ 201
      → (create_from sha256 now ip salt w req o).0 ≡ w
  unfolding create_from
  create_from_refused salt w req none h = absurd (h refl)
  create_from_refused salt w req (some u) h = refl

  -- A creation that is not answered with 201 leaves the service and the audit log as they were.
  pub create_user_refused :
      (salt : Text) (w : World) (req : Option CreateUserRequest)
      → (create_user sha256 now ip salt w req).1.status ≢ 201
      → (create_user sha256 now ip salt w req).0 ≡ w
  unfolding create_user
  create_user_refused salt w none h = refl
  create_user_refused salt w (some req) h =
      ground (arith, create_from_refused salt w req (lookup req.username w.svc.users))

  update_known_refused :
      (salt : Text) (w : World) (name : Text) (req : UpdateUserRequest) (u : User)
      (bad : Option Text)
      → (update_known sha256 now ip salt w name req u bad).1.status ≢ 204
      → (update_known sha256 now ip salt w name req u bad).0 ≡ w
  unfolding update_known
  update_known_refused salt w name req u (some g) h = refl
  update_known_refused salt w name req u none h = ground arith

  update_found_refused :
      (salt : Text) (w : World) (name : Text) (req : UpdateUserRequest) (o : Option User)
      → (update_found sha256 now ip salt w name req o).1.status ≢ 204
      → (update_found sha256 now ip salt w name req o).0 ≡ w
  unfolding update_found
  update_found_refused salt w name req none h = refl
  update_found_refused salt w name req (some u) h = ground (
    arith,
    update_known_refused salt w name req u (unknown_in sha256 now ip w.svc.groups req.groups),
  )

  -- An update that is not answered with 204 leaves the service and the audit log as they were.
  pub update_user_refused :
      (salt : Text) (w : World) (name : Text) (req : Option UpdateUserRequest)
      → (update_user sha256 now ip salt w name req).1.status ≢ 204
      → (update_user sha256 now ip salt w name req).0 ≡ w
  unfolding update_user
  update_user_refused salt w name none h = refl
  update_user_refused salt w name (some req) h =
      ground (arith, update_found_refused salt w name req (lookup name w.svc.users))

  delete_found_refused :
      (w : World) (name : Text) (o : Option User)
      → (delete_found sha256 now ip w name o).1.status ≢ 204
      → (delete_found sha256 now ip w name o).0 ≡ w
  unfolding delete_found
  delete_found_refused w name none h = refl
  delete_found_refused w name (some u) h = ground arith

  -- A deletion that is not answered with 204 leaves the service and the audit log as they were.
  pub delete_user_refused :
      (w : World) (name : Text)
      → (delete_user sha256 now ip w name).1.status ≢ 204
      → (delete_user sha256 now ip w name).0 ≡ w
  unfolding delete_user
  delete_user_refused w name h = delete_found_refused w name (lookup name w.svc.users) h

  -- the user that `CreateUser` stores
  abbrev created : Text → CreateUserRequest → User
  created salt req = record {
    hash = hash_password sha256 salt req.password;
    salt = salt;
    role = req.role;
    groups = groups_for req.role;
    source = [];
  }

  create_from_done :
      (salt : Text) (w : World) (req : CreateUserRequest) (o : Option User)
      → (create_from sha256 now ip salt w req o).1.status ≡ 201
      → (create_from sha256 now ip salt w req o).0.svc.users
        ≡ insert req.username (created salt req) w.svc.users
  unfolding create_from audited
  create_from_done salt w req none h = refl
  create_from_done salt w req (some u) h = absurd (omega arith)

  create_user_done :
      (salt : Text) (w : World) (req : CreateUserRequest)
      → (create_user sha256 now ip salt w (some req)).1.status ≡ 201
      → (create_user sha256 now ip salt w (some req)).0.svc.users
        ≡ insert req.username (created salt req) w.svc.users
  unfolding create_user
  create_user_done salt w req h =
      ground (arith, create_from_done salt w req (lookup req.username w.svc.users))

  verify_same :
      (s : Service) (name pw : Text) (u : User)
      → lookup name s.users ≡ some u
      → not_empty u.hash ≡ true
      → ((verify sha256 s name pw).2 ≡ true) ↔ (sha256 (u.salt ++ pw) ≡ u.hash)
  unfolding verify
  verify_same s name pw u e h = (
    λ p. ground (arith, eq_iff (sha256 (u.salt ++ pw)) u.hash),
    λ p. ground (arith, eq_iff (sha256 (u.salt ++ pw)) u.hash),
  )

  -- After a user is created, a password is accepted for it exactly when it has the same salted hash
  -- as the password of the request, where a hash is never empty.
  pub verify-create_user :
      (salt : Text) (w : World) (req : CreateUserRequest) (pw : Text)
      → ((t : Text) → not_empty (sha256 t) ≡ true)
      → (create_user sha256 now ip salt w (some req)).1.status ≡ 201
      → ((verify sha256 (create_user sha256 now ip salt w (some req)).0.svc req.username pw).2
          ≡ true)
        ↔ (sha256 (salt ++ pw) ≡ sha256 (salt ++ req.password))
  unfolding hash_password
  verify-create_user salt w req pw h e =
      verify_same (create_user sha256 now ip salt w (some req)).0.svc req.username pw
        (created salt req)
        (rw (create_user_done salt w req e) (
          ground (
            arith,
            lookup-insert req.username req.username (created salt req) w.svc.users,
            eq_refl req.username,
          )))
        (h (salt ++ req.password))

-- The user handlers leave the groups alone.
module _ (sha256 : Text → Text) (now : ℕ) (ip : Text) (w : World) where
  pub groups-create_user :
      (salt : Text) (req : Option CreateUserRequest)
      → (create_user sha256 now ip salt w req).0.svc.groups ≡ w.svc.groups
  unfolding create_user audited
  groups-create_user salt none = refl
  groups-create_user salt (some req) = ground arith

  pub groups-update_user :
      (salt name : Text) (req : Option UpdateUserRequest)
      → (update_user sha256 now ip salt w name req).0.svc.groups ≡ w.svc.groups
  unfolding update_user audited
  groups-update_user salt name none = refl
  groups-update_user salt name (some req) = ground arith

  pub groups-delete_user :
      (name : Text) → (delete_user sha256 now ip w name).0.svc.groups ≡ w.svc.groups
  unfolding delete_user audited
  groups-delete_user name = ground arith
