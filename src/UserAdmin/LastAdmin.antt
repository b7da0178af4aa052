-- ===== src/UserAdmin/LastAdmin.antt =====
-- Users, sessions and the number of admins across the user handlers of internal/auth/admin.go.
use webridge.Prelude.{ℕ, ◌<◌, ◌≡◌, refl, true, false, Option, none, some, [], if_cases, Text, arith}
use webridge.Prelude.Table.{
  lookup, IsMap, insert-IsMap, erase-IsMap, retain-IsMap, count-insert_old, count-insert_new,
  count-erase,
}
use webridge.Auth.{User, Service, is_admin, groups_for, hash_password}
use webridge.World.{World, Reply, audited}
use webridge.UserAdmin.{
  CreateUserRequest, UpdateUserRequest, admin_count, create_user, create_from, update_user,
  update_found, update_known, updated, delete_user, delete_found, unknown_in, is_not_of, demotes,
}

-- Every user and every session stands once, and there is an admin.
pub record IsSound (s : Service) : Type 0 where
  pub users : IsMap s.users
  pub sessions : IsMap s.sessions
  pub admin : 0 < admin_count s

abbrev SoundAfter : World × Reply → Type 0
SoundAfter r = IsSound r.0.svc

module _ (sha256 : Text → Text) (now : ℕ) (ip : Text) where
  create_from-IsSound :
      (salt : Text) (w : World) (req : CreateUserRequest) (o : Option User)
      → lookup req.username w.svc.users ≡ o
      → IsSound w.svc
      → IsSound (create_from sha256 now ip salt w req o).0.svc
  unfolding create_from audited
  create_from-IsSound salt w req (some u) e h = h
  create_from-IsSound salt w req none e h =
      let u : User = record {
        hash = hash_password sha256 salt req.password;
        salt = salt;
        role = req.role;
        groups = groups_for req.role;
        source = [];
      } in
      record {
        users = insert-IsMap req.username u w.svc.users h.users;
        sessions = h.sessions;
        admin = omega (arith, h.admin, count-insert_new is_admin req.username u w.svc.users e);
      }

  pub create_user-IsSound :
      (salt : Text) (w : World) (req : Option CreateUserRequest)
      → IsSound w.svc
      → IsSound (create_user sha256 now ip salt w req).0.svc
  unfolding create_user
  create_user-IsSound salt w none h = h
  create_user-IsSound salt w (some req) h =
      if_cases SoundAfter _ _ _
        (λ _. create_from-IsSound salt w req (lookup req.username w.svc.users) refl h) (λ _. h)

  admin_kept :
      (salt : Text) (req : UpdateUserRequest) (u : User)
      → demotes sha256 now ip req.role u ≡ false
      → is_admin u ≡ true
      → is_admin (updated sha256 now ip salt req u) ≡ true
  unfolding updated
  admin_kept salt req u h a = ground arith

  -- An admin keeps the role, or another admin is left.
  update_known-IsSound :
      (salt : Text) (w : World) (name : Text) (req : UpdateUserRequest) (u : User)
      (bad : Option Text)
      → lookup name w.svc.users ≡ some u
      → IsSound w.svc
      → IsSound (update_known sha256 now ip salt w name req u bad).0.svc
  unfolding update_known audited
  update_known-IsSound salt w name req u (some g) e h = h
  update_known-IsSound salt w name req u none e h =
      if_cases SoundAfter _ _ _ (λ _. h)
        (λ q. record {
          users = insert-IsMap name (updated sha256 now ip salt req u) w.svc.users h.users;
          sessions = h.sessions;
          admin = ground (
            arith,
            h.admin,
            count-insert_old is_admin name (updated sha256 now ip salt req u) u w.svc.users e,
            admin_kept salt req u,
          );
        })

  update_found-IsSound :
      (salt : Text) (w : World) (name : Text) (req : UpdateUserRequest) (o : Option User)
      → lookup name w.svc.users ≡ o
      → IsSound w.svc
      → IsSound (update_found sha256 now ip salt w name req o).0.svc
  unfolding update_found
  update_found-IsSound salt w name req none e h = h
  update_found-IsSound salt w name req (some u) e h =
      if_cases SoundAfter _ _ _ (λ _. h)
        (λ _.
          update_known-IsSound salt w name req u (unknown_in sha256 now ip w.svc.groups req.groups)
            e h)

  pub update_user-IsSound :
      (salt : Text) (w : World) (name : Text) (req : Option UpdateUserRequest)
      → IsSound w.svc
      → IsSound (update_user sha256 now ip salt w name req).0.svc
  unfolding update_user
  update_user-IsSound salt w name none h = h
  update_user-IsSound salt w name (some req) h =
      if_cases SoundAfter _ _ _ (λ _. h)
        (λ _. update_found-IsSound salt w name req (lookup name w.svc.users) refl h)

  delete_found-IsSound :
      (w : World) (name : Text) (o : Option User)
      → lookup name w.svc.users ≡ o
      → IsSound w.svc
      → IsSound (delete_found sha256 now ip w name o).0.svc
  unfolding delete_found audited
  delete_found-IsSound w name none e h = h
  delete_found-IsSound w name (some u) e h =
      if_cases SoundAfter _ _ _ (λ _. h)
        (λ q. record {
          users = erase-IsMap name w.svc.users h.users;
          sessions = retain-IsMap (is_not_of sha256 now ip name) w.svc.sessions h.sessions;
          admin = ground (arith, h.admin, count-erase is_admin name u w.svc.users h.users e);
        })

  pub delete_user-IsSound :
      (w : World) (name : Text) → IsSound w.svc → IsSound (delete_user sha256 now ip w name).0.svc
  unfolding delete_user
  delete_user-IsSound w name h = delete_found-IsSound w name (lookup name w.svc.users) refl h
