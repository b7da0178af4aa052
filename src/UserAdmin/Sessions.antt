-- ===== src/UserAdmin/Sessions.antt =====
-- The sessions across the user handlers of internal/auth/admin.go.
use webridge.Prelude.{ℕ, ◌≡◌, refl, Option, none, some, Text, arith}
use webridge.Prelude.Table.{lookup, lookup-retain, IsMap, retain-IsMap}
use webridge.Auth.{User, Session}
use webridge.World.{World, audited}
use webridge.UserAdmin.{
  CreateUserRequest, UpdateUserRequest, create_user, create_from, update_user, update_found,
  update_known, unknown_in, is_not_of, delete_user, delete_found,
}

module _ (sha256 : Text → Text) (now : ℕ) (ip : Text) where
  create_from-sessions :
      (salt : Text) (w : World) (req : CreateUserRequest) (o : Option User)
      → (create_from sha256 now ip salt w req o).0.svc.sessions ≡ w.svc.sessions
  unfolding create_from audited
  create_from-sessions salt w req none = refl
  create_from-sessions salt w req (some u) = refl

  pub create_user-sessions :
      (salt : Text) (w : World) (req : Option CreateUserRequest)
      → (create_user sha256 now ip salt w req).0.svc.sessions ≡ w.svc.sessions
  unfolding create_user
  create_user-sessions salt w none = refl
  create_user-sessions salt w (some req) =
      ground (arith, create_from-sessions salt w req (lookup req.username w.svc.users))

  update_known-sessions :
      (salt : Text) (w : World) (name : Text) (req : UpdateUserRequest) (u : User)
      (bad : Option Text)
      → (update_known sha256 now ip salt w name req u bad).0.svc.sessions ≡ w.svc.sessions
  unfolding update_known audited
  update_known-sessions salt w name req u (some g) = refl
  update_known-sessions salt w name req u none = ground arith

  update_found-sessions :
      (salt : Text) (w : World) (name : Text) (req : UpdateUserRequest) (o : Option User)
      → (update_found sha256 now ip salt w name req o).0.svc.sessions ≡ w.svc.sessions
  unfolding update_found
  update_found-sessions salt w name req none = refl
  update_found-sessions salt w name req (some u) = ground (
    arith,
    update_known-sessions salt w name req u (unknown_in sha256 now ip w.svc.groups req.groups),
  )

  pub update_user-sessions :
      (salt : Text) (w : World) (name : Text) (req : Option UpdateUserRequest)
      → (update_user sha256 now ip salt w name req).0.svc.sessions ≡ w.svc.sessions
  unfolding update_user
  update_user-sessions salt w name none = refl
  update_user-sessions salt w name (some req) =
      ground (arith, update_found-sessions salt w name req (lookup name w.svc.users))

  delete_found-sessions :
      (w : World) (name : Text) (o : Option User) (token : Text) (sess : Session)
      → IsMap w.svc.sessions
      → lookup token (delete_found sha256 now ip w name o).0.svc.sessions ≡ some sess
      → lookup token w.svc.sessions ≡ some sess
  unfolding delete_found audited
  delete_found-sessions w name none token sess d h = h
  delete_found-sessions w name (some u) token sess d h =
      ground (arith, h, lookup-retain (is_not_of sha256 now ip name) token sess w.svc.sessions)

  -- A session that there is after a deletion was there before.
  pub delete_user-sessions :
      (w : World) (name token : Text) (sess : Session)
      → IsMap w.svc.sessions
      → lookup token (delete_user sha256 now ip w name).0.svc.sessions ≡ some sess
      → lookup token w.svc.sessions ≡ some sess
  unfolding delete_user
  delete_user-sessions w name token sess d h =
      delete_found-sessions w name (lookup name w.svc.users) token sess d h

  delete_found-IsMap :
      (w : World) (name : Text) (o : Option User)
      → IsMap w.svc.sessions
      → IsMap (delete_found sha256 now ip w name o).0.svc.sessions
  unfolding delete_found audited
  delete_found-IsMap w name none d = d
  delete_found-IsMap w name (some u) d =
      ground (arith, d, retain-IsMap (is_not_of sha256 now ip name) w.svc.sessions d)

  -- No token is twice after a deletion.
  pub delete_user-IsMap :
      (w : World) (name : Text)
      → IsMap w.svc.sessions
      → IsMap (delete_user sha256 now ip w name).0.svc.sessions
  unfolding delete_user
  delete_user-IsMap w name d = delete_found-IsMap w name (lookup name w.svc.users) d
