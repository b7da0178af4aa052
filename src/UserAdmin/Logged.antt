-- ===== src/UserAdmin/Logged.antt =====
-- The audit events of the user handlers of internal/auth/admin.go.
use webridge.Prelude.{
  ℕ, ◌≡◌, refl, ◌⊎◌, inl, inr, ◌&&◌, ◌++◌, Option, none, some, leb, Text, text, [], not_empty,
  Bool-cases,
}
use webridge.Prelude.Table.{lookup}
use webridge.Auth.{User, is_admin}
use webridge.Audit.{add}
use webridge.World.{World, audited}
use webridge.UserAdmin.{
  CreateUserRequest, UpdateUserRequest, admin_count, known_role, is_external, bad_role,
  sets_password, unknown_in, demotes, update_detail, create_user, create_from, update_user,
  update_found, update_known, delete_user, delete_found,
}

-- One event with the action, the user and the client's address was added to the audit log.
pub record HasEvent (now : ℕ) (ip : Text) (w after : World) : Type 0 where
  pub action : Text
  pub user : Text
  pub detail : Text
  pub added : after.log ≡ add now w.log action user ip detail

-- Nothing has changed, or there is one event more.
abbrev pub Logged : ℕ → Text → World → World → Type 0
Logged now ip w after = (after ≡ w) ⊎ HasEvent now ip w after

-- One event that names the user of the request's path or body.
abbrev pub LoggedFor : ℕ → Text → Text → World → World → Type 0
LoggedFor now ip name w after = (after ≡ w) ⊎ ((e : HasEvent now ip w after) × (e.user ≡ name))

module _ (sha256 : Text → Text) (now : ℕ) (ip : Text) where
  create_from-Logged :
      (salt : Text) (w : World) (req : CreateUserRequest) (o : Option User)
      → LoggedFor now ip req.username w (create_from sha256 now ip salt w req o).0
  unfolding create_from audited
  create_from-Logged salt w req (some u) = inl refl
  create_from-Logged salt w req none = inr (
    record {
      action = text "user_created";
      user = req.username;
      detail = text "role=" ++ req.role;
      added = refl;
    },
    refl,
  )

  pub create_user-Logged :
      (salt : Text) (w : World) (req : CreateUserRequest)
      → LoggedFor now ip req.username w (create_user sha256 now ip salt w (some req)).0
  unfolding create_user
  create_user-Logged salt w req =
      elim (Bool-cases (not_empty req.username && not_empty req.password && known_role req.role)) [
        | inl h ↦ rw h (create_from-Logged salt w req (lookup req.username w.svc.users))
        | inr h ↦ rw h (inl refl)
      ]

  update_known-Logged :
      (salt : Text) (w : World) (name : Text) (req : UpdateUserRequest) (u : User)
      (bad : Option Text)
      → LoggedFor now ip name w (update_known sha256 now ip salt w name req u bad).0
  unfolding update_known audited
  update_known-Logged salt w name req u (some g) = inl refl
  update_known-Logged salt w name req u none =
      elim (Bool-cases (demotes sha256 now ip req.role u && leb (admin_count w.svc) 1)) [
        | inl h ↦ rw h (inl refl)
        | inr h ↦ rw h (
            inr (
              record {
                action = text "user_updated";
                user = name;
                detail = update_detail req;
                added = refl;
              },
              refl,
            ))
      ]

  update_found-Logged :
      (salt : Text) (w : World) (name : Text) (req : UpdateUserRequest) (o : Option User)
      → LoggedFor now ip name w (update_found sha256 now ip salt w name req o).0
  unfolding update_found
  update_found-Logged salt w name req none = inl refl
  update_found-Logged salt w name req (some u) =
      elim (Bool-cases (is_external u && sets_password sha256 now ip req.password)) [
        | inl h ↦ rw h (inl refl)
        | inr h ↦ rw h (
            update_known-Logged salt w name req u
              (unknown_in sha256 now ip w.svc.groups req.groups))
      ]

  pub update_user-Logged :
      (salt : Text) (w : World) (name : Text) (req : Option UpdateUserRequest)
      → LoggedFor now ip name w (update_user sha256 now ip salt w name req).0
  unfolding update_user
  update_user-Logged salt w name none = inl refl
  update_user-Logged salt w name (some req) = elim (Bool-cases (bad_role sha256 now ip req.role)) [
    | inl h ↦ rw h (inl refl)
    | inr h ↦ rw h (update_found-Logged salt w name req (lookup name w.svc.users))
  ]

  delete_found-Logged :
      (w : World) (name : Text) (o : Option User)
      → LoggedFor now ip name w (delete_found sha256 now ip w name o).0
  unfolding delete_found audited
  delete_found-Logged w name none = inl refl
  delete_found-Logged w name (some u) =
      elim (Bool-cases (is_admin u && leb (admin_count w.svc) 1)) [
        | inl h ↦ rw h (inl refl)
        | inr h ↦ rw h (
            inr (
              record { action = text "user_deleted"; user = name; detail = []; added = refl },
              refl,
            ))
      ]

  pub delete_user-Logged :
      (w : World) (name : Text) → LoggedFor now ip name w (delete_user sha256 now ip w name).0
  unfolding delete_user
  delete_user-Logged w name = delete_found-Logged w name (lookup name w.svc.users)
