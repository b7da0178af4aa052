-- ===== src/GroupAdmin/Logged.antt =====
-- The audit events of the group handlers of internal/auth/admin.go.
use webridge.Prelude.{
  ℕ, refl, inl, inr, Option, none, some, List, Text, text, not_empty, Bool-cases,
}
use webridge.Prelude.Table.{lookup}
use webridge.World.{World, audited}
use webridge.UserAdmin.Logged.{LoggedFor}
use webridge.GroupAdmin.{
  Perms, normal, unknown, normalize_perms, CreateGroupRequest, create_group, create_from,
  create_checked, update_group, update_from, update_checked, delete_group, delete_found,
}

module _ (now : ℕ) (ip by : Text) where
  create_from-Logged :
      (w : World) (name : Text) (perms : List Text) (o : Option (List Text))
      → LoggedFor now ip by w (create_from now ip by w name perms o).0
  unfolding create_from audited
  create_from-Logged w name perms (some old) = inl refl
  create_from-Logged w name perms none =
      inr (record { action = text "group_created"; user = by; detail = name; added = refl }, refl)

  create_checked-Logged :
      (w : World) (name : Text) (p : Perms)
      → LoggedFor now ip by w (create_checked now ip by w name p).0
  unfolding create_checked
  create_checked-Logged w name (unknown p) = inl refl
  create_checked-Logged w name (normal perms) =
      create_from-Logged w name perms (lookup name w.svc.groups)

  pub create_group-Logged :
      (w : World) (req : Option CreateGroupRequest)
      → LoggedFor now ip by w (create_group now ip by w req).0
  unfolding create_group
  create_group-Logged w none = inl refl
  create_group-Logged w (some req) = elim (Bool-cases (not_empty req.name)) [
    | inl h ↦ rw h (create_checked-Logged w req.name (normalize_perms req.permissions))
    | inr h ↦ rw h (inl refl)
  ]

  update_from-Logged :
      (w : World) (name : Text) (perms : List Text) (o : Option (List Text))
      → LoggedFor now ip by w (update_from now ip by w name perms o).0
  unfolding update_from audited
  update_from-Logged w name perms none = inl refl
  update_from-Logged w name perms (some old) =
      inr (record { action = text "group_updated"; user = by; detail = name; added = refl }, refl)

  update_checked-Logged :
      (w : World) (name : Text) (p : Perms)
      → LoggedFor now ip by w (update_checked now ip by w name p).0
  unfolding update_checked
  update_checked-Logged w name (unknown p) = inl refl
  update_checked-Logged w name (normal perms) =
      update_from-Logged w name perms (lookup name w.svc.groups)

  pub update_group-Logged :
      (w : World) (name : Text) (perms : Option (List Text))
      → LoggedFor now ip by w (update_group now ip by w name perms).0
  unfolding update_group
  update_group-Logged w name none = inl refl
  update_group-Logged w name (some permissions) =
      update_checked-Logged w name (normalize_perms permissions)

  delete_found-Logged :
      (w : World) (name : Text) (o : Option (List Text))
      → LoggedFor now ip by w (delete_found now ip by w name o).0
  unfolding delete_found audited
  delete_found-Logged w name none = inl refl
  delete_found-Logged w name (some old) =
      inr (record { action = text "group_deleted"; user = by; detail = name; added = refl }, refl)

  pub delete_group-Logged :
      (w : World) (name : Text) → LoggedFor now ip by w (delete_group now ip by w name).0
  unfolding delete_group
  delete_group-Logged w name = delete_found-Logged w name (lookup name w.svc.groups)
