-- ===== src/Admin/Logged.antt =====
-- Which requests to the user and group handlers of internal/auth/admin.go are in the audit log.
use webridge.Prelude.{ℕ, ◌≡◌, refl, ◌⊎◌, inl, none, some, [], Text}
use webridge.UserAdmin.{create_user}
use webridge.World.{World}
use webridge.UserAdmin.Logged.{HasEvent, create_user-Logged, update_user-Logged, delete_user-Logged}
use webridge.GroupAdmin.Logged.{create_group-Logged, update_group-Logged, delete_group-Logged}
use webridge.Admin.{
  AdminRequest, creates_user, updates_user, deletes_user, creates_group, updates_group,
  deletes_group, handle,
}

-- The user that the event of a request names: the one of the request for the user handlers, the one of
-- the session, `by`, for the group handlers.
abbrev pub named_in : Text → AdminRequest → Text
named_in by (creates_user salt none) = []
named_in by (creates_user salt (some req)) = req.username
named_in by (updates_user salt name req) = name
named_in by (deletes_user name) = name
named_in by (creates_group req) = by
named_in by (updates_group name req) = by
named_in by (deletes_group name) = by

module _ (sha256 : Text → Text) (now : ℕ) (ip by : Text) where
  -- A request to the user and group handlers changes nothing, of the service and of the log, or it leaves
  -- exactly one event more in the audit log; the event of a group handler names the user of the session,
  -- the event of a user handler the user that the request is about, and not who made the request.
  pub handle-Logged :
      (w : World) (r : AdminRequest)
      → (handle sha256 now ip by w r ≡ w)
        ⊎ ((e : HasEvent now ip w (handle sha256 now ip by w r)) × (e.user ≡ named_in by r))
  unfolding handle create_user
  handle-Logged w (creates_user salt none) = inl refl
  handle-Logged w (creates_user salt (some req)) = create_user-Logged sha256 now ip salt w req
  handle-Logged w (updates_user salt name req) = update_user-Logged sha256 now ip salt w name req
  handle-Logged w (deletes_user name) = delete_user-Logged sha256 now ip w name
  handle-Logged w (creates_group req) = create_group-Logged now ip by w req
  handle-Logged w (updates_group name req) = update_group-Logged now ip by w name req
  handle-Logged w (deletes_group name) = delete_group-Logged now ip by w name
