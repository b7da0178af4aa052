-- ===== src/UserAdmin/Deletion.antt =====
-- What `DeleteUser` of internal/auth/admin.go leaves of the user.
use webridge.Prelude.{
  ℕ, ◌≡◌, ◌≢◌, refl, Option, none, some, Text, eq_iff, eq_refl, Option-cases, inl, inr, false_of_ne,
  arith,
}
use webridge.Prelude.Table.{
  lookup, erase, retain, IsMap, lookup-erase, lookup-retain, lookup-retain_kept,
}
use webridge.Auth.{User, Session, Service, require_auth}
use webridge.World.{World, audited}
use webridge.UserAdmin.{delete_user, delete_found, is_not_of}

-- The user whose session it is.
abbrev pub user_of : Option Session → Option Text
user_of none = none
user_of (some sess) = some sess.username

module _ (sha256 : Text → Text) (now : ℕ) (ip : Text) (w : World) (name : Text) where
  delete_found_done :
      (o : Option User)
      → (delete_found sha256 now ip w name o).1.status ≡ 204
      → ((delete_found sha256 now ip w name o).0.svc.users ≡ erase name w.svc.users)
        × ((delete_found sha256 now ip w name o).0.svc.sessions
            ≡ retain (is_not_of sha256 now ip name) w.svc.sessions)
  unfolding delete_found audited
  delete_found_done none h = absurd (omega arith)
  delete_found_done (some u) h = ground arith

  -- What `DeleteUser` keeps of the sessions has none of the user.
  no_session :
      (s : Service) (later : ℕ) (cookie : Option Text)
      → IsMap w.svc.sessions
      → s.sessions ≡ retain (is_not_of sha256 now ip name) w.svc.sessions
      → user_of (require_auth s later cookie).1 ≢ some name
  unfolding require_auth
  no_session s later none d e = ground arith
  no_session s later (some token) d e = elim (Option-cases (lookup token s.sessions)) [
    | inl missing ↦ ground arith
    | inr (sess, there) ↦
        let kept =
          lookup-retain (is_not_of sha256 now ip name) token sess w.svc.sessions (rw (← e) there)
            d in
        ground (arith, kept, there, eq_iff sess.username name)
  ]

  -- Where each session stands once, a deletion that is answered with 204 removes the user, and no
  -- request runs under a session of that user afterwards, whatever its cookie and its time.
  pub delete_user-require_auth :
      (later : ℕ) (cookie : Option Text)
      → IsMap w.svc.sessions
      → (delete_user sha256 now ip w name).1.status ≡ 204
      → (lookup name (delete_user sha256 now ip w name).0.svc.users ≡ none)
        × (user_of (require_auth (delete_user sha256 now ip w name).0.svc later cookie).1
            ≢ some name)
  unfolding delete_user
  delete_user-require_auth later cookie d h =
      let (users, sessions) = delete_found_done (lookup name w.svc.users) h in
      (
        rw users (ground (arith, lookup-erase name name w.svc.users, eq_refl name)),
        no_session (delete_user sha256 now ip w name).0.svc later cookie d sessions,
      )

  -- After a deletion that is answered with 204, every other user and every session of another user is
  -- still there, unchanged.
  pub delete_user-others :
      (other token : Text) (sess : Session)
      → (delete_user sha256 now ip w name).1.status ≡ 204
      → other ≢ name
      → lookup token w.svc.sessions ≡ some sess
      → sess.username ≢ name
      → (lookup other (delete_user sha256 now ip w name).0.svc.users ≡ lookup other w.svc.users)
        × (lookup token (delete_user sha256 now ip w name).0.svc.sessions ≡ some sess)
  unfolding delete_user
  delete_user-others other token sess h p e q =
      let (users, sessions) = delete_found_done (lookup name w.svc.users) h in
      (
        rw users (ground (arith, lookup-erase name other w.svc.users, eq_iff name other)),
        rw sessions (
            lookup-retain_kept (is_not_of sha256 now ip name) token sess w.svc.sessions e
              (rw (false_of_ne sess.username name q) refl)),
      )
