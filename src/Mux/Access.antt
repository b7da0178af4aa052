-- ===== src/Mux/Access.antt =====
-- Which requests change the accounts and the settings.
use webridge.Prelude.{
  ℕ, ◌≤◌, ◌≡◌, ◌⊎◌, inl, inr, refl, ap, ◌∙◌, true, Option, none, some, List, [], ◌∷◌, Text, text,
  ◌==◌, arith,
}
use webridge.Prelude.Table.{Table, lookup}
use webridge.Strings.{has}
use webridge.Config.{LdapConfig, ImapEmailConfig}
use webridge.Auth.{
  User, Session, Service, Access, unauthorized, forbidden, granted, require_auth, guard, logout,
}
use webridge.Auth.Guards.{IsAllowed, guard-granted_iff}
use webridge.Audit.{Log}
use webridge.World.{World, audited}
use webridge.Server.{
  Gate, anyone, signed_in, guarded, routes, Entry, refused, runs, entry_of, pass_gate,
}
use webridge.Login.{LoginRequest, login, log_out}
use webridge.Login.Own.{Keeps, login-Keeps}
use webridge.Settings.{Disk}
use webridge.Mux.{
  Call, logs_in, logs_out, administers, puts_ldap, puts_imap, tests_imap, reads_locks, puts_limits,
  resets_locks, other_call, route_of, gate_in, Visit, run, enter, serve,
}
use webridge.Admin.{
  AdminRequest, creates_user, updates_user, deletes_user, creates_group, updates_group,
  deletes_group,
}

pub record Accounts : Type 0 where
  pub users : Table User
  pub groups : Table (List Text)
  pub ldap_cfg : LdapConfig
  pub imap_cfg : ImapEmailConfig

abbrev pub accounts : Service → Accounts
accounts s = record {
  users = s.users;
  groups = s.groups;
  ldap_cfg = s.ldap_cfg;
  imap_cfg = s.imap_cfg;
}

abbrev pub admin_perms : List Text
admin_perms = text "users" ∷ text "groups" ∷ []

-- The cookie names a session that has not expired, and whose user is allowed to administer users or
-- groups at that moment.
pub record IsAdmitted (s : Service) (now : ℕ) (cookie : Option Text) : Type 0 where
  pub token : Text
  pub sess : Session
  pub perm : Text
  pub sent : cookie ≡ some token
  pub stored : lookup token s.sessions ≡ some sess
  pub lives : now ≤ sess.expires
  pub kind : has perm admin_perms ≡ true
  pub allowed : IsAllowed s sess.username perm

accounts-require_auth :
    (s : Service) (now : ℕ) (cookie : Option Text)
    → accounts (require_auth s now cookie).0 ≡ accounts s
unfolding require_auth
accounts-require_auth s now none = refl
accounts-require_auth s now (some token) = ground arith

pub accounts-pass_gate :
    (g : Gate) (s : Service) (now : ℕ) (cookie : Option Text)
    → accounts (pass_gate g s now cookie).0 ≡ accounts s
unfolding pass_gate guard
accounts-pass_gate anyone s now cookie = refl
accounts-pass_gate signed_in s now cookie = accounts-require_auth s now cookie
accounts-pass_gate (guarded perm) s now cookie = accounts-require_auth s now cookie

Access-cases : (a : Access) → ((sess : Session) × (a ≡ granted sess)) ⊎ (entry_of a ≡ refused)
unfolding entry_of
Access-cases unauthorized = inr refl
Access-cases forbidden = inr refl
Access-cases (granted sess) = inl (sess, refl)

-- The table asks for one of the two permissions before every call of the administration.
admin_gate :
    (r : AdminRequest)
    → (perm : Text) × (gate_in routes (route_of (administers r)) ≡ guarded perm)
      × (has perm admin_perms ≡ true)
unfolding gate_in routes route_of has text ◌==◌
admin_gate (creates_user salt req) = (text "users", refl, refl)
admin_gate (updates_user salt name req) = (text "users", refl, refl)
admin_gate (deletes_user name) = (text "users", refl, refl)
admin_gate (creates_group req) = (text "groups", refl, refl)
admin_gate (updates_group name req) = (text "groups", refl, refl)
admin_gate (deletes_group name) = (text "groups", refl, refl)

module _ {Files : Type 0} (disk : Disk Files) where
  enter_refused :
      (w : World) (files : Files) (v : Visit) (e : Service × Entry)
      → e.1 ≡ refused
      → (enter disk (w, files) v e).0.svc ≡ e.0
  unfolding enter
  enter_refused w files v (s, refused) h = refl
  enter_refused w files v (s, runs sess) h = absurd (ground arith)

  Outcome : World → Files → Visit → Type 0
  Outcome w files v =
      (accounts (serve disk (w, files) v).0.svc ≡ accounts w.svc) ⊎ IsAdmitted w.svc v.now v.cookie

  of_guarded :
      (w : World) (files : Files) (v : Visit) (perm : Text)
      → gate_in routes (route_of v.call) ≡ guarded perm
      → has perm admin_perms ≡ true
      → Outcome w files v
  unfolding serve Outcome pass_gate
  of_guarded w files v perm gate kind = elim (Access-cases (guard perm w.svc v.now v.cookie).1) [
    | inl (sess, e) ↦
        let (token, sent, stored, lives, allowed) =
          (guard-granted_iff perm w.svc v.now v.cookie sess).0 e in
        inr (record {
          token = token;
          sess = sess;
          perm = perm;
          sent = sent;
          stored = stored;
          lives = lives;
          kind = kind;
          allowed = allowed;
        })
    | inr out ↦
        let passed = pass_gate (guarded perm) w.svc v.now v.cookie in
        inl (
          rw gate (
            ap accounts (enter_refused w files v passed out)
            ∙ accounts-pass_gate (guarded perm) w.svc v.now v.cookie))
  ]

  pub accounts-log_out :
      (now : ℕ) (ip : Text) (w : World) (cookie : Option Text)
      → accounts (log_out now ip w cookie).0.svc ≡ accounts w.svc
  unfolding log_out logout audited
  accounts-log_out now ip w none = refl
  accounts-log_out now ip w (some token) = ground arith

  enter_other :
      (w : World) (files : Files) (v : Visit) (method pattern : Text) (effect : Log → Log)
      (e : Service × Entry)
      → (enter disk (w, files) (record v { call = other_call method pattern effect }) e).0.svc ≡ e.0
  unfolding enter run
  enter_other w files v method pattern effect (s, refused) = refl
  enter_other w files v method pattern effect (s, runs sess) = refl

  -- A login with a name, that leaves every other user.
  LogsIn : World → Files → Visit → Type 0
  LogsIn w files v =
      (req : LoginRequest) × (v.call ≡ logs_in (some req))
      × Keeps req.username w.svc (serve disk (w, files) v).0.svc

  Change : World → Files → Visit → Type 0
  Change w files v = LogsIn w files v ⊎ Outcome w files v

  change :
      (w : World) (files : Files) (v : Visit) (c : Call) → Change w files (record v { call = c })
  unfolding Change LogsIn Outcome serve pass_gate gate_in routes route_of run enter text ◌==◌ has
      login
  change w files v (logs_in none) = inr (inl refl)
  change w files v (logs_in (some req)) = inl (req, refl, login-Keeps v.outside v.ip w req)
  change w files v logs_out = inr (inl (accounts-log_out v.now v.ip w v.cookie))
  change w files v (administers r) =
      let (perm, gate, kind) = admin_gate r in
      inr (of_guarded w files (record v { call = administers r }) perm gate kind)
  change w files v (puts_ldap req) =
      inr (of_guarded w files (record v { call = puts_ldap req }) (text "users") refl refl)
  change w files v (puts_imap req) =
      inr (of_guarded w files (record v { call = puts_imap req }) (text "users") refl refl)
  change w files v (tests_imap req) =
      inr (of_guarded w files (record v { call = tests_imap req }) (text "users") refl refl)
  change w files v reads_locks =
      inr (of_guarded w files (record v { call = reads_locks }) (text "users") refl refl)
  change w files v (puts_limits req) =
      inr (of_guarded w files (record v { call = puts_limits req }) (text "users") refl refl)
  change w files v (resets_locks req) =
      inr (of_guarded w files (record v { call = resets_locks req }) (text "users") refl refl)
  change w files v (other_call method pattern effect) =
      let gate = gate_in routes (method, pattern) in
      inr (
        inl (
          ap accounts
            (enter_other w files v method pattern effect (pass_gate gate w.svc v.now v.cookie))
          ∙ accounts-pass_gate gate w.svc v.now v.cookie))

  -- Whatever a request asks for, and whatever the disk, the directory and the mail server answer, one of
  -- these holds: it is a login, and changes no user but the one of its name, no group and no settings; it
  -- leaves all users, groups and settings of both directories as they were; or its cookie names a session
  -- that has not expired and whose user is allowed to administer users or groups at that moment.
  pub serve-accounts :
      (w : World) (files : Files) (v : Visit)
      → ((req : LoginRequest) × (v.call ≡ logs_in (some req))
          × Keeps req.username w.svc (serve disk (w, files) v).0.svc)
        ⊎ ((accounts (serve disk (w, files) v).0.svc ≡ accounts w.svc)
            ⊎ IsAdmitted w.svc v.now v.cookie)
  unfolding Change LogsIn Outcome
  serve-accounts w files v = change w files v v.call
