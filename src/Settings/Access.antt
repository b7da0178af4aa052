-- ===== src/Settings/Access.antt =====
-- The settings handlers of internal/auth/admin.go leave the groups and the sessions.
use webridge.Prelude.{ℕ, ◌≡◌, refl, Option, none, some, Text, text, arith}
use webridge.Config.{LdapConfig, ImapEmailConfig}
use webridge.Auth.{Service}
use webridge.Imap.{MailServer, normalize_imap}
use webridge.World.{World, with_service, audited}
use webridge.Settings.{
  Disk, completed, describe, save_ldap, save_imap, update_ldap, update_imap, test_imap,
}
use webridge.Settings.Usable.{svc-answer}

pub record KeepsAccess (s after : Service) : Type 0 where
  pub groups : after.groups ≡ s.groups
  pub sessions : after.sessions ≡ s.sessions

module _ {Files : Type 0} (disk : Disk Files) where
  pub update_ldap-KeepsAccess :
      (now : ℕ) (ip by : Text) (w : World) (files : Files) (req : Option LdapConfig)
      → KeepsAccess w.svc (update_ldap disk now ip by w files req).0.svc
  unfolding update_ldap
  update_ldap-KeepsAccess now ip by w files none = record { groups = refl; sessions = refl }
  update_ldap-KeepsAccess now ip by w files (some req) =
      let cfg = completed w.svc.ldap_cfg req in
      let s = record w.svc { ldap_cfg = cfg } in
      let same =
        svc-answer disk now ip by (with_service w s) (text "ldap_updated")
          (describe cfg.enabled cfg.host) (save_ldap disk s files) in
      record { groups = ground (arith, same); sessions = ground (arith, same) }

  pub update_imap-KeepsAccess :
      (now : ℕ) (ip by : Text) (w : World) (files : Files) (req : Option ImapEmailConfig)
      → KeepsAccess w.svc (update_imap disk now ip by w files req).0.svc
  unfolding update_imap
  update_imap-KeepsAccess now ip by w files none = record { groups = refl; sessions = refl }
  update_imap-KeepsAccess now ip by w files (some req) =
      let cfg = normalize_imap req in
      let s = record w.svc { imap_cfg = cfg } in
      let same =
        svc-answer disk now ip by (with_service w s) (text "imap_updated")
          (describe cfg.enabled cfg.host) (save_imap disk s files) in
      record { groups = ground (arith, same); sessions = ground (arith, same) }

pub test_imap-KeepsAccess :
    (m : MailServer) (now : ℕ) (ip by : Text) (w : World) (req : Option (Text × Text))
    → KeepsAccess w.svc (test_imap m now ip by w req).0.svc
unfolding test_imap audited
test_imap-KeepsAccess m now ip by w none = record { groups = refl; sessions = refl }
test_imap-KeepsAccess m now ip by w (some (username, password)) = record {
  groups = ground arith;
  sessions = ground arith;
}
