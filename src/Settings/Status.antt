-- ===== src/Settings/Status.antt =====
-- What the settings handlers of internal/auth/admin.go and internal/auth/auth.go answer to a GET.
use webridge.Prelude.{ℕ, ◌≡◌, true, false, some, List, [], Text, text, not_empty, is_zero, arith}
use webridge.Config.{LdapConfig, ImapEmailConfig}
use webridge.Auth.{Service}
use webridge.Bruteforce.{BruteforceState, get_state}
use webridge.World.{World, with_service}
use webridge.Settings.{Disk, completed, describe, save_ldap, update_ldap}
use webridge.Settings.Usable.{svc-answer}

unfoldable pub ldap_status : Service → LdapConfig
ldap_status s = record s.ldap_cfg { bind_password = [] }

unfoldable pub imap_status : Service → ImapEmailConfig
imap_status s = s.imap_cfg

-- `GetState` also drops the trackers that have run out.
unfoldable pub bruteforce_state_handler : World → ℕ → World × BruteforceState
bruteforce_state_handler w now =
    let (bf, state) = get_state w.svc.bf now in (with_service w (record w.svc { bf = bf }), state)

-- The settings that `UpdateLDAP` does not fill in.
pub record IsComplete (cfg : LdapConfig) : Type 0 where
  pub port : is_zero cfg.port ≡ false
  pub filter : not_empty cfg.user_filter ≡ true
  pub groups : List Text
  pub defaults : cfg.default_groups ≡ some groups

completed-status :
    (s : Service) → IsComplete s.ldap_cfg → completed s.ldap_cfg (ldap_status s) ≡ s.ldap_cfg
unfolding completed ldap_status not_empty
completed-status s h = ground (arith, h.port, h.filter, h.defaults)

module _ {Files : Type 0} (disk : Disk Files) where
  -- To send back the settings that LDAPStatus has answered, with no password in them, changes nothing of the
  -- service, whatever the disk answers: the password stays.
  pub update_ldap-ldap_status :
      (now : ℕ) (ip by : Text) (w : World) (files : Files)
      → IsComplete w.svc.ldap_cfg
      → (update_ldap disk now ip by w files (some (ldap_status w.svc))).0.svc ≡ w.svc
  unfolding update_ldap
  update_ldap-ldap_status now ip by w files h =
      let cfg = completed w.svc.ldap_cfg (ldap_status w.svc) in
      let s = record w.svc { ldap_cfg = cfg } in
      let same =
        svc-answer disk now ip by (record w { svc = s }) (text "ldap_updated")
          (describe cfg.enabled cfg.host) (save_ldap disk s files) in
      ground (arith, same, completed-status w.svc h)
