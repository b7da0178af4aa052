-- ===== src/Settings/Usable.antt =====
-- The settings that the handlers of internal/auth/admin.go let through.
use webridge.Prelude.{
  ℕ, ◌≡◌, refl, true, ◌&&◌, Option, none, some, List, [], ◌∷◌, Text, text, not_empty, arith,
}
use webridge.Config.{LdapConfig, ImapEmailConfig}
use webridge.Auth.{Service}
use webridge.Imap.{normalize_imap}
use webridge.World.{World, audited}
use webridge.Settings.{
  Disk, Saved, saved, failed, panicked, completed, answer, update_ldap, update_imap, save_ldap,
  save_imap, describe,
}

-- Enabled settings name a server, and the directory's its base.
pub record IsUsable (s : Service) : Type 0 where
  pub ldap :
      s.ldap_cfg.enabled ≡ true → (not_empty s.ldap_cfg.host && not_empty s.ldap_cfg.base_dn) ≡ true
  pub imap : s.imap_cfg.enabled ≡ true → not_empty s.imap_cfg.host ≡ true

-- Requests to the two handlers, each with its time, address and session's user.
pub data SettingsRequest : Type 0 where
  sets_ldap : ℕ → Text → Text → Option LdapConfig → SettingsRequest
  sets_imap : ℕ → Text → Text → Option ImapEmailConfig → SettingsRequest

module _ {Files : Type 0} (disk : Disk Files) where
  pub svc-answer :
      (now : ℕ) (ip by : Text) (w : World) (action detail : Text) (r : Files × Saved)
      → (answer disk now ip by w action detail r).0.svc ≡ w.svc
  unfolding answer audited
  svc-answer now ip by w action detail (files, saved) = refl
  svc-answer now ip by w action detail (files, failed e) = refl
  svc-answer now ip by w action detail (files, panicked) = refl

  -- The settings after a request are the old ones, or those of a request that names a server.
  update_ldap-IsUsable :
      (now : ℕ) (ip by : Text) (w : World) (files : Files) (req : Option LdapConfig)
      → IsUsable w.svc
      → IsUsable (update_ldap disk now ip by w files req).0.svc
  unfolding update_ldap completed
  update_ldap-IsUsable now ip by w files none h = h
  update_ldap-IsUsable now ip by w files (some req) h =
      let s = record w.svc { ldap_cfg = completed w.svc.ldap_cfg req } in
      let same =
        svc-answer now ip by (record w { svc = s }) (text "ldap_updated")
          (describe req.enabled req.host) (save_ldap disk s files) in
      record { ldap = ground (arith, h.ldap, same); imap = ground (arith, h.imap, same) }

  update_imap-IsUsable :
      (now : ℕ) (ip by : Text) (w : World) (files : Files) (req : Option ImapEmailConfig)
      → IsUsable w.svc
      → IsUsable (update_imap disk now ip by w files req).0.svc
  unfolding update_imap normalize_imap
  update_imap-IsUsable now ip by w files none h = h
  update_imap-IsUsable now ip by w files (some req) h =
      let s = record w.svc { imap_cfg = normalize_imap req } in
      let same =
        svc-answer now ip by (record w { svc = s }) (text "imap_updated")
          (describe req.enabled req.host) (save_imap disk s files) in
      record { ldap = ground (arith, h.ldap, same); imap = ground (arith, h.imap, same) }

  pub apply : World × Files → SettingsRequest → World × Files
  apply (w, files) (sets_ldap now ip by req) =
      let r = update_ldap disk now ip by w files req in (r.0, r.1)
  apply (w, files) (sets_imap now ip by req) =
      let r = update_imap disk now ip by w files req in (r.0, r.1)

  pub apply_all : World × Files → List SettingsRequest → World × Files
  apply_all wf [] = wf
  apply_all wf (r ∷ rs) = apply_all (apply wf r) rs

  apply-IsUsable :
      (wf : World × Files) (r : SettingsRequest) → IsUsable wf.0.svc → IsUsable (apply wf r).0.svc
  unfolding apply
  apply-IsUsable (w, files) (sets_ldap now ip by req) h =
      update_ldap-IsUsable now ip by w files req h
  apply-IsUsable (w, files) (sets_imap now ip by req) h =
      update_imap-IsUsable now ip by w files req h

  -- Whatever requests reach the settings handlers, and whatever the disk answers: where enabled
  -- settings name a server before, and the directory's its base, they do after.
  pub apply_all-IsUsable :
      (wf : World × Files) (rs : List SettingsRequest)
      → IsUsable wf.0.svc
      → IsUsable (apply_all wf rs).0.svc
  unfolding apply_all
  apply_all-IsUsable wf [] h = h
  apply_all-IsUsable wf (r ∷ rs) h = apply_all-IsUsable (apply wf r) rs (apply-IsUsable wf r h)

  -- A request with an empty bind password leaves the stored one, on every branch and whatever the
  -- disk answers.
  pub bind_password-update_ldap :
      (now : ℕ) (ip by : Text) (w : World) (files : Files) (req : LdapConfig)
      → req.bind_password ≡ []
      → (update_ldap disk now ip by w files (some req)).0.svc.ldap_cfg.bind_password
        ≡ w.svc.ldap_cfg.bind_password
  unfolding update_ldap completed not_empty
  bind_password-update_ldap now ip by w files req e =
      let s = record w.svc { ldap_cfg = completed w.svc.ldap_cfg req } in
      ground (
        arith,
        svc-answer now ip by (record w { svc = s }) (text "ldap_updated")
            (describe req.enabled req.host) (save_ldap disk s files),
      )
