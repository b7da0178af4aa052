-- ===== src/Settings/Persistence.antt =====
-- What the settings handlers of internal/auth/admin.go leave on the disk.
use webridge.Prelude.{
  ℕ, ◌≡◌, ◌≢◌, ◌↔◌, refl, ◌∙◌, true, ◌&&◌, not, Option, none, some, [], ◌∷◌, Text, text, not_empty,
  arith, Bool-cases, inl, inr,
}
use webridge.Config.{LdapConfig}
use webridge.Auth.{Service}
use webridge.World.{World, reply, audited}
use webridge.Settings.{
  Disk, Contents, contents, missing, unreadable, Encoded, encoded, not_encoded, Document, keys,
  nil_map, no_document, Saved, saved, failed, panicked, completed, answer, loaded_ldap, update_ldap,
  save_ldap, save_file, save_made, save_encoded, save_written, sync_config_yaml, sync_contents,
  sync_document, sync_encoded, describe,
}

module _ {Files : Type 0} (disk : Disk Files) where
  -- The configuration file is there, and is an empty document.
  abbrev pub HasEmptyConfig : Service → Files → Type 0
  HasEmptyConfig s files =
      (not_empty s.config_file ≡ true)
      × ((d : Text) × (disk.read s.config_file files ≡ contents d) × (disk.decode_yaml d ≡ nil_map))

  written_returns :
      (path out : Text) (files : Files) (e : Encoded)
      → (sync_encoded disk path files e).1 ≢ panicked
  unfolding sync_encoded
  written_returns path out files (not_encoded e) h = cc
  written_returns path out files (encoded d) h = ground arith

  document_panics :
      (s : Service) (files : Files) (d : Document)
      → (sync_document disk s files d).1 ≡ panicked
      → d ≡ nil_map
  unfolding sync_document
  document_panics s files (no_document e) h = cc
  document_panics s files nil_map h = refl
  document_panics s files (keys raw) h = absurd (written_returns s.config_file [] files _ h)

  contents_panics :
      (s : Service) (files : Files) (c : Contents)
      → (sync_contents disk s files c).1 ≡ panicked
      → (d : Text) × (c ≡ contents d) × (disk.decode_yaml d ≡ nil_map)
  unfolding sync_contents
  contents_panics s files missing h = cc
  contents_panics s files (unreadable e) h = cc
  contents_panics s files (contents d) h = (d, refl, document_panics s files (disk.decode_yaml d) h)

  -- `syncConfigYAML` panics exactly when config.yaml is there and is an empty document.
  pub sync_config_yaml_panics :
      (s : Service) (files : Files)
      → ((sync_config_yaml disk s files).1 ≡ panicked) ↔ HasEmptyConfig s files
  unfolding sync_config_yaml
  sync_config_yaml_panics s files = (
    λ h. (ground arith, contents_panics s files (disk.read s.config_file files) (ground arith)),
    λ h. ground (arith, h.0, h.1.1, h.1.2),
  )

-- What JSON makes of the settings: `omitempty` leaves out an empty list, which is read as nil.
abbrev pub omit_empty : LdapConfig → LdapConfig
omit_empty c = record c {
  default_groups = elim c.default_groups [
    | none ↦ none
    | some gs ↦ elim gs [ [] ↦ none | g ∷ rest ↦ some (g ∷ rest) ]
  ];
}

-- A file that was written is read as it was written, and a write leaves every other file.
pub record KeepsFiles {Files : Type 0} (disk : Disk Files) : Type 0 where
  pub written :
      (path d : Text) (files : Files)
      → (disk.write path d files).1 ≡ none
      → disk.read path (disk.write path d files).0 ≡ contents d
  pub others :
      (path other d : Text) (files : Files)
      → path ≢ other
      → disk.read other (disk.write path d files).0 ≡ disk.read other files

module _ {Files : Type 0} (disk : Disk Files) (keeps : KeepsFiles disk) where
  read-sync_encoded :
      (path other : Text) (files : Files) (e : Encoded)
      → path ≢ other
      → disk.read other (sync_encoded disk path files e).0 ≡ disk.read other files
  unfolding sync_encoded
  read-sync_encoded path other files (not_encoded m) h = refl
  read-sync_encoded path other files (encoded d) h = keeps.others path other d files h

  read-sync_document :
      (s : Service) (path : Text) (files : Files) (d : Document)
      → s.config_file ≢ path
      → disk.read path (sync_document disk s files d).0 ≡ disk.read path files
  unfolding sync_document sync_encoded
  read-sync_document s path files (no_document e) h = refl
  read-sync_document s path files nil_map h = refl
  read-sync_document s path files (keys raw) h = read-sync_encoded s.config_file path files _ h

  read-sync_contents :
      (s : Service) (path : Text) (files : Files) (c : Contents)
      → s.config_file ≢ path
      → disk.read path (sync_contents disk s files c).0 ≡ disk.read path files
  unfolding sync_contents
  read-sync_contents s path files missing h = refl
  read-sync_contents s path files (unreadable e) h = refl
  read-sync_contents s path files (contents d) h =
      read-sync_document s path files (disk.decode_yaml d) h

  read-sync_config_yaml :
      (s : Service) (path : Text) (files : Files)
      → s.config_file ≢ path
      → disk.read path (sync_config_yaml disk s files).0 ≡ disk.read path files
  unfolding sync_config_yaml
  read-sync_config_yaml s path files h =
      ground (arith, read-sync_contents s path files (disk.read s.config_file files) h)

  written-read :
      (s : Service) (path d : Text) (files : Files) (r : Files × Option Text)
      → disk.write path d files ≡ r
      → s.config_file ≢ path
      → (save_written disk s r).1 ≡ saved
      → disk.read path (save_written disk s r).0 ≡ contents d
  unfolding save_written
  written-read s path d files (after, some e) w h k = cc
  written-read s path d files (after, none) w h k =
      read-sync_config_yaml s path after h ∙ ground (arith, keeps.written path d files)

  encoded-read :
      (s : Service) (path : Text) (files : Files) (e : Encoded)
      → s.config_file ≢ path
      → (save_encoded disk s path files e).1 ≡ saved
      → (d : Text) × (e ≡ encoded d)
        × (disk.read path (save_encoded disk s path files e).0 ≡ contents d)
  unfolding save_encoded
  encoded-read s path files (not_encoded m) h k = cc
  encoded-read s path files (encoded d) h k =
      (d, refl, written-read s path d files (disk.write path d files) refl h k)

  made-read :
      (s : Service) (path : Text) (e : Encoded) (r : Files × Option Text)
      → s.config_file ≢ path
      → (save_made disk s path e r).1 ≡ saved
      → (d : Text) × (e ≡ encoded d) × (disk.read path (save_made disk s path e r).0 ≡ contents d)
  unfolding save_made
  made-read s path e (files, some m) h k = cc
  made-read s path e (files, none) h k = encoded-read s path files e h k

  file-read :
      (s : Service) (path : Text) (e : Encoded) (files : Files)
      → not_empty path ≡ true
      → s.config_file ≢ path
      → (save_file disk s path e files).1 ≡ saved
      → (d : Text) × (e ≡ encoded d)
        × (disk.read path (save_file disk s path e files).0 ≡ contents d)
  unfolding save_file
  file-read s path e files n h k =
      rw n (made-read s path e (disk.make_dir path files) h (rw n at k))

  answered :
      (now : ℕ) (ip by : Text) (w : World) (action detail : Text) (r : Files × Saved)
      → (answer disk now ip by w action detail r).2 ≡ some (reply 204 [])
      → (r.1 ≡ saved)
        × ((answer disk now ip by w action detail r).1 ≡ r.0)
        × ((answer disk now ip by w action detail r).0.svc ≡ w.svc)
  unfolding answer audited
  answered now ip by w action detail (files, saved) h = (refl, refl, refl)
  answered now ip by w action detail (files, failed e) h = absurd (ground arith)
  answered now ip by w action detail (files, panicked) h = absurd (ground arith)

  -- After an update that is answered with 204, the next start reads the settings that are in use, as
  -- JSON keeps them: for a disk that keeps files, a settings file with a name of its own, and
  -- settings that JSON decodes as it encoded them, but for an empty list.
  pub loaded_ldap-update_ldap :
      (now : ℕ) (ip by : Text) (w : World) (files : Files) (req : LdapConfig)
      → ((d : Text)
          → disk.encode_ldap (completed w.svc.ldap_cfg req) ≡ encoded d
          → disk.decode_ldap d ≡ some (omit_empty (completed w.svc.ldap_cfg req)))
      → not_empty w.svc.ldap_file ≡ true
      → w.svc.config_file ≢ w.svc.ldap_file
      → (update_ldap disk now ip by w files (some req)).2 ≡ some (reply 204 [])
      → loaded_ldap disk w.svc.ldap_file (update_ldap disk now ip by w files (some req)).1
        ≡ some (omit_empty (update_ldap disk now ip by w files (some req)).0.svc.ldap_cfg)
  unfolding update_ldap loaded_ldap save_ldap completed
  loaded_ldap-update_ldap now ip by w files req decodes named apart done =
      let s = record w.svc { ldap_cfg = completed w.svc.ldap_cfg req } in
      let r = save_ldap disk s files in
      elim (Bool-cases (req.enabled && not (not_empty req.host && not_empty req.base_dn))) [
        | inl y ↦ absurd (ground arith)
        | inr n ↦
            let (fine, same_files, same_svc) =
              answered now ip by (record w { svc = s }) (text "ldap_updated")
                (describe req.enabled req.host) r (rw n at done) in
            let (d, enc, there) =
              file-read s w.svc.ldap_file (disk.encode_ldap s.ldap_cfg) files named apart fine in
            rw n (rw (same_files, same_svc, there) (decodes d enc))
      ]
