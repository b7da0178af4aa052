-- ===== src/Settings.antt =====
-- The settings handlers of internal/auth/admin.go and the brute-force handlers of
-- internal/auth/auth.go. The file system, encoding/json and gopkg.in/yaml.v3 are not modelled: a `Disk`
-- says what they answer, on files of any type.
pub mod Persistence
pub mod Usable
pub mod Status
pub mod Access
mod Tests
use webridge.Prelude.{
  ℕ, Bool, true, false, ◌&&◌, ◌||◌, not, Option, none, some, List, [], ◌∷◌, ◌++◌, if◌then◌else◌,
  Text, text, not_empty, ℤ, pos, is_zero,
}
use webridge.Prelude.Table.{Table, insert}
use webridge.Config.{LoginRateConfig, LdapConfig, ImapEmailConfig}
use webridge.Auth.{Service}
use webridge.Bruteforce.{update_config, reset_all, reset_by_ip, reset_by_username}
use webridge.Imap.{MailServer, imap_auth, normalize_imap}
use webridge.Ldap.{Verdict, accepted, rejected, errored}
use webridge.World.{World, Reply, reply, with_service, audited}

-- `os.ReadFile`: the data, a file that does not exist, or another error.
pub data Contents : Type 0 where
  contents : Text → Contents
  missing : Contents
  unreadable : Text → Contents

-- `json.Marshal` and `yaml.Marshal`.
pub data Encoded : Type 0 where
  encoded : Text → Encoded
  not_encoded : Text → Encoded

-- `yaml.Unmarshal` into a `map[string]any` that is nil: an empty document leaves it nil.
pub data Document : Type 0 where
  keys : Table Text → Document
  nil_map : Document
  no_document : Text → Document

-- `os.MkdirAll` of a file's directory and `os.WriteFile`, each with the files after it and its error.
-- A value of a YAML document is opaque, here a text.
pub record Disk (Files : Type 0) : Type 0 where
  pub make_dir : Text → Files → Files × Option Text
  pub write : Text → Text → Files → Files × Option Text
  pub read : Text → Files → Contents
  pub encode_ldap : LdapConfig → Encoded
  pub decode_ldap : Text → Option LdapConfig
  pub encode_imap : ImapEmailConfig → Encoded
  pub decode_yaml : Text → Document
  pub ldap_node : LdapConfig → Text
  pub imap_node : ImapEmailConfig → Text
  pub encode_yaml : Table Text → Encoded

-- What a save returns; `panicked` where the goroutine panics.
pub data Saved : Type 0 where
  saved panicked : Saved
  failed : Text → Saved

abbrev show_bool : Bool → Text
show_bool b = if b then text "true" else text "false"

abbrev describe : Bool → Text → Text
describe enabled host = text "enabled=" ++ show_bool enabled ++ text " host=" ++ host

-- The defaults of `UpdateLDAP`; an empty password keeps the stored one.
unfoldable pub completed : LdapConfig → LdapConfig → LdapConfig
completed old req = record req {
  port = if is_zero req.port then pos 389 else req.port;
  user_filter = if not_empty req.user_filter then req.user_filter else text "(uid=%s)";
  default_groups = elim req.default_groups [ none ↦ some (text "users" ∷ []) | some gs ↦ some gs ];
  bind_password = if not_empty req.bind_password then req.bind_password else old.bind_password;
}

module _ {Files : Type 0} (disk : Disk Files) where
  abbrev outcome : Files × Option Text → Files × Saved
  outcome r = (r.0, elim r.1 [ none ↦ saved | some e ↦ failed e ])

  sync_encoded : Text → Files → Encoded → Files × Saved
  sync_encoded path files (not_encoded e) = (files, failed e)
  sync_encoded path files (encoded out) = outcome (disk.write path out files)

  -- The assignments into a nil map panic.
  sync_document : Service → Files → Document → Files × Saved
  sync_document s files (no_document e) = (files, failed e)
  sync_document s files nil_map = (files, panicked)
  sync_document s files (keys raw) = sync_encoded s.config_file files (
      disk.encode_yaml (
        insert (text "imap") (disk.imap_node s.imap_cfg)
          (insert (text "ldap") (disk.ldap_node s.ldap_cfg) raw)))

  sync_contents : Service → Files → Contents → Files × Saved
  sync_contents s files missing = (files, saved)
  sync_contents s files (unreadable e) = (files, failed e)
  sync_contents s files (contents data') = sync_document s files (disk.decode_yaml data')

  unfoldable pub sync_config_yaml : Service → Files → Files × Saved
  unfolding sync_contents sync_document sync_encoded
  sync_config_yaml s files =
      if not_empty s.config_file
      then sync_contents s files (disk.read s.config_file files)
      else (files, saved)

  -- The part that `saveLDAP` and `saveIMAP` share, from the answer of each step.
  save_written : Service → Files × Option Text → Files × Saved
  save_written s (files, some e) = (files, failed e)
  save_written s (files, none) = sync_config_yaml s files

  save_encoded : Service → Text → Files → Encoded → Files × Saved
  save_encoded s path files (not_encoded e) = (files, failed e)
  save_encoded s path files (encoded data') = save_written s (disk.write path data' files)

  save_made : Service → Text → Encoded → Files × Option Text → Files × Saved
  save_made s path data' (files, some e) = (files, failed e)
  save_made s path data' (files, none) = save_encoded s path files data'

  unfoldable pub save_file : Service → Text → Encoded → Files → Files × Saved
  unfolding save_made save_encoded save_written
  save_file s path data' files =
      if not_empty path then save_made s path data' (disk.make_dir path files) else (files, saved)

  unfoldable pub save_ldap : Service → Files → Files × Saved
  save_ldap s files = save_file s s.ldap_file (disk.encode_ldap s.ldap_cfg) files

  unfoldable pub save_imap : Service → Files → Files × Saved
  save_imap s files = save_file s s.imap_file (disk.encode_imap s.imap_cfg) files

  -- The override that `New` of internal/auth/auth.go reads at the next start.
  loaded_from : Contents → Option LdapConfig
  loaded_from (contents d) = disk.decode_ldap d
  loaded_from _ = none

  unfoldable pub loaded_ldap : Text → Files → Option LdapConfig
  unfolding loaded_from
  loaded_ldap path files = loaded_from (disk.read path files)

  -- The answer after a save; `none` where the handler panics.
  pub answer : ℕ → Text → Text → World → Text → Text → Files × Saved → World × Files × Option Reply
  answer now ip by w action detail (files, saved) =
      (audited now w action by ip detail, files, some (reply 204 []))
  answer now ip by w action detail (files, failed e) =
      (w, files, some (reply 500 (text "saved for this session, but could not persist: " ++ e)))
  answer now ip by w action detail (files, panicked) = (w, files, none)

  unfoldable pub update_ldap :
      ℕ → Text → Text → World → Files → Option LdapConfig → World × Files × Option Reply
  unfolding answer
  update_ldap now ip by w files none = (w, files, some (reply 400 (text "invalid body")))
  update_ldap now ip by w files (some req) =
      let cfg = completed w.svc.ldap_cfg req in
      let s = record w.svc { ldap_cfg = cfg } in
      if req.enabled && not (not_empty req.host && not_empty req.base_dn)
      then (w, files, some (reply 400 (text "host and base_dn are required when enabled")))
      else answer now ip by (with_service w s) (text "ldap_updated") (describe cfg.enabled cfg.host)
          (save_ldap s files)

  unfoldable pub update_imap :
      ℕ → Text → Text → World → Files → Option ImapEmailConfig → World × Files × Option Reply
  unfolding answer
  update_imap now ip by w files none = (w, files, some (reply 400 (text "invalid body")))
  update_imap now ip by w files (some req) =
      let cfg = normalize_imap req in
      let s = record w.svc { imap_cfg = cfg } in
      if cfg.enabled && not (not_empty cfg.host)
      then (w, files, some (reply 400 (text "host is required when enabled")))
      else answer now ip by (with_service w s) (text "imap_updated") (describe cfg.enabled cfg.host)
          (save_imap s files)

-- `TestIMAP`, for a username and a password. The answer is whether the server took them.
tested : Verdict → Bool
tested accepted = true
tested _ = false

unfoldable pub test_imap :
    MailServer → ℕ → Text → Text → World → Option (Text × Text) → World × Reply
unfolding tested
test_imap m now ip by w none = (w, reply 400 (text "username and password required"))
test_imap m now ip by w (some (username, password)) =
    let ok = tested (imap_auth m w.svc.imap_cfg username password) in
    if not_empty username && not_empty password
    then (
      audited now w (text "imap_tested") by ip
          (text "user=" ++ username ++ text " ok=" ++ show_bool ok),
      reply 200 [],
    )
    else (w, reply 400 (text "username and password required"))

unfoldable pub bruteforce_config_handler : World → Option LoginRateConfig → World × Reply
bruteforce_config_handler w none = (w, reply 400 (text "bad request"))
bruteforce_config_handler w (some cfg) =
    (with_service w (record w.svc { bf = update_config w.svc.bf cfg }), reply 200 [])

pub record ResetRequest : Type 0 where
  pub ip : Text
  pub username : Text
  pub all : Bool

unfoldable pub bruteforce_reset_handler : World → Option ResetRequest → World × Reply
bruteforce_reset_handler w none = (w, reply 400 (text "bad request"))
bruteforce_reset_handler w (some body) =
    let bf =
      if body.all
      then reset_all w.svc.bf
      else if not_empty body.ip
      then reset_by_ip w.svc.bf body.ip
      else if not_empty body.username
      then reset_by_username w.svc.bf body.username
      else w.svc.bf in
    (with_service w (record w.svc { bf = bf }), reply 200 [])
