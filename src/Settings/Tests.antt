-- ===== src/Settings/Tests.antt =====
-- Requests to the settings handlers of internal/auth/admin.go on a disk in memory.
use webridge.Prelude.{
  ◌≡◌, ◌≢◌, refl, Option, none, some, List, [], ◌∷◌, if◌then◌else◌, Text, text, ◌==◌, not_empty,
  eq_refl, eq_iff, pos, arith,
}
use webridge.Prelude.Table.{Table, lookup, insert, lookup-insert}
use webridge.Config.{LdapConfig}
use webridge.Samples.{world, service, ldap, imap}
use webridge.World.{World}
use webridge.Settings.{
  Disk, Contents, contents, missing, encoded, keys, nil_map, panicked, completed, sync_config_yaml,
  update_ldap, loaded_ldap, save_ldap, save_file,
}
use webridge.Settings.Usable.{
  IsUsable, SettingsRequest, sets_ldap, sets_imap, apply_all, apply_all-IsUsable,
}
use webridge.Settings.Status.{ldap_status}
use webridge.Settings.Persistence.{KeepsFiles, omit_empty, loaded_ldap-update_ldap}

abbrev content_of : Option Text → Contents
content_of none = missing
content_of (some d) = contents d

abbrev request : LdapConfig
request = record ldap { host = text "new.example.com"; bind_password = []; port = pos 0 }

abbrev stored : LdapConfig
stored = completed ldap request

-- The JSON of the tests is the host, and an empty file is an empty document.
abbrev disk : Disk (Table Text)
disk = record {
  make_dir = λ path files. (files, none);
  write = λ path d files. (insert path d files, none);
  read = λ path files. content_of (lookup path files);
  encode_ldap = λ c. encoded c.host;
  decode_ldap = λ d. some (record (omit_empty stored) { host = d });
  encode_imap = λ c. encoded c.host;
  decode_yaml = λ d. if not_empty d then keys [] else nil_map;
  ldap_node = λ c. c.host;
  imap_node = λ c. c.host;
  encode_yaml = λ raw. encoded (text "yaml");
}

disk-KeepsFiles : KeepsFiles disk
disk-KeepsFiles = record {
  written = λ path d files e. ground (arith, lookup-insert path path d files, eq_refl path);
  others =
      λ path other d files h. ground (arith, lookup-insert path other d files, eq_iff path other);
}

abbrev with_files : World
with_files = record world {
  svc = record service { ldap_file = text "ldap.json"; config_file = text "config.yaml" };
}

paths_differ : text "config.yaml" ≢ text "ldap.json"
unfolding text
paths_differ = ground arith

abbrev files : Table Text
files = (text "config.yaml", text "a: b") ∷ []

loaded_ldap-update_ldap_example :
    loaded_ldap disk
      (text "ldap.json")
      (update_ldap disk 5 [] (text "root") with_files files (some request)).1
    ≡ some (
        omit_empty
          (update_ldap disk 5 [] (text "root") with_files files (some request)).0.svc.ldap_cfg)
unfolding update_ldap completed save_ldap save_file sync_config_yaml lookup insert not_empty text
    ◌==◌
loaded_ldap-update_ldap_example =
    loaded_ldap-update_ldap disk disk-KeepsFiles 5 [] (text "root") with_files files request
      (λ d e. ground arith) refl paths_differ refl

panics : (sync_config_yaml disk with_files.svc ((text "config.yaml", []) ∷ [])).1 ≡ panicked
unfolding sync_config_yaml lookup not_empty text ◌==◌
panics = refl

service-IsUsable : IsUsable with_files.svc
unfolding not_empty text
service-IsUsable = record { ldap = λ e. refl; imap = λ e. refl }

abbrev requests : List SettingsRequest
requests =
    sets_ldap 5 [] (text "root") (some (record request { host = [] }))
    ∷ sets_ldap 6 [] (text "root") (some request)
    ∷ sets_imap 7 [] (text "root") (some imap)
    ∷ sets_imap 8 [] (text "root") none
    ∷ []

apply_all-IsUsable_example : IsUsable (apply_all disk (with_files, files) requests).0.svc
apply_all-IsUsable_example = apply_all-IsUsable disk (with_files, files) requests service-IsUsable

no_password : (ldap_status with_files.svc).bind_password ≡ []
unfolding ldap_status
no_password = refl
