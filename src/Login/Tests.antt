-- ===== src/Login/Tests.antt =====
-- Requests to `Login` of internal/auth/auth.go at concrete inputs.
use webridge.Prelude.{
  ℕ, ◌+◌, ◌≡◌, ◌≢◌, refl, true, false, ◌&&◌, none, some, [], ◌∷◌, ltb, if◌then◌else◌, Text, text,
  ◌==◌, not_empty, arith,
}
use webridge.Prelude.Table.{lookup}
use webridge.Samples.{world, service, hash, log}
use webridge.Auth.{User, verify, require_auth}
use webridge.Bruteforce.{check}
use webridge.Ldap.{ldap_auth}
use webridge.World.{World}
use webridge.UserAdmin.{admin_count}
use webridge.Login.{LoginRequest, Clock, Outside, authenticate, login, try_ldap, try_imap, admit}
use webridge.Login.Sources.{Evidence, after_check, attempt, login_opens}
use webridge.Login.Demotion.{registered, login_demotes}

abbrev clock : Clock
clock = record { at_check = 10; at_until = 11; at_failure = 12; at_session = 13; at_audit = 14 }

-- The directory takes the password `dir` of every user; the mail server takes none.
abbrev outside : Outside
outside = record {
  sha256 = hash;
  directory = record {
    dial = λ scheme host port. true;
    start_tls = true;
    bind = λ dn password. true;
    search = λ base filter username. some (username ∷ []);
  };
  mail = record {
    dial_start_tls = λ host port. true;
    dial_tls = λ host port. true;
    login = λ email password. false;
  };
  clock = clock;
  token = text "t3";
}

abbrev right_password : LoginRequest
right_password = record { username = text "bob"; password = text "bob" }

abbrev wrong_password : LoginRequest
wrong_password = record { username = text "bob"; password = text "root" }

abbrev home : Text
home = text "10.0.0.1"

login_opens_example :
    ((not_empty (text "bob") && not_empty (text "bob")) ≡ true)
    × ((check service.bf 10 11 home (text "bob")).1.0 ≡ false)
    × Evidence outside (after_check outside home world (text "bob")) (text "bob") (text "bob")
    × ((require_auth
          (login outside home world (some right_password)).0.svc
          500
          (some (text "t3"))).1
        ≡ (if ltb 513 500
            then none
            else some (record {
              username = text "bob";
              role = (attempt outside home world right_password).user.role;
              expires = 513;
            })))
unfolding login check authenticate verify try_ldap try_imap admit lookup not_empty text ◌==◌
login_opens_example = login_opens outside home world right_password 500 refl

local_source : (text "local" ≢ text "ldap") × (text "local" ≢ text "imap")
unfolding text
local_source = (ground arith, ground arith)

status_differs : ◌≢◌ {A = ℕ} 401 200
status_differs = ground arith

-- An administrator that signs in by email.
abbrev mailed : User
mailed = record { hash = []; salt = []; role = text "admin"; groups = []; source = text "imap" }

abbrev by_mail : World
by_mail = record { svc = record service { users = (text "a@example.com", mailed) ∷ [] }; log = log }

abbrev of_mailed : LoginRequest
of_mailed = record { username = text "a@example.com"; password = text "dir" }

login_demotes_example :
    (lookup (text "a@example.com") (login outside home by_mail (some of_mailed)).0.svc.users
      ≡ some (registered service))
    × (admin_count (login outside home by_mail (some of_mailed)).0.svc + 1
        ≡ admin_count by_mail.svc)
unfolding check lookup not_empty ldap_auth text ◌==◌
login_demotes_example =
    login_demotes outside home by_mail of_mailed mailed refl refl refl refl refl refl refl refl
