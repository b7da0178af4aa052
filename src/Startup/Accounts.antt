-- ===== src/Startup/Accounts.antt =====
-- Who can get in after a start of cmd/server/main.go, and after any requests to the user and group
-- handlers that follow it.
use webridge.Prelude.{refl, ℕ, ◌≡◌, Option, some, List, [], ◌∷◌, Text, text, arith}
use webridge.Prelude.Table.{lookup}
use webridge.Strings.{has}
use webridge.Auth.{new_service, valid_perms}
use webridge.Auth.Accounts.{HasAdmin, load_users-IsMap, load_users-count}
use webridge.UserAdmin.LastAdmin.{IsSound}
use webridge.GroupAdmin.Grants.{HasValidGroups}
use webridge.World.{World}
use webridge.Config.{Config}
use webridge.Admin.{AdminRequest, handle_all, handle_all-IsSound, handle_all-HasValidGroups}
use webridge.Startup.{Machine, App, config_path, start, built, startup_service}

-- The state that the handlers begin with.
abbrev pub world_of : {L : Type 0} → App L → World
world_of app = record { svc = app.service; log = app.log }

initial_groups-HasValidGroups :
    HasValidGroups ((text "users", text "download" ∷ []) ∷ (text "admin", valid_perms) ∷ [])
unfolding lookup has
initial_groups-HasValidGroups = record { valid = λ g perms p found listed. ground arith }

service_of_start :
    {L : Type 0} (m : Machine) (flag : Option Text) (app : App L)
    → start m flag ≡ some app
    → app.service ≡ startup_service m (config_path m flag) app.config
unfolding start built
service_of_start m flag app e = ground arith

startup-IsSound :
    (m : Machine) (path : Text) (cfg : Config)
    → HasAdmin cfg.auth.users
    → IsSound (startup_service m path cfg)
unfolding new_service
startup-IsSound m path cfg h = record {
  users = load_users-IsMap m.sha256 m.salts 0 cfg.auth.users [] tt;
  sessions = tt;
  admin = load_users-count m.sha256 m.salts cfg.auth.users h;
}

startup-HasValidGroups :
    (m : Machine) (path : Text) (cfg : Config) → HasValidGroups (startup_service m path cfg).groups
unfolding new_service
startup-HasValidGroups m path cfg = initial_groups-HasValidGroups

startup-sessions :
    (m : Machine) (path : Text) (cfg : Config) → (startup_service m path cfg).sessions ≡ []
unfolding new_service
startup-sessions m path cfg = refl

-- There is no session after a start.
pub start-sessions :
    {L : Type 0} (m : Machine) (flag : Option Text) (app : App L)
    → start m flag ≡ some app
    → app.service.sessions ≡ []
start-sessions m flag app e =
    rw (service_of_start m flag app e) (startup-sessions m (config_path m flag) app.config)

pub start-HasValidGroups :
    {L : Type 0} (m : Machine) (flag : Option Text) (app : App L)
    → start m flag ≡ some app
    → HasValidGroups app.service.groups
start-HasValidGroups m flag app e =
    rw (service_of_start m flag app e) (startup-HasValidGroups m (config_path m flag) app.config)

-- After a start with a configuration that names an admin, and whatever requests then reach the user and
-- group handlers: there is an admin, every user and session stands once, and the groups grant valid
-- permissions only.
pub start-handle_all :
    {L : Type 0} (m : Machine) (flag : Option Text) (app : App L) (now : ℕ) (ip by : Text)
    (rs : List AdminRequest)
    → start m flag ≡ some app
    → HasAdmin app.config.auth.users
    → IsSound (handle_all m.sha256 now ip by (world_of app) rs).svc
      × HasValidGroups (handle_all m.sha256 now ip by (world_of app) rs).svc.groups
start-handle_all m flag app now ip by rs e h =
    let same = service_of_start m flag app e in
    (
      handle_all-IsSound m.sha256 now ip by (world_of app) rs
          (rw same (startup-IsSound m (config_path m flag) app.config h)),
      handle_all-HasValidGroups m.sha256 now ip by (world_of app) rs
          (start-HasValidGroups m flag app e),
    )
