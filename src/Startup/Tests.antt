-- ===== src/Startup/Tests.antt =====
-- Starts and stops of cmd/server/main.go at concrete inputs.
use webridge.Prelude.{
  ℕ, ◌≡◌, ◌⊎◌, ◌↔◌, inl, refl, true, false, Option, none, some, [], ◌∷◌, Text, text, arith, ◌==◌,
  not_empty,
}
use webridge.Samples.{event, hash, env, no_database, machine}
use webridge.Config.Load.{defaults, apply_env, load}
use webridge.Store.{Store, Answers, close, drain}
use webridge.Audit.{new_with_store}
use webridge.UserAdmin.LastAdmin.{IsSound}
use webridge.GroupAdmin.Grants.{HasValidGroups}
use webridge.Admin.{deletes_user, handle_all}
use webridge.Startup.{
  App, level_debug, level_info, setup_logger, open_store, opened, not_opened, config_path, start,
  built, stop, http_server,
}
use webridge.Startup.Stop.{stop_loses}
use webridge.Startup.Paths.{config_file_lem}
use webridge.Startup.Accounts.{world_of, start-handle_all}

abbrev flag : Option Text
flag = some (text "/root/my.yaml")

abbrev app : App ℕ
app = built machine (text "/root/my.yaml") (apply_env env defaults)

starts : start machine flag ≡ some app
unfolding start load config_path
starts = refl

-- The file that is read is not the one that is written.
config_file_lem_example : (app.service.config_file ≡ config_path machine flag) ↔ (
    (flag ≡ none)
    ⊎ ((not_empty (env.get (text "CONFIG_PATH")) ≡ false)
        ⊎ (flag ≡ some (env.get (text "CONFIG_PATH")))))
config_file_lem_example = config_file_lem machine flag app starts

start-handle_all_example :
    IsSound
      (handle_all hash 5
        (text "10.0.0.1")
        (text "admin")
        (world_of app)
        (deletes_user (text "admin") ∷ [])).svc
    × HasValidGroups
        (handle_all hash 5
          (text "10.0.0.1")
          (text "admin")
          (world_of app)
          (deletes_user (text "admin") ∷ [])).svc.groups
unfolding built apply_env defaults text ◌==◌ not_empty
start-handle_all_example =
    start-handle_all machine flag app 5 (text "10.0.0.1") (text "admin")
      (deletes_user (text "admin") ∷ []) starts (inl (refl, refl, refl))

no_store : (app.log.store ≡ none) × (app.purged ≡ []) × (app.log.max ≡ 5000)
unfolding built new_with_store open_store
no_store = (refl, refl, refl)

logs :
    ((setup_logger (record { level = text "debug"; format = text "json" })).level ≡ level_debug)
    × ((setup_logger (record { level = text "loud"; format = [] })).level ≡ level_info)
unfolding setup_logger text ◌==◌
logs = (refl, refl)

errors :
    (open_store no_database ≡ not_opened (text "audit store: open: "))
    × (open_store (record { makes_dir = true; opens = true; has_schema = true; rows = [] })
        ≡ opened (record { ch = []; batch = []; rows = [] }))
unfolding open_store
errors = (refl, refl)

abbrev fine : Answers
fine = record { begins = true; prepares = true; commits = true; inserts = λ e. true }

abbrev waiting : Store
waiting = record { ch = event 2 ∷ []; batch = []; rows = [] }

-- With a tick before the return the event is written, but not if the shutdown fails.
stops :
    (stop true fine (false ∷ true ∷ []) (some waiting)
      ≡ (0, some (record { ch = []; batch = []; rows = event 2 ∷ [] })))
    × (stop false fine (false ∷ true ∷ []) (some waiting) ≡ (1, some waiting))
unfolding stop close drain
stops = (refl, refl)

address : (http_server defaults.server).addr ≡ text "0.0.0.0:8080"
unfolding http_server defaults text webridge.Itoa.itoa
address = refl

stop_loses_example :
    (after : Store) × ((stop false fine [] (some waiting)).1 ≡ some after)
    × (after.rows ≡ waiting.rows)
stop_loses_example = stop_loses false fine waiting (omega arith)
