-- ===== src/Startup/Paths.antt =====
-- Which config.yaml cmd/server/main.go reads, and which one its settings handlers write.
use webridge.Prelude.{false, ◌≡◌, ◌⊎◌, ◌↔◌, Option, none, some, Text, text, not_empty, arith}
use webridge.Auth.{new_service}
use webridge.Config.Load.{get_config_path}
use webridge.Startup.{Machine, App, start, built, config_path, config_file}

file_of_start :
    {L : Type 0} (m : Machine) (flag : Option Text) (app : App L)
    → start m flag ≡ some app
    → app.service.config_file ≡ config_file m (config_path m flag)
unfolding start built new_service
file_of_start m flag app e = ground arith

-- The settings handlers write the config.yaml that the start has read exactly if `-config` is not given,
-- CONFIG_PATH is not set, or both name the same file.
pub config_file_lem :
    {L : Type 0} (m : Machine) (flag : Option Text) (app : App L)
    → start m flag ≡ some app
    → (app.service.config_file ≡ config_path m flag) ↔ (
        (flag ≡ none)
        ⊎ ((not_empty (m.env.get (text "CONFIG_PATH")) ≡ false)
            ⊎ (flag ≡ some (m.env.get (text "CONFIG_PATH")))))
unfolding config_path config_file get_config_path
config_file_lem m flag app e = ground (arith, file_of_start m flag app e)
