-- ===== src/Config/Load/Tests.antt =====
-- Settings from a small environment.
use webridge.Prelude.{
  true, Option, none, some, [], if◌then◌else◌, Text, text, not_empty, ◌==◌, ◌≡◌, refl, pos,
}
use webridge.Config.{Config}
use webridge.Config.Load.{
  Env, missing, unreadable, defaults, apply_env, load, set_str, set_int, unmarshal_duration,
}
use webridge.Config.Load.Environment.{IsRead, load_lem}

-- The port is 9000, and no other variable is set.
abbrev env : Env
env = record {
  get = λ key. if key == text "PROXY_SERVER_PORT" then text "9000" else [];
  atoi = λ s. if s == text "9000" then some (pos 9000) else none;
  parse_duration = λ s. none;
  parse_bool = λ s. none;
}

abbrev no_yaml : Text → Config → Option Config
no_yaml bytes c = none

loaded : load env no_yaml missing ≡ some (apply_env env defaults)
unfolding load
loaded = refl

load_lem_example :
    (apply_env env (apply_env env defaults) ≡ apply_env env defaults)
    × ((y : Config) × IsRead no_yaml missing y
        × ((apply_env env defaults).auth ≡ y.auth)
        × ((apply_env env defaults).ldap ≡ y.ldap)
        × ((apply_env env defaults).imap ≡ y.imap))
load_lem_example = load_lem env no_yaml missing (apply_env env defaults) loaded

port_set : (apply_env env defaults).server.port ≡ pos 9000
unfolding apply_env set_int text ◌==◌
port_set = refl

host_kept : (apply_env env defaults).server.host ≡ text "0.0.0.0"
unfolding apply_env set_str defaults text ◌==◌ not_empty
host_kept = refl

unreadable_fails : load env no_yaml unreadable ≡ none
unfolding load
unreadable_fails = refl

zero_duration :
    unmarshal_duration env (record { is_int = true; as_int = some (pos 0); as_string = none })
    ≡ some (pos 0)
unfolding unmarshal_duration
zero_duration = refl
