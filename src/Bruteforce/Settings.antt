-- ===== src/Bruteforce/Settings.antt =====
-- The settings of the lockouts (internal/auth/bruteforce.go), and the length of a lockout.
use native.Mathlib.Nat.{pow-suc}
use webridge.Prelude.{ℕ, suc, ◌*◌, ◌^◌, ◌≤◌, ◌<◌, min, ◌≡◌, arith, pos_part}
use webridge.Config.{LoginRateConfig}
use webridge.Bruteforce.{Bruteforce, new_bruteforce, update_config, compute_lockout, minute}

pub record IsPositive (cfg : LoginRateConfig) : Type 0 where
  pub attempts : 0 < pos_part cfg.max_attempts
  pub window : 0 < pos_part cfg.window_minutes
  pub base : 0 < pos_part cfg.backoff_base
  pub cap : 0 < pos_part cfg.backoff_max_minutes

-- The window of `clean` fits an int64 duration.
pub record IsValid (cfg : LoginRateConfig) : Type 0 where
  pub positive : IsPositive cfg
  pub fits : pos_part cfg.window_minutes * 2 * pos_part cfg.backoff_max_minutes * minute < 2 ^ 63

pub new_bruteforce-IsPositive : (cfg : LoginRateConfig) → IsPositive (new_bruteforce cfg).cfg
unfolding new_bruteforce
new_bruteforce-IsPositive cfg = ground arith

pub update_config-IsPositive :
    (b : Bruteforce) (cfg : LoginRateConfig)
    → IsPositive b.cfg
    → IsPositive (update_config b cfg).cfg
unfolding update_config
update_config-IsPositive b cfg h = ground arith

pub lockout-le :
    (cfg : LoginRateConfig) (step : ℕ) → compute_lockout cfg step ≤ pos_part cfg.backoff_max_minutes
unfolding compute_lockout
lockout-le cfg step = ground arith

double : (base step : ℕ) → base * 2 ^ suc step ≡ 2 * (base * 2 ^ step)
double base step = rw pow-suc (grind arith)

-- Each backoff step doubles the lockout of the step before, up to the maximum of the settings.
pub lockout-suc :
    (cfg : LoginRateConfig) (step : ℕ)
    → compute_lockout cfg (suc step)
      ≡ min (2 * compute_lockout cfg step) (pos_part cfg.backoff_max_minutes)
unfolding compute_lockout
lockout-suc cfg step = ground (arith, double (pos_part cfg.backoff_base) step)
