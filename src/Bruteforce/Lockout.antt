-- ===== src/Bruteforce/Lockout.antt =====
-- How long a lockout of internal/auth/bruteforce.go holds.
use webridge.Prelude.{
  ℕ, suc, ◌+◌, ◌-◌, ◌*◌, ◌^◌, ◌≤◌, ◌<◌, ◌≡◌, true, arith, pos_part, Text, eq_refl, ltb,
}
use webridge.Prelude.Table.{lookup-insert}
use webridge.Config.{LoginRateConfig}
use webridge.Bruteforce.{
  Bruteforce, AttemptTracker, minute, longer_than, add_minutes, clean, compute_lockout, check,
  get_or_create, fail, record_failure,
}
use webridge.Bruteforce.Settings.{IsValid, lockout-le}

-- `minutes * minute` is below 2^63, so it is not cut.
longer_than_of_fits :
    (elapsed minutes : ℕ)
    → minutes * minute < 2 ^ 63
    → longer_than elapsed minutes ≡ ltb (minutes * minute) elapsed
unfolding longer_than
longer_than_of_fits elapsed minutes h = ground arith

add_minutes_of_fits :
    (now minutes : ℕ) → minutes * minute < 2 ^ 63 → add_minutes now minutes ≡ now + minutes * minute
unfolding add_minutes
add_minutes_of_fits now minutes h = ground arith

cap-le-window : (w cap : ℕ) → 0 < w → cap * minute ≤ w * 2 * cap * minute
cap-le-window w cap h = grind arith

module _ (cfg : LoginRateConfig) (v : IsValid cfg) where
  lockout-le-window :
      (step : ℕ)
      → compute_lockout cfg step * minute
        ≤ pos_part cfg.window_minutes * 2 * pos_part cfg.backoff_max_minutes * minute
  lockout-le-window step = omega (
    arith,
    lockout-le cfg step,
    cap-le-window (pos_part cfg.window_minutes) (pos_part cfg.backoff_max_minutes),
  )

  window_holds :
      (elapsed : ℕ)
      → longer_than elapsed (pos_part cfg.window_minutes * 2 * pos_part cfg.backoff_max_minutes)
        ≡ ltb (pos_part cfg.window_minutes * 2 * pos_part cfg.backoff_max_minutes * minute) elapsed
  window_holds elapsed = longer_than_of_fits elapsed _ v.fits

  -- A tracker that reaches the threshold at `now` is kept and locked until its lockout ends.
  fail_locks :
      (tr : AttemptTracker) (now t : ℕ)
      → pos_part cfg.max_attempts ≤ suc tr.failures
      → now ≤ t
      → t < now + compute_lockout cfg tr.backoff_step * minute
      → ltb t (clean cfg (fail cfg now tr) t).lockout_until ≡ true
  unfolding fail clean
  fail_locks tr now t h from to = ground (
    arith,
    v.fits,
    lockout-le-window tr.backoff_step,
    window_holds (t - now),
    add_minutes_of_fits now (compute_lockout cfg tr.backoff_step),
  )

-- With valid settings, when a failure at `now` brings the username's tracker to the threshold: from
-- `now` until the lockout ends, no attempt on that username passes the check, whatever its IP.
pub record_failure-locks_user :
    (b : Bruteforce) (now t later : ℕ) (ip ip' username : Text)
    → IsValid b.cfg
    → pos_part b.cfg.max_attempts ≤ suc (get_or_create b.by_user username now).failures
    → now ≤ t
    → t < now + compute_lockout b.cfg (get_or_create b.by_user username now).backoff_step * minute
    → (check (record_failure b now ip username) t later ip' username).1.0 ≡ true
unfolding check record_failure
record_failure-locks_user b now t later ip ip' username v h from to = ground (
  arith,
  fail_locks b.cfg v (get_or_create b.by_user username now) now t h from to,
  lookup-insert username username (fail b.cfg now (get_or_create b.by_user username now)) b.by_user,
  eq_refl username,
)

-- With valid settings, when a failure at `now` brings the IP's tracker to the threshold: from `now`
-- until the lockout ends, no attempt from that IP passes the check, whatever its username.
pub record_failure-locks_ip :
    (b : Bruteforce) (now t later : ℕ) (ip username username' : Text)
    → IsValid b.cfg
    → pos_part b.cfg.max_attempts ≤ suc (get_or_create b.by_ip ip now).failures
    → now ≤ t
    → t < now + compute_lockout b.cfg (get_or_create b.by_ip ip now).backoff_step * minute
    → (check (record_failure b now ip username) t later ip username').1.0 ≡ true
unfolding check record_failure
record_failure-locks_ip b now t later ip username username' v h from to = ground (
  arith,
  fail_locks b.cfg v (get_or_create b.by_ip ip now) now t h from to,
  lookup-insert ip ip (fail b.cfg now (get_or_create b.by_ip ip now)) b.by_ip,
  eq_refl ip,
)
