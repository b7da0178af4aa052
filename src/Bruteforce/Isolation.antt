-- ===== src/Bruteforce/Isolation.antt =====
-- What a call leaves alone, what a reset undoes, and a window that does not fit
-- (internal/auth/bruteforce.go).
use webridge.Prelude.{
  ℕ, ◌*◌, ◌^◌, ◌≤◌, ◌<◌, ◌≡◌, ◌≢◌, false, [], arith, pos_part, Text, eq_iff, eq_refl,
}
use webridge.Prelude.Table.{lookup-insert, lookup-erase}
use webridge.Config.{LoginRateConfig}
use webridge.Bruteforce.{
  Bruteforce, clean, check, get_or_create, fail, record_failure, reset, longer_than, minute,
}

-- A failure changes no answer for another IP and another username.
pub check-record_failure_ne :
    (b : Bruteforce) (now t later : ℕ) (ip username ip' username' : Text)
    → ip ≢ ip'
    → username ≢ username'
    → (check (record_failure b now ip username) t later ip' username').1
      ≡ (check b t later ip' username').1
unfolding check record_failure
check-record_failure_ne b now t later ip username ip' username' p q = ground (
  arith,
  eq_iff ip ip',
  eq_iff username username',
  lookup-insert ip ip' (fail b.cfg now (get_or_create b.by_ip ip now)) b.by_ip,
  lookup-insert username username' (fail b.cfg now (get_or_create b.by_user username now))
      b.by_user,
)

-- After a reset the pair passes the check at once; another IP with another username has the answer
-- that it had before the reset.
pub check-reset :
    (b : Bruteforce) (t later : ℕ) (ip username ip' username' : Text)
    → ip ≢ ip'
    → username ≢ username'
    → ((check (reset b ip username) t later ip username).1 ≡ (false, []))
      × ((check (reset b ip username) t later ip' username').1 ≡ (check b t later ip' username').1)
unfolding check reset
check-reset b t later ip username ip' username' p q = (
  ground (
    arith,
    eq_refl ip,
    eq_refl username,
    lookup-erase ip ip b.by_ip,
    lookup-erase username username b.by_user,
  ),
  ground (
    arith,
    eq_iff ip ip',
    eq_iff username username',
    lookup-erase ip ip' b.by_ip,
    lookup-erase username username' b.by_user,
  ),
)

-- The window of `clean`, as the settings give it.
abbrev pub window_of : LoginRateConfig → ℕ
window_of cfg = pos_part cfg.window_minutes * 2 * pos_part cfg.backoff_max_minutes

-- Where the window passes 2^63 nanoseconds and not 2^64, it is negative, and no check ever
-- refuses.
pub check_of_overflow :
    (b : Bruteforce) (now later : ℕ) (ip username : Text)
    → 2 ^ 63 ≤ window_of b.cfg * minute
    → window_of b.cfg * minute < 2 ^ 64
    → (check b now later ip username).1 ≡ (false, [])
unfolding check clean longer_than
check_of_overflow b now later ip username h l = ground arith
