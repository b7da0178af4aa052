-- ===== src/Bruteforce.antt =====
-- internal/auth/bruteforce.go: failed logins counted by IP and by username, with lockouts that
-- double. A time is a number of nanoseconds since Go's zero time, so `0` is `time.Time{}`; the clock
-- reading of each call is an argument, and a clock does not run backwards. Counters of attempts stay
-- far below 2^63 and are not wrapped; products that become an int64 duration are.
pub mod Settings
pub mod Lockout
pub mod Threshold
pub mod Isolation
mod Tests
use webridge.Prelude.{
  ℕ, suc, ◌+◌, ◌-◌, ◌*◌, ◌/◌, ◌%◌, ◌^◌, Bool, true, false, Option, none, some, List, [], ◌∷◌, ◌++◌,
  ltb, leb, if◌then◌else◌, Text, text, ℤ, pos, pos_part, is_positive,
}
use webridge.Prelude.Table.{Table, lookup, insert, erase}
use webridge.Config.{LoginRateConfig}
use webridge.Itoa.{itoa}

abbrev pub second : ℕ
second = 1_000_000_000

abbrev pub minute : ℕ
minute = 60_000_000_000

pub record AttemptTracker : Type 0 where
  pub failures : ℕ
  pub lockout_until : ℕ
  pub backoff_step : ℕ
  pub last_seen : ℕ

pub record Bruteforce : Type 0 where
  pub by_ip : Table AttemptTracker
  pub by_user : Table AttemptTracker
  pub cfg : LoginRateConfig

abbrev default_to : ℕ → ℤ → ℤ
default_to d v = if is_positive v then v else pos d

unfoldable pub new_bruteforce : LoginRateConfig → Bruteforce
new_bruteforce cfg = record {
  by_ip = [];
  by_user = [];
  cfg = record {
    max_attempts = default_to 5 cfg.max_attempts;
    window_minutes = default_to 15 cfg.window_minutes;
    backoff_base = default_to 1 cfg.backoff_base;
    backoff_max_minutes = default_to 64 cfg.backoff_max_minutes;
  };
}

-- `elapsed > time.Duration(minutes) * time.Minute`, the product in int64: from 2^63 on it is negative.
pub longer_than : ℕ → ℕ → Bool
longer_than elapsed minutes =
    let window = (minutes * minute) % 2 ^ 64 in
    if ltb window (2 ^ 63) then ltb window elapsed else true

-- `now.Add(time.Duration(minutes) * time.Minute)`
pub add_minutes : ℕ → ℕ → ℕ
add_minutes now minutes =
    let length = (minutes * minute) % 2 ^ 64 in
    if ltb length (2 ^ 63) then now + length else now - (2 ^ 64 - length)

-- The settings are positive here (`Bruteforce.Settings.new_bruteforce-IsPositive`), so `pos_part` is their value.
pub clean : LoginRateConfig → AttemptTracker → ℕ → AttemptTracker
clean cfg t now =
    if longer_than (now - t.last_seen)
      (pos_part cfg.window_minutes * 2 * pos_part cfg.backoff_max_minutes)
    then record t { failures = 0; backoff_step = 0; lockout_until = 0 }
    else t

-- The product is computed in float64, which is exact for settings below 2^53: multiplying by a power
-- of two only moves the exponent, and an infinite product is above the maximum.
pub compute_lockout : LoginRateConfig → ℕ → ℕ
compute_lockout cfg step =
    let lockout = pos_part cfg.backoff_base * 2 ^ step in
    let max = pos_part cfg.backoff_max_minutes in if ltb max lockout then max else lockout

-- `formatDuration` of a duration truncated to whole seconds; a negative one is below a minute.
pub format_duration : ℕ → Text
format_duration d =
    let minutes = (d + (minute - 1)) / minute in
    if leb minutes 1 then text "less than a minute" else itoa minutes ++ text " minutes"

-- `time.Until` reads the clock again, at `later`.
abbrev remaining : AttemptTracker → ℕ → ℕ
remaining t later = (t.lockout_until - later) / second * second

-- The second half of `Check`: the username's tracker.
check_user : Bruteforce → ℕ → ℕ → Text → Option AttemptTracker → Bruteforce × (Bool × Text)
check_user b now later username none = (b, (false, []))
check_user b now later username (some found) =
    let t = clean b.cfg found now in
    let b' = record b { by_user = insert username t b.by_user } in
    if ltb now t.lockout_until
    then (b', (true, text "account locked, try again in " ++ format_duration (remaining t later)))
    else (b', (false, []))

check_ip : Bruteforce → ℕ → ℕ → Text → Text → Option AttemptTracker → Bruteforce × (Bool × Text)
check_ip b now later ip username none = check_user b now later username (lookup username b.by_user)
check_ip b now later ip username (some found) =
    let t = clean b.cfg found now in
    let b' = record b { by_ip = insert ip t b.by_ip } in
    if ltb now t.lockout_until
    then (b', (true, text "IP locked, try again in " ++ format_duration (remaining t later)))
    else check_user b' now later username (lookup username b'.by_user)

unfoldable pub check : Bruteforce → ℕ → ℕ → Text → Text → Bruteforce × (Bool × Text)
unfolding check_ip check_user
check b now later ip username = check_ip b now later ip username (lookup ip b.by_ip)

-- `m[key]`, or a new tracker
pub get_or_create : Table AttemptTracker → Text → ℕ → AttemptTracker
get_or_create m key now = elim (lookup key m) [
  | none ↦ record { failures = 0; lockout_until = 0; backoff_step = 0; last_seen = now }
  | some t ↦ t
]

-- One tracker's part of `RecordFailure`.
pub fail : LoginRateConfig → ℕ → AttemptTracker → AttemptTracker
fail cfg now t =
    let seen = record t { failures = suc t.failures; last_seen = now } in
    if leb (pos_part cfg.max_attempts) seen.failures
    then record seen {
      lockout_until = add_minutes now (compute_lockout cfg t.backoff_step);
      backoff_step = suc t.backoff_step;
    }
    else seen

unfoldable pub record_failure : Bruteforce → ℕ → Text → Text → Bruteforce
record_failure b now ip username = record b {
  by_ip = insert ip (fail b.cfg now (get_or_create b.by_ip ip now)) b.by_ip;
  by_user = insert username (fail b.cfg now (get_or_create b.by_user username now)) b.by_user;
}

unfoldable pub reset : Bruteforce → Text → Text → Bruteforce
reset b ip username = record b { by_ip = erase ip b.by_ip; by_user = erase username b.by_user }

unfoldable pub reset_by_ip : Bruteforce → Text → Bruteforce
reset_by_ip b ip = record b { by_ip = erase ip b.by_ip }

unfoldable pub reset_by_username : Bruteforce → Text → Bruteforce
reset_by_username b username = record b { by_user = erase username b.by_user }

unfoldable pub reset_all : Bruteforce → Bruteforce
reset_all b = record b { by_ip = []; by_user = [] }

abbrev pub replace_if_positive : ℤ → ℤ → ℤ
replace_if_positive old v = if is_positive v then v else old

unfoldable pub update_config : Bruteforce → LoginRateConfig → Bruteforce
update_config b cfg = record b {
  cfg = record {
    max_attempts = replace_if_positive b.cfg.max_attempts cfg.max_attempts;
    window_minutes = replace_if_positive b.cfg.window_minutes cfg.window_minutes;
    backoff_base = replace_if_positive b.cfg.backoff_base cfg.backoff_base;
    backoff_max_minutes = replace_if_positive b.cfg.backoff_max_minutes cfg.backoff_max_minutes;
  };
}

pub record LockInfo : Type 0 where
  pub key : Text
  pub kind : Text
  pub failures : ℕ
  pub lockout_until : ℕ

pub record BruteforceState : Type 0 where
  pub config : LoginRateConfig
  pub locks : List LockInfo

unfoldable pub clean_all : LoginRateConfig → ℕ → Table AttemptTracker → Table AttemptTracker
clean_all cfg now [] = []
clean_all cfg now ((k, t) ∷ m) = (k, clean cfg t now) ∷ clean_all cfg now m

-- The trackers that hold a failure, once cleaned.
collect : Text → Table AttemptTracker → List LockInfo
collect kind [] = []
collect kind ((k, t) ∷ m) =
    if ltb 0 t.failures
    then record { key = k; kind = kind; failures = t.failures; lockout_until = t.lockout_until }
      ∷ collect kind m
    else collect kind m

unfoldable pub get_state : Bruteforce → ℕ → Bruteforce × BruteforceState
unfolding clean_all collect
get_state b now =
    let ips = clean_all b.cfg now b.by_ip in
    let users = clean_all b.cfg now b.by_user in
    (
      record b { by_ip = ips; by_user = users },
      record { config = b.cfg; locks = collect (text "ip") ips ++ collect (text "username") users },
    )
