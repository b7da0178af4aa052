-- ===== src/Bruteforce/Tests.antt =====
-- Runs of internal/auth/bruteforce.go with the default settings, and the theorems at concrete inputs.
use webridge.Prelude.{
  ◌*◌, ◌≡◌, ◌≢◌, refl, true, false, List, [], ◌∷◌, min, Text, text, ◌==◌, pos, pos_part, arith,
}
use webridge.Prelude.Table.{lookup, insert}
use webridge.Config.{LoginRateConfig}
use webridge.Bruteforce.{
  Bruteforce, AttemptTracker, new_bruteforce, check, record_failure, get_or_create, fail,
  compute_lockout, add_minutes, clean, longer_than, format_duration,
}
use webridge.Itoa.{itoa}
use webridge.Bruteforce.Settings.{IsValid, lockout-suc}
use webridge.Bruteforce.Lockout.{record_failure-locks_user}
use webridge.Bruteforce.Threshold.{Call, checked, failed, shown, configured, run, few_failures_pass}
use webridge.Bruteforce.Isolation.{check_of_overflow}

abbrev settings : LoginRateConfig
settings = record {
  max_attempts = pos 5;
  window_minutes = pos 15;
  backoff_base = pos 1;
  backoff_max_minutes = pos 64;
}

abbrev home : Text
home = text "10.0.0.1"

abbrev bob : Text
bob = text "bob"

abbrev four_failures : List Call
four_failures =
    failed 10 home bob
    ∷ failed 20 home bob
    ∷ checked 25 26 home bob
    ∷ configured (record settings { max_attempts = pos 7 })
    ∷ shown 28
    ∷ failed 30 home bob
    ∷ failed 40 home bob
    ∷ []

-- A tracker one failure before the threshold.
abbrev near : AttemptTracker
near = record { failures = 4; lockout_until = 0; backoff_step = 0; last_seen = 40 }

abbrev nearly : Bruteforce
nearly = record { by_ip = (home, near) ∷ []; by_user = (bob, near) ∷ []; cfg = settings }

settings-IsValid : IsValid settings
settings-IsValid = omega arith

few_failures_pass_example :
    (check (run (new_bruteforce settings) four_failures) 50 51 home bob).1.0 ≡ false
unfolding new_bruteforce ◌==◌ text
few_failures_pass_example =
    few_failures_pass settings four_failures 50 51 home bob (omega arith) (omega arith)

fifth_locks :
    (check (record_failure nearly 100 home bob) 200 200 home bob).1
    ≡ (true, text "IP locked, try again in less than a minute")
unfolding check record_failure fail get_or_create lookup insert clean longer_than add_minutes
    compute_lockout format_duration itoa text ◌==◌
fifth_locks = refl

record_failure-locks_user_example :
    (check (record_failure nearly 100 home bob) 200 201 (text "10.9.9.9") bob).1.0 ≡ true
unfolding get_or_create lookup ◌==◌ text compute_lockout
record_failure-locks_user_example =
    record_failure-locks_user nearly 100 200 201 home (text "10.9.9.9") bob settings-IsValid
      (omega arith) (omega arith) (omega arith)

home-ne : home ≢ text "10.9.9.9"
unfolding text
home-ne = ground arith

bob-ne : bob ≢ text "eve"
unfolding text
bob-ne = ground arith

next_lockout : compute_lockout settings 6 ≡ min (2 * compute_lockout settings 5) (pos_part (pos 64))
next_lockout = lockout-suc settings 5

lockouts :
    (compute_lockout settings 0 ≡ 1)
    × (compute_lockout settings 5 ≡ 32)
    × (compute_lockout settings 9 ≡ 64)
unfolding compute_lockout
lockouts = (refl, refl, refl)

-- One week for both settings.
abbrev weeks : Bruteforce
weeks = record nearly {
  cfg = record {
    max_attempts = pos 5;
    window_minutes = pos 10080;
    backoff_base = pos 1;
    backoff_max_minutes = pos 10080;
  };
}

check_of_overflow_example : (check weeks 50 51 home bob).1 ≡ (false, [])
check_of_overflow_example = check_of_overflow weeks 50 51 home bob (omega arith) (omega arith)
