-- ===== src/Bruteforce/Threshold.antt =====
-- Sequences of calls of internal/auth/bruteforce.go, and the failures that they count.
use native.Mathlib.Nat.{add-zero}
use webridge.Prelude.{
  ℕ, ℤ, min, none, Option-cases, inl, inr, ◌+◌, ◌≤◌, ◌<◌, ◌≡◌, refl, false, some, List, [], ◌∷◌,
  arith, pos_part, Text, eq_iff, if◌then◌else◌, ◌==◌,
}
use webridge.Prelude.Table.{Table, lookup, lookup-insert, lookup-erase, insert, erase}
use webridge.Config.{LoginRateConfig}
use webridge.Bruteforce.{
  Bruteforce, AttemptTracker, new_bruteforce, clean, check, get_or_create, fail, record_failure,
  reset, reset_by_ip, reset_by_username, reset_all, replace_if_positive, update_config, clean_all,
  get_state,
}

-- The calls on the object, each with its readings of the clock.
pub data Call : Type 0 where
  checked : ℕ → ℕ → Text → Text → Call
  failed : ℕ → Text → Text → Call
  cleared : Text → Text → Call
  cleared_ip cleared_user : Text → Call
  cleared_all : Call
  shown : ℕ → Call
  configured : LoginRateConfig → Call

pub step : Call → Bruteforce → Bruteforce
step (checked now later ip username) b = (check b now later ip username).0
step (failed now ip username) b = record_failure b now ip username
step (cleared ip username) b = reset b ip username
step (cleared_ip ip) b = reset_by_ip b ip
step (cleared_user username) b = reset_by_username b username
step cleared_all b = reset_all b
step (shown now) b = (get_state b now).0
step (configured cfg) b = update_config b cfg

pub run : Bruteforce → List Call → Bruteforce
run b [] = b
run b (c ∷ cs) = run (step c b) cs

-- How many failures name the IP, and the username.
abbrev pub failures_of_ip : Text → List Call → ℕ
failures_of_ip k [] = 0
failures_of_ip k (failed now ip username ∷ cs) = (if ip == k then 1 else 0) + failures_of_ip k cs
failures_of_ip k (_ ∷ cs) = failures_of_ip k cs

abbrev pub failures_of_user : Text → List Call → ℕ
failures_of_user k [] = 0
failures_of_user k (failed now ip username ∷ cs) =
    (if username == k then 1 else 0) + failures_of_user k cs
failures_of_user k (_ ∷ cs) = failures_of_user k cs

-- The tracker of a key has `n` failures at most, and no lockout.
record IsCalm (n : ℕ) (m : Table AttemptTracker) (k : Text) : Type 0 where
  few : (get_or_create m k 0).failures ≤ n
  open_door : (get_or_create m k 0).lockout_until ≡ 0

-- The lowest threshold that is in use, from `threshold` on.
abbrev pub lowest : ℤ → List Call → ℕ
lowest threshold [] = pos_part threshold
lowest threshold (configured cfg ∷ cs) =
    min (pos_part threshold) (lowest (replace_if_positive threshold cfg.max_attempts) cs)
lowest threshold (_ ∷ cs) = lowest threshold cs

lowest_le : (threshold : ℤ) (cs : List Call) → lowest threshold cs ≤ pos_part threshold
lowest_le threshold [] = omega arith
lowest_le threshold (configured cfg ∷ cs) = omega arith
lowest_le threshold (checked now later ip username ∷ cs) = lowest_le threshold cs
lowest_le threshold (failed now ip username ∷ cs) = lowest_le threshold cs
lowest_le threshold (cleared ip username ∷ cs) = lowest_le threshold cs
lowest_le threshold (cleared_ip ip ∷ cs) = lowest_le threshold cs
lowest_le threshold (cleared_user username ∷ cs) = lowest_le threshold cs
lowest_le threshold (cleared_all ∷ cs) = lowest_le threshold cs
lowest_le threshold (shown now ∷ cs) = lowest_le threshold cs

lowest-step :
    (c : Call) (cs : List Call) (b : Bruteforce)
    → lowest b.cfg.max_attempts (c ∷ cs) ≤ lowest (step c b).cfg.max_attempts cs
unfolding step check record_failure reset reset_by_ip reset_by_username reset_all get_state
    update_config
lowest-step (checked now later ip username) cs b = ground arith
lowest-step (configured cfg) cs b = omega arith
lowest-step (failed now ip username) cs b = omega arith
lowest-step (cleared ip username) cs b = omega arith
lowest-step (cleared_ip ip) cs b = omega arith
lowest-step (cleared_user username) cs b = omega arith
lowest-step cleared_all cs b = omega arith
lowest-step (shown now) cs b = omega arith

lookup-clean_all :
    (k : Text) (cfg : LoginRateConfig) (now : ℕ) (m : Table AttemptTracker)
    → lookup k (clean_all cfg now m)
      ≡ elim (lookup k m) [ none ↦ none | some t ↦ some (clean cfg t now) ]
unfolding lookup clean_all
lookup-clean_all k cfg now [] = refl
lookup-clean_all k cfg now ((j, t) ∷ m) = ground (arith, lookup-clean_all k cfg now m)

module _ (k : Text) (n : ℕ) where
  -- a failure
  fail-IsCalm :
      (cfg : LoginRateConfig) (m : Table AttemptTracker) (now : ℕ) (j : Text)
      → IsCalm n m k
      → n + (if j == k then 1 else 0) < pos_part cfg.max_attempts
      → IsCalm (n + (if j == k then 1 else 0)) (insert j (fail cfg now (get_or_create m j now)) m) k
  unfolding get_or_create fail
  fail-IsCalm cfg m now j h few = ground (
    arith,
    h.few,
    h.open_door,
    lookup-insert j k (fail cfg now (get_or_create m j now)) m,
    eq_iff j k,
  )

  erase-IsCalm : (m : Table AttemptTracker) (j : Text) → IsCalm n m k → IsCalm n (erase j m) k
  unfolding get_or_create
  erase-IsCalm m j h = ground (arith, h.few, h.open_door, lookup-erase j k m, eq_iff j k)

  -- what `Check` writes back
  clean-IsCalm :
      (cfg : LoginRateConfig) (m : Table AttemptTracker) (now : ℕ) (j : Text) (t : AttemptTracker)
      → lookup j m ≡ some t
      → IsCalm n m k
      → IsCalm n (insert j (clean cfg t now) m) k
  unfolding get_or_create clean
  clean-IsCalm cfg m now j t e h =
      ground (arith, h.few, h.open_door, lookup-insert j k (clean cfg t now) m, eq_iff j k)

  check-IsCalm_ip :
      (b : Bruteforce) (now later : ℕ) (ip username : Text)
      → IsCalm n b.by_ip k
      → IsCalm n (check b now later ip username).0.by_ip k
  unfolding check
  check-IsCalm_ip b now later ip username h = elim (Option-cases (lookup ip b.by_ip)) [
    | inl e ↦ ground (arith, h.few, h.open_door)
    | inr (t, e) ↦
        let calm = clean-IsCalm b.cfg b.by_ip now ip t e h in
        ground (arith, calm.few, calm.open_door)
  ]

  check-IsCalm_user :
      (b : Bruteforce) (now later : ℕ) (ip username : Text)
      → IsCalm n b.by_user k
      → IsCalm n (check b now later ip username).0.by_user k
  unfolding check
  check-IsCalm_user b now later ip username h = elim (Option-cases (lookup username b.by_user)) [
    | inl e ↦ ground (arith, h.few, h.open_door)
    | inr (t, e) ↦
        let calm = clean-IsCalm b.cfg b.by_user now username t e h in
        ground (arith, calm.few, calm.open_door)
  ]

  -- what `GetState` writes back
  clean_all-IsCalm :
      (cfg : LoginRateConfig) (now : ℕ) (m : Table AttemptTracker)
      → IsCalm n m k
      → IsCalm n (clean_all cfg now m) k
  unfolding get_or_create clean
  clean_all-IsCalm cfg now m h = ground (arith, h.few, h.open_door, lookup-clean_all k cfg now m)

  step-IsCalm_ip :
      (c : Call) (b : Bruteforce)
      → IsCalm n b.by_ip k
      → n + failures_of_ip k (c ∷ []) < pos_part b.cfg.max_attempts
      → IsCalm (n + failures_of_ip k (c ∷ [])) (step c b).by_ip k
  unfolding step record_failure reset reset_by_ip reset_by_username reset_all get_state
      update_config
  step-IsCalm_ip (checked now later ip username) b h l =
      rw add-zero (check-IsCalm_ip b now later ip username h)
  step-IsCalm_ip (failed now ip username) b h l =
      rw add-zero (fail-IsCalm b.cfg b.by_ip now ip h (omega arith))
  step-IsCalm_ip (cleared ip username) b h l = rw add-zero (erase-IsCalm b.by_ip ip h)
  step-IsCalm_ip (cleared_ip ip) b h l = rw add-zero (erase-IsCalm b.by_ip ip h)
  step-IsCalm_ip (cleared_user username) b h l = rw add-zero h
  step-IsCalm_ip cleared_all b h l = unfold get_or_create lookup in omega arith
  step-IsCalm_ip (shown now) b h l = rw add-zero (clean_all-IsCalm b.cfg now b.by_ip h)
  step-IsCalm_ip (configured cfg) b h l = rw add-zero h

  step-IsCalm_user :
      (c : Call) (b : Bruteforce)
      → IsCalm n b.by_user k
      → n + failures_of_user k (c ∷ []) < pos_part b.cfg.max_attempts
      → IsCalm (n + failures_of_user k (c ∷ [])) (step c b).by_user k
  unfolding step record_failure reset reset_by_ip reset_by_username reset_all get_state
      update_config
  step-IsCalm_user (checked now later ip username) b h l =
      rw add-zero (check-IsCalm_user b now later ip username h)
  step-IsCalm_user (failed now ip username) b h l =
      rw add-zero (fail-IsCalm b.cfg b.by_user now username h (omega arith))
  step-IsCalm_user (cleared ip username) b h l = rw add-zero (erase-IsCalm b.by_user username h)
  step-IsCalm_user (cleared_ip ip) b h l = rw add-zero h
  step-IsCalm_user (cleared_user username) b h l = rw add-zero (erase-IsCalm b.by_user username h)
  step-IsCalm_user cleared_all b h l = unfold get_or_create lookup in omega arith
  step-IsCalm_user (shown now) b h l = rw add-zero (clean_all-IsCalm b.cfg now b.by_user h)
  step-IsCalm_user (configured cfg) b h l = rw add-zero h

module _ (k : Text) where
  failures_of_ip-cons :
      (c : Call) (cs : List Call)
      → failures_of_ip k (c ∷ cs) ≡ failures_of_ip k (c ∷ []) + failures_of_ip k cs
  failures_of_ip-cons (failed now ip username) cs = omega arith
  failures_of_ip-cons _ cs = omega arith

  failures_of_user-cons :
      (c : Call) (cs : List Call)
      → failures_of_user k (c ∷ cs) ≡ failures_of_user k (c ∷ []) + failures_of_user k cs
  failures_of_user-cons (failed now ip username) cs = omega arith
  failures_of_user-cons _ cs = omega arith

  run-open_ip :
      (cs : List Call) (b : Bruteforce) (n : ℕ)
      → IsCalm n b.by_ip k
      → n + failures_of_ip k cs < lowest b.cfg.max_attempts cs
      → (get_or_create (run b cs).by_ip k 0).lockout_until ≡ 0
  unfolding run
  run-open_ip [] b n h l = h.open_door
  run-open_ip (c ∷ cs) b n h l =
      run-open_ip cs (step c b) (n + failures_of_ip k (c ∷ []))
        (step-IsCalm_ip k n c b h
          (omega (arith, failures_of_ip-cons c cs, lowest_le b.cfg.max_attempts (c ∷ cs))))
        (omega (arith, failures_of_ip-cons c cs, lowest-step c cs b))

  run-open_user :
      (cs : List Call) (b : Bruteforce) (n : ℕ)
      → IsCalm n b.by_user k
      → n + failures_of_user k cs < lowest b.cfg.max_attempts cs
      → (get_or_create (run b cs).by_user k 0).lockout_until ≡ 0
  unfolding run
  run-open_user [] b n h l = h.open_door
  run-open_user (c ∷ cs) b n h l =
      run-open_user cs (step c b) (n + failures_of_user k (c ∷ []))
        (step-IsCalm_user k n c b h
          (omega (arith, failures_of_user-cons c cs, lowest_le b.cfg.max_attempts (c ∷ cs))))
        (omega (arith, failures_of_user-cons c cs, lowest-step c cs b))

check_open :
    (b : Bruteforce) (now later : ℕ) (ip username : Text)
    → (get_or_create b.by_ip ip 0).lockout_until ≡ 0
    → (get_or_create b.by_user username 0).lockout_until ≡ 0
    → (check b now later ip username).1.0 ≡ false
unfolding check get_or_create clean
check_open b now later ip username p q = ground arith

new-IsCalm :
    (cfg : LoginRateConfig) (k : Text)
    → IsCalm 0 (new_bruteforce cfg).by_ip k × IsCalm 0 (new_bruteforce cfg).by_user k
unfolding new_bruteforce get_or_create lookup
new-IsCalm cfg k = omega arith

-- After any calls, in any order, from the start, those of `GetState` and `UpdateConfig` among them: if
-- fewer failures than the lowest threshold since the start named the IP, and fewer named the username, a
-- check at any time lets the attempt through.
pub few_failures_pass :
    (cfg : LoginRateConfig) (cs : List Call) (now later : ℕ) (ip username : Text)
    → failures_of_ip ip cs < lowest (new_bruteforce cfg).cfg.max_attempts cs
    → failures_of_user username cs < lowest (new_bruteforce cfg).cfg.max_attempts cs
    → (check (run (new_bruteforce cfg) cs) now later ip username).1.0 ≡ false
few_failures_pass cfg cs now later ip username p q =
    let b = new_bruteforce cfg in
    check_open (run b cs) now later ip username
      (run-open_ip ip cs b 0 (new-IsCalm cfg ip).0 (omega arith))
      (run-open_user username cs b 0 (new-IsCalm cfg username).1 (omega arith))
