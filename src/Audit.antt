-- ===== src/Audit.antt =====
-- internal/audit/audit.go: the bounded event log in memory, its counters, and its queries.
pub mod Retention
pub mod Search
pub mod Format
pub mod Handlers
pub mod Export
mod Tests
use mathlib.Core.List.{reverse}
use webridge.Prelude.{
  ℕ, zero, suc, ◌+◌, ◌-◌, ◌*◌, ◌/◌, ◌^◌, Bool, true, false, ◌&&◌, not, Option, none, some, List, [],
  ◌∷◌, ◌++◌, length, drop, ltb, leb, eqb, if◌then◌else◌, Text, text, ◌==◌, not_empty, ℤ, pos,
  negsuc, is_positive, pos_part,
}
use webridge.Event.{Event}
use webridge.Store.{Store, enqueue}

pub record Log : Type 0 where
  pub events : List Event
  pub max : ℕ
  pub store : Option Store
  pub active : ℤ
  pub logins : ℕ
  pub login_fails : ℕ

unfoldable pub new_with_store : ℤ → Option Store → Log
new_with_store max_events store = record {
  events = [];
  max = if is_positive max_events then pos_part max_events else 5000;
  store = store;
  active = pos 0;
  logins = 0;
  login_fails = 0;
}

abbrev enqueue_in : Event → Option Store → Option Store
enqueue_in e none = none
enqueue_in e (some s) = some (enqueue s e)

-- `l.events[len(l.events)-l.max:]` where the buffer is over its bound
unfoldable pub trim : ℕ → List Event → List Event
trim max events = if ltb max (length events) then drop (length events - max) events else events

-- A zero time is replaced by the reading of the clock, `now`.
unfoldable pub stamp : ℕ → Event → Event
stamp now e = if eqb e.time 0 then record e { time = now } else e

unfoldable pub add_event : ℕ → Log → Event → Log
unfolding trim stamp
add_event now l e = record l {
  logins = if e.action == text "login_success" then suc l.logins else l.logins;
  login_fails = if e.action == text "login_failed" then suc l.login_fails else l.login_fails;
  events = trim l.max (l.events ++ stamp now e ∷ []);
  store = enqueue_in (stamp now e) l.store;
}

-- An event with the fields that `Add` sets.
abbrev pub event_of : ℕ → Text → Text → Text → Text → Event
event_of now action user ip detail = record {
  time = now;
  action = action;
  user = user;
  ip = ip;
  detail = detail;
  url = [];
  provider = [];
  filename = [];
  file_size = pos 0;
  resolved_url = [];
  bytes_transferred = pos 0;
  duration_ms = 0;
  sha256 = [];
  client_ua = [];
}

unfoldable pub add : ℕ → Log → Text → Text → Text → Text → Log
unfolding add_event
add now l action user ip detail = add_event now l (event_of now action user ip detail)

pub record Query : Type 0 where
  pub user : Text
  pub action : Text
  pub limit : ℤ
  pub offset : ℤ
  pub from_ms : ℤ
  pub to_ms : ℤ

-- The two `continue`s of the loop of `Query`.
pub selects : Query → Event → Bool
selects q e =
    if not_empty q.user && not (e.user == q.user)
    then false
    else if not_empty q.action && not (e.action == q.action)
    then false
    else true

-- The loop over the buffer from its end; `events` is what is left of it, newest first.
query_from : Query → List Event → List Event → List Event
query_from q [] out = out
query_from q (e ∷ events) out =
    let skip = query_from q events out in
    let more = query_from q events (out ++ e ∷ []) in
    if selects q e
    then (if is_positive q.limit && leb (pos_part q.limit) (length (out ++ e ∷ []))
        then out ++ e ∷ []
        else more)
    else skip

-- `Query` of a log with no store.
unfoldable pub query_memory : Log → Query → List Event
unfolding query_from selects
query_memory l q = query_from q (reverse l.events) []

abbrev pub plus_one : ℤ → ℤ
plus_one (pos n) = pos (suc n)
plus_one (negsuc zero) = pos 0
plus_one (negsuc (suc n)) = negsuc n

abbrev pub minus_one : ℤ → ℤ
minus_one (pos zero) = negsuc 0
minus_one (pos (suc n)) = pos n
minus_one (negsuc n) = negsuc (suc n)

unfoldable pub start_download : Log → Log
start_download l = record l { active = plus_one l.active }

unfoldable pub end_download : Log → Log
end_download l = record l { active = minus_one l.active }

-- The text of `FormatBytes` before `fmt` prints the quotient with one decimal: the number and
-- its divisor, and the index into "KMGTPE".
pub data Human : Type 0 where
  whole : ℕ → Human
  scaled : ℕ → ℕ → ℕ → Human

-- `for n := b / unit; n >= unit; n /= unit { div *= unit; exp++ }`; `none`: the fuel ran out.
format_from : ℕ → ℕ → ℕ → ℕ → Option (ℕ × ℕ)
format_from zero n div exp = none
format_from (suc fuel) n div exp =
    let rest = format_from fuel (n / 1024) (div * 1024) (suc exp) in
    if leb 1024 n then rest else some (div, exp)

-- The fuel is one more than the rounds that an int64 can take.
unfoldable pub format_bytes : ℤ → Option Human
unfolding format_from
format_bytes b =
    if not (is_positive b)
    then some (whole 0)
    else if ltb (pos_part b) 1024
    then some (whole (pos_part b))
    else elim (format_from 6 (pos_part b / 1024) 1024 0) [
      | none ↦ none
      | some (div, exp) ↦ some (scaled (pos_part b) div exp)
    ]
