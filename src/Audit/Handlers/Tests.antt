-- ===== src/Audit/Handlers/Tests.antt =====
-- The handlers on a log without a store.
use webridge.Prelude.{
  ℕ, suc, Bool, true, false, Option, none, some, List, [], ◌∷◌, Text, text, ◌==◌, ◌≡◌, refl, pos,
}
use webridge.Audit.{Log}
use webridge.Audit.Handlers.{
  Database, get_metrics, events_handler, count, log_client_event, log_client_event-get_metrics,
}

abbrev db : Database
db = record { select = λ s. []; number = λ s. pos 3; format = λ ms. [] }

abbrev log : Log
log = record { events = []; max = 10; store = none; active = pos 0; logins = 1; login_fails = 2 }

log_client_event-get_metrics_example :
    let after =
      (log_client_event 5 log
        (some (record { action = text "login_success"; detail = [] }))
        (text "10.0.0.1")
        []).0 in
    ((get_metrics db after).logins ≡ suc (get_metrics db log).logins)
    × ((get_metrics db after).login_fails ≡ (get_metrics db log).login_fails)
log_client_event-get_metrics_example = log_client_event-get_metrics db 5 log [] (text "10.0.0.1") []

no_total :
    (events_handler db log (record {
      limit = pos 5;
      offset = pos 0;
      action = [];
      user = [];
      from = pos 0;
      to = pos 0;
      include_count = text "1";
    })).1
    ≡ some (pos 0)
unfolding events_handler count text webridge.Prelude.not_empty
no_total = refl
