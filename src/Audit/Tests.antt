-- ===== src/Audit/Tests.antt =====
-- Runs of internal/audit/audit.go, and the theorems at concrete inputs.
use webridge.Prelude.{
  ℕ, ◌+◌, ◌-◌, ◌≡◌, ◌^◌, refl, some, length, List, [], ◌∷◌, ◌++◌, text, ◌==◌, not_empty, pos,
  negsuc, arith,
}
use webridge.Event.{Event}
use webridge.Samples.{event, log}
use webridge.Audit.{Log, Query, add_event, query_memory, format_bytes, scaled, whole}
use webridge.Audit.Retention.{add_all, add_all_lem, newest, stamped, count_action}
use webridge.Audit.Handlers.{Database, Fields, query}
use webridge.Audit.Export.{Format, export_csv_handler}

abbrev four : List (ℕ × Event)
four = (9, event 1) ∷ (9, event 2) ∷ (9, event 0) ∷ (9, event 4) ∷ []

add_all_lem_example :
    ((add_all log four).events ≡ newest log.max (log.events ++ stamped four))
    × ((add_all log four).logins ≡ log.logins + count_action (text "login_success") four)
    × ((add_all log four).login_fails ≡ log.login_fails + count_action (text "login_failed") four)
add_all_lem_example = add_all_lem log four (omega arith)

kept :
    (add_event 9
      (add_event 9 (add_event 9 (add_event 9 log (event 1)) (event 2)) (event 0))
      (event 4)).events
    ≡ event 2 ∷ event 9 ∷ event 4 ∷ []
unfolding add_event
kept = refl

abbrev of_bob : Query
of_bob = record {
  user = text "bob";
  action = [];
  limit = pos 2;
  offset = pos 0;
  from_ms = pos 0;
  to_ms = pos 0;
}

abbrev full : Log
full = record log { events = event 2 ∷ event 9 ∷ event 4 ∷ [] }

newest_two : query_memory full of_bob ≡ event 4 ∷ event 9 ∷ []
unfolding query_memory not_empty text ◌==◌
newest_two = refl

sizes :
    (format_bytes (negsuc 0) ≡ some (whole 0))
    × (format_bytes (pos 1023) ≡ some (whole 1023))
    × (format_bytes (pos (2 ^ 63 - 1)) ≡ some (scaled (2 ^ 63 - 1) (1024 ^ 6) 5))
unfolding format_bytes
sizes = (refl, refl, refl)

abbrev shown : Format
shown = record { time = λ t. text "t"; int = λ n. text "n" }

abbrev no_database : Database
no_database = record { select = λ s. []; number = λ s. pos 0; format = λ ms. [] }

abbrev all_events : Fields
all_events = record {
  limit = pos 1;
  offset = pos 7;
  action = [];
  user = [];
  from = pos 0;
  to = pos 0;
  include_count = [];
}

-- The limit and the offset of the request are not looked at.
exported : length (export_csv_handler no_database shown full all_events) ≡ 4
unfolding export_csv_handler query query_memory not_empty
exported = refl
