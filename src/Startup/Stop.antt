-- ===== src/Startup/Stop.antt =====
-- What the end of cmd/server/main.go leaves of the events that wait in the audit store.
use webridge.Prelude.{◌+◌, ◌<◌, ◌≡◌, refl, ap, Bool, true, false, some, [], ◌++◌, length}
use webridge.Store.{Store, Answers, batch_size}
use webridge.Store.Shutdown.{close_loses}
use webridge.Startup.{stop}

-- Whether the server's shutdown succeeds or not, and whatever the database answers: with fewer events than
-- a batch waiting, and the ticker not served again, the process ends with the rows as they were.
pub stop_loses :
    (shuts_down : Bool) (db : Answers) (s : Store)
    → length s.batch + length s.ch < batch_size
    → (after : Store) × ((stop shuts_down db [] (some s)).1 ≡ some after) × (after.rows ≡ s.rows)
unfolding stop
stop_loses true db s few =
    (record s { ch = []; batch = s.batch ++ s.ch }, ap some (close_loses db s few), refl)
stop_loses false db s few = (s, refl, refl)
