-- ===== src/AccessLog/Requests.antt =====
-- The middleware of internal/middleware/accesslog.go around one request: the writer that keeps the status,
-- and the entry that it leaves.
use webridge.Prelude.{
  ℕ, ◌≡◌, ap, Option, none, some, List, [], ◌∷◌, ◌++◌, if◌then◌else◌, Text, not_empty, arith,
}
use mathlib.Core.List.{append_assoc, append-nil}
use webridge.AccessLog.{Entry, Writer, write}

-- The wrapped writer is given each code that `WriteHeader` is called with.
pub record ResponseWriter : Type 0 where
  pub status_code : ℕ
  pub given : List ℕ

abbrev pub response_writer : ResponseWriter
response_writer = record { status_code = 200; given = [] }

unfoldable pub write_header : ResponseWriter → ℕ → ResponseWriter
write_header rw code = record { status_code = code; given = rw.given ++ code ∷ [] }

-- The calls that a handler makes.
unfoldable pub write_headers : ResponseWriter → List ℕ → ResponseWriter
write_headers rw [] = rw
write_headers rw (code ∷ codes) = write_headers (write_header rw code) codes

-- No directory, no log.
unfoldable pub new_writer : Text → Option Writer
new_writer dir = if not_empty dir then some (record { ch = none; date = []; file = none }) else none

-- `duration`: in milliseconds.
pub record Request : Type 0 where
  pub start : Text
  pub method : Text
  pub path : Text
  pub duration : ℕ
  pub ip : Text
  pub user_agent : Text
  pub codes : List ℕ

unfoldable pub entry_of : Request → Entry
entry_of r = record {
  time = r.start;
  method = r.method;
  path = r.path;
  status = (write_headers response_writer r.codes).status_code;
  duration_ms = r.duration;
  ip = r.ip;
  user_agent = r.user_agent;
}

unfoldable pub access_log : Option Writer → Request → Option Writer
access_log none r = none
access_log (some w) r = some (write w (entry_of r))

-- The last code, or 200.
abbrev pub last_or : ℕ → List ℕ → ℕ
last_or status [] = status
last_or status (code ∷ codes) = last_or code codes

write_headers_lem :
    (rw : ResponseWriter) (codes : List ℕ)
    → write_headers rw codes
      ≡ record { status_code = last_or rw.status_code codes; given = rw.given ++ codes }
unfolding write_headers write_header
write_headers_lem w [] = ground (arith, append-nil w.given)
write_headers_lem w (code ∷ codes) =
    ground
      (arith, write_headers_lem (write_header w code) codes, append_assoc w.given (code ∷ []) codes)

-- The entry has the last code that the handler gave, or 200.
pub status-entry_of : (r : Request) → (entry_of r).status ≡ last_or 200 r.codes
unfolding entry_of
status-entry_of r = ap (λ w. w.status_code) (write_headers_lem response_writer r.codes)
