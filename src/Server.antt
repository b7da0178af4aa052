-- ===== src/Server.antt =====
-- The routes and the middleware of cmd/server/main.go, with that of internal/middleware. `http.ServeMux` picks one of the routes; what the
-- handlers behind them do is in the other modules.
pub mod Routes
pub mod Chain
mod Tests
use webridge.Prelude.{
  ℕ, suc, Bool, true, false, Option, none, some, List, [], ◌∷◌, ◌++◌, if◌then◌else◌, Text, text, ℤ,
  drop,
}
use webridge.Prelude.Table.{Table, insert}
use webridge.AccessLog.{Writer}
use webridge.AccessLog.Requests
use webridge.AccessLog.Requests.{Request}
use webridge.Auth.{Service, Session, Access, unauthorized, forbidden, granted, require_auth, guard}
use webridge.RateLimit.{RateLimiter, middleware}
use webridge.Security.{Address, Peer, client_ip, validates}

-- What stands before a handler: nothing, `RequireAuth`, or `guard` with a permission.
pub data Gate : Type 0 where
  anyone : Gate
  signed_in : Gate
  guarded : Text → Gate

pub record Route : Type 0 where
  pub method : Text
  pub pattern : Text
  pub gate : Gate

abbrev route : Text → Text → Gate → Route
route method pattern gate = record { method = method; pattern = pattern; gate = gate }

unfoldable pub routes : List Route
routes =
    route (text "GET") (text "/healthz") anyone
    ∷ route (text "POST") (text "/api/v1/auth/login") anyone
    ∷ route (text "POST") (text "/api/v1/auth/logout") anyone
    ∷ route (text "GET") (text "/api/v1/me") signed_in
    ∷ route (text "GET") (text "/api/v1/downloads/recent") signed_in
    ∷ route (text "GET") (text "/api/v1/info") (guarded (text "download"))
    ∷ route (text "GET") (text "/api/v1/download") (guarded (text "download"))
    ∷ route (text "GET") (text "/api/v1/providers") signed_in
    ∷ route (text "GET") (text "/api/v1/admin/metrics") (guarded (text "audit"))
    ∷ route (text "GET") (text "/api/v1/admin/audit") (guarded (text "audit"))
    ∷ route (text "GET") (text "/api/v1/admin/audit/export") (guarded (text "audit"))
    ∷ route (text "POST") (text "/api/v1/audit/log") signed_in
    ∷ route (text "GET") (text "/api/v1/admin/users") (guarded (text "users"))
    ∷ route (text "GET") (text "/api/v1/admin/ldap") (guarded (text "users"))
    ∷ route (text "PUT") (text "/api/v1/admin/ldap") (guarded (text "users"))
    ∷ route (text "GET") (text "/api/v1/admin/imap") (guarded (text "users"))
    ∷ route (text "PUT") (text "/api/v1/admin/imap") (guarded (text "users"))
    ∷ route (text "POST") (text "/api/v1/admin/imap/test") (guarded (text "users"))
    ∷ route (text "POST") (text "/api/v1/admin/users") (guarded (text "users"))
    ∷ route (text "PUT") (text "/api/v1/admin/users/{username}") (guarded (text "users"))
    ∷ route (text "DELETE") (text "/api/v1/admin/users/{username}") (guarded (text "users"))
    ∷ route (text "GET") (text "/api/v1/admin/groups") (guarded (text "groups"))
    ∷ route (text "POST") (text "/api/v1/admin/groups") (guarded (text "groups"))
    ∷ route (text "PUT") (text "/api/v1/admin/groups/{name}") (guarded (text "groups"))
    ∷ route (text "DELETE") (text "/api/v1/admin/groups/{name}") (guarded (text "groups"))
    ∷ route (text "GET") (text "/api/v1/admin/bruteforce") (guarded (text "users"))
    ∷ route (text "PUT") (text "/api/v1/admin/bruteforce/config") (guarded (text "users"))
    ∷ route (text "POST") (text "/api/v1/admin/bruteforce/reset") (guarded (text "users"))
    ∷ route [] (text "/") anyone
    ∷ []

-- Whether the handler behind a gate runs, and under which session.
pub data Entry : Type 0 where
  refused : Entry
  runs : Option Session → Entry

unfoldable pub entry_of : Access → Entry
entry_of unauthorized = refused
entry_of forbidden = refused
entry_of (granted sess) = runs (some sess)

unfoldable pub pass_gate : Gate → Service → ℕ → Option Text → Service × Entry
pass_gate anyone s now cookie = (s, runs none)
pass_gate signed_in s now cookie =
    let (after, found) = require_auth s now cookie in
    (after, elim found [ none ↦ refused | some sess ↦ runs (some sess) ])
pass_gate (guarded perm) s now cookie =
    let (after, access) = guard perm s now cookie in (after, entry_of access)

-- A request as the middleware sees it: its time, its peer, its path, its parameter `url`, and the header
-- that the writer of its answer has so far; and what the access log writes of it besides. `flushed`: how
-- many entries the flusher of that log has taken since the last one was given to it.
pub record Visit : Type 0 where
  pub now : ℕ
  pub peer : Peer
  pub path : Text
  pub url : Text
  pub header : Table Text
  pub start : Text
  pub method : Text
  pub user_agent : Text
  pub duration : ℕ
  pub flushed : ℕ

-- The codes that `WriteHeader` is called with, and the header.
pub record Answer : Type 0 where
  pub codes : List ℕ
  pub header : Table Text

-- What `SecurityHeaders` sets.
unfoldable pub secured : Table Text → Table Text
secured header =
    insert (text "Permissions-Policy") (text "geolocation=(), microphone=(), camera=()") (
      insert (text "Content-Security-Policy")
        (text
          "default-src 'self'; script-src 'self'; style-src 'self' 'unsafe-inline'; img-src 'self' data:; font-src 'self'")
        (insert (text "Referrer-Policy") (text "strict-origin-when-cross-origin") (
          insert (text "X-Frame-Options") (text "DENY")
            (insert (text "X-Content-Type-Options") (text "nosniff") header))))

-- `http.Error` on a header, less what it deletes.
abbrev pub error_answer : ℕ → Table Text → Answer
error_answer status header = record {
  codes = status ∷ [];
  header =
      insert (text "X-Content-Type-Options") (text "nosniff")
        (insert (text "Content-Type") (text "text/plain; charset=utf-8") header);
}

-- The limiters, the writer of the access log, and the state of the handlers.
pub record Site (L W : Type 0) : Type 0 where
  pub limiter : RateLimiter L
  pub log : Option Writer
  pub inner : W

-- The flusher takes the first entries of the channel.
drained : ℕ → Option Writer → Option Writer
drained n none = none
drained n (some w) =
    some (record w { ch = elim w.ch [ none ↦ none | some entries ↦ some (drop n entries) ] })

-- What `AccessLog` keeps of a request and its answer.
abbrev request_of : (Text → Option Text) → Visit → Answer → Request
request_of split_host_port v a = record {
  start = v.start;
  method = v.method;
  path = v.path;
  duration = v.duration;
  ip = client_ip split_host_port v.peer;
  user_agent = v.user_agent;
  codes = a.codes;
}

-- What the log is after a request.
unfoldable pub logged : (Text → Option Text) → Option Writer → Visit → Answer → Option Writer
unfolding drained
logged split_host_port log v a =
    Requests.access_log (drained v.flushed log) (request_of split_host_port v a)

-- The answer to a request that the limiter refuses.
abbrev pub limited : Visit → Answer
limited v = error_answer 429 (insert (text "Retry-After") (text "60") v.header)

abbrev pub Handler : Type 0 → Type 0 → Type 0
Handler L W = Site L W → Visit → Site L W × Answer

module _ {L W : Type 0} (split_host_port parse_host : Text → Option Text)
    (parse_ip : Text → Option Address) (new_limiter : ℤ → ℤ → L) (allow : ℕ → L → L × Bool) where
  access_log : Handler L W → Handler L W
  access_log next s v =
      let (after, a) = next s v in (record after { log = logged split_host_port after.log v a }, a)

  security_headers : Handler L W → Handler L W
  security_headers next s v = next s (record v { header = secured v.header })

  validate_url : Handler L W → Handler L W
  validate_url next s v =
      if validates parse_host parse_ip v.url then next s v else (s, error_answer 403 v.header)

  limit_rate : Handler L W → Handler L W
  limit_rate next s v =
      let (rl, passes) =
        middleware new_limiter allow s.limiter v.now (client_ip split_host_port v.peer) in
      let (after, a) = next (record s { limiter = rl }) v in
      if passes then (after, a) else (record s { limiter = rl }, limited v)

  -- `handler = mw(handler)` for each of them in turn
  wrap : List (Handler L W → Handler L W) → Handler L W → Handler L W
  wrap [] h = h
  wrap (mw ∷ mws) h = wrap mws (mw h)

  unfoldable pub serve : Handler L W → Handler L W
  unfolding wrap access_log security_headers validate_url limit_rate
  serve mux = wrap (access_log ∷ security_headers ∷ validate_url ∷ limit_rate ∷ []) mux
