-- ===== src/Lib.antt =====
-- Webridge: a self-hosted server that fetches files from transfer services for signed-in users. This
-- library models the parts of the Go code that decide who may do what, what is remembered of it, and
-- which provider serves a URL, as pure functions on explicit states. Paths are from the
-- repository's root.
--
-- Shared parts
--   Prelude    texts as lists of bytes, Boolean tests, lists and integers over the native numbers,
--              and tables: a Go map is an association list, `lookup`, `insert` and `erase` its
--              reads and writes. Where the code ranges over a map, the order of the table stands
--              for the order that Go picks.
--   Strings    the functions of `strings` that the code uses, on bytes: `ToLower`, `EqualFold` and
--              `TrimSpace` are modelled on ASCII.
--   Itoa       `strconv.Itoa`, on fuel: the fuel is the number plus one, and each round divides
--              by 10.
--   Config     internal/config/config.go: the records, and in Config/Load the defaults, the environment
--              and `Load`, with os.Getenv, strconv, time and YAML as parameters.
--   World      what a handler reads and writes (the service and the audit log) and what it answers.
--   Samples    data for the tests.
--
-- Authentication
--   Bruteforce  internal/auth/bruteforce.go. Each call has its readings of the clock as arguments.
--               A time is a count of nanoseconds, a duration that the code computes as int64 wraps.
--   Auth        internal/auth/auth.go: the `Service`, `New`, `verify`, permissions, `RequireAuth`,
--               `RequirePerm`, `Me`, and `guard` of cmd/server/main.go.
--   Ldap, Imap  internal/auth/ldap.go and internal/auth/imap.go. The connections are parameters
--               (`Directory`, `MailServer`), as github.com/go-ldap/ldap and
--               github.com/emersion/go-imap are not part of the repository.
--   Login       the handlers `Login` and `Logout` of internal/auth/auth.go, on all of the above. What a
--               request meets outside the program is the record `Outside`: SHA-256, directory, mail
--               server, clock, random token.
--   UserAdmin, GroupAdmin, Admin
--               the user and group handlers of internal/auth/admin.go, and sequences of requests
--               to them. A request is `none` where its body does not decode; salts are arguments.
--   Settings    the LDAP, IMAP and brute-force settings handlers, their files and config.yaml. The
--               file system, encoding/json and gopkg.in/yaml.v3 are the parameter `Disk`; a panic is
--               an answer.
--
-- Audit
--   Event, Audit  internal/audit/audit.go: the bounded log in memory, its counters, its query, and
--               `FormatBytes`, whose loop runs on fuel 6: an int64 has no more powers of 1024; in
--               Audit/Handlers the queries with a store, the metrics and the events of clients, in
--               Audit/Export the records of the CSV export.
--   Store       internal/audit/store.go: channel, batch and rows, with the steps of senders and of
--               the flusher in any order, and the database's answers as parameters; in Store/Sql
--               the statements with their arguments, in Store/Schema the table, in Store/Rows
--               the values of a row.
--
-- Providers and requests
--   Registry    internal/providers/registry.go, with `url.Parse` as a parameter; in Registry/Names
--               the sorted names of `ProvidersHandler`.
--   Redirects   `NewBaseClient` of internal/providers/providers.go: its limit of redirects, with a
--               call of net/http as a relation.
--   Transfer    the results and errors of internal/providers/providers.go, and the record `Web` of what
--               the clients ask of net/http and net/url.
--   Links       the regular expressions of internal/providers as matchers. A run of letters and digits
--               is taken whole: what follows it in each expression is a slash or the end.
--   Clients     the five clients of internal/providers, one module each, every request of which is
--               numbered: `send n` answers the n-th. `parse_url` of WeTransfer calls itself and runs
--               on fuel; no fuel is enough for every web. In
--               Clients/Services the five together, with the registry of cmd/server/main.go.
--   Stream      `Stream` of internal/providers/providers.go: four attempts, so fuel 4 is enough for
--               every upstream.
--   Download    `ServeHTTP` of internal/handlers/download.go as three steps of each request, between
--               which other requests run, with the semaphore and the audit log as the shared
--               state. What `Resolve` and `Stream` return are arguments. In
--               Download/Whole one request from its arrival to its end. In Download/Served the five
--               clients and `Stream` stand in the place of these arguments.
--   Info        `InfoHandler` and `RecentHandler` of the same file.
--   Filename    `sanitizeFilename` of internal/handlers/download.go.
--   Security    internal/middleware/security.go and `ClientIP` of internal/middleware/ratelimit.go,
--               with `url.Parse`, `net.ParseIP` and `net.SplitHostPort` as parameters.
--   RateLimit   the rest of internal/middleware/ratelimit.go, over any limiter.
--   AccessLog   internal/middleware/accesslog.go: the channel and the file of the day; in
--               AccessLog/Requests the entry of a request.
--   Server      the routes of cmd/server/main.go with what guards them, and its middleware as functions
--               on handlers, wrapped in the order of the code.
--   Startup     the start and the stop of cmd/server/main.go, with `OpenStore` of
--               internal/audit/store.go: what is built of the configuration, and which files are used.
--   Mux         a whole request: the gate that the table of Server has for its route, and the handler
--               behind it, for every handler that touches the service.
--   Ui          internal/handlers/ui.go and internal/handlers/health.go.
--
-- Each other handler runs as one step: the mutexes of the code are not modelled, and neither are
-- interleavings inside such a handler. Not modelled besides: most JSON bodies of successful answers,
-- cookies, the lines of the server log, what SQLite does with a statement, what encoding/csv prints, the
-- embedded files of the user interface, the choice of a route by net/http, and the server's socket, which
-- are input and output or other libraries.
pub mod Prelude
pub mod Config
pub mod Itoa
pub mod Bruteforce
pub mod Event
pub mod Store
pub mod Audit
pub mod Strings
pub mod Auth
pub mod World
pub mod UserAdmin
pub mod Ldap
pub mod Imap
pub mod Login
pub mod Settings
pub mod GroupAdmin
pub mod Admin
pub mod Registry
pub mod Transfer
pub mod Links
pub mod Clients
pub mod Filename
pub mod Stream
pub mod Redirects
pub mod Download
pub mod Info
pub mod RateLimit
pub mod AccessLog
pub mod Security
pub mod Samples
pub mod Server
pub mod Startup
pub mod Mux
pub mod Ui
