-- ===== src/Audit/Handlers.antt =====
-- The handlers of internal/audit/audit.go and the queries behind them, with and without a store. What
-- SQLite answers, the parsers of strconv and the decoder of JSON are parameters.
mod Tests
use webridge.Prelude.{
  ℕ, zero, suc, Bool, true, false, Option, none, some, List, [], ◌∷◌, ◌++◌, if◌then◌else◌, Text,
  text, ◌==◌, not_empty, ℤ, pos, ◌≡◌, refl, ap, ◌∙◌, sym, arith,
}
use webridge.World.{Reply, reply}
use webridge.Event.{Event}
use webridge.Audit.{Human, format_bytes, Log, Query, query_memory, add_event, event_of}
use webridge.Store.{Store}
use webridge.Store.Sql.{Statement, query_statement, count_statement, total_bytes_statement}

-- What the database answers; `Query` and `Count` of the store give what they get, or nothing and 0 on an
-- error. `format` is that of the statements.
pub record Database : Type 0 where
  pub select : Statement → List Event
  pub number : Statement → ℤ
  pub format : ℤ → Text

pub record Metrics : Type 0 where
  pub active : ℤ
  pub logins : ℕ
  pub login_fails : ℕ
  pub completed : ℤ
  pub failed : ℤ
  pub bytes : ℤ
  pub bytes_human : Option Human

abbrev by_action : Text → Query
by_action action = record {
  user = [];
  action = action;
  limit = pos 0;
  offset = pos 0;
  from_ms = pos 0;
  to_ms = pos 0;
}

-- The fields of an audit request (empty where absent); what the parsers cannot read counts as 0.
pub record Fields : Type 0 where
  pub limit : ℤ
  pub offset : ℤ
  pub action : Text
  pub user : Text
  pub from : ℤ
  pub to : ℤ
  pub include_count : Text

-- The body of a client's event.
pub record ClientEvent : Type 0 where
  pub action : Text
  pub detail : Text

module _ (db : Database) where
  unfoldable pub query : Log → Query → List Event
  query l q = elim l.store [
    | none ↦ query_memory l q
    | some s ↦ db.select (query_statement db.format q)
  ]

  pub query_of_none : (l : Log) (q : Query) → l.store ≡ none → query l q ≡ query_memory l q
  unfolding query
  query_of_none l q h = ground arith

  pub query_of_some :
      (l : Log) (s : Store) (q : Query)
      → l.store ≡ some s
      → query l q ≡ db.select (query_statement db.format q)
  unfolding query
  query_of_some l s q h = ground arith

  unfoldable pub count : Log → Query → ℤ
  count l q = elim l.store [ none ↦ pos 0 | some s ↦ db.number (count_statement db.format q) ]

  unfoldable pub get_metrics : Log → Metrics
  get_metrics l = elim l.store [
    | none ↦ record {
      active = l.active;
      logins = l.logins;
      login_fails = l.login_fails;
      completed = pos 0;
      failed = pos 0;
      bytes = pos 0;
      bytes_human = format_bytes (pos 0);
    }
    | some s ↦ record {
      active = l.active;
      logins = l.logins;
      login_fails = l.login_fails;
      completed = db.number (count_statement db.format (by_action (text "download_success")));
      failed = db.number (count_statement db.format (by_action (text "download_error")));
      bytes = db.number (total_bytes_statement (text "download_success"));
      bytes_human = format_bytes (db.number (total_bytes_statement (text "download_success")));
    }
  ]

  abbrev pub query_of : Fields → Query
  query_of f = record {
    user = f.user;
    action = f.action;
    limit = f.limit;
    offset = f.offset;
    from_ms = f.from;
    to_ms = f.to;
  }

  -- The events, and the total where it is asked for.
  unfoldable pub events_handler : Log → Fields → List Event × Option ℤ
  events_handler l f = (
    query l (query_of f),
    if not_empty f.include_count then some (count l (query_of f)) else none,
  )

-- `none`: the body is no JSON. The event's user stays empty.
unfoldable pub log_client_event : ℕ → Log → Option ClientEvent → Text → Text → Log × Reply
log_client_event now l none remote_addr user_agent = (l, reply 400 (text "bad request"))
log_client_event now l (some body) remote_addr user_agent = (
  add_event now l (record {
    time = 0;
    action = body.action;
    user = [];
    ip = remote_addr;
    detail = body.detail;
    url = [];
    provider = [];
    filename = [];
    file_size = pos 0;
    resolved_url = [];
    bytes_transferred = pos 0;
    duration_ms = 0;
    sha256 = [];
    client_ua = user_agent;
  }),
  reply 204 [],
)

-- A client's event with the action of a login counts as one: whoever may call the handler raises the
-- number of logins that the metrics show, by one for each event, and leaves the number of failed ones.
pub log_client_event-get_metrics :
    (db : Database) (now : ℕ) (l : Log) (detail remote_addr user_agent : Text)
    → let after =
        (log_client_event now l
          (some (record { action = text "login_success"; detail = detail }))
          remote_addr
          user_agent).0 in
      ((get_metrics db after).logins ≡ suc (get_metrics db l).logins)
      × ((get_metrics db after).login_fails ≡ (get_metrics db l).login_fails)
unfolding get_metrics log_client_event add_event text ◌==◌
log_client_event-get_metrics db now l detail remote_addr user_agent = ground arith
