-- ===== src/Server/Tests.antt =====
-- A small site behind the middleware, and a request of an administrator.
use webridge.Prelude.{
  ℕ, zero, suc, ◌≤◌, Bool, true, false, Option, none, some, List, [], ◌∷◌, ◌++◌, if◌then◌else◌,
  Text, text, ◌==◌, ◌≡◌, refl, ℤ, pos, pos_part, length,
}
use webridge.Prelude.Table.{lookup, insert}
use webridge.Strings.{has, has_prefix}
use webridge.Samples.{service, session_of}
use webridge.Auth.{Session, valid_perms, guard, require_auth, effective_perms, union_of}
use webridge.Auth.Guards.{IsAllowed}
use webridge.RateLimit.{middleware, limiter_of}
use webridge.Security.{Address, client_ip, validates}
use webridge.AccessLog.{Writer}
use webridge.Server.{
  secured, guarded, entry_of, Route, routes, runs, pass_gate, Visit, Answer, Site, limited, logged,
  serve,
}
use webridge.Server.Routes.{route_at, admin_route_lem}
use webridge.Server.Chain.{serve_all, handle_all, verdicts, admitted, spread, serve_all_lem}

abbrev users_route : Route
users_route = record {
  method = text "GET";
  pattern = text "/api/v1/admin/users";
  gate = guarded (text "users");
}

users_there : route_at 12 routes ≡ some users_route
unfolding route_at routes
users_there = refl

users_prefix : has_prefix (text "/api/v1/admin/users") (text "/api/v1/admin/") ≡ true
unfolding has_prefix text
users_prefix = refl

root_runs :
    (pass_gate users_route.gate service 900 (some (text "t1"))).1
    ≡ runs (some (session_of (text "root") (text "admin")))
unfolding pass_gate guard require_auth effective_perms union_of lookup has text ◌==◌ entry_of
root_runs = refl

admin_route_lem_example :
    (perm : Text) × (has perm valid_perms ≡ true)
    × ((sess : Session) × (some (session_of (text "root") (text "admin")) ≡ some sess)
        × ((token : Text) × (some (text "t1") ≡ some token)
            × (lookup token service.sessions ≡ some sess)
            × (900 ≤ sess.expires)
            × IsAllowed service sess.username perm))
admin_route_lem_example =
    admin_route_lem 12 users_route service 900 (some (text "t1"))
      (some (session_of (text "root") (text "admin"))) users_there users_prefix root_runs

-- The handlers count their requests.
abbrev mux : ℕ → Visit → ℕ × Answer
mux n v = (suc n, record { codes = 200 ∷ []; header = v.header })

abbrev bucket : ℤ → ℤ → ℕ
bucket rate burst = pos_part burst

abbrev take_one : ℕ → ℕ → ℕ × Bool
take_one now zero = (zero, false)
take_one now (suc n) = (n, true)

abbrev no_host : Text → Option Text
no_host s = none

abbrev no_ip : Text → Option Address
no_ip s = none

abbrev site : Site ℕ ℕ
site = record {
  limiter = record { limiters = []; rate = pos 1; burst = pos 1 };
  log = some (record { ch = none; date = []; file = none });
  inner = 0;
}

abbrev visit : Visit
visit = record {
  now = 1;
  path = text "/healthz";
  url = [];
  header = [];
  peer = record { forwarded_for = []; real_ip = text "10.0.0.9"; remote_addr = text "10.0.0.1:9" };
  start = text "2026-01-01T00:00:00Z";
  method = text "GET";
  user_agent = text "curl";
  duration = 0;
  flushed = 0;
}

-- The second request of the address is refused, and is in no log.
abbrev twice : Site ℕ ℕ × List Answer
twice = serve_all no_host no_host no_ip bucket take_one mux site (visit ∷ visit ∷ [])

serve_all_lem_example :
    let (end, answers) = twice in
    let ps = verdicts no_host no_host no_ip bucket take_one mux site (visit ∷ visit ∷ []) in
    let (bare, given) =
      handle_all no_host no_host no_ip bucket take_one mux site.inner site.log
        (admitted no_host no_host no_ip bucket take_one mux ps (visit ∷ visit ∷ [])) in
    ((end.inner, end.log) ≡ bare)
    × (answers ≡ spread no_host no_host no_ip bucket take_one mux ps (visit ∷ visit ∷ []) given)
serve_all_lem_example =
    serve_all_lem no_host no_host no_ip bucket take_one mux site (visit ∷ visit ∷ [])

second_refused : twice.1 ≡ record { codes = 200 ∷ []; header = secured [] } ∷ limited visit ∷ []
unfolding serve_all serve logged middleware limiter_of client_ip validates lookup
    webridge.Prelude.not_empty insert ◌==◌ text
second_refused = refl

-- The number of entries that wait in the channel.
abbrev waiting : Option Writer → ℕ
waiting none = 0
waiting (some w) = elim w.ch [ none ↦ 0 | some entries ↦ length entries ]

one_line : (waiting twice.0.log ≡ 1) × (twice.0.inner ≡ 1)
unfolding serve_all serve logged middleware limiter_of client_ip validates lookup
    webridge.Prelude.not_empty insert ◌==◌ text webridge.AccessLog.Requests.access_log
    webridge.AccessLog.write
one_line = (refl, refl)

no_policy : lookup (text "Content-Security-Policy") (limited visit).header ≡ none
unfolding lookup insert ◌==◌ text
no_policy = refl
