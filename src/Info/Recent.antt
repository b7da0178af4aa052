-- ===== src/Info/Recent.antt =====
-- The list of a user's recent downloads (internal/handlers/download.go) against its specification.
use mathlib.Core.List.{reverse, append_assoc, append-nil}
use webridge.Prelude.{
  ℕ, zero, suc, ◌+◌, ◌≡◌, sym, ap, ◌∙◌, List, [], ◌∷◌, ◌++◌, length, length-append, take, keep,
  arith, Text, none,
}
use webridge.Event.{Event}
use webridge.Audit.{Log, selects, query_memory}
use webridge.Audit.Handlers.{Database, query_of_none}
use webridge.Audit.Search.{query_memory_lem}
use webridge.Info.{is_download, recent_from, recent_query, recent_handler}

recent_from_lem :
    (events out : List Event) (room : ℕ)
    → length out + suc room ≡ 10
    → recent_from events out ≡ out ++ take (suc room) (keep is_download events)
unfolding recent_from
recent_from_lem [] out room l = sym (append-nil out)
recent_from_lem (e ∷ events) out zero l =
    ground (arith, recent_from_lem events out zero l, length-append out (e ∷ []))
recent_from_lem (e ∷ events) out (suc room) l = ground (
  arith,
  recent_from_lem events out (suc room) l,
  recent_from_lem events (out ++ e ∷ []) room,
  length-append out (e ∷ []),
  append_assoc out (e ∷ []) (take (suc room) (keep is_download events)),
)

pub take-recent_from :
    (events : List Event) → recent_from events [] ≡ take 10 (keep is_download events)
take-recent_from events = recent_from_lem events [] 9 (omega arith)

-- For a log with no store the recent downloads are the ten newest downloads among the hundred newest
-- events that the username selects.
pub recent_handler_lem :
    (db : Database) (l : Log) (username : Text)
    → l.store ≡ none
    → recent_handler db l username
      ≡ take 10
          (keep is_download (take 100 (keep (selects (recent_query username)) (reverse l.events))))
unfolding recent_handler
recent_handler_lem db l username h =
    ap (λ es. recent_from es []) (query_of_none db l (recent_query username) h)
    ∙ take-recent_from (query_memory l (recent_query username))
    ∙ ap (λ es. take 10 (keep is_download es)) (query_memory_lem l (recent_query username))
