-- ===== src/Info.antt =====
-- `InfoHandler` and `RecentHandler` of internal/handlers/download.go. What `Resolve` returns is an
-- argument; of the JSON answers only the list of the recent downloads is modelled.
pub mod Recent
pub mod Privacy
mod Tests
use webridge.Prelude.{
  ℕ, Bool, true, false, ◌&&◌, Option, none, some, List, [], ◌∷◌, ◌++◌, length, eqb, if◌then◌else◌,
  Text, text, ◌==◌, pos,
}
use webridge.Event.{Event}
use webridge.Strings.{has_prefix}
use webridge.Audit.{Log, Query, add, add_event}
use webridge.Audit.Handlers.{Database, query}
use webridge.Registry.{
  Provider, Registry, Resolved, found, bad_url, no_provider, resolve_provider, get_provider_names,
}
use webridge.Transfer.{Failure, Outcome, ok, failed, panicked, is_format_error, is_upstream_error}
use webridge.World.{Reply, reply}
use webridge.Download.{Limits, Visit, url_refused, log_download, join, short_url_error}

-- The branches of an error; a password that is missing is answered with 200.
unfoldable pub info_failure_reply : Provider → Text → Failure → Reply
info_failure_reply p url f =
    if f.is_password
    then reply 200 (text "This transfer is password-protected")
    else if p.name == text "wetransfer" && has_prefix url (text "https://we.tl/")
    then short_url_error f.message
    else if is_format_error f.message
    then reply 400 (text "Invalid " ++ p.name ++ text " link format.")
    else if is_upstream_error f.message
    then reply 502 (p.name ++ text " is currently unavailable. Please try again later.")
    else reply 502 (text "Failed to resolve: " ++ f.message)

module _ (limits : Limits) (parse : Text → Option Text) (parse_error : Text) (registry : Registry)
    (now ms : ℕ) (agent : Text) where
  -- There is no reply where `Resolve` panics.
  info_resolved : Log → Visit → Provider → Outcome → Log × Option Reply
  info_resolved l v p (failed f) = (
    log_download now ms l v p.name none (pos 0) (some f.message),
    some (info_failure_reply p v.url f),
  )
  info_resolved l v p panicked = (l, none)
  info_resolved l v p (ok info) = (
    add_event now l (record {
      time = now;
      action = text "info_check";
      user = v.username;
      ip = v.client_ip;
      detail = text "success";
      url = v.url;
      provider = p.name;
      filename = info.file_name;
      file_size = info.file_size;
      resolved_url = info.direct_url;
      bytes_transferred = pos 0;
      duration_ms = ms;
      sha256 = [];
      client_ua = agent;
    }),
    some (reply 200 []),
  )

  info_provider : Log → Visit → Outcome → Resolved → Log × Option Reply
  info_provider l v outcome (found p) = info_resolved l v p outcome
  info_provider l v outcome no_provider = (
    log_download now ms l v [] none (pos 0) (some (text "no provider found for this URL")),
    some (
        reply 400 (
          text "This service isn't supported yet. Supported: "
          ++ join (get_provider_names registry))),
  )
  info_provider l v outcome bad_url = (
    log_download now ms l v [] none (pos 0) (some parse_error),
    some (reply 400 (text "Unsupported URL.")),
  )

  info_checked : Log → Visit → Outcome → Option Reply → Log × Option Reply
  info_checked l v outcome (some refusal) = (l, some refusal)
  info_checked l v outcome none =
      info_provider (add now l (text "info_check") v.username v.client_ip v.url) v outcome
        (resolve_provider parse registry v.url)

  unfoldable pub info_handler : Log → Visit → Outcome → Log × Option Reply
  unfolding info_checked info_provider info_resolved
  info_handler l v outcome = info_checked l v outcome (url_refused limits v.url)

abbrev pub is_download : Event → Bool
is_download e = has_prefix e.action (text "download_")

-- The loop over the events; it ends with the tenth download.
unfoldable pub recent_from : List Event → List Event → List Event
recent_from [] out = out
recent_from (e ∷ events) out =
    let skip = recent_from events out in
    let more = recent_from events (out ++ e ∷ []) in
    if is_download e
    then (if eqb (length (out ++ e ∷ [])) 10 then out ++ e ∷ [] else more)
    else skip

abbrev pub recent_query : Text → Query
recent_query username = record {
  user = username;
  action = [];
  limit = pos 100;
  offset = pos 0;
  from_ms = pos 0;
  to_ms = pos 0;
}

unfoldable pub recent_handler : Database → Log → Text → List Event
unfolding recent_from
recent_handler db l username = recent_from (query db l (recent_query username)) []
