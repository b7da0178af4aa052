-- ===== src/Download.antt =====
-- `ServeHTTP` of internal/handlers/download.go, in the three steps between which other requests run: the
-- semaphore and the provider, the provider's `Resolve`, and its `Stream`. What `Resolve` and `Stream`
-- return are arguments. The headers of the answer are not modelled.
pub mod Slots
pub mod Whole
pub mod Served
mod Tests
use webridge.Prelude.{
  ℕ, suc, ◌+◌, ◌-◌, ◌*◌, ◌%◌, ◌^◌, Bool, true, false, ◌&&◌, ◌||◌, not, Option, none, some, List, [],
  ◌∷◌, ◌++◌, length, ltb, if◌then◌else◌, Text, text, ◌==◌, not_empty, ℤ, pos, negsuc, ltb_ℤ, signed,
  is_positive, pos_part,
}
use webridge.Prelude.Table.{Table, lookup, insert, erase}
use webridge.Strings.{to_lower, contains, has_prefix}
use webridge.Audit.{Log, add_event, start_download, end_download}
use webridge.Registry.{
  Provider, Registry, Resolved, found, bad_url, no_provider, resolve_provider, get_provider_names,
}
use webridge.Transfer.{
  TransferInfo, Failure, Outcome, ok, failed, panicked, is_format_error, is_upstream_error,
}
use webridge.World.{Reply, reply}

-- The settings that the handler reads.
pub record Limits : Type 0 where
  pub max_url_length : ℤ
  pub max_file_size_gb : ℤ
  pub max_concurrent_downloads : ℤ

pub record Visit : Type 0 where
  pub username : Text
  pub client_ip : Text
  pub url : Text

-- A request that holds a slot of the semaphore.
pub data Flight : Type 0 where
  resolving : Visit → Provider → Flight
  streaming : Visit → Provider → TransferInfo → Flight

-- `used` is the length of the channel `sem`; each request in flight has a name of its own.
pub record Downloads : Type 0 where
  pub used : ℕ
  pub flights : Table Flight
  pub log : Log

-- `NewDownloadHandler`: the capacity of the semaphore.
abbrev pub slots : Limits → ℕ
slots limits =
    if is_positive limits.max_concurrent_downloads
    then pos_part limits.max_concurrent_downloads
    else 50

unfoldable pub url_refused : Limits → Text → Option Reply
url_refused limits url =
    if not (not_empty url)
    then some (reply 400 (text "Missing 'url' parameter"))
    else if ltb_ℤ limits.max_url_length (pos (length url))
    then some (reply 400 (text "URL too long"))
    else none

-- `int64(gb)*1024*1024*1024`
unfoldable pub gigabytes : ℤ → ℤ
gigabytes (pos n) = signed ((n * 2 ^ 30) % 2 ^ 64)
gigabytes (negsuc n) = signed ((2 ^ 64 - (suc n * 2 ^ 30) % 2 ^ 64) % 2 ^ 64)

unfoldable pub short_url_error : Text → Reply
short_url_error message =
    if contains message (text "redirect/error") || contains message (text "data center IP")
    then reply 502 (
        text
          "Short links can't be resolved from data center IPs. Use the full WeTransfer download link instead.")
    else reply 502 (text "Failed to resolve short URL. Try the full WeTransfer link.")

unfoldable pub failure_reply : Provider → Text → Failure → Reply
failure_reply p url f =
    if f.is_password
    then reply 401 (text "This transfer is password-protected")
    else if p.name == text "wetransfer" && has_prefix url (text "https://we.tl/")
    then short_url_error f.message
    else if is_format_error f.message
    then reply 400 (text "Invalid " ++ p.name ++ text " link format.")
    else if is_upstream_error f.message
    then reply 502 (p.name ++ text " is currently unavailable. Please try again later.")
    else reply 502 (text "Failed to resolve download: " ++ f.message)

-- `strings.Join(names, ", ")`
unfoldable pub join : List Text → Text
join [] = []
join (t ∷ []) = t
join (t ∷ u ∷ ts) = t ++ text ", " ++ join (u ∷ ts)

abbrev pub no_info : TransferInfo
no_info = record { direct_url = []; file_name = []; file_size = pos 0; file_count = 0 }

-- `logDownload`, at the clock's reading `now`, after `ms` milliseconds.
unfoldable pub log_download :
    ℕ → ℕ → Log → Visit → Text → Option TransferInfo → ℤ → Option Text → Log
log_download now ms l v provider info n err =
    let i : TransferInfo = elim info [ none ↦ no_info | some given ↦ given ] in
    add_event now l (record {
      time = now;
      action = elim err [ none ↦ text "download_success" | some e ↦ text "download_error" ];
      user = v.username;
      ip = v.client_ip;
      detail = elim err [ none ↦ text "success" | some e ↦ text "error: " ++ e ];
      url = v.url;
      provider = provider;
      filename = i.file_name;
      file_size = i.file_size;
      resolved_url = i.direct_url;
      bytes_transferred = n;
      duration_ms = ms;
      sha256 = [];
      client_ua = [];
    })

module _ (limits : Limits) (parse : Text → Option Text) (parse_error : Text) (registry : Registry)
    (now ms : ℕ) where
  -- The slot is given back, and the event logged.
  abbrev leave : Downloads → Text → Log → Downloads
  leave d id log = record { used = d.used - 1; flights = erase id d.flights; log = log }

  -- What `ResolveProvider` gave to a request that has its slot.
  begin : Downloads → Text → Visit → Resolved → Downloads × Option Reply
  begin d id v (found p) =
      (record d { used = suc d.used; flights = insert id (resolving v p) d.flights }, none)
  begin d id v no_provider = (
    record d {
      log =
          log_download now ms d.log v [] none (pos 0)
            (some (text "no provider found for this URL"));
    },
    some (
        reply 400 (
          text "This service isn't supported yet. Supported: "
          ++ join (get_provider_names registry))),
  )
  begin d id v bad_url = (
    record d { log = log_download now ms d.log v [] none (pos 0) (some parse_error) },
    some (reply 400 (text "Unsupported URL.")),
  )

  -- A request that finds no slot for 30 seconds is sent away.
  enter : Downloads → Text → Visit → Option Reply → Downloads × Option Reply
  enter d id v (some refusal) = (d, some refusal)
  enter d id v none =
      if ltb d.used (slots limits)
      then begin d id v (resolve_provider parse registry v.url)
      else (d, some (reply 503 (text "Server busy, try again later")))

  -- A name that is in use names no new request.
  arrive_at : Downloads → Text → Visit → Option Flight → Downloads × Option Reply
  arrive_at d id v (some f) = (d, none)
  arrive_at d id v none = enter d id v (url_refused limits v.url)

  unfoldable pub arrive : Downloads → Text → Visit → Downloads × Option Reply
  unfolding arrive_at enter begin
  arrive d id v = arrive_at d id v (lookup id d.flights)

  -- The check of the size.
  settle_size : Downloads → Text → Visit → Provider → TransferInfo → Bool → Downloads × Option Reply
  settle_size d id v p info true = (
    leave d id (log_download now ms d.log v p.name none (pos 0) (some (text "file too large"))),
    some (reply 413 (text "File too large")),
  )
  settle_size d id v p info false = (
    record d { flights = insert id (streaming v p info) d.flights; log = start_download d.log },
    none,
  )

  settle : Downloads → Text → Visit → Provider → Outcome → Downloads × Option Reply
  settle d id v p (failed f) = (
    leave d id (log_download now ms d.log v p.name none (pos 0) (some f.message)),
    some (failure_reply p v.url f),
  )
  -- The deferred function gives the slot back.
  settle d id v p panicked = (leave d id d.log, none)
  settle d id v p (ok info) =
      settle_size d id v p info (ltb_ℤ (gigabytes limits.max_file_size_gb) info.file_size)

  resolve_flight : Downloads → Text → Outcome → Option Flight → Downloads × Option Reply
  resolve_flight d id outcome none = (d, none)
  resolve_flight d id outcome (some (streaming v p info)) = (d, none)
  resolve_flight d id outcome (some (resolving v p)) = settle d id v p outcome

  -- `Resolve` returns to the request.
  unfoldable pub resolves : Downloads → Text → Outcome → Downloads × Option Reply
  unfolding resolve_flight settle settle_size
  resolves d id outcome = resolve_flight d id outcome (lookup id d.flights)

  stream_flight : Downloads → Text → ℤ → Option Text → Option Flight → Downloads
  stream_flight d id n err none = d
  stream_flight d id n err (some (resolving v p)) = d
  stream_flight d id n err (some (streaming v p info)) =
      leave d id (log_download now ms (end_download d.log) v p.name (some info) n err)

  -- `Stream` returns to the request, with the bytes that it wrote and its error.
  unfoldable pub streams : Downloads → Text → ℤ → Option Text → Downloads
  unfolding stream_flight
  streams d id n err = stream_flight d id n err (lookup id d.flights)
