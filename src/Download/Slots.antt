-- ===== src/Download/Slots.antt =====
-- The semaphore and the count of active downloads of internal/handlers/download.go, over the steps of
-- requests in any order.
use webridge.Prelude.{
  ℕ, ◌+◌, ◌≤◌, ◌<◌, ◌≡◌, refl, ◌∙◌, Bool, true, false, Option, none, some, List, [], ◌∷◌, if_cases,
  Text, ℤ, pos, negsuc, ltb_ℤ, arith,
}
use webridge.Prelude.Table.{
  lookup, erase, count, IsMap, insert-IsMap, erase-IsMap, count-insert_old, count-insert_new,
  count-erase,
}
use webridge.Audit.{Log, add_event, start_download, end_download, minus_one}
use webridge.Registry.{Registry, Provider, Resolved, found, bad_url, no_provider, resolve_provider}
use webridge.Transfer.{TransferInfo, Outcome, ok, failed, panicked}
use webridge.World.{Reply}
use webridge.Download.{
  Limits, Visit, Flight, resolving, streaming, Downloads, slots, url_refused, gigabytes,
  log_download, arrive, arrive_at, enter, begin, resolves, resolve_flight, settle, settle_size,
  streams, stream_flight, leave,
}

abbrev any_flight : Flight → Bool
any_flight f = true

abbrev pub is_streaming : Flight → Bool
is_streaming (resolving v p) = false
is_streaming (streaming v p info) = true

-- Each request in flight holds one slot, no more are taken than there are, and the count of active
-- downloads is that of the requests that stream.
pub record IsBalanced (limits : Limits) (d : Downloads) : Type 0 where
  pub flights : IsMap d.flights
  pub used : d.used ≡ count any_flight d.flights
  pub within : d.used ≤ slots limits
  pub active : d.log.active ≡ pos (count is_streaming d.flights)

active-log_download :
    (now ms : ℕ) (l : Log) (v : Visit) (name : Text) (info : Option TransferInfo) (n : ℤ)
    (err : Option Text)
    → (log_download now ms l v name info n err).active ≡ l.active
unfolding log_download add_event
active-log_download now ms l v name info n err = refl

minus_one-pos : (n : ℕ) (a : ℤ) → a ≡ pos (n + 1) → minus_one a ≡ pos n
minus_one-pos n (pos m) e = ground arith
minus_one-pos n (negsuc m) e = cc

module _ (limits : Limits) (parse : Text → Option Text) (parse_error : Text) (registry : Registry)
    (now ms : ℕ) where
  begin-IsBalanced :
      (d : Downloads) (id : Text) (v : Visit) (r : Resolved)
      → lookup id d.flights ≡ none
      → d.used < slots limits
      → IsBalanced limits d
      → IsBalanced limits (begin limits parse parse_error registry now ms d id v r).0
  unfolding begin
  begin-IsBalanced d id v (found p) e l h = record {
    flights = insert-IsMap id (resolving v p) d.flights h.flights;
    used = ground (arith, h.used, count-insert_new any_flight id (resolving v p) d.flights e);
    within = l;
    active = ground (arith, h.active, count-insert_new is_streaming id (resolving v p) d.flights e);
  }
  begin-IsBalanced d id v bad_url e l h = record {
    flights = h.flights;
    used = h.used;
    within = h.within;
    active = active-log_download _ _ _ _ _ _ _ _ ∙ h.active;
  }
  begin-IsBalanced d id v no_provider e l h = record {
    flights = h.flights;
    used = h.used;
    within = h.within;
    active = active-log_download _ _ _ _ _ _ _ _ ∙ h.active;
  }

  Balanced : Downloads × Option Reply → Type 0
  Balanced r = IsBalanced limits r.0

  enter-IsBalanced :
      (d : Downloads) (id : Text) (v : Visit) (refusal : Option Reply)
      → lookup id d.flights ≡ none
      → IsBalanced limits d
      → IsBalanced limits (enter limits parse parse_error registry now ms d id v refusal).0
  unfolding enter Balanced
  enter-IsBalanced d id v (some r) e h = h
  enter-IsBalanced d id v none e h =
      if_cases Balanced _ _ _
        (λ l.
          begin-IsBalanced d id v (resolve_provider parse registry v.url) e (ground (arith, l)) h)
        (λ _. h)

  arrive_at-IsBalanced :
      (d : Downloads) (id : Text) (v : Visit) (o : Option Flight)
      → lookup id d.flights ≡ o
      → IsBalanced limits d
      → IsBalanced limits (arrive_at limits parse parse_error registry now ms d id v o).0
  unfolding arrive_at
  arrive_at-IsBalanced d id v none e h = enter-IsBalanced d id v (url_refused limits v.url) e h
  arrive_at-IsBalanced d id v (some f) e h = h

  -- A request that leaves takes its slot along.
  leave-IsBalanced :
      (d : Downloads) (id : Text) (f : Flight) (log : Log)
      → lookup id d.flights ≡ some f
      → (log.active ≡ pos (count is_streaming (erase id d.flights)))
      → IsBalanced limits d
      → IsBalanced limits (leave limits parse parse_error registry now ms d id log)
  leave-IsBalanced d id f log e a h = record {
    flights = erase-IsMap id d.flights h.flights;
    used = ground (arith, h.used, count-erase any_flight id f d.flights h.flights e);
    within = omega (arith, h.within);
    active = a;
  }

  -- A request that does not stream leaves the count as it is.
  quiet :
      (d : Downloads) (id : Text) (v : Visit) (p : Provider)
      → lookup id d.flights ≡ some (resolving v p)
      → IsBalanced limits d
      → d.log.active ≡ pos (count is_streaming (erase id d.flights))
  quiet d id v p e h =
      ground (arith, h.active, count-erase is_streaming id (resolving v p) d.flights h.flights e)

  settle_size-IsBalanced :
      (d : Downloads) (id : Text) (v : Visit) (p : Provider) (info : TransferInfo) (large : Bool)
      → lookup id d.flights ≡ some (resolving v p)
      → IsBalanced limits d
      → IsBalanced limits
          (settle_size limits parse parse_error registry now ms d id v p info large).0
  unfolding settle_size start_download
  settle_size-IsBalanced d id v p info true e h =
      leave-IsBalanced d id (resolving v p) _ e
        (active-log_download _ _ _ _ _ _ _ _ ∙ quiet d id v p e h) h
  settle_size-IsBalanced d id v p info false e h = record {
    flights = insert-IsMap id (streaming v p info) d.flights h.flights;
    used = ground (
      arith,
      h.used,
      count-insert_old any_flight id (streaming v p info) (resolving v p) d.flights e,
    );
    within = h.within;
    active = ground (
      arith,
      h.active,
      count-insert_old is_streaming id (streaming v p info) (resolving v p) d.flights e,
    );
  }

  settle-IsBalanced :
      (d : Downloads) (id : Text) (v : Visit) (p : Provider) (outcome : Outcome)
      → lookup id d.flights ≡ some (resolving v p)
      → IsBalanced limits d
      → IsBalanced limits (settle limits parse parse_error registry now ms d id v p outcome).0
  unfolding settle
  settle-IsBalanced d id v p (failed f) e h =
      leave-IsBalanced d id (resolving v p) _ e
        (active-log_download _ _ _ _ _ _ _ _ ∙ quiet d id v p e h) h
  settle-IsBalanced d id v p panicked e h =
      leave-IsBalanced d id (resolving v p) _ e (quiet d id v p e h) h
  settle-IsBalanced d id v p (ok info) e h =
      settle_size-IsBalanced d id v p info
        (ltb_ℤ (gigabytes limits.max_file_size_gb) info.file_size) e h

  resolve_flight-IsBalanced :
      (d : Downloads) (id : Text) (outcome : Outcome) (o : Option Flight)
      → lookup id d.flights ≡ o
      → IsBalanced limits d
      → IsBalanced limits (resolve_flight limits parse parse_error registry now ms d id outcome o).0
  unfolding resolve_flight
  resolve_flight-IsBalanced d id outcome none e h = h
  resolve_flight-IsBalanced d id outcome (some (streaming v p info)) e h = h
  resolve_flight-IsBalanced d id outcome (some (resolving v p)) e h =
      settle-IsBalanced d id v p outcome e h

  stream_flight-IsBalanced :
      (d : Downloads) (id : Text) (n : ℤ) (err : Option Text) (o : Option Flight)
      → lookup id d.flights ≡ o
      → IsBalanced limits d
      → IsBalanced limits (stream_flight limits parse parse_error registry now ms d id n err o)
  unfolding stream_flight end_download
  stream_flight-IsBalanced d id n err none e h = h
  stream_flight-IsBalanced d id n err (some (resolving v p)) e h = h
  stream_flight-IsBalanced d id n err (some (streaming v p info)) e h =
      leave-IsBalanced d id (streaming v p info) _ e
        (active-log_download _ _ _ _ _ _ _ _
          ∙ minus_one-pos (count is_streaming (erase id d.flights)) d.log.active (
              ground (
                arith,
                h.active,
                count-erase is_streaming id (streaming v p info) d.flights h.flights e,
              )))
        h

-- A step of one request, with the clock's reading and the milliseconds since it began.
pub data Move : Type 0 where
  arrives : ℕ → ℕ → Text → Visit → Move
  resolves_to : ℕ → ℕ → Text → Outcome → Move
  streams_to : ℕ → ℕ → Text → ℤ → Option Text → Move

module _ (limits : Limits) (parse : Text → Option Text) (parse_error : Text)
    (registry : Registry) where
  pub move : Downloads → Move → Downloads
  move d (arrives now ms id v) = (arrive limits parse parse_error registry now ms d id v).0
  move d (resolves_to now ms id outcome) =
      (resolves limits parse parse_error registry now ms d id outcome).0
  move d (streams_to now ms id n err) = streams limits parse parse_error registry now ms d id n err

  pub move_all : Downloads → List Move → Downloads
  move_all d [] = d
  move_all d (m ∷ ms) = move_all (move d m) ms

  move-IsBalanced : (d : Downloads) (m : Move) → IsBalanced limits d → IsBalanced limits (move d m)
  unfolding move arrive resolves streams
  move-IsBalanced d (arrives now ms id v) h =
      arrive_at-IsBalanced limits parse parse_error registry now ms d id v (lookup id d.flights)
        refl h
  move-IsBalanced d (resolves_to now ms id outcome) h =
      resolve_flight-IsBalanced limits parse parse_error registry now ms d id outcome
        (lookup id d.flights) refl h
  move-IsBalanced d (streams_to now ms id n err) h =
      stream_flight-IsBalanced limits parse parse_error registry now ms d id n err
        (lookup id d.flights) refl h

  -- Whatever the requests do, in any order of their steps: where each request in flight holds one
  -- slot, no more slots are taken than there are, and the count of active downloads is the number of
  -- requests that stream, this is so afterwards.
  pub move_all-IsBalanced :
      (d : Downloads) (ms : List Move) → IsBalanced limits d → IsBalanced limits (move_all d ms)
  unfolding move_all
  move_all-IsBalanced d [] h = h
  move_all-IsBalanced d (m ∷ ms) h = move_all-IsBalanced (move d m) ms (move-IsBalanced d m h)
