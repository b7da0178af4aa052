-- ===== src/Download/Whole.antt =====
-- One request of `ServeHTTP` from its arrival to its end, with the provider's `Resolve` and `Stream` in
-- place.
mod Tests
use webridge.Prelude.{
  ℕ, suc, ◌+◌, ◌-◌, Bool, true, false, Option, none, some, List, [], ◌∷◌, if◌then◌else◌, Text, ◌==◌,
  eq_iff, eq_refl, ℤ, ◌≡◌, refl, ap, ◌∙◌, sym, arith, ltb, Option-cases, Bool-cases, ◌⊎◌, inl, inr,
}
use webridge.Prelude.Table.{Table, lookup, insert, erase, lookup-insert, lookup-erase}
use webridge.Audit.{Log, start_download}
use webridge.Registry.{Provider, Registry, Resolved, found, bad_url, no_provider, resolve_provider}
use webridge.Transfer.{TransferInfo, Failure, Outcome, ok, failed, panicked}
use webridge.World.{Reply, reply}
use webridge.Download.{
  Limits, slots, Visit, Flight, resolving, streaming, Downloads, url_refused, begin, enter,
  arrive_at, arrive, settle, settle_size, resolve_flight, resolves, stream_flight, streams,
}

-- As many slots are taken, and the same requests are in flight.
pub record IsSame (d e : Downloads) : Type 0 where
  pub used : e.used ≡ d.used
  pub flights : (id : Text) → lookup id e.flights ≡ lookup id d.flights

-- One slot more is taken, by the request `id`.
record Holds (d e : Downloads) (id : Text) : Type 0 where
  pub used : e.used ≡ suc d.used
  pub flights : (other : Text) → lookup other (erase id e.flights) ≡ lookup other d.flights

module _ (limits : Limits) (parse : Text → Option Text) (parse_error : Text) (registry : Registry)
    (now ms : ℕ) (resolve : Provider → Text → Option Outcome)
    (stream : TransferInfo → Option (ℤ × Option Text)) where
  after_stream :
      Downloads × Option Reply → Text → Option (ℤ × Option Text) → Option (Downloads × Option Reply)
  after_stream (d, answer) id none = none
  after_stream (d, answer) id (some (n, err)) =
      some (streams limits parse parse_error registry now ms d id n err, answer)

  stream_now : Downloads × Option Reply → Text → Option Flight → Option (Downloads × Option Reply)
  stream_now (d, answer) id none = some (d, answer)
  stream_now (d, answer) id (some (resolving v p)) = some (d, answer)
  stream_now (d, answer) id (some (streaming v p info)) = after_stream (d, answer) id (stream info)

  after_resolve : Downloads → Text → Option Outcome → Option (Downloads × Option Reply)
  after_resolve d id none = none
  after_resolve d id (some outcome) =
      let (e, answer) = resolves limits parse parse_error registry now ms d id outcome in
      stream_now (e, answer) id (lookup id e.flights)

  resolve_now : Downloads × Option Reply → Text → Option Flight → Option (Downloads × Option Reply)
  resolve_now (d, answer) id none = some (d, answer)
  resolve_now (d, answer) id (some (streaming v p info)) = some (d, answer)
  resolve_now (d, answer) id (some (resolving v p)) = after_resolve d id (resolve p v.url)

  -- `none`: `Resolve` or `Stream` does not return.
  unfoldable pub serve : Downloads → Text → Visit → Option (Downloads × Option Reply)
  unfolding resolve_now after_resolve stream_now after_stream
  serve d id v =
      let (e, answer) = arrive limits parse parse_error registry now ms d id v in
      resolve_now (e, answer) id (lookup id e.flights)

  -- It returns, and leaves the slots and the other requests as they were.
  abbrev pub Ended : Downloads → Option (Downloads × Option Reply) → Type 0
  Ended d o = (r : Downloads × Option Reply) × (o ≡ some r) × IsSame d r.0

  -- `Resolve` returns, of the provider that serves the URL.
  abbrev pub Resolves : Visit → Type 0
  Resolves v =
      (p : Provider)
      → resolve_provider parse registry v.url ≡ found p
      → (outcome : Outcome) × (resolve p v.url ≡ some outcome)

  -- `Stream` returns for each file.
  abbrev pub Streams : Type 0
  Streams = (info : TransferInfo) → (r : ℤ × Option Text) × (stream info ≡ some r)

  leave-IsSame :
      (d e : Downloads) (id : Text) (l : Log)
      → Holds d e id
      → IsSame d (record { used = e.used - 1; flights = erase id e.flights; log = l })
  leave-IsSame d e id l h = record { used = rw h.used (omega arith); flights = h.flights }

  -- A step that names the request anew, and leaves the slots.
  insert-Holds :
      (d e : Downloads) (id : Text) (f : Flight) (l : Log)
      → Holds d e id
      → Holds d (record { used = e.used; flights = insert id f e.flights; log = l }) id
  insert-Holds d e id f l h = record {
    used = h.used;
    flights = λ j. ground (
      arith,
      h.flights j,
      lookup-erase id j (insert id f e.flights),
      lookup-insert id j f e.flights,
      lookup-erase id j e.flights,
    );
  }

  stream_now-Ended :
      (d e : Downloads) (id : Text) (answer : Option Reply) (v : Visit) (p : Provider)
      (info : TransferInfo)
      → Streams
      → Holds d e id
      → lookup id e.flights ≡ some (streaming v p info)
      → Ended d (stream_now (e, answer) id (some (streaming v p info)))
  unfolding stream_now after_stream streams stream_flight
  stream_now-Ended d e id answer v p info returns h f =
      let ((n, err), k) = returns info in
      (
        (streams limits parse parse_error registry now ms e id n err, answer),
        rw (after_stream, k) refl,
        rw f (leave-IsSame d e id _ h),
      )

  gone : (id : Text) (m : Table Flight) → lookup id (erase id m) ≡ none
  gone id m = ground (arith, lookup-erase id id m, eq_refl id)

  there : (id : Text) (f : Flight) (m : Table Flight) → lookup id (insert id f m) ≡ some f
  there id f m = ground (arith, lookup-insert id id f m, eq_refl id)

  -- Nothing is left to stream.
  left-Ended :
      (d e : Downloads) (id : Text) (l : Log) (answer : Option Reply)
      → Holds d e id
      → Ended d (
          stream_now
            (record { used = e.used - 1; flights = erase id e.flights; log = l }, answer)
            id
            (lookup id (erase id e.flights)))
  unfolding stream_now
  left-Ended d e id l answer h = (
    (record { used = e.used - 1; flights = erase id e.flights; log = l }, answer),
    rw (stream_now, gone id e.flights) refl,
    leave-IsSame d e id l h,
  )

  size-Ended :
      (d e : Downloads) (id : Text) (v : Visit) (p : Provider) (info : TransferInfo)
      (too_large : Bool)
      → Streams
      → Holds d e id
      → let after = settle_size limits parse parse_error registry now ms e id v p info too_large in
        Ended d (stream_now after id (lookup id after.0.flights))
  unfolding settle_size
  size-Ended d e id v p info true returns h = left-Ended d e id _ _ h
  size-Ended d e id v p info false returns h =
      let f = streaming v p info in
      let kept = insert-Holds d e id f (start_download e.log) h in
      rw (there id f e.flights)
        (stream_now-Ended d _ id none v p info returns kept (there id f e.flights))

  -- What `Resolve` returned.
  settle-Ended :
      (d e : Downloads) (id : Text) (v : Visit) (p : Provider) (outcome : Outcome)
      → Streams
      → Holds d e id
      → let after = settle limits parse parse_error registry now ms e id v p outcome in
        Ended d (stream_now after id (lookup id after.0.flights))
  unfolding settle
  settle-Ended d e id v p (failed f) returns h = left-Ended d e id _ _ h
  settle-Ended d e id v p panicked returns h = left-Ended d e id _ _ h
  settle-Ended d e id v p (ok info) returns h = size-Ended d e id v p info _ returns h

  -- Where `Resolve` and `Stream` return, so does the request.
  resolve_now-Ended :
      (d e : Downloads) (id : Text) (answer : Option Reply) (v : Visit) (p : Provider)
      (outcome : Outcome)
      → Streams
      → Holds d e id
      → lookup id e.flights ≡ some (resolving v p)
      → resolve p v.url ≡ some outcome
      → Ended d (resolve_now (e, answer) id (some (resolving v p)))
  unfolding resolve_now after_resolve resolves resolve_flight
  resolve_now-Ended d e id answer v p outcome returns h f k =
      rw (after_resolve, k, f) (settle-Ended d e id v p outcome returns h)

  -- The request ends, and leaves the slots and the other requests as they were.
  abbrev Ends : Downloads → Text → Downloads × Option Reply → Type 0
  Ends d id step = Ended d (resolve_now step id (lookup id step.0.flights))

  refused-Ends :
      (d : Downloads) (id : Text) (l : Log) (answer : Option Reply)
      → lookup id d.flights ≡ none
      → Ends d id (record d { log = l }, answer)
  unfolding resolve_now
  refused-Ends d id l answer h = (
    (record d { log = l }, answer),
    rw (resolve_now, h) refl,
    record { used = refl; flights = λ j. refl },
  )

  begin-Ends :
      (d : Downloads) (id : Text) (v : Visit) (res : Resolved)
      → lookup id d.flights ≡ none
      → ((p : Provider) → res ≡ found p → (outcome : Outcome) × (resolve p v.url ≡ some outcome))
      → Streams
      → Ends d id (begin limits parse parse_error registry now ms d id v res)
  unfolding begin
  begin-Ends d id v (found p) h returns sent =
      let (outcome, k) = returns p refl in
      let f = resolving v p in
      let held : Holds d (record d { used = suc d.used; flights = insert id f d.flights }) id =
        record {
          used = refl;
          flights = λ j. elim (Bool-cases (id == j)) [
            | inl y ↦
                let same : id ≡ j = (eq_iff id j).0 y in
                ground (
                  arith,
                  y,
                  lookup-erase id j (insert id f d.flights),
                  ap (λ x. lookup x d.flights) same,
                  h,
                )
            | inr y ↦ ground (
              arith,
              y,
              lookup-erase id j (insert id f d.flights),
              lookup-insert id j f d.flights,
            )
          ];
        } in
      let e : Downloads = record d { used = suc d.used; flights = insert id f d.flights } in
      rw (there id f d.flights)
        (resolve_now-Ended d e id none v p outcome sent held (there id f d.flights) k)
  begin-Ends d id v no_provider h returns sent = refused-Ends d id _ _ h
  begin-Ends d id v bad_url h returns sent = refused-Ends d id _ _ h

  enter-Ends :
      (d : Downloads) (id : Text) (v : Visit) (refusal : Option Reply)
      → lookup id d.flights ≡ none
      → Resolves v
      → Streams
      → Ends d id (enter limits parse parse_error registry now ms d id v refusal)
  unfolding enter
  enter-Ends d id v (some refusal) h returns sent = refused-Ends d id d.log (some refusal) h
  enter-Ends d id v none h returns sent = elim (Bool-cases (ltb d.used (slots limits))) [
    | inl y ↦
        rw (enter, y) (begin-Ends d id v (resolve_provider parse registry v.url) h returns sent)
    | inr y ↦ rw (enter, y) (refused-Ends d id d.log _ h)
  ]

  -- A request with a name of its own, for which `Resolve` of the provider of its URL and `Stream` return:
  -- it returns, and leaves as many slots taken and the same requests in flight.
  pub serve-Ended :
      (d : Downloads) (id : Text) (v : Visit)
      → lookup id d.flights ≡ none
      → Resolves v
      → Streams
      → Ended d (serve d id v)
  unfolding serve arrive arrive_at
  serve-Ended d id v h returns sent =
      rw (serve, arrive, h) (enter-Ends d id v (url_refused limits v.url) h returns sent)
