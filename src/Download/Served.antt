-- ===== src/Download/Served.antt =====
-- A request of `ServeHTTP` of internal/handlers/download.go with the five clients of internal/providers
-- and their `Stream` behind it.
mod Tests
use webridge.Prelude.{
  ℕ, suc, ◌<◌, ◌≡◌, refl, ap, ◌∙◌, true, false, Option, none, some, List, [], ◌∷◌, if◌then◌else◌,
  Text, text, ◌==◌, ℤ, All, arith, Bool-cases, inl, inr,
}
use webridge.Prelude.Table.{Table, lookup, insert, IsMap}
use webridge.Strings.{to_lower, lower_byte}
use webridge.Links.{is_wetransfer_short}
use webridge.Transfer.{TransferInfo, Outcome, ok, Web}
use webridge.World.{Reply}
use webridge.Registry.{Provider, found, register, resolve_provider}
use webridge.Registry.Resolution.{resolve_provider_sound}
use webridge.Stream.{Attempt, Streamed, file_header, stream}
use webridge.Stream.Attempts.{stream-Ends}
use webridge.Clients.WeTransfer.{final_url, short_request}
use webridge.Clients.WeTransfer.Redirects.{resolve_ends}
use webridge.Clients.Services.{
  Client, we_transfer, send_gb, transfer_now, wesendit, send_space, Json, provider_of, registry,
  resolve,
}
use webridge.Clients.Services.Hosts.{host_of}
use webridge.Download.{Limits, Visit, Downloads}
use webridge.Download.Whole.{IsSame, serve, serve-Ended}

-- The client that `main` registered under a name.
unfoldable pub client_named : Text → Option Client
client_named name =
    if name == text "wetransfer"
    then some we_transfer
    else if name == text "sendgb"
    then some send_gb
    else if name == text "transfernow"
    then some transfer_now
    else if name == text "wesendit"
    then some wesendit
    else if name == text "sendspace"
    then some send_space
    else none

abbrev pub HasClient : Provider → Type 0
HasClient p = (c : Client) × (client_named p.name ≡ some c)

lookup-All :
    (k : Text) (p : Provider) (m : Table Provider)
    → All (λ e. HasClient e.1) m
    → lookup k m ≡ some p
    → HasClient p
unfolding lookup
lookup-All k p [] h e = absurd (ground (arith, e))
lookup-All k p ((j, q) ∷ m) (h, hs) e = elim (Bool-cases (j == k)) [
  | inl y ↦
      let same : p ≡ q = ground (arith, y, e) in (h.0, ap (λ x. client_named x.name) same ∙ h.1)
  | inr n ↦ lookup-All k p m hs (ground (arith, n, e))
]

registry-All : All (λ e. HasClient e.1) registry.host_map
unfolding registry register provider_of client_named insert to_lower lower_byte ◌==◌ text
registry-All = (
  (we_transfer, refl),
  (
    (we_transfer, refl),
    (
      (send_gb, refl),
      (
        (send_gb, refl),
        (
          (transfer_now, refl),
          (
            (transfer_now, refl),
            ((wesendit, refl), ((wesendit, refl), ((send_space, refl), ((send_space, refl), tt)))),
          ),
        ),
      ),
    ),
  ),
)

registry-IsMap : IsMap registry.host_map
unfolding registry register provider_of lookup insert to_lower lower_byte ◌==◌ text
registry-IsMap = (refl, (refl, (refl, (refl, (refl, (refl, (refl, (refl, (refl, (refl, tt))))))))))

module _ (web : Web) (json : Json) (fuel : ℕ) (password : Text) where
  -- `provider.Resolve`; `none`: it does not return.
  unfoldable pub resolve_of : Provider → Text → Option Outcome
  resolve_of p url = elim (client_named p.name) [
    | none ↦ none
    | some c ↦ resolve web json fuel password c url
  ]

-- What `provider.Stream` returns, on the header that the handler has set.
unfoldable pub sent_of : Option Streamed → Option (ℤ × Option Text)
sent_of none = none
sent_of (some r) = some (r.n, r.err)

module _ (canonical : Text → Text) (upstream : TransferInfo → ℕ → Attempt)
    (cancelled : ℕ → Option Text) where
  unfoldable pub stream_of : TransferInfo → Option (ℤ × Option Text)
  stream_of info = sent_of (
      stream canonical (upstream info) cancelled
        (record { header = file_header info; status = none }) 4 0 0)

  stream_returns : (info : TransferInfo) → (r : ℤ × Option Text) × (stream_of info ≡ some r)
  unfolding stream_of sent_of
  stream_returns info =
      let (r, e, short) =
        stream-Ends canonical (upstream info) cancelled
          (record { header = file_header info; status = none }) in
      ((r.n, r.err), ap sent_of e)

module _ (web : Web) (rank : Text → ℕ)
    (falls : (n : ℕ) (url final : Text)
      → is_wetransfer_short url ≡ true
      → final_url (web.send n (short_request url)) ≡ ok final
      → rank final < rank url) where
  client_returns :
      (json : Json) (fuel : ℕ) (password url : Text) (c : Client)
      → rank url < fuel
      → (r : Outcome) × (resolve web json fuel password c url ≡ some r)
  unfolding resolve
  client_returns json fuel password url we_transfer h =
      let (r, e) = resolve_ends web rank falls json.direct_link password url in (r, e fuel h)
  client_returns json fuel password url send_gb h = (_, refl)
  client_returns json fuel password url transfer_now h = (_, refl)
  client_returns json fuel password url wesendit h = (_, refl)
  client_returns json fuel password url send_space h = (_, refl)

  resolve_returns :
      (json : Json) (fuel : ℕ) (password url : Text) (p : Provider)
      → rank url < fuel
      → resolve_provider (λ u. host_of (web.parse_url u)) registry url ≡ found p
      → (r : Outcome) × (resolve_of web json fuel password p url ≡ some r)
  unfolding resolve_of
  resolve_returns json fuel password url p h e =
      let (host, domain, parses, there, under) =
        resolve_provider_sound (λ u. host_of (web.parse_url u)) registry url p registry-IsMap e in
      let (c, named) = lookup-All domain p registry.host_map registry-All there in
      rw (resolve_of, named) (client_returns json fuel password url c h)

  -- A download request with a name of its own ends, whichever client serves its URL, whatever the servers
  -- answer and however it is answered itself, where each redirect of a short link of WeTransfer ends at a
  -- URL of a lower rank; after it as many slots are taken as before and the same requests are in flight.
  pub serve_ends :
      (limits : Limits) (parse_error : Text) (now ms : ℕ) (json : Json) (fuel : ℕ) (password : Text)
      (canonical : Text → Text) (upstream : TransferInfo → ℕ → Attempt)
      (cancelled : ℕ → Option Text) (d : Downloads) (id : Text) (v : Visit)
      → lookup id d.flights ≡ none
      → rank v.url < fuel
      → (r : Downloads × Option Reply) × (serve limits
            (λ u. host_of (web.parse_url u))
            parse_error
            registry
            now
            ms
            (resolve_of web json fuel password)
            (stream_of canonical upstream cancelled)
            d
            id
            v
          ≡ some r)
        × IsSame d r.0
  serve_ends limits parse_error now ms json fuel password canonical upstream cancelled d id v h l =
      serve-Ended limits (λ u. host_of (web.parse_url u)) parse_error registry now ms
        (resolve_of web json fuel password) (stream_of canonical upstream cancelled) d id v h
        (λ p e. resolve_returns json fuel password v.url p l e)
        (stream_returns canonical upstream cancelled)
