-- ===== src/Server/Chain.antt =====
-- What the middleware does to requests, all of it together.
use webridge.Prelude.{
  Bool, true, false, ◌&&◌, Option, List, [], ◌∷◌, map, if◌then◌else◌, Text, ◌≡◌, refl, ℕ, ℤ, arith,
  Bool-cases, inl, inr,
}
use webridge.AccessLog.{Writer}
use webridge.RateLimit
use webridge.RateLimit.{middleware}
use webridge.Security.{Address, client_ip, validates}
use webridge.Server.{Visit, Answer, Site, Handler, secured, error_answer, limited, logged, serve}

module _ {L W : Type 0} (split_host_port parse_host : Text → Option Text)
    (parse_ip : Text → Option Address) (new_limiter : ℤ → ℤ → L) (allow : ℕ → L → L × Bool)
    (mux : W → Visit → W × Answer) where
  -- The handlers, which see neither the limiters nor the access log.
  behind : Handler L W
  behind s v = let (inner, a) = mux s.inner v in (record s { inner = inner }, a)

  -- Requests one after the other, and their answers.
  unfoldable pub serve_all : Site L W → List Visit → Site L W × List Answer
  unfolding behind
  serve_all s [] = (s, [])
  serve_all s (v ∷ vs) =
      let (t, a) = serve split_host_port parse_host parse_ip new_limiter allow behind s v in
      let (end, rest) = serve_all t vs in (end, a ∷ rest)

  -- The handlers and the log with no middleware before them.
  unfoldable pub handle_all : W → Option Writer → List Visit → (W × Option Writer) × List Answer
  handle_all w log [] = ((w, log), [])
  handle_all w log (v ∷ vs) =
      let (after, a) = mux w v in
      let (end, rest) = handle_all after (logged split_host_port log v a) vs in (end, a ∷ rest)

  -- What the limiters say of the requests, asked about nothing else.
  abbrev pub verdicts : Site L W → List Visit → List (Text × Bool)
  verdicts s vs =
      RateLimit.serve new_limiter allow s.limiter
        (map (λ v. (v.now, client_ip split_host_port v.peer)) vs)

  -- The requests that the limiters let through and that name no private address, on a header with the
  -- security fields.
  unfoldable pub admitted : List (Text × Bool) → List Visit → List Visit
  admitted [] vs = []
  admitted (p ∷ ps) [] = []
  admitted ((ip, passes) ∷ ps) (v ∷ vs) =
      let rest = admitted ps vs in
      if passes && validates parse_host parse_ip v.url
      then record v { header = secured v.header } ∷ rest
      else rest

  -- The answers of the handlers, and among them 429 and 403 for the requests that are refused.
  unfoldable pub spread : List (Text × Bool) → List Visit → List Answer → List Answer
  spread [] vs answers = []
  spread (p ∷ ps) [] answers = []
  spread ((ip, false) ∷ ps) (v ∷ vs) answers = limited v ∷ spread ps vs answers
  spread ((ip, true) ∷ ps) (v ∷ vs) answers = elim (validates parse_host parse_ip v.url) [
    | false ↦ error_answer 403 v.header ∷ spread ps vs answers
    | true ↦ elim answers [ [] ↦ [] | a ∷ rest ↦ a ∷ spread ps vs rest ]
  ]

  -- Whatever requests come: the handlers and the access log end up as if only those requests had come that
  -- the limiters let through and that name no private address, each on a header with the security fields
  -- and with its entry for the log. Their answers are those of the handlers, and every other request is
  -- answered with 429 and Retry-After, or with 403, on its own header.
  pub serve_all_lem :
      (s : Site L W) (vs : List Visit)
      → let (end, answers) = serve_all s vs in
        let ps = verdicts s vs in
        let (bare, given) = handle_all s.inner s.log (admitted ps vs) in
        ((end.inner, end.log) ≡ bare) × (answers ≡ spread ps vs given)
  unfolding serve_all handle_all admitted spread serve RateLimit.serve behind
  serve_all_lem s [] = (refl, refl)
  serve_all_lem s (v ∷ vs) =
      let (rl, passes) =
        middleware new_limiter allow s.limiter v.now (client_ip split_host_port v.peer) in
      let (w, a) = mux s.inner (record v { header = secured v.header }) in
      let log = logged split_host_port s.log (record v { header = secured v.header }) a in
      let refused = serve_all_lem (record s { limiter = rl }) vs in
      let served = serve_all_lem (record s { limiter = rl; inner = w; log = log }) vs in
      elim (Bool-cases passes) [
        | inl y ↦ elim (Bool-cases (validates parse_host parse_ip v.url)) [
          | inl z ↦ ground (arith, y, z, served)
          | inr z ↦ ground (arith, y, z, refused)
        ]
        | inr y ↦ ground (arith, y, refused)
      ]
