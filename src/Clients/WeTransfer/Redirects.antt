-- ===== src/Clients/WeTransfer/Redirects.antt =====
-- The chain of short links that `parseURL` follows.
use webridge.Prelude.{ℕ, zero, suc, ◌<◌, true, none, some, Text, ◌≡◌, refl, arith, ◌⊎◌, inl, inr}
use webridge.Transfer.{Outcome, Result, ok, ◌>>=◌, parsed, Decoded, Web}
use webridge.Links.{is_wetransfer_short}
use webridge.Clients.WeTransfer.{
  Ids, Hop, done, follow, hop, hop_short, final_url, short_request, parse_url, DirectLink,
  get_direct_link, after_parse, resolve,
}

pub hop_cases : (h : Hop) → ((r : Result Ids) × (h ≡ done r)) ⊎ ((t : Text) × (h ≡ follow t))
hop_cases (done r) = inl (r, refl)
hop_cases (follow t) = inr (t, refl)

-- It follows what a short link was answered with.
hop_follow :
    (web : Web) (n : ℕ) (url t : Text)
    → hop web n url ≡ follow t
    → (is_wetransfer_short url ≡ true) × (final_url (web.send n (short_request url)) ≡ ok t)
unfolding hop hop_short
hop_follow web n url t h = ground arith

module _ (web : Web) (rank : Text → ℕ)
    (falls : (n : ℕ) (url final : Text)
      → is_wetransfer_short url ≡ true
      → final_url (web.send n (short_request url)) ≡ ok final
      → rank final < rank url) where
  parse_url_same :
      (fuel more n : ℕ) (url : Text)
      → rank url < fuel
      → rank url < more
      → parse_url web fuel n url ≡ parse_url web more n url
  unfolding parse_url
  parse_url_same zero more n url h k = ground arith
  parse_url_same (suc fuel) zero n url h k = ground arith
  parse_url_same (suc fuel) (suc more) n url h k = elim (hop_cases (hop web n url)) [
    | inl (r, e) ↦ rw e refl
    | inr (t, e) ↦
        let (short, final) = hop_follow web n url t e in
        let lower = falls n url t short final in
        rw e (parse_url_same fuel more (suc n) t (omega arith) (omega arith))
  ]

  parse_url_ends :
      (fuel n : ℕ) (url : Text)
      → rank url < fuel
      → (r : Result Ids × ℕ) × (parse_url web fuel n url ≡ some r)
  unfolding parse_url
  parse_url_ends zero n url h = ground arith
  parse_url_ends (suc fuel) n url h = elim (hop_cases (hop web n url)) [
    | inl (r, e) ↦ ((r, suc n), rw e refl)
    | inr (t, e) ↦
        let (short, final) = hop_follow web n url t e in
        let lower = falls n url t short final in
        let (r, same) = parse_url_ends fuel (suc n) t (omega arith) in (r, rw e same)
  ]

  -- Where each redirect of a short link ends at a URL of a lower rank, `Resolve` returns: with every
  -- fuel above the URL's rank, and with the same result.
  pub resolve_ends :
      (decode : Text → Decoded DirectLink) (password url : Text)
      → (r : Outcome) × ((fuel : ℕ)
          → rank url < fuel
          → resolve web decode password fuel url ≡ some r)
  unfolding resolve after_parse
  resolve_ends decode password url =
      let (r, e) = parse_url_ends (suc (rank url)) 0 url (omega arith) in
      (
        r.0 >>= get_direct_link web decode password r.1,
        λ fuel h. rw (parse_url_same fuel (suc (rank url)) 0 url h (omega arith)) (rw e refl),
      )

hop_stays :
    (web : Web) (n : ℕ) (url host path : Text)
    → web.parse_url url ≡ parsed host path
    → is_wetransfer_short url ≡ true
    → final_url (web.send n (short_request url)) ≡ ok url
    → hop web n url ≡ follow url
unfolding hop hop_short
hop_stays web n url host path p short stays = ground arith

parse_url_loops :
    (web : Web) (url host path : Text)
    → web.parse_url url ≡ parsed host path
    → is_wetransfer_short url ≡ true
    → ((n : ℕ) → final_url (web.send n (short_request url)) ≡ ok url)
    → (fuel n : ℕ) → parse_url web fuel n url ≡ none
unfolding parse_url
parse_url_loops web url host path p short stays zero n = refl
parse_url_loops web url host path p short stays (suc fuel) n =
    rw (hop_stays web n url host path p short (stays n))
      (parse_url_loops web url host path p short stays fuel (suc n))

-- A short link that is answered without a redirect, each time: `Resolve` returns with no fuel, so the
-- code asks for the link again and again.
pub resolve_loops :
    (web : Web) (decode : Text → Decoded DirectLink) (password url host path : Text)
    → web.parse_url url ≡ parsed host path
    → is_wetransfer_short url ≡ true
    → ((n : ℕ) → final_url (web.send n (short_request url)) ≡ ok url)
    → (fuel : ℕ) → resolve web decode password fuel url ≡ none
unfolding resolve after_parse
resolve_loops web decode password url host path p short stays fuel =
    rw (parse_url_loops web url host path p short stays fuel 0) refl
